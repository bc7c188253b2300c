-- ===== src/Lib.antt =====
-- The browser client of EKS Any Model Hosting, a chat front end for a language model that is
-- served from EKS, with the configurations of the client and of the pilot, and the
-- infrastructure that is deployed. The parts, and the files that model them:
--
-- spa/src/api/chat.ts
--   Sse        the callback calls, the kinds of errors and the ways a read ends
--   Sse.Boundary  indexOfFrameBoundary and the removal of a boundary
--   Sse.Frame  handleFrame, dispatchToken, dispatchUsage, extractTokenText,
--              extractErrorMessage
--   Sse.Reader parseSseStream: `drain_from` is the inner loop, `on_round` one round of the outer
--              loop, `flush` the code behind it
--   Chat.Requests  the payload and the fetch options of streamChatCompletion, forgetSession,
--              newSessionId
--   Chat.Respond   streamChatCompletion from the fetch on, toHttpError, isAbort
-- spa/src/components/ChatView.tsx
--   Chat.View       the component's state, submit, stop, newChat and the callbacks; what stands
--                   behind an `await` is a function of its own
--   Chat.View.Steps  these as actions in any order, with the submissions that wait
--   Chat.View.Interleaved  the callbacks of several streams
-- spa/src/components/ChatView.tsx, MessageBubble.tsx, LoginScreen.tsx and spa/src/App.tsx
--   Screen          what is shown of the states, and what the keys and buttons call
--   Screen.Page     the page, which mounts the chat view while the hook says that somebody is
--                   signed in, and answers its submissions with the hook's tokens
-- services/api/app/sessions.py
--   Sessions        the conversation store; Sessions.Steps its operations in any order, and the
--                   memory of a session that it stands for
-- services/api/app/models.py, config.py, auth.py and middleware.py
--   Service         the validation of a chat request's messages; Service.Unicode counts code points
--   Service.Settings  the settings that the environment gives
--   Service.Auth    require_auth, with the claims of a token
--   Service.Limiter, Service.Body  the limiter with the answers that hold its slots, and the cap on
--                   bodies
-- services/api/app/main.py and services/api/app/inference.py
--   Service.Turn    one streamed answer, with what the store keeps of it
--   Service.Inference  stream_chat, from the model server's lines to the frames: Service.Inference.Chunks
--                   reads a line, `read_lines` is the loop, `on_raised` and `on_end` its ends
--   Service.Completion  complete_chat
-- services/api/app/inference.py
--   Sse.Server the frames that the service yields, the other end of the stream
-- spa/src/auth/pkce.ts
--   Auth.Pkce  the encoding of the random material and its challenge
-- spa/src/auth/cognito.ts
--   Auth.Tokens    the stored tokens, refreshTokens, getValidAccessToken, logoutRedirect
--   Auth.Callback  loginRedirect and handleRedirectCallback
--   Auth.Claims    decodeJwt
-- spa/src/auth/useAuth.ts
--   Auth.Hook      the hook's state and actions; the effect's run of the callback has a start and
--                  an end, and React's scheduling of renders is not modelled
-- spa/src/config.ts
--   Config.Spa     readEnv, stripTrailingSlash, loadConfig
-- lib/config/environment-config.ts and lib/config/validation.ts
--   Config.Pilot   the CDK context's values and the pilot's configuration
--   Config.Pilot.Coercion    numberOr, boolOr, stringArrayOr
--   Config.Pilot.Validation  validatePilotConfig, with its regular expressions as tests
--   Config.Pilot.Load        loadPilotConfig, resourceName, commonTags
-- lib/stacks/amplify-stack.ts
--   Config.Amplify  the properties of the hosted application, with its environment variables
-- lib/constants.ts, lib/constructs/vllm-workload.ts and lib/constructs/fastapi-workload.ts
--   Cluster.Names, Cluster.Workload, Cluster.Vllm, Cluster.Fastapi  the manifests of the two
--                   workloads, as values
-- lib/constructs/gpu-node-group.ts, lib/constructs/eks-addons.ts and lib/stacks/eks-stack.ts
--   Cluster.GpuNodes, Cluster.Nodes, Cluster.Addons  the node groups, the namespaces, the access
--                   entries, the add-ons and the device plugin
-- lib/stacks/workload-stack.ts
--   Cluster.Policies  the network policies; Cluster.Policies.Traffic is what Kubernetes documents
--                   of them
--   Cluster.Api, Cluster.Edge  the load balancer and the public API, with originOf; Cluster.Edge.Served and
--                   Cluster.Edge.Hops follow a request, Cluster.Placement the pods
-- lib/application-stage.ts, lib/constructs/cognito-auth.ts, lib/stacks/auth-stack.ts,
-- lib/stacks/network-stack.ts, lib/stacks/container-stack.ts and lib/constructs/observability.ts
--   Hosting.Application  the stacks with what they hand to each other
--   Hosting.Cognito, Hosting.Network, Hosting.Monitoring  what these stacks create, as values
--   Hosting.Outputs  the outputs of all stacks
-- scripts/deploy-spa.sh and scripts/deploy.sh
--   Hosting.Publish  how the stacks' outputs are read and what the application is built with;
--                   Hosting.Publish.Deployment is the second phase of a deployment
--
-- A chat request takes an access token from Auth.Tokens, is sent by Chat.Respond, and its body
-- is read by Sse.Reader, which calls the callbacks. The callbacks are modelled as the list of
-- the calls, in order, and are taken to return normally. A text is the list of its UTF-16
-- code units; where Python counts a text's characters, its code points are counted.
-- sessionStorage is a record with an optional entry for each key, and each function that writes
-- it returns it.
--
-- Parameters, code that the browser provides: TextDecoder (a step function on a state of its
-- own), JSON.parse and JSON.stringify, fetch (its reply is an argument), encodeURIComponent,
-- btoa, atob, decodeURIComponent, crypto.subtle.digest and crypto.getRandomValues, Date.now, new URL,
-- toLowerCase and toUpperCase. Of the numbers in the pilot's configuration, the comparisons, Number,
-- isFinite and String. Of the Python service, json.loads, the test of a number for zero, int() and
-- what PyJWT makes of a token; httpx gives the model server's lines as a list. The ids and URLs that
-- AWS assigns are arguments, as are the logical ids of CloudFormation.
--
-- Fuel: the inner loop of parseSseStream runs on the length of the buffer, which is enough as
-- each turn removes a boundary. The outer loop is recursion on the chunks that the reader
-- gives, a finite list that ends in the end of the stream or an exception. Of the conversation
-- store, the loops are recursions on its entries.
--
-- Not modelled: the AbortSignal's moment of abort inside a read (a list of rounds carries the
-- test's result), the drawing and the scrolling of the views, what closures of an unmounted view
-- still do, and what the CDK, AWS and Kubernetes make of the properties and manifests, with the
-- order in which the CDK creates its resources. Of the Python service, the metrics and the access
-- log, the health and model routes, the readiness probe, the security headers, the CORS middleware,
-- the cache of the keys that sign tokens, and a response whose generator is never started. Of the scripts, the builds, the
-- uploads and the container images.
pub mod Common
pub mod Json
pub mod Sse
pub mod Chat
pub mod Auth
pub mod Config
pub mod Cluster
pub mod Hosting
pub mod Screen
pub mod Sessions
pub mod Service
pub mod Tests
