-- ===== src/Chat.antt =====
-- The chat: the view, and `streamChatCompletion` with the helpers of spa/src/api/chat.ts. `fetch`, JSON.stringify,
-- encodeURIComponent and the random sources are parameters.
pub mod Requests
pub mod Respond
pub mod View
