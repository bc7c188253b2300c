-- ===== src/Service/Turn/Recall.antt =====
-- The context that the store has of a session behind a streamed answer.
use eks_any_model_hosting.Common.{
  ℕ, ◌+◌, ◌-◌, ◌≤◌, ltb, ◌≡◌, refl, ap, sym, ◌∙◌, false, Bool-cases, inl, inr, List, [], ◌∷◌, ◌++◌,
  map, Text, codes, is_nil, text_eq, arith,
}
use eks_any_model_hosting.Chat.Requests.{ChatMessage, is_sendable, sendable}
use eks_any_model_hosting.Chat.View.{DisplayMessage, user_message, assistant_message, history_of}
use eks_any_model_hosting.Sessions.{
  Message, Limits, Sessions, get, removed, cleaned, window, sync, synced, replied, append_assistant,
  context, sweep, session_or_new,
}
use eks_any_model_hosting.Sessions.Entries.{IsClean, get-last, removed-others}
use eks_any_model_hosting.Sessions.Refinement.{get-sync}
use eks_any_model_hosting.Sessions.Windows.{cleaned-append, window-window}
use eks_any_model_hosting.Service.Turn.{to_message, joined, parts_of, remembered, stream_turn}

remembered-append :
    (limits : Limits) (k : Text) (parts : List Text) (ended : ℕ) (ss : Sessions)
    → is_nil (joined parts) ≡ false
    → remembered limits k parts ended ss ≡ append_assistant limits k (joined parts) ended ss
unfolding joined
remembered-append limits k [] ended ss h = ground (arith, h)
remembered-append limits k (part ∷ parts) ended ss h = refl

history_of-append :
    (ms ns : List DisplayMessage) → history_of (ms ++ ns) ≡ history_of ms ++ history_of ns
unfolding history_of
history_of-append [] ns = refl
history_of-append (m ∷ ms) ns =
    ap (◌∷◌ (record { role = m.role; content = m.content })) (history_of-append ms ns)

to_messages-append :
    (ms ns : List ChatMessage) → map to_message (ms ++ ns) ≡ map to_message ms ++ map to_message ns
to_messages-append [] ns = refl
to_messages-append (m ∷ ms) ns = ap (◌∷◌ (to_message m)) (to_messages-append ms ns)

-- Of a message that is not sent, the store would keep nothing either.
cleaned-sendable :
    (ms : List ChatMessage) → cleaned (map to_message (sendable ms)) ≡ cleaned (map to_message ms)
unfolding cleaned sendable is_sendable
cleaned-sendable [] = refl
cleaned-sendable (m ∷ ms) = elim (Bool-cases (is_sendable m)) [
  | inl e ↦ simp (e, cleaned-sendable ms)
  | inr e ↦ simp (e, cleaned-sendable ms)
]

-- The context behind a turn whose answer is not empty.
context-turn :
    (limits : Limits) (k : Text) (messages : List ChatMessage) (answer : Text) (now ended later : ℕ)
    (ss : Sessions)
    → 1 ≤ limits.max_sessions
    → is_nil answer ≡ false
    → later ≤ ended + limits.ttl
    → context limits k later
        (append_assistant limits k answer ended (sync limits k (map to_message messages) now ss).0)
      ≡ window
          (cleaned
            (map to_message messages ++ record { role = codes "assistant"; content = answer } ∷ []))
          limits.max_messages
unfolding context append_assistant text_eq
context-turn limits k messages [] now ended later ss one full soon = ground (arith, full)
context-turn limits k messages (c ∷ answer) now ended later ss one full soon =
    let transcript = map to_message messages in
    let m : Message = record { role = codes "assistant"; content = c ∷ answer } in
    let s =
      synced limits (session_or_new (get k (sweep limits now ss)) now)
        (window (cleaned transcript) limits.max_messages) now in
    let stays : ltb limits.ttl (later - ended) ≡ false = ground (arith, soon) in
    let synced_store = (sync limits k transcript now ss).0 in
    let there =
      get-last k (removed k synced_store) (replied limits s (c ∷ answer) ended)
        (removed-others k synced_store) in
    rw (get-sync limits k transcript now ss one, there, stays)
      (window-window (cleaned transcript) m limits.max_messages
        ∙ rw (cleaned-append transcript m (record { role = refl; full = refl })) refl)

-- The end of the transcript that the client sends, and the answer behind it.
window-turn :
    (sent : List ChatMessage) (answer : Text) (n : ℕ)
    → is_nil answer ≡ false
    → let m : Message = record { role = codes "assistant"; content = answer } in
      window (cleaned (map to_message (sendable sent) ++ m ∷ [])) n
      ≡ window (cleaned (map to_message sent ++ m ∷ [])) n
unfolding text_eq
window-turn sent answer n full =
    let m : Message = record { role = codes "assistant"; content = answer } in
    let clean : IsClean m = record { role = refl; full = full } in
    ap (λ ms. window ms n)
      (cleaned-append (map to_message (sendable sent)) m clean
        ∙ ap (λ ms. ms ++ m ∷ []) (cleaned-sendable sent)
        ∙ sym (cleaned-append (map to_message sent) m clean))

messages-turn :
    (before : List DisplayMessage) (id answer : Text)
    → map to_message (history_of before)
        ++ record { role = codes "assistant"; content = answer } ∷ []
      ≡ map to_message (history_of (before ++ assistant_message id answer false ∷ []))
unfolding history_of
messages-turn before id answer = sym (
    ap (map to_message) (history_of-append before (assistant_message id answer false ∷ []))
    ∙ to_messages-append (history_of before) (history_of (assistant_message id answer false ∷ [])))

-- The context behind the turn is the window of the transcript with both new messages.
pub stream_turn-context :
    (limits : Limits) (k user_id assistant_id text : Text)
    (captured before after : List DisplayMessage) (contents : List Text) (now ended later : ℕ)
    (store : Sessions)
    → 1 ≤ limits.max_sessions
    → is_nil k ≡ false
    → captured ≡ before
    → is_nil (joined (parts_of contents)) ≡ false
    → later ≤ ended + limits.ttl
    → after
      ≡ (before ++ user_message user_id text ∷ [])
        ++ assistant_message assistant_id (joined (parts_of contents)) false ∷ []
    → context limits k later (
        stream_turn limits k
          (sendable (history_of (captured ++ user_message user_id text ∷ [])))
          contents
          now
          ended
          store)
      ≡ window (cleaned (map to_message (history_of after))) limits.max_messages
unfolding stream_turn
stream_turn-context limits [] user_id assistant_id text captured before after contents now ended
      later store one named same full soon shown =
    ground (arith, named)
stream_turn-context limits (c ∷ k) user_id assistant_id text captured before after contents now
      ended later store one named same full soon shown =
    let answer = joined (parts_of contents) in
    let sent = history_of (captured ++ user_message user_id text ∷ []) in
    let m : Message = record { role = codes "assistant"; content = answer } in
    ap (λ ss. context limits (c ∷ k) later ss)
      (remembered-append limits (c ∷ k) (parts_of contents) ended
        (sync limits (c ∷ k) (map to_message (sendable sent)) now store).0 full)
    ∙ context-turn limits (c ∷ k) (sendable sent) answer now ended later store one full soon
    ∙ window-turn sent answer limits.max_messages full
    ∙ ap (λ ms. window (cleaned ms) limits.max_messages)
        (ap (λ t. map to_message (history_of (t ++ user_message user_id text ∷ [])) ++ m ∷ []) same
          ∙ messages-turn (before ++ user_message user_id text ∷ []) assistant_id answer
          ∙ ap (λ ms. map to_message (history_of ms)) (sym shown))
