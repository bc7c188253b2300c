-- ===== src/Sessions.antt =====
-- The conversation store of services/api/app/sessions.py. The OrderedDict is a list of its entries
-- in their order, from the least recently used one on; the clock's times are arguments, in whole
-- seconds. The lock makes each operation one step.
pub mod Steps
pub mod Entries
pub mod Memory
pub mod Bounds
pub mod Refinement
pub mod Windows
use eks_any_model_hosting.Common.{
  ℕ, suc, ◌+◌, ◌-◌, ◌*◌, ltb, Bool, true, false, ◌||◌, ◌&&◌, not, List, [], ◌∷◌, ◌++◌, Option, none,
  some, Text, codes, text_eq, is_nil, length, drop, if◌then◌else◌,
}

pub record Message : Type 0 where
  pub role : Text
  pub content : Text

pub record Session : Type 0 where
  pub messages : List Message
  pub last_seen : ℕ
  pub created : ℕ
  pub turns : ℕ

-- The bounds of a store.
pub record Limits : Type 0 where
  pub max_messages : ℕ
  pub ttl : ℕ
  pub max_sessions : ℕ

abbrev pub larger : ℕ → ℕ → ℕ
larger a b = if ltb a b then b else a

-- What the store's `__init__` makes of its arguments.
unfoldable pub limits_of : ℕ → ℕ → ℕ → Limits
limits_of max_turns ttl_seconds max_sessions = record {
  max_messages = larger 2 (max_turns * 2);
  ttl = larger 1 ttl_seconds;
  max_sessions = larger 1 max_sessions;
}

abbrev pub Sessions : Type 0
Sessions = List (Text × Session)

-- sessions.get(session_id)
unfoldable pub get : Text → Sessions → Option Session
unfolding text_eq
get session_id [] = none
get session_id ((id, s) ∷ sessions) =
    let rest = get session_id sessions in if text_eq id session_id then some s else rest

-- del sessions[session_id]
unfoldable pub removed : Text → Sessions → Sessions
unfolding text_eq
removed session_id [] = []
removed session_id ((id, s) ∷ sessions) =
    let rest = removed session_id sessions in if text_eq id session_id then rest else (id, s) ∷ rest

-- Assigns the session and moves it to the end.
abbrev pub put : Text → Session → Sessions → Sessions
put session_id s sessions = removed session_id sessions ++ (session_id, s) ∷ []

abbrev pub is_client_role : Text → Bool
is_client_role role = text_eq role (codes "user") || text_eq role (codes "assistant")

-- The messages of `sync` that are retained.
unfoldable pub cleaned : List Message → List Message
unfolding text_eq
cleaned [] = []
cleaned (m ∷ transcript) =
    let rest = cleaned transcript in
    if is_client_role m.role && not (is_nil m.content) then m ∷ rest else rest

-- `messages[-limit:]` where there are more of them
unfoldable pub window : List Message → ℕ → List Message
window messages limit =
    let n = length messages in if ltb limit n then drop (n - limit) messages else messages

abbrev pub session_or_new : Option Session → ℕ → Session
session_or_new none now = record { messages = []; last_seen = 0; created = now; turns = 0 }
session_or_new (some s) now = s

pub record Info : Type 0 where
  pub messages : ℕ
  pub turns : ℕ
  pub idle_seconds : ℕ

pub record Stats : Type 0 where
  pub sessions : ℕ
  pub max_sessions : ℕ
  pub window_messages : ℕ
  pub ttl_seconds : ℕ

module _ (limits : Limits) where
  abbrev pub expired : Session → ℕ → Bool
  expired s now = ltb limits.ttl (now - s.last_seen)

  unfoldable pub unexpired : ℕ → Sessions → Sessions
  unexpired now [] = []
  unexpired now ((id, s) ∷ sessions) =
      let rest = unexpired now sessions in if expired s now then rest else (id, s) ∷ rest

  -- The loop of `popitem(last=False)`.
  unfoldable pub evicted : Sessions → Sessions
  evicted [] = []
  evicted (e ∷ sessions) =
      let rest = evicted sessions in
      if ltb limits.max_sessions (suc (length sessions)) then rest else e ∷ sessions

  unfoldable pub sweep : ℕ → Sessions → Sessions
  unfolding unexpired evicted
  sweep now sessions = evicted (unexpired now sessions)

  abbrev pub synced : Session → List Message → ℕ → Session
  synced s windowed now = record s { messages = windowed; last_seen = now; turns = s.turns + 1 }

  -- The sessions, and the messages that it returns.
  unfoldable pub sync : Text → List Message → ℕ → Sessions → Sessions × List Message
  unfolding get removed cleaned window sweep
  sync session_id transcript now sessions =
      let windowed = window (cleaned transcript) limits.max_messages in
      let swept = sweep now sessions in
      let s = synced (session_or_new (get session_id swept) now) windowed now in
      (sweep now (put session_id s swept), windowed)

  abbrev pub replied : Session → Text → ℕ → Session
  replied s content now = record s {
    messages =
        window (s.messages ++ record { role = codes "assistant"; content = content } ∷ [])
          limits.max_messages;
    last_seen = now;
  }

  abbrev pub on_session : Option Session → Text → Text → ℕ → Sessions → Sessions
  on_session none session_id content now sessions = sessions
  on_session (some s) session_id content now sessions =
      put session_id (replied s content now) sessions

  unfoldable pub append_assistant : Text → Text → ℕ → Sessions → Sessions
  unfolding get removed window
  append_assistant session_id [] now sessions = sessions
  append_assistant session_id (c ∷ content) now sessions =
      on_session (get session_id sessions) session_id (c ∷ content) now sessions

  abbrev pub context_of : Option Session → ℕ → List Message
  context_of none now = []
  context_of (some s) now = if expired s now then [] else s.messages

  unfoldable pub context : Text → ℕ → Sessions → List Message
  unfolding get
  context session_id now sessions = context_of (get session_id sessions) now

  abbrev pub info_of : Option Session → ℕ → Option Info
  info_of none now = none
  info_of (some s) now =
      if expired s now
      then none
      else some (record {
        messages = length s.messages;
        turns = s.turns;
        idle_seconds = now - s.last_seen;
      })

  unfoldable pub info : Text → ℕ → Sessions → Option Info
  unfolding get
  info session_id now sessions = info_of (get session_id sessions) now

  unfoldable pub stats : ℕ → Sessions → Sessions × Stats
  unfolding sweep
  stats now sessions =
      let swept = sweep now sessions in
      (
        swept,
        record {
          sessions = length swept;
          max_sessions = limits.max_sessions;
          window_messages = limits.max_messages;
          ttl_seconds = limits.ttl;
        },
      )

abbrev pub popped : Option Session → Text → Sessions → Sessions × Bool
popped none session_id sessions = (sessions, false)
popped (some s) session_id sessions = (removed session_id sessions, true)

-- sessions.pop(session_id, None), and whether there was one.
unfoldable pub forget : Text → Sessions → Sessions × Bool
unfolding get removed
forget session_id sessions = popped (get session_id sessions) session_id sessions
