-- ===== src/Session/State.antt =====
-- The state of app/session/session_manager.py, with the sessions table of core/store that it
-- writes (core/store/repos/session_repo.py) and the capture that it owns. What the registered
-- callbacks are called with is a trace. Level callbacks have no part in the states. A fresh
-- `uuid4()`, what the device does and what a pipeline run came to are arguments of the methods.
use app_stt_aio.Base.{
  Bool, List, Option, String, [], false, if◌then◌else◌, nat_eq, none, some, string_eq, true, ℕ,
  ◌++◌, ◌==◌, ◌∷◌,
}
use app_stt_aio.Base.Dict.{Dict, lookup, insert, remove}
use app_stt_aio.Base.Result.{Result, Exec}
use app_stt_aio.Audio.Batch.{AudioError, Device}
use app_stt_aio.Audio.Capture.{AudioCapture}

-- core/store/models.py
pub data SessionSource : Type 0 where
  batch realtime remote : SessionSource

pub data SessionStatus : Type 0 where
  recording processing done error canceled : SessionStatus

pub record StoredSession : Type 0 where
  pub source : SessionSource
  pub mode_id : Option String
  pub status : SessionStatus

pub record RuntimeSession : Type 0 where
  pub session_id : String
  pub source : SessionSource
  pub mode_id : Option String
  pub capture_handle : Option ℕ

pub record PendingBegin : Type 0 where
  pub source : SessionSource
  pub mode_id : Option String

-- Where the thread of a session stands. `deciding` is behind the last look at the canceled sessions,
-- with the status that it is about to write; `ending` is the `finally` block.
pub data Phase : Type 0 where
  started : Phase
  running : Phase
  deciding : SessionStatus → Phase
  ending : Phase

-- What the registered callbacks see.
pub data Notice : Type 0 where
  state_changed : String → SessionStatus → Notice
  injected : String → Notice

pub record Manager : Type 0 where
  pub sessions : Dict String RuntimeSession
  pub recording_session_id : Option String
  pub processing_session_id : Option String
  pub pending_begins : List PendingBegin
  pub hotkey_session_id : Option String
  pub canceled_sessions : List String
  pub active_workers : ℕ
  pub workers : Dict String Phase
  pub store : Dict String StoredSession
  pub capture : AudioCapture
  pub queue_policy : String
  pub active_mode_id : String
  pub notices : List Notice

-- The classes of app/session/errors.py; a busy manager says whether it queued the request. An audio
-- error passes through, and an unknown policy is a `ValueError`.
pub data SessionError : Type 0 where
  not_found state_error not_implemented busy_ignored busy_queued bad_policy : SessionError
  audio : AudioError → SessionError

abbrev pub Method : Type 0 → Type 0
Method A = Exec SessionError Manager A

-- What the environment gives to a recording that begins: the id, and the device.
pub record Fresh : Type 0 where
  pub id : String
  pub opened : Result AudioError Device
  pub started : Bool

abbrev pub eq_id : String → Option String → Bool
eq_id id none = false
eq_id id (some other) = other == id

abbrev pub is_set : Option String → Bool
is_set none = false
is_set (some id) = true

unfoldable pub has : String → List String → Bool
has id [] = false
has id (c ∷ cs) = let rest = has id cs in if c == id then true else rest

-- `set.discard`
unfoldable pub discard : String → List String → List String
discard id [] = []
discard id (c ∷ cs) = let rest = discard id cs in if c == id then rest else c ∷ rest

abbrev pub with_status :
    SessionStatus
    → Option StoredSession
    → String
    → Dict String StoredSession
    → Dict String StoredSession
with_status status none id store = store
with_status status (some s) id store = insert id (record s { status = status }) store

-- `UPDATE sessions SET status = ? WHERE id = ?`
unfoldable pub update_status :
    String → SessionStatus → Dict String StoredSession → Dict String StoredSession
update_status id status store = with_status status (lookup id store) id store

-- `_set_status`, with `_emit_state`.
unfoldable pub set_status : String → SessionStatus → Manager → Manager
set_status id status m = record m {
  store = update_status id status m.store;
  notices = m.notices ++ state_changed id status ∷ [];
}

unfoldable pub create_session :
    String → SessionSource → Option String → SessionStatus → Manager → Manager
create_session id source mode_id status m = record m {
  store = insert id (record { source = source; mode_id = mode_id; status = status }) m.store;
}

abbrev pub mode_or_active : Option String → Manager → Option String
mode_or_active none m = some m.active_mode_id
mode_or_active (some mode) m = some mode

-- `_sessions[id].capture_handle = None`
abbrev pub clear_handle_of : Option RuntimeSession → String → Manager → Manager
clear_handle_of none id m = m
clear_handle_of (some r) id m = record m {
  sessions = insert id (record r { capture_handle = none }) m.sessions;
}

unfoldable pub pop_session : String → Manager → Manager
pop_session id m = record m { sessions = remove id m.sessions }
