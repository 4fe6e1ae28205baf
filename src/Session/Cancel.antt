-- ===== src/Session/Cancel.antt =====
-- `cancel` and what it rests on, of app/session/session_manager.py.
use app_stt_aio.Base.{Option, String, if◌then◌else◌, nat_eq, none, some, string_eq, ℕ, ◌∷◌}
use app_stt_aio.Base.Dict.{lookup}
use app_stt_aio.Base.Result.{Result, ok, err}
use app_stt_aio.Audio.Batch.{AudioError}
use app_stt_aio.Audio.Capture
use app_stt_aio.Audio.Capture.{AudioCapture}
use app_stt_aio.Session.State.{
  SessionSource, SessionStatus, Manager, RuntimeSession, StoredSession, SessionError, Method, audio,
  not_found, state_error, eq_id, clear_handle_of, pop_session, set_status,
}

-- How the capture lets go of the handle of a session.
unfoldable pub release :
    SessionSource → ℕ → AudioCapture → Result AudioError (Unit {0}) × AudioCapture
release SessionSource.realtime handle c = Capture.stop_stream handle c
release _ handle c = Capture.cancel handle c

unfoldable pub leave_recording : String → Manager → Manager
leave_recording id m =
    pop_session id (set_status id SessionStatus.canceled (record m { recording_session_id = none }))

abbrev pub after_release : String → Result AudioError (Unit {0}) × AudioCapture → Method (Unit {0})
after_release id (ok u, c) m =
    let m' = record m { capture = c } in
    (ok tt, leave_recording id (clear_handle_of (lookup id m'.sessions) id m'))
after_release id (err e, c) m = (err (audio e), record m { capture = c })

unfoldable pub cancel_recording : String → RuntimeSession → Method (Unit {0})
cancel_recording id r m = elim r.capture_handle [
  | none ↦ (ok tt, leave_recording id m)
  | some handle ↦ after_release id (release r.source handle m.capture) m
]

unfoldable pub cancel_processing : String → Manager → Manager
cancel_processing id m = pop_session id (
    set_status id SessionStatus.canceled
      (record m { canceled_sessions = id ∷ m.canceled_sessions; processing_session_id = none }))

-- A session that the manager does not run any more.
abbrev pub cancel_stored : Option StoredSession → Method (Unit {0})
cancel_stored none m = (err not_found, m)
cancel_stored (some s) m = elim s.status [
  | SessionStatus.canceled ↦ (ok tt, m)
  | _ ↦ (err state_error, m)
]

abbrev pub cancel_runtime : String → Option RuntimeSession → Method (Unit {0})
cancel_runtime id none m = cancel_stored (lookup id m.store) m
cancel_runtime id (some r) m =
    if eq_id id m.recording_session_id
    then cancel_recording id r m
    else if eq_id id m.processing_session_id
    then (ok tt, cancel_processing id m)
    else (err state_error, m)

unfoldable pub cancel : String → Method (Unit {0})
cancel id m = cancel_runtime id (lookup id m.sessions) m

-- `_cancel_processing_unlocked`
abbrev pub cancel_processing_of : Option String → Manager → Manager
cancel_processing_of none m = m
cancel_processing_of (some id) m = cancel_processing id m

-- `except (SessionNotFoundError, SessionStateError)`: anything else goes through.
abbrev pub forgive : Result SessionError (Unit {0}) → Result SessionError (Unit {0})
forgive (err not_found) = ok tt
forgive (err state_error) = ok tt
forgive r = r

abbrev pub then_processing : Result SessionError (Unit {0}) → Method (Unit {0})
then_processing (ok u) m = (ok tt, cancel_processing_of m.processing_session_id m)
then_processing (err e) m = (err e, m)

abbrev pub cancel_recording_of : Option String → Method (Unit {0})
cancel_recording_of none m = (ok tt, m)
cancel_recording_of (some id) m = let (r, m') = cancel id m in (forgive r, m')

-- `_cancel_current_unlocked`
unfoldable pub cancel_current : Method (Unit {0})
cancel_current m =
    let (r, m') = cancel_recording_of m.recording_session_id m in then_processing r m'
