-- ===== src/Session/Requests.antt =====
-- `begin`, `submit_remote` and `close` of app/session/session_manager.py.
use app_stt_aio.Base.{Option, String, [], none, some, ◌++◌, ◌∷◌}
use app_stt_aio.Base.Result.{Result, ok, err}
use app_stt_aio.Session.Policy.{QueueAction, accept, cancel_current, resolve_begin_action}
use app_stt_aio.Session.State.{
  SessionSource, SessionStatus, Manager, SessionError, Fresh, Method, not_implemented, busy_ignored,
  busy_queued, bad_policy, is_set, create_session, mode_or_active,
}
use app_stt_aio.Session.Recordings.{begin_batch, begin_realtime}
use app_stt_aio.Session.Cancel
use app_stt_aio.Session.Cancel.{cancel_recording_of}
use app_stt_aio.Session.Worker.{start_processing}

abbrev pub after_cancel : Result SessionError (Unit {0}) → Fresh → Option String → Method String
after_cancel (ok u) f mode m = begin_batch f mode m
after_cancel (err e) f mode m = (err e, m)

abbrev pub begin_as : Option QueueAction → Fresh → Option String → Method String
begin_as none f mode m = (err bad_policy, m)
begin_as (some QueueAction.ignore) f mode m = (err busy_ignored, m)
begin_as (some QueueAction.queue) f mode m = (
  err busy_queued,
  record m {
    pending_begins =
        m.pending_begins ++ record { source = SessionSource.batch; mode_id = mode } ∷ [];
  },
)
begin_as (some cancel_current) f mode m =
    let (r, m') = Cancel.cancel_current m in after_cancel r f mode m'
begin_as (some accept) f mode m = begin_batch f mode m

unfoldable pub begin : SessionSource → Fresh → Option String → Method String
begin SessionSource.realtime f mode m = begin_realtime f mode m
begin SessionSource.remote f mode m = (err not_implemented, m)
begin SessionSource.batch f mode m =
    begin_as
      (resolve_begin_action m.queue_policy (is_set m.recording_session_id)
        (is_set m.processing_session_id))
      f mode m

-- The audio goes to the worker.
unfoldable pub submit_remote : String → Option String → Manager → String × Manager
submit_remote id mode m =
    let mode_id = mode_or_active mode m in
    (
      id,
      start_processing id
          (create_session id SessionSource.remote mode_id SessionStatus.processing m),
    )

abbrev pub add_canceled : Option String → Manager → Manager
add_canceled none m = m
add_canceled (some id) m = record m { canceled_sessions = id ∷ m.canceled_sessions }

abbrev pub after_close : Result SessionError (Unit {0}) → Method (Unit {0})
after_close (ok u) m = (ok tt, record m { pending_begins = []; hotkey_session_id = none })
after_close (err e) m = (err e, m)

-- The wait for the workers changes nothing.
unfoldable pub close : Method (Unit {0})
close m =
    let m' = add_canceled m.processing_session_id m in
    let (r, m'') = cancel_recording_of m'.recording_session_id m' in after_close r m''
