-- ===== src/Session/Tests.antt =====
-- A manager with one session at a time.
use app_stt_aio.Base.{String, [], false, nat_eq, none, refl, some, string_eq, ◌∷◌, ◌≡◌, List}
use app_stt_aio.Base.Dict.{lookup, insert}
use app_stt_aio.Session.Policy.{resolve_begin_action, parse_policy}
use app_stt_aio.Base.Result.{ok, err}
use app_stt_aio.Audio.Batch.{device_access, Convert}
use app_stt_aio.Audio.Capture.States.{new_capture}
use app_stt_aio.Session.State.{
  SessionSource, SessionStatus, StoredSession, RuntimeSession, Phase, running, deciding, ending,
  Manager, has, Fresh, create_session, set_status, state_error,
}
use app_stt_aio.Session.Worker.{
  start_processing, look, conclude, write_status, finished, failed, set_phase, worker_step, finish,
}
use app_stt_aio.Session.Cancel.{cancel, cancel_recording}
use app_stt_aio.Session.Requests.{begin, submit_remote}
use app_stt_aio.Session.Invariant.{IsConsistent}
use app_stt_aio.Session.Reachable.{
  Event, beginning, submitting, worker, canceling, on_event, on_events, AreFair, on_events-keeps,
}
use app_stt_aio.Session.Races.{IsProcessed, cancel-before_look, cancel-after_look}
use app_stt_aio.Session.Queue.{
  ask_all, request, WasServed, ask_all-queues, finish-serves, cancel-overtaken,
  submit_remote-cancel,
}

abbrev no_device : String → Fresh
no_device id = record { id = id; opened = err device_access; started = false }

abbrev idle_manager : Manager
idle_manager = record {
  sessions = [];
  recording_session_id = none;
  processing_session_id = none;
  pending_begins = [];
  hotkey_session_id = none;
  canceled_sessions = [];
  active_workers = 0;
  workers = [];
  store = [];
  capture = new_capture;
  queue_policy = "queue";
  active_mode_id = "default";
  notices = [];
}

abbrev spoken_session : RuntimeSession
spoken_session = record {
  session_id = "s";
  source = SessionSource.batch;
  mode_id = some "default";
  capture_handle = none;
}

abbrev stored_session : StoredSession
stored_session = record {
  source = SessionSource.batch;
  mode_id = some "default";
  status = SessionStatus.processing;
}

abbrev busy_manager : Phase → Manager
busy_manager p = record idle_manager {
  sessions = ("s", spoken_session) ∷ [];
  processing_session_id = some "s";
  pending_begins = request (some "notes") ∷ request none ∷ [];
  active_workers = 1;
  workers = ("s", p) ∷ [];
  store = ("s", stored_session) ∷ [];
}

idle_manager-IsConsistent : IsConsistent idle_manager
idle_manager-IsConsistent = record {
  recording_known = λ id e. absurd (cc);
  recording_free = λ id e. absurd (cc);
  processing_works = λ id e. absurd (cc);
  counted = refl;
  unique = tt;
}

abbrev keep : Convert
keep pcm rate channels = some pcm

-- A session from remote runs to its end while a request waits for it, which is served then. A cancel of
-- the session comes too late.
abbrev remote_events : List Event
remote_events =
    submitting "r" none
    ∷ beginning SessionSource.batch (no_device "a") none
    ∷ worker "r" (finished none) (no_device "b")
    ∷ worker "r" (finished none) (no_device "b")
    ∷ worker "r" (finished none) (no_device "b")
    ∷ worker "r" (finished none) (no_device "b")
    ∷ canceling "r"
    ∷ []

remote_events-AreFair : AreFair keep remote_events idle_manager
unfolding AreFair lookup insert on_event submit_remote start_processing create_session set_status
    begin resolve_begin_action parse_policy worker_step look conclude write_status set_phase has
remote_events-AreFair = (
  (refl, λ e. absurd (cc)),
  (
    (refl, λ e. absurd (cc)),
    (
      (refl, λ e. absurd (cc)),
      ((refl, λ e. absurd (cc)), ((refl, λ e. absurd (cc)), ((refl, λ e. absurd (cc)), (tt, tt)))),
    ),
  ),
)

on_events-keeps_example : IsConsistent (on_events keep remote_events idle_manager)
on_events-keeps_example =
    on_events-keeps keep remote_events idle_manager remote_events-AreFair idle_manager-IsConsistent

busy_manager-IsProcessed : (p : Phase) → IsProcessed "s" p (busy_manager p)
unfolding lookup
busy_manager-IsProcessed p = record {
  runtime = spoken_session;
  known = refl;
  recorded = refl;
  processed = refl;
  works = refl;
}

cancel-before_look_example :
    worker_step "s" (finished none) (no_device "b") (cancel "s" (busy_manager running)).1
    ≡ set_phase "s" ending (cancel "s" (busy_manager running)).1
cancel-before_look_example =
    cancel-before_look "s" running (finished none) (no_device "b") (busy_manager running) tt
      (busy_manager-IsProcessed running)

cancel-after_look_example :
    let m = busy_manager (deciding SessionStatus.done) in
    ((cancel "s" m).0 ≡ ok tt)
    × (lookup "s" (cancel "s" m).1.store
        ≡ some (record stored_session { status = SessionStatus.canceled }))
    × (lookup "s" (worker_step "s" failed (no_device "b") (cancel "s" m).1).store
        ≡ some (record stored_session { status = SessionStatus.done }))
unfolding lookup
cancel-after_look_example =
    cancel-after_look "s" SessionStatus.done stored_session failed (no_device "b")
      (busy_manager (deciding SessionStatus.done))
      (busy_manager-IsProcessed (deciding SessionStatus.done)) refl

ask_all-queues_example :
    ask_all (no_device "b") (none ∷ some "mail" ∷ []) (busy_manager running)
    ≡ record (busy_manager running) {
      pending_begins =
          request (some "notes") ∷ request none ∷ request none ∷ request (some "mail") ∷ [];
    }
ask_all-queues_example =
    ask_all-queues (no_device "b") (none ∷ some "mail" ∷ []) (busy_manager running) refl refl

finish-serves_example :
    ((finish "s" (no_device "b") (busy_manager ending)).pending_begins ≡ request none ∷ [])
    × WasServed "b" (some "notes") (finish "s" (no_device "b") (busy_manager ending))
finish-serves_example =
    finish-serves "s" (no_device "b") (request (some "notes")) (request none ∷ [])
      (busy_manager ending) refl refl refl

abbrev recording_manager : Manager
recording_manager = record idle_manager {
  sessions = ("s", spoken_session) ∷ [];
  recording_session_id = some "s";
  pending_begins = request none ∷ [];
  store = ("s", record stored_session { status = SessionStatus.recording }) ∷ [];
}

cancel-overtaken_example :
    let m = recording_manager in
    ((begin SessionSource.batch (no_device "b") none (cancel "s" m).1).1.pending_begins
      ≡ request none ∷ [])
    × WasServed "b"
        (some "default")
        (begin SessionSource.batch (no_device "b") none (cancel "s" m).1).1
unfolding lookup cancel cancel_recording
cancel-overtaken_example =
    cancel-overtaken "s" spoken_session (no_device "b") none recording_manager refl refl refl refl

submit_remote-cancel_example :
    cancel "r" (submit_remote "r" none idle_manager).1
    ≡ (err state_error, (submit_remote "r" none idle_manager).1)
unfolding lookup
submit_remote-cancel_example = submit_remote-cancel "r" none idle_manager refl
