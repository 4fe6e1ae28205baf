-- ===== src/Session/Reachable.antt =====
-- Everything that the threads of a program may do to one manager, in any order. That each method is one
-- step is an assumption of the model: in the code `begin`, `stop`, `cancel` and `submit_remote` hold
-- no lock, and only the calls of the database and the counter with the `finally` block of a thread
-- are locked. A thread of a session is between two steps wherever Worker says.
use app_stt_aio.Base.{
  String, nat_eq, none, some, string_eq, ◌≡◌, List, Option, [], subst, sym, ◌∷◌, ◌≢◌,
}
use app_stt_aio.Base.Dict.{lookup}
use app_stt_aio.Base.Result.{Result, ok, err}
use app_stt_aio.Audio.Batch.{Convert}
use app_stt_aio.Session.Policy.{QueueAction, accept, cancel_current as drop_current}
use app_stt_aio.Session.State.{
  SessionSource, Manager, SessionError, Fresh, create_session, not_found,
}
use app_stt_aio.Session.Cancel.{cancel, cancel_current, cancel_recording_of}
use app_stt_aio.Session.Worker.{Outcome, worker_step}
use app_stt_aio.Session.Stop.{stop}
use app_stt_aio.Session.Requests.{
  begin, begin_as, after_cancel, submit_remote, close, after_close, add_canceled,
}
use app_stt_aio.Session.Hotkeys.{
  on_record_start, keep_started, hotkey_stop, hotkey_stop_of, release_hotkey, on_cancel,
  hotkey_cancel_of, release_cancel,
}
use app_stt_aio.Session.Invariant.{
  IsConsistent, begin_batch-keeps, begin_realtime-keeps, start_processing-keeps,
}
use app_stt_aio.Session.CancelKeeps.{cancel-keeps, cancel_current-keeps, cancel_recording_of-keeps}
use app_stt_aio.Session.StepKeeps.{stop-keeps, worker_step-keeps}
use app_stt_aio.Session.CancelKept.{cancel_current-workers}

pub data Event : Type 0 where
  beginning : SessionSource → Fresh → Option String → Event
  stopping : String → Event
  canceling : String → Event
  submitting : String → Option String → Event
  closing : Event
  record_start : Fresh → Event
  record_stop : Event
  hotkey_cancel : Event
  worker : String → Outcome → Fresh → Event

unfoldable pub on_event : Convert → Event → Manager → Manager
on_event convert (beginning source f mode) m = (begin source f mode m).1
on_event convert (stopping id) m = (stop convert id m).1
on_event convert (canceling id) m = (cancel id m).1
on_event convert (submitting id mode) m = (submit_remote id mode m).1
on_event convert closing m = (close m).1
on_event convert (record_start f) m = (on_record_start f m).1
on_event convert record_stop m = (hotkey_stop convert m).1
on_event convert hotkey_cancel m = (on_cancel m).1
on_event convert (worker id o f) m = worker_step id o f m

-- An id that `uuid4()` gives out is that of no session that records or has a thread.
abbrev pub IsNew : String → Manager → Type 0
IsNew id m = (lookup id m.workers ≡ none) × (m.recording_session_id ≢ some id)

abbrev pub IsFair : Event → Manager → Type 0
IsFair (beginning source f mode) m = IsNew f.id m
IsFair (submitting id mode) m = IsNew id m
IsFair (record_start f) m = IsNew f.id m
IsFair (worker id o f) m = IsNew f.id m
IsFair _ m = Unit

unfoldable pub on_events : Convert → List Event → Manager → Manager
on_events convert [] m = m
on_events convert (e ∷ es) m = on_events convert es (on_event convert e m)

unfoldable pub AreFair : Convert → List Event → Manager → Type 0
AreFair convert [] m = Unit
AreFair convert (e ∷ es) m = IsFair e m × AreFair convert es (on_event convert e m)

after_cancel-keeps :
    (r : Result SessionError (Unit {0})) (f : Fresh) (mode : Option String) (m : Manager)
    → lookup f.id m.workers ≡ none
    → IsConsistent m
    → IsConsistent (after_cancel r f mode m).1
after_cancel-keeps (ok u) f mode m fresh h = begin_batch-keeps f mode m fresh h
after_cancel-keeps (err e) f mode m fresh h = h

begin_as-keeps :
    (a : Option QueueAction) (f : Fresh) (mode : Option String) (m : Manager)
    → lookup f.id m.workers ≡ none
    → IsConsistent m
    → IsConsistent (begin_as a f mode m).1
begin_as-keeps none f mode m fresh h = h
begin_as-keeps (some QueueAction.ignore) f mode m fresh h = h
begin_as-keeps (some QueueAction.queue) f mode m fresh h = h
begin_as-keeps (some accept) f mode m fresh h = begin_batch-keeps f mode m fresh h
begin_as-keeps (some drop_current) f mode m fresh h =
    after_cancel-keeps (cancel_current m).0 f mode (cancel_current m).1
      (subst (λ w. lookup f.id w ≡ none) (sym (cancel_current-workers m)) fresh)
      (cancel_current-keeps m h)

begin-keeps :
    (source : SessionSource) (f : Fresh) (mode : Option String) (m : Manager)
    → lookup f.id m.workers ≡ none
    → IsConsistent m
    → IsConsistent (begin source f mode m).1
unfolding begin
begin-keeps SessionSource.realtime f mode m fresh h = begin_realtime-keeps f mode m fresh h
begin-keeps SessionSource.remote f mode m fresh h = h
begin-keeps SessionSource.batch f mode m fresh h = begin_as-keeps _ f mode m fresh h

submit_remote-keeps :
    (id : String) (mode : Option String) (m : Manager)
    → IsNew id m
    → IsConsistent m
    → IsConsistent (submit_remote id mode m).1
unfolding submit_remote create_session
submit_remote-keeps id mode m new h = start_processing-keeps id _ new.0 new.1 h

after_close-keeps :
    (r : Result SessionError (Unit {0})) (m : Manager)
    → IsConsistent m
    → IsConsistent (after_close r m).1
after_close-keeps (ok u) m h = h
after_close-keeps (err e) m h = h

add_canceled-keeps :
    (o : Option String) (m : Manager) → IsConsistent m → IsConsistent (add_canceled o m)
add_canceled-keeps none m h = h
add_canceled-keeps (some id) m h = h

close-keeps : (m : Manager) → IsConsistent m → IsConsistent (close m).1
unfolding close
close-keeps m h =
    let m' = add_canceled m.processing_session_id m in
    after_close-keeps (cancel_recording_of m'.recording_session_id m').0 _ (
      cancel_recording_of-keeps m'.recording_session_id m'
        (add_canceled-keeps m.processing_session_id m h))

keep_started-keeps :
    (r : Result SessionError String) (m : Manager)
    → IsConsistent m
    → IsConsistent (keep_started r m).1
keep_started-keeps (ok id) m h = h
keep_started-keeps (err e) m h = elim e as (λ e. IsConsistent (keep_started (err e) m).1) [
  | not_found ↦ h
  | _ ↦ h
]

release_hotkey-keeps :
    (r : Result SessionError (Unit {0})) (m : Manager)
    → IsConsistent m
    → IsConsistent (release_hotkey r m).1
release_hotkey-keeps (ok u) m h = h
release_hotkey-keeps (err e) m h = elim e as (λ e. IsConsistent (release_hotkey (err e) m).1) [
  | not_found ↦ h
  | _ ↦ h
]

release_cancel-keeps :
    (r : Result SessionError (Unit {0})) (m : Manager)
    → IsConsistent m
    → IsConsistent (release_cancel r m).1
release_cancel-keeps (ok u) m h = h
release_cancel-keeps (err e) m h = elim e as (λ e. IsConsistent (release_cancel (err e) m).1) [
  | not_found ↦ h
  | _ ↦ h
]

hotkey_stop-keeps :
    (convert : Convert) (o : Option String) (m : Manager)
    → IsConsistent m
    → IsConsistent (hotkey_stop_of convert o m).1
hotkey_stop-keeps convert none m h = h
hotkey_stop-keeps convert (some id) m h =
    release_hotkey-keeps (stop convert id m).0 _ (stop-keeps convert id m h)

hotkey_cancel-keeps :
    (o : Option String) (m : Manager) → IsConsistent m → IsConsistent (hotkey_cancel_of o m).1
hotkey_cancel-keeps none m h = h
hotkey_cancel-keeps (some id) m h = release_cancel-keeps (cancel id m).0 _ (cancel-keeps id m h)

on_event-keeps :
    (convert : Convert) (e : Event) (m : Manager)
    → IsFair e m
    → IsConsistent m
    → IsConsistent (on_event convert e m)
unfolding on_event on_record_start hotkey_stop on_cancel
on_event-keeps convert (beginning source f mode) m fair h = begin-keeps source f mode m fair.0 h
on_event-keeps convert (stopping id) m fair h = stop-keeps convert id m h
on_event-keeps convert (canceling id) m fair h = cancel-keeps id m h
on_event-keeps convert (submitting id mode) m fair h = submit_remote-keeps id mode m fair h
on_event-keeps convert closing m fair h = close-keeps m h
on_event-keeps convert (record_start f) m fair h =
    keep_started-keeps (begin SessionSource.batch f none m).0 _
      (begin-keeps SessionSource.batch f none m fair.0 h)
on_event-keeps convert record_stop m fair h = hotkey_stop-keeps convert m.hotkey_session_id m h
on_event-keeps convert hotkey_cancel m fair h = hotkey_cancel-keeps _ m h
on_event-keeps convert (worker id o f) m fair h = worker_step-keeps id o f m fair.0 h

-- After any sequence of requests, hotkey events and steps of the threads of the sessions, in which
-- every fresh id is that of no session that records or has a thread, a consistent manager is
-- consistent: the session that records is known and has no thread, the session that is processed has
-- one, and the count of active workers is the number of threads.
pub on_events-keeps :
    (convert : Convert) (es : List Event) (m : Manager)
    → AreFair convert es m
    → IsConsistent m
    → IsConsistent (on_events convert es m)
unfolding on_events AreFair
on_events-keeps convert [] m fair h = h
on_events-keeps convert (e ∷ es) m fair h =
    on_events-keeps convert es (on_event convert e m) fair.1 (on_event-keeps convert e m fair.0 h)
