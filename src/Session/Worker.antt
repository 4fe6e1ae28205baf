-- ===== src/Session/Worker.antt =====
-- `_start_processing` of app/session/session_manager.py and the thread that it starts. The thread
-- is a sequence of steps, between which other methods may run: the look at the canceled sessions
-- before the pipeline, the pipeline's outcome with the second look and the inject callbacks, the write
-- of the status, and the `finally` block, which holds the worker lock.
use app_stt_aio.Base.{
  Bool, List, Option, String, [], false, if◌then◌else◌, nat_eq, none, some, string_eq, true, ◌++◌,
  ◌+◌, ◌-◌, ◌||◌, ◌∷◌,
}
use app_stt_aio.Base.Dict.{lookup, insert, remove}
use app_stt_aio.Session.State.{
  SessionStatus, Manager, PendingBegin, Phase, started, running, deciding, ending, Fresh, injected,
  eq_id, is_set, has, discard, set_status, pop_session,
}
use app_stt_aio.Session.Recordings.{begin_batch}

unfoldable pub start_processing : String → Manager → Manager
start_processing id m =
    let m' = set_status id SessionStatus.processing m in
    record m' {
      processing_session_id = some id;
      active_workers = m'.active_workers + 1;
      workers = insert id started m'.workers;
    }

-- What `run_batch_pipeline` came to: a `PipelineCanceledError`, another error, or an artifact with
-- the success of its injection, if it was injected.
pub data Outcome : Type 0 where
  stopped : Outcome
  failed : Outcome
  finished : Option Bool → Outcome

unfoldable pub set_phase : String → Phase → Manager → Manager
set_phase id p m = record m { workers = insert id p m.workers }

-- `if session_id in self._canceled_sessions: return`, before the pipeline.
unfoldable pub look : String → Manager → Manager
look id m = set_phase id (if has id m.canceled_sessions then ending else running) m

abbrev pub status_of_injection : Option Bool → SessionStatus
status_of_injection none = SessionStatus.done
status_of_injection (some true) = SessionStatus.done
status_of_injection (some false) = SessionStatus.error

-- The outcome, and the second look. The inject callbacks come before the status.
unfoldable pub conclude : String → Outcome → Manager → Manager
conclude id stopped m = set_phase id ending m
conclude id failed m =
    set_phase id (if has id m.canceled_sessions then ending else deciding SessionStatus.error) m
conclude id (finished injection) m =
    if has id m.canceled_sessions
    then set_phase id ending m
    else set_phase id (deciding (status_of_injection injection))
        (record m { notices = m.notices ++ injected id ∷ [] })

unfoldable pub write_status : String → SessionStatus → Manager → Manager
write_status id status m = set_phase id ending (set_status id status m)

abbrev pub drain_first : Fresh → List PendingBegin → Manager → Manager
drain_first f [] m = m
drain_first f (p ∷ rest) m = (begin_batch f p.mode_id (record m { pending_begins = rest })).1

-- `_drain_pending_begins`; an error of the recording that it begins is logged.
unfoldable pub drain_pending_begins : Fresh → Manager → Manager
drain_pending_begins f m =
    if is_set m.recording_session_id || is_set m.processing_session_id
    then m
    else drain_first f m.pending_begins m

-- The `finally` block.
unfoldable pub finish : String → Fresh → Manager → Manager
finish id f m = drain_pending_begins f (
    pop_session id (record m {
      active_workers = m.active_workers - 1;
      workers = remove id m.workers;
      canceled_sessions = discard id m.canceled_sessions;
      processing_session_id =
          if eq_id id m.processing_session_id then none else m.processing_session_id;
    }))

-- One step of the thread of a session, from where it stands. `outcome` and `f` are read by the steps
-- that need them.
abbrev pub step_in : Option Phase → String → Outcome → Fresh → Manager → Manager
step_in none id outcome f m = m
step_in (some started) id outcome f m = look id m
step_in (some running) id outcome f m = conclude id outcome m
step_in (some (deciding status)) id outcome f m = write_status id status m
step_in (some ending) id outcome f m = finish id f m

unfoldable pub worker_step : String → Outcome → Fresh → Manager → Manager
worker_step id outcome f m = step_in (lookup id m.workers) id outcome f m
