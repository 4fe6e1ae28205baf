-- ===== src/Session/StepKeeps.antt =====
-- The invariant of Invariant, kept when a recording stops and by every step of a worker.
use app_stt_aio.Base.{
  Bytes, String, ap, if◌then◌else◌, nat_eq, none, refl, some, string_eq, ◌-◌, ◌≡◌, Bool-cases, List,
  Option, [], arith, inl, inr, subst, sym, true, ℕ, ◌++◌, ◌||◌, ◌∷◌, false, ◌==◌,
}
use app_stt_aio.Base.Dict.{
  lookup, remove, IsUnique-remove, is_some, lookup-remove, lookup-remove-none, length-remove_old,
}
use app_stt_aio.Base.Result.{Result, ok, err}
use app_stt_aio.Audio.Batch.{AudioError, Convert}
use app_stt_aio.Audio.Capture
use app_stt_aio.Audio.Capture.{AudioCapture}
use app_stt_aio.Session.State.{
  PendingBegin, SessionSource, SessionStatus, Manager, RuntimeSession, Phase, started, running,
  deciding, ending, has, injected, Fresh, set_status, pop_session, eq_id, clear_handle_of, is_set,
  discard,
}
use app_stt_aio.Session.Worker.{
  Outcome, stopped, failed, finished, look, conclude, write_status, finish, drain_pending_begins,
  drain_first, worker_step, step_in,
}
use app_stt_aio.Session.Stop.{
  stop, stop_batch, stop_realtime, finish_batch, finish_realtime, stop_runtime, stop_source,
}
use app_stt_aio.Session.Invariant.{
  IsConsistent, set_status-keeps, recording_ne, begin_batch-keeps, start_processing-keeps,
  set_phase-keeps,
}
use app_stt_aio.Session.CancelKeeps.{eq_id→eq, idle-keeps, clear_handle-keeps, pop_idle-keeps}

clear_handle-workers :
    (r : Option RuntimeSession) (id : String) (m : Manager)
    → (clear_handle_of r id m).workers ≡ m.workers
clear_handle-workers none id m = refl
clear_handle-workers (some r) id m = refl

finish_batch-keeps :
    (id : String) (r : Result AudioError Bytes × AudioCapture) (m : Manager)
    → m.recording_session_id ≡ some id
    → IsConsistent m
    → IsConsistent (finish_batch id r m).1
finish_batch-keeps id (err e, c) m rec h = set_status-keeps id SessionStatus.error _ (
    unfold pop_session in
    pop_idle-keeps id (record m { recording_session_id = none; capture = c }) refl (idle-keeps m h))
finish_batch-keeps id (ok pcm, c) m rec h =
    let m' = clear_handle_of (lookup id m.sessions) id (record m { capture = c }) in
    start_processing-keeps id (record m' { recording_session_id = none })
      (subst (λ w. lookup id w ≡ none)
        (sym (clear_handle-workers (lookup id m.sessions) id (record m { capture = c })))
        (h.recording_free id rec))
      (λ e. absurd (cc))
      (idle-keeps m' (clear_handle-keeps (lookup id m.sessions) id (record m { capture = c }) h))

finish_realtime-keeps :
    (id : String) (r : Result AudioError (Unit {0}) × AudioCapture) (m : Manager)
    → IsConsistent m
    → IsConsistent (finish_realtime id r m).1
finish_realtime-keeps id (err e, c) m h = h
finish_realtime-keeps id (ok u, c) m h =
    let m' = clear_handle_of (lookup id m.sessions) id (record m { capture = c }) in
    pop_idle-keeps id _ (unfold set_status in refl) (
      set_status-keeps id SessionStatus.done _
        (idle-keeps m' (clear_handle-keeps (lookup id m.sessions) id (record m { capture = c }) h)))

stop_realtime-keeps :
    (id : String) (r : RuntimeSession) (m : Manager)
    → IsConsistent m
    → IsConsistent (stop_realtime id r m).1
unfolding stop_realtime
stop_realtime-keeps id r m h = elim (Bool-cases (eq_id id m.recording_session_id)) [
  | inl recorded ↦ rw recorded (finish_realtime-keeps id _ m h)
  | inr other ↦ rw other h
]

stop_handle-keeps :
    (convert : Convert) (id : String) (o : Option ℕ) (r : RuntimeSession) (m : Manager)
    → r.capture_handle ≡ o
    → IsConsistent m
    → IsConsistent (stop_batch convert id r m).1
unfolding stop_batch
stop_handle-keeps convert id o r m e h = elim (Bool-cases (eq_id id m.recording_session_id)) [
  | inr other ↦ rw other h
  | inl recorded ↦
      elim o as (λ o. r.capture_handle ≡ o → IsConsistent (stop_batch convert id r m).1) [
        | none ↦ λ e. rw (recorded, e) h
        | some handle ↦ λ e.
            rw (recorded, e)
              (finish_batch-keeps id (Capture.stop_batch convert handle m.capture) m
                (eq_id→eq id m.recording_session_id recorded) h)
      ]
        e
]

stop_source-keeps :
    (convert : Convert) (id : String) (r : RuntimeSession) (s : SessionSource) (m : Manager)
    → IsConsistent m
    → IsConsistent (stop_source convert id r s m).1
stop_source-keeps convert id r SessionSource.realtime m h = stop_realtime-keeps id r m h
stop_source-keeps convert id r SessionSource.batch m h =
    stop_handle-keeps convert id r.capture_handle r m refl h
stop_source-keeps convert id r SessionSource.remote m h = h

stop_runtime-keeps :
    (convert : Convert) (id : String) (r : Option RuntimeSession) (m : Manager)
    → IsConsistent m
    → IsConsistent (stop_runtime convert id r m).1
stop_runtime-keeps convert id none m h = h
stop_runtime-keeps convert id (some r) m h = stop_source-keeps convert id r r.source m h

-- Stopping a session keeps the manager consistent, however the capture answers and whether or not
-- the session is the one that records.
pub stop-keeps :
    (convert : Convert) (id : String) (m : Manager)
    → IsConsistent m
    → IsConsistent (stop convert id m).1
unfolding stop
stop-keeps convert id m h = stop_runtime-keeps convert id (lookup id m.sessions) m h

still_processed :
    (id : String) (o : Option String) (other : String)
    → (if eq_id id o then none else o) ≡ some other
    → (o ≡ some other) × ((id == other) ≡ false)
still_processed id none other e = absurd (cc)
still_processed id (some p) other e = elim (Bool-cases (p == id)) [
  | inl same ↦ absurd (ground (arith, same, e))
  | inr differ ↦ (
    subst (λ b. (if b then none else some p) ≡ some other) differ e,
    ground (arith, differ, e, string_eq.beq_iff id other, string_eq.beq_iff p id),
  )
]

-- What the `finally` block does before it drains.
leave-keeps :
    (id : String) (m : Manager)
    → is_some (lookup id m.workers) ≡ true
    → IsConsistent m
    → IsConsistent (
        pop_session id (record m {
          active_workers = m.active_workers - 1;
          workers = remove id m.workers;
          canceled_sessions = discard id m.canceled_sessions;
          processing_session_id =
              if eq_id id m.processing_session_id then none else m.processing_session_id;
        }))
unfolding pop_session
leave-keeps id m works h = record {
  recording_known =
      λ other e. rw (lookup-remove, recording_ne m other id h e works) (h.recording_known other e);
  recording_free = λ other e. lookup-remove-none id other m.workers (h.recording_free other e);
  processing_works = λ other e.
      let (same, differ) = still_processed id m.processing_session_id other e in
      rw (lookup-remove, differ) (h.processing_works other same);
  counted = omega (arith, h.counted, length-remove_old id m.workers h.unique works);
  unique = IsUnique-remove id m.workers h.unique;
}

drain_first-keeps :
    (f : Fresh) (ps : List PendingBegin) (m : Manager)
    → lookup f.id m.workers ≡ none
    → IsConsistent m
    → IsConsistent (drain_first f ps m)
drain_first-keeps f [] m fresh h = h
drain_first-keeps f (p ∷ ps) m fresh h =
    begin_batch-keeps f p.mode_id (record m { pending_begins = ps }) fresh h

drain_pending_begins-keeps :
    (f : Fresh) (m : Manager)
    → lookup f.id m.workers ≡ none
    → IsConsistent m
    → IsConsistent (drain_pending_begins f m)
unfolding drain_pending_begins
drain_pending_begins-keeps f m fresh h =
    elim (Bool-cases (is_set m.recording_session_id || is_set m.processing_session_id)) [
      | inl busy ↦ rw busy h
      | inr idle ↦ rw idle (drain_first-keeps f m.pending_begins m fresh h)
    ]

finish-keeps :
    (id : String) (f : Fresh) (m : Manager)
    → is_some (lookup id m.workers) ≡ true
    → lookup f.id m.workers ≡ none
    → IsConsistent m
    → IsConsistent (finish id f m)
unfolding finish
finish-keeps id f m works fresh h =
    drain_pending_begins-keeps f _
      (unfold pop_session in lookup-remove-none id f.id m.workers fresh) (leave-keeps id m works h)

conclude-keeps :
    (id : String) (o : Outcome) (m : Manager)
    → is_some (lookup id m.workers) ≡ true
    → IsConsistent m
    → IsConsistent (conclude id o m)
unfolding conclude
conclude-keeps id stopped m works h = set_phase-keeps id _ m works h
conclude-keeps id failed m works h = set_phase-keeps id _ m works h
conclude-keeps id (finished i) m works h = elim (Bool-cases (has id m.canceled_sessions)) [
  | inl canceled ↦ rw canceled (set_phase-keeps id _ m works h)
  | inr live ↦
      rw live (set_phase-keeps id _ (record m { notices = m.notices ++ injected id ∷ [] }) works h)
]

step_in-keeps :
    (p : Option Phase) (id : String) (o : Outcome) (f : Fresh) (m : Manager)
    → lookup id m.workers ≡ p
    → lookup f.id m.workers ≡ none
    → IsConsistent m
    → IsConsistent (step_in p id o f m)
step_in-keeps none id o f m e fresh h = h
step_in-keeps (some started) id o f m e fresh h =
    unfold look in set_phase-keeps id _ m (ap is_some e) h
step_in-keeps (some running) id o f m e fresh h = conclude-keeps id o m (ap is_some e) h
step_in-keeps (some (deciding s)) id o f m e fresh h =
    unfold write_status in
    set_phase-keeps id _ _ (unfold set_status in ap is_some e) (set_status-keeps id s m h)
step_in-keeps (some ending) id o f m e fresh h = finish-keeps id f m (ap is_some e) fresh h

-- A step of the thread of any session keeps the manager consistent, whatever its pipeline comes to,
-- when the id for a queued recording that it begins is not that of a session with a thread.
pub worker_step-keeps :
    (id : String) (o : Outcome) (f : Fresh) (m : Manager)
    → lookup f.id m.workers ≡ none
    → IsConsistent m
    → IsConsistent (worker_step id o f m)
unfolding worker_step
worker_step-keeps id o f m fresh h = step_in-keeps (lookup id m.workers) id o f m refl fresh h
