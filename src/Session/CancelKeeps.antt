-- ===== src/Session/CancelKeeps.antt =====
-- The invariant of Invariant, kept when a session is canceled.
use app_stt_aio.Base.{
  Bool-cases, Option, String, ap, arith, inl, inr, nat_eq, none, refl, some, string_eq, true, ℕ,
  ◌≡◌,
}
use app_stt_aio.Base.Dict.{lookup, is_some, lookup-insert, lookup-remove}
use app_stt_aio.Base.Result.{Result, ok, err}
use app_stt_aio.Audio.Batch.{AudioError}
use app_stt_aio.Audio.Capture.{AudioCapture}
use app_stt_aio.Session.State.{
  SessionStatus, Manager, RuntimeSession, StoredSession, SessionError, set_status, pop_session,
  eq_id, clear_handle_of,
}
use app_stt_aio.Session.Cancel.{
  leave_recording, after_release, cancel_recording, cancel_processing, cancel_runtime, cancel,
  release, cancel_stored, cancel_current, cancel_recording_of, cancel_processing_of,
  then_processing,
}
use app_stt_aio.Session.Invariant.{IsConsistent, set_status-keeps, recording_ne}

-- Without a recording, any session may go.
pub pop_idle-keeps :
    (id : String) (m : Manager)
    → m.recording_session_id ≡ none
    → IsConsistent m
    → IsConsistent (pop_session id m)
unfolding pop_session
pop_idle-keeps id m idle h = record {
  recording_known = λ other e. absurd (cc (idle, e));
  recording_free = h.recording_free;
  processing_works = h.processing_works;
  counted = h.counted;
  unique = h.unique;
}

-- A session that has a worker may go.
pub pop_worker-keeps :
    (id : String) (m : Manager)
    → is_some (lookup id m.workers) ≡ true
    → IsConsistent m
    → IsConsistent (pop_session id m)
unfolding pop_session
pop_worker-keeps id m works h = record {
  recording_known =
      λ other e. rw (lookup-remove, recording_ne m other id h e works) (h.recording_known other e);
  recording_free = h.recording_free;
  processing_works = h.processing_works;
  counted = h.counted;
  unique = h.unique;
}

pub idle-keeps :
    (m : Manager) → IsConsistent m → IsConsistent (record m { recording_session_id = none })
idle-keeps m h = record {
  recording_known = λ other e. absurd (cc);
  recording_free = λ other e. absurd (cc);
  processing_works = h.processing_works;
  counted = h.counted;
  unique = h.unique;
}

leave_recording-keeps :
    (id : String) (m : Manager) → IsConsistent m → IsConsistent (leave_recording id m)
unfolding leave_recording
leave_recording-keeps id m h =
    pop_idle-keeps id _ (unfold set_status in refl)
      (set_status-keeps id SessionStatus.canceled _ (idle-keeps m h))

pub clear_handle-keeps :
    (r : Option RuntimeSession) (id : String) (m : Manager)
    → IsConsistent m
    → IsConsistent (clear_handle_of r id m)
clear_handle-keeps none id m h = h
clear_handle-keeps (some r) id m h = record {
  recording_known = λ other e. rw lookup-insert (ground (arith, h.recording_known other e));
  recording_free = h.recording_free;
  processing_works = h.processing_works;
  counted = h.counted;
  unique = h.unique;
}

after_release-keeps :
    (id : String) (r : Result AudioError (Unit {0}) × AudioCapture) (m : Manager)
    → IsConsistent m
    → IsConsistent (after_release id r m).1
after_release-keeps id (ok u, c) m h =
    leave_recording-keeps id _ (clear_handle-keeps (lookup id m.sessions) id _ h)
after_release-keeps id (err e, c) m h = h

cancel_recording-keeps :
    (id : String) (r : RuntimeSession) (handle : Option ℕ) (m : Manager)
    → r.capture_handle ≡ handle
    → IsConsistent m
    → IsConsistent (cancel_recording id r m).1
unfolding cancel_recording
cancel_recording-keeps id r none m e h = rw e (leave_recording-keeps id m h)
cancel_recording-keeps id r (some handle) m e h =
    rw e (after_release-keeps id (release r.source handle m.capture) m h)

cancel_processing-keeps :
    (id : String) (m : Manager)
    → m.processing_session_id ≡ some id
    → IsConsistent m
    → IsConsistent (cancel_processing id m)
unfolding cancel_processing
cancel_processing-keeps id m e h =
    pop_worker-keeps id _ (unfold set_status in h.processing_works id e) (
      set_status-keeps id SessionStatus.canceled _ (record {
        recording_known = h.recording_known;
        recording_free = h.recording_free;
        processing_works = λ other p. absurd (cc);
        counted = h.counted;
        unique = h.unique;
      }))

-- `self._recording_session_id == session_id`
pub eq_id→eq : (id : String) (o : Option String) → eq_id id o ≡ true → o ≡ some id
eq_id→eq id none h = absurd (cc)
eq_id→eq id (some other) h = ap (λ (i : String). some i) ((string_eq.beq_iff other id).0 h)

cancel_stored-keeps :
    (s : Option StoredSession) (m : Manager) → IsConsistent m → IsConsistent (cancel_stored s m).1
cancel_stored-keeps none m h = h
cancel_stored-keeps (some s) m h =
    elim s.status
      as (λ status. IsConsistent (cancel_stored (some (record s { status = status })) m).1) [
        | SessionStatus.canceled ↦ h
        | _ ↦ h
      ]

cancel_runtime-keeps :
    (id : String) (r : Option RuntimeSession) (m : Manager)
    → IsConsistent m
    → IsConsistent (cancel_runtime id r m).1
cancel_runtime-keeps id none m h = cancel_stored-keeps (lookup id m.store) m h
cancel_runtime-keeps id (some r) m h = elim (Bool-cases (eq_id id m.recording_session_id)) [
  | inl recorded ↦ rw recorded (cancel_recording-keeps id r r.capture_handle m refl h)
  | inr other ↦ rw other (elim (Bool-cases (eq_id id m.processing_session_id)) [
    | inl processed ↦
        rw processed
          (cancel_processing-keeps id m (eq_id→eq id m.processing_session_id processed) h)
    | inr neither ↦ rw neither h
  ])
]

pub cancel-keeps : (id : String) (m : Manager) → IsConsistent m → IsConsistent (cancel id m).1
unfolding cancel
cancel-keeps id m h = cancel_runtime-keeps id (lookup id m.sessions) m h

cancel_processing_of-keeps :
    (o : Option String) (m : Manager)
    → m.processing_session_id ≡ o
    → IsConsistent m
    → IsConsistent (cancel_processing_of o m)
cancel_processing_of-keeps none m e h = h
cancel_processing_of-keeps (some id) m e h = cancel_processing-keeps id m e h

pub cancel_recording_of-keeps :
    (o : Option String) (m : Manager) → IsConsistent m → IsConsistent (cancel_recording_of o m).1
cancel_recording_of-keeps none m h = h
cancel_recording_of-keeps (some id) m h = cancel-keeps id m h

then_processing-keeps :
    (r : Result SessionError (Unit {0})) (m : Manager)
    → IsConsistent m
    → IsConsistent (then_processing r m).1
then_processing-keeps (ok u) m h = cancel_processing_of-keeps m.processing_session_id m refl h
then_processing-keeps (err e) m h = h

pub cancel_current-keeps : (m : Manager) → IsConsistent m → IsConsistent (cancel_current m).1
unfolding cancel_current
cancel_current-keeps m h =
    let (r, m') = cancel_recording_of m.recording_session_id m in
    then_processing-keeps r m' (cancel_recording_of-keeps m.recording_session_id m h)
