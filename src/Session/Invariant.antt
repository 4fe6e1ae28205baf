-- ===== src/Session/Invariant.antt =====
-- What holds between two steps of the manager and its workers.
use app_stt_aio.Base.{
  Bool-cases, Option, String, ap, arith, false, inl, inr, length, nat_eq, none, some, string_eq,
  subst, sym, true, ℕ, ◌==◌, ◌∙◌, ◌≡◌, ◌≢◌,
}
use app_stt_aio.Base.Dict.{
  lookup, IsUnique, IsUnique-insert, is_some, lookup-insert, lookup-insert_eq, length-insert_old,
  length-insert_new, some_inj, Dict,
}
use app_stt_aio.Base.Result.{Result, ok, err}
use app_stt_aio.Audio.Batch.{AudioError}
use app_stt_aio.Audio.Capture.{AudioCapture}
use app_stt_aio.Session.State.{
  SessionSource, SessionStatus, Manager, Phase, Fresh, set_status, create_session, RuntimeSession,
}
use app_stt_aio.Session.Recordings.{after_start, enter_recording, begin_batch, begin_realtime}
use app_stt_aio.Session.Worker.{start_processing, set_phase}

-- The fields that the invariant reads.
pub record Core : Type 0 where
  pub sessions : Dict String RuntimeSession
  pub recording : Option String
  pub processing : Option String
  pub workers : Dict String Phase
  pub active : ℕ

abbrev pub core : Manager → Core
core m = record {
  sessions = m.sessions;
  recording = m.recording_session_id;
  processing = m.processing_session_id;
  workers = m.workers;
  active = m.active_workers;
}

-- The session that records is known and has no worker; the one that is processed has one; and the
-- workers are counted exactly.
pub record CoreIsConsistent (c : Core) : Type 0 where
  pub recording_known :
      (id : String) → c.recording ≡ some id → is_some (lookup id c.sessions) ≡ true
  pub recording_free : (id : String) → c.recording ≡ some id → lookup id c.workers ≡ none
  pub processing_works :
      (id : String) → c.processing ≡ some id → is_some (lookup id c.workers) ≡ true
  pub counted : c.active ≡ length c.workers
  pub unique : IsUnique c.workers

abbrev pub IsConsistent : Manager → Type 0
IsConsistent m = CoreIsConsistent (core m)

pub set_status-keeps :
    (id : String) (s : SessionStatus) (m : Manager)
    → IsConsistent m
    → IsConsistent (set_status id s m)
unfolding set_status
set_status-keeps id s m h = h

-- The session that records has no worker, so it is not the session of a worker.
pub recording_ne :
    (m : Manager) (id other : String)
    → IsConsistent m
    → m.recording_session_id ≡ some id
    → is_some (lookup other m.workers) ≡ true
    → (other == id) ≡ false
recording_ne m id other h r works = elim (Bool-cases (other == id)) [
  | inl same ↦ absurd (
      cc (
        ap is_some (h.recording_free id r),
        works,
        ap (λ i. is_some (lookup i m.workers)) ((string_eq.beq_iff other id).0 same),
      ))
  | inr differ ↦ differ
]

pub enter_recording-keeps :
    (id : String) (source : SessionSource) (mode : Option String) (handle : ℕ) (m : Manager)
    → lookup id m.workers ≡ none
    → IsConsistent m
    → IsConsistent (enter_recording id source mode handle m)
unfolding enter_recording
enter_recording-keeps id source mode handle m fresh h =
    set_status-keeps id SessionStatus.recording _ (record {
      recording_known = λ other e. ap is_some (lookup-insert_eq id other _ m.sessions (some_inj e));
      recording_free = λ other e. subst (λ i. lookup i m.workers ≡ none) (some_inj e) fresh;
      processing_works = h.processing_works;
      counted = h.counted;
      unique = h.unique;
    })

pub after_start-keeps :
    (id : String) (source : SessionSource) (mode : Option String) (r : Result AudioError ℕ)
    (c : AudioCapture) (m : Manager)
    → lookup id m.workers ≡ none
    → IsConsistent m
    → IsConsistent (after_start id source mode r c m).1
unfolding after_start
after_start-keeps id source mode (ok handle) c m fresh h =
    enter_recording-keeps id source mode handle (record m { capture = c }) fresh h
after_start-keeps id source mode (err e) c m fresh h =
    set_status-keeps id SessionStatus.error (record m { capture = c }) h

pub begin_batch-keeps :
    (f : Fresh) (mode : Option String) (m : Manager)
    → lookup f.id m.workers ≡ none
    → IsConsistent m
    → IsConsistent (begin_batch f mode m).1
unfolding begin_batch create_session
begin_batch-keeps f mode m fresh h = after_start-keeps f.id SessionSource.batch _ _ _ _ fresh h

pub begin_realtime-keeps :
    (f : Fresh) (mode : Option String) (m : Manager)
    → lookup f.id m.workers ≡ none
    → IsConsistent m
    → IsConsistent (begin_realtime f mode m).1
unfolding begin_realtime create_session
begin_realtime-keeps f mode m fresh h =
    after_start-keeps f.id SessionSource.realtime _ _ _ _ fresh h

-- A session that leaves the recording is handed to a worker of its own.
pub start_processing-keeps :
    (id : String) (m : Manager)
    → lookup id m.workers ≡ none
    → m.recording_session_id ≢ some id
    → IsConsistent m
    → IsConsistent (start_processing id m)
unfolding start_processing set_status
start_processing-keeps id m fresh not_recording h = record {
  recording_known = h.recording_known;
  recording_free = λ other e. rw lookup-insert (
      ground (
        arith,
        h.recording_free other e,
        string_eq.beq_iff id other,
        (λ (same : id ≡ other). not_recording (e ∙ ap (λ (i : String). some i) (sym same))),
      ));
  processing_works =
      λ other e. ap is_some (lookup-insert_eq id other Phase.started m.workers (some_inj e));
  counted = omega (arith, h.counted, length-insert_new id Phase.started m.workers fresh);
  unique = IsUnique-insert id Phase.started m.workers h.unique;
}

pub set_phase-keeps :
    (id : String) (p : Phase) (m : Manager)
    → is_some (lookup id m.workers) ≡ true
    → IsConsistent m
    → IsConsistent (set_phase id p m)
unfolding set_phase
set_phase-keeps id p m works h = record {
  recording_known = h.recording_known;
  recording_free =
      λ other e. rw (lookup-insert, recording_ne m other id h e works) (h.recording_free other e);
  processing_works = λ other e. rw lookup-insert (ground (arith, h.processing_works other e));
  counted = omega (arith, h.counted, length-insert_old id p m.workers works);
  unique = IsUnique-insert id p m.workers h.unique;
}
