-- ===== src/Session/Races.antt =====
-- A cancel against the thread of the session that it cancels: which of them has the last word.
use app_stt_aio.Base.{String, ap, nat_eq, refl, some, string_eq, ◌≡◌, false, true, ◌∙◌}
use app_stt_aio.Base.Dict.{lookup, lookup-insert_self}
use app_stt_aio.Base.Result.{ok}
use app_stt_aio.Session.State.{
  SessionStatus, Manager, RuntimeSession, StoredSession, Phase, started, running, deciding, ending,
  has, Fresh, set_status, pop_session, eq_id, update_status,
}
use app_stt_aio.Session.Cancel.{cancel_processing, cancel}
use app_stt_aio.Session.Worker.{
  set_phase, Outcome, stopped, failed, finished, look, conclude, write_status, worker_step, step_in,
}

-- Where a thread has not looked for the last time.
abbrev pub IsBeforeLook : Phase → Type 0
IsBeforeLook started = Unit
IsBeforeLook running = Unit
IsBeforeLook _ = ⊥

-- The session runs and does not record.
pub record IsProcessed (id : String) (p : Phase) (m : Manager) : Type 0 where
  pub runtime : RuntimeSession
  pub known : lookup id m.sessions ≡ some runtime
  pub recorded : eq_id id m.recording_session_id ≡ false
  pub processed : m.processing_session_id ≡ some id
  pub works : lookup id m.workers ≡ some p

cancel-processed :
    (id : String) (p : Phase) (m : Manager)
    → IsProcessed id p m
    → cancel id m ≡ (ok tt, cancel_processing id m)
unfolding cancel
cancel-processed id p m h =
    rw (h.known, h.recorded, h.processed, (string_eq.beq_iff id id).1 refl) refl

ends :
    (id : String) (p : Phase) (o : Outcome) (f : Fresh) (m : Manager)
    → IsBeforeLook p
    → has id m.canceled_sessions ≡ true
    → step_in (some p) id o f m ≡ set_phase id ending m
unfolding look conclude
ends id started o f m before canceled = rw canceled refl
ends id running stopped f m before canceled = refl
ends id running failed f m before canceled = rw canceled refl
ends id running (finished i) f m before canceled = rw canceled refl
ends id (deciding s) o f m before canceled = absurd before
ends id ending o f m before canceled = absurd before

has-cancel_processing :
    (id : String) (m : Manager) → has id (cancel_processing id m).canceled_sessions ≡ true
unfolding cancel_processing pop_session set_status has
has-cancel_processing id m = rw ((string_eq.beq_iff id id).1 refl) refl

works-cancel_processing :
    (id : String) (p : Phase) (m : Manager)
    → IsProcessed id p m
    → lookup id (cancel_processing id m).workers ≡ some p
unfolding cancel_processing pop_session set_status
works-cancel_processing id p m h = h.works

step_lem :
    (id : String) (p : Phase) (o : Outcome) (f : Fresh) (m : Manager)
    → lookup id m.workers ≡ some p
    → worker_step id o f m ≡ step_in (some p) id o f m
unfolding worker_step
step_lem id p o f m e = ap (λ q. step_in q id o f m) e

-- When a session is canceled before its thread looks for the last time, the next step of that thread
-- goes straight to its end, whatever the pipeline came to: it writes no status, calls no callback and
-- touches nothing but where it stands.
pub cancel-before_look :
    (id : String) (p : Phase) (o : Outcome) (f : Fresh) (m : Manager)
    → IsBeforeLook p
    → IsProcessed id p m
    → worker_step id o f (cancel id m).1 ≡ set_phase id ending (cancel id m).1
cancel-before_look id p o f m before h = rw (cancel-processed id p m h) (
    step_lem id p o f (cancel_processing id m) (works-cancel_processing id p m h)
    ∙ ends id p o f (cancel_processing id m) before (has-cancel_processing id m))

written :
    (id : String) (s : SessionStatus) (stored : StoredSession) (m : Manager)
    → lookup id m.store ≡ some stored
    → lookup id (set_status id s m).store ≡ some (record stored { status = s })
unfolding set_status update_status
written id s stored m e = rw e (lookup-insert_self id _ m.store)

stored_canceled :
    (id : String) (stored : StoredSession) (m : Manager)
    → lookup id m.store ≡ some stored
    → lookup id (cancel_processing id m).store
      ≡ some (record stored { status = SessionStatus.canceled })
unfolding cancel_processing pop_session
stored_canceled id stored m e = written id SessionStatus.canceled stored _ e

overwritten :
    (id : String) (s : SessionStatus) (stored : StoredSession) (m : Manager)
    → lookup id m.store ≡ some stored
    → lookup id (write_status id s m).store ≡ some (record stored { status = s })
unfolding write_status set_phase
overwritten id s stored m e = written id s stored m e

-- When a session is canceled after its thread has looked for the last time, the cancel succeeds and
-- stores the session as canceled, and then the thread overwrites that with the status it had decided.
pub cancel-after_look :
    (id : String) (s : SessionStatus) (stored : StoredSession) (o : Outcome) (f : Fresh)
    (m : Manager)
    → IsProcessed id (deciding s) m
    → lookup id m.store ≡ some stored
    → ((cancel id m).0 ≡ ok tt)
      × (lookup id (cancel id m).1.store ≡ some (record stored { status = SessionStatus.canceled }))
      × (lookup id (worker_step id o f (cancel id m).1).store ≡ some (record stored { status = s }))
cancel-after_look id s stored o f m h e =
    let m' = cancel_processing id m in
    rw (cancel-processed id (deciding s) m h) (
      refl,
      stored_canceled id stored m e,
      ap (λ n. lookup id n.store)
            (step_lem id (deciding s) o f m' (works-cancel_processing id (deciding s) m h))
          ∙ overwritten id s (record stored { status = SessionStatus.canceled }) m'
              (stored_canceled id stored m e),
    )
