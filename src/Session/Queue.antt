-- ===== src/Session/Queue.antt =====
-- Requests that wait for the manager.
use app_stt_aio.Base.{
  String, ap, nat_eq, none, refl, some, string_eq, ◌-◌, ◌≡◌, Bool-cases, List, Option, [], arith,
  inl, inr, map, sym, true, ℕ, ◌++◌, ◌||◌, ◌∙◌, ◌∷◌, ◌⊎◌, subst,
}
use app_stt_aio.Base.Dict.{lookup, remove, lookup-insert_self}
use app_stt_aio.Base.Result.{Result, ok, err}
use app_stt_aio.Audio.Batch.{AudioError}
use app_stt_aio.Audio.Capture
use app_stt_aio.Audio.Capture.{AudioCapture}
use app_stt_aio.Session.Policy.{resolve_begin_action}
use app_stt_aio.Session.State.{
  PendingBegin, RuntimeSession, SessionSource, SessionStatus, Manager, StoredSession, Fresh,
  set_status, update_status, mode_or_active, busy_queued, create_session, pop_session, is_set,
  discard, state_error,
}
use app_stt_aio.Session.Recordings.{begin_batch, after_start, enter_recording, handle_of}
use app_stt_aio.Session.Cancel.{cancel}
use app_stt_aio.Session.Worker.{start_processing, finish, drain_pending_begins, drain_first}
use app_stt_aio.Session.Requests.{begin, submit_remote}
use app_stt_aio.Session.Policy.{parse_policy}
use app_stt_aio.Session.CancelKept.{cancel-kept, cancel_recorded-idle}
use mathlib.Core.List.{append_assoc, append-nil}

abbrev pub request : Option String → PendingBegin
request mode = record { source = SessionSource.batch; mode_id = mode }

-- Batch requests, one after another, that meet whatever the device would do.
unfoldable pub ask_all : Fresh → List (Option String) → Manager → Manager
ask_all f [] m = m
ask_all f (mode ∷ modes) m = ask_all f modes (begin SessionSource.batch f mode m).1

ask-queues :
    (f : Fresh) (mode : Option String) (m : Manager)
    → (is_set m.recording_session_id || is_set m.processing_session_id) ≡ true
    → m.queue_policy ≡ "queue"
    → begin SessionSource.batch f mode m
      ≡ (err busy_queued, record m { pending_begins = m.pending_begins ++ request mode ∷ [] })
unfolding begin resolve_begin_action parse_policy
ask-queues f mode m busy policy = elim (Bool-cases (is_set m.recording_session_id)) [
  | inl recorded ↦ rw (recorded, policy) refl
  | inr other ↦ elim (Bool-cases (is_set m.processing_session_id)) [
    | inl processed ↦ rw (other, processed, policy) refl
    | inr neither ↦ absurd (ground (arith, busy, other, neither))
  ]
]

-- While the manager records or processes and queues, a series of batch requests changes nothing but
-- the queue, which gets them at its end in the order in which they came.
pub ask_all-queues :
    (f : Fresh) (modes : List (Option String)) (m : Manager)
    → (is_set m.recording_session_id || is_set m.processing_session_id) ≡ true
    → m.queue_policy ≡ "queue"
    → ask_all f modes m ≡ record m { pending_begins = m.pending_begins ++ map request modes }
unfolding ask_all
ask_all-queues f [] m busy policy =
    ap (λ ps. record m { pending_begins = ps }) (sym (append-nil m.pending_begins))
ask_all-queues f (mode ∷ modes) m busy policy = rw (ask-queues f mode m busy policy) (
    ask_all-queues f modes (record m { pending_begins = m.pending_begins ++ request mode ∷ [] })
      busy policy
    ∙ ap (λ ps. record m { pending_begins = ps })
        (append_assoc m.pending_begins (request mode ∷ []) (map request modes)))

-- The request has become the session of the id: it records, or it is stored as in error and nothing
-- records.
pub record WasServed (id : String) (mode : Option String) (m : Manager) : Type 0 where
  pub stored : StoredSession
  pub found : lookup id m.store ≡ some stored
  pub batch : stored.source ≡ SessionSource.batch
  pub mode_id : stored.mode_id ≡ mode
  pub outcome :
      (stored.status ≡ SessionStatus.recording) × (m.recording_session_id ≡ some id)
      ⊎ (stored.status ≡ SessionStatus.error) × (m.recording_session_id ≡ none)

after_start-serves :
    (id : String) (mode : Option String) (r : Result AudioError ℕ) (c : AudioCapture) (m : Manager)
    → m.recording_session_id ≡ none
    → lookup id m.store
      ≡ some (record {
        source = SessionSource.batch;
        mode_id = mode;
        status = SessionStatus.recording;
      })
    → WasServed id mode (after_start id SessionSource.batch mode r c m).1
unfolding after_start enter_recording set_status update_status
after_start-serves id mode (ok handle) c m idle e = rw e (record {
  stored = record {
    source = SessionSource.batch;
    mode_id = mode;
    status = SessionStatus.recording;
  };
  found = lookup-insert_self id _ m.store;
  batch = refl;
  mode_id = refl;
  outcome = inl (refl, refl);
})
after_start-serves id mode (err x) c m idle e = rw e (record {
  stored = record { source = SessionSource.batch; mode_id = mode; status = SessionStatus.error };
  found = lookup-insert_self id _ m.store;
  batch = refl;
  mode_id = refl;
  outcome = inr (refl, idle);
})

after_start-pending :
    (id : String) (mode : Option String) (r : Result AudioError ℕ) (c : AudioCapture) (m : Manager)
    → (after_start id SessionSource.batch mode r c m).1.pending_begins ≡ m.pending_begins
unfolding after_start enter_recording set_status
after_start-pending id mode (ok handle) c m = refl
after_start-pending id mode (err x) c m = refl

begin_batch-serves :
    (f : Fresh) (mode : Option String) (m : Manager)
    → m.recording_session_id ≡ none
    → ((begin_batch f mode m).1.pending_begins ≡ m.pending_begins)
      × WasServed f.id (mode_or_active mode m) (begin_batch f mode m).1
unfolding begin_batch create_session
begin_batch-serves f mode m idle =
    let mode_id = mode_or_active mode m in
    let m' = create_session f.id SessionSource.batch mode_id SessionStatus.recording m in
    let (r, c) = Capture.start_batch f.opened f.started m'.capture in
    (
      after_start-pending f.id mode_id (handle_of r) c m',
      after_start-serves f.id mode_id (handle_of r) c m' idle (lookup-insert_self f.id _ m.store),
    )

mode_or_active_lem :
    (mode : Option String) (m n : Manager)
    → m.active_mode_id ≡ n.active_mode_id
    → mode_or_active mode m ≡ mode_or_active mode n
mode_or_active_lem none m n e = ap (λ (i : String). some i) e
mode_or_active_lem (some i) m n e = refl

drain_first-serves :
    (f : Fresh) (p : PendingBegin) (ps : List PendingBegin) (m n : Manager)
    → m.recording_session_id ≡ none
    → m.active_mode_id ≡ n.active_mode_id
    → ((drain_first f (p ∷ ps) m).pending_begins ≡ ps)
      × WasServed f.id (mode_or_active p.mode_id n) (drain_first f (p ∷ ps) m)
drain_first-serves f p ps m n idle same =
    let m' = record m { pending_begins = ps } in
    let (left, served) = begin_batch-serves f p.mode_id m' idle in
    (
      left,
      subst (λ o. WasServed f.id o (begin_batch f p.mode_id m').1)
          (mode_or_active_lem p.mode_id m' n same) served,
    )

-- When the thread of the session that is processed ends and nothing records, the oldest of the
-- requests that wait leaves the queue and becomes a batch session of its mode, or of the active mode
-- if it has none: it records, or it is stored as in error and nothing records.
pub finish-serves :
    (id : String) (f : Fresh) (p : PendingBegin) (ps : List PendingBegin) (m : Manager)
    → m.recording_session_id ≡ none
    → m.processing_session_id ≡ some id
    → m.pending_begins ≡ p ∷ ps
    → ((finish id f m).pending_begins ≡ ps)
      × WasServed f.id (mode_or_active p.mode_id m) (finish id f m)
unfolding finish drain_pending_begins pop_session
finish-serves id f p ps m idle processed waiting =
    let m' = record m {
      sessions = remove id m.sessions;
      recording_session_id = none;
      active_workers = m.active_workers - 1;
      workers = remove id m.workers;
      canceled_sessions = discard id m.canceled_sessions;
      processing_session_id = none;
    } in
    simp (idle, processed, (string_eq.beq_iff id id).1 refl, waiting)
      (drain_first-serves f p ps m' m refl refl)

begin_idle-serves :
    (f : Fresh) (mode : Option String) (m : Manager)
    → m.recording_session_id ≡ none
    → m.processing_session_id ≡ none
    → ((begin SessionSource.batch f mode m).1.pending_begins ≡ m.pending_begins)
      × WasServed f.id (mode_or_active mode m) (begin SessionSource.batch f mode m).1
unfolding begin resolve_begin_action
begin_idle-serves f mode m recorded processed =
    simp (recorded, processed) (begin_batch-serves f mode m recorded)

-- When the cancel of a recording succeeds while nothing is processed, the requests that wait stay in
-- the queue, and a batch request that comes right after is served before them: it becomes a session
-- of its mode, or of the active mode if it has none, which records or is stored as in error, and it
-- leaves the queue as it was.
pub cancel-overtaken :
    (id : String) (r : RuntimeSession) (f : Fresh) (mode : Option String) (m : Manager)
    → m.recording_session_id ≡ some id
    → m.processing_session_id ≡ none
    → lookup id m.sessions ≡ some r
    → (cancel id m).0 ≡ ok tt
    → ((begin SessionSource.batch f mode (cancel id m).1).1.pending_begins ≡ m.pending_begins)
      × WasServed f.id (mode_or_active mode m) (begin SessionSource.batch f mode (cancel id m).1).1
cancel-overtaken id r f mode m recorded processed known canceled =
    let (idle, free, same) = cancel_recorded-idle id r m recorded processed known canceled in
    let m' = (cancel id m).1 in
    let (waiting, served) = begin_idle-serves f mode m' idle free in
    (
      waiting ∙ ap (λ k. k.1) (cancel-kept id m),
      subst (λ o. WasServed f.id o (begin SessionSource.batch f mode m').1)
          (mode_or_active_lem mode m' m same) served,
    )

-- A cancel right after `submit_remote`, with an id that the manager runs no session under, is
-- refused with a state error and changes nothing.
pub submit_remote-cancel :
    (id : String) (mode : Option String) (m : Manager)
    → lookup id m.sessions ≡ none
    → cancel id (submit_remote id mode m).1 ≡ (err state_error, (submit_remote id mode m).1)
unfolding submit_remote cancel start_processing create_session set_status update_status
submit_remote-cancel id mode m fresh =
    rw (fresh, lookup-insert_self id _ m.store) (rw (lookup-insert_self id _ _) refl)
