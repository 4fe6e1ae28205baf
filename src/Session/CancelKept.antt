-- ===== src/Session/CancelKept.antt =====
-- Which methods leave the threads and the queue alone: a recording that is canceled has none, and the thread of a
-- session that is canceled goes on until it looks.
use app_stt_aio.Base.{
  String, ap, nat_eq, none, refl, some, string_eq, ◌≡◌, Bool-cases, List, Option, inl, inr, ℕ, ◌∙◌,
  subst, sym,
}
use app_stt_aio.Base.Dict.{Dict, lookup}
use app_stt_aio.Base.Result.{Result, ok, err}
use app_stt_aio.Audio.Batch.{AudioError}
use app_stt_aio.Audio.Capture.{AudioCapture}
use app_stt_aio.Session.State.{
  PendingBegin, SessionStatus, Manager, RuntimeSession, StoredSession, Phase, SessionError,
  set_status, pop_session, eq_id, clear_handle_of,
}
use app_stt_aio.Session.Cancel.{
  leave_recording, after_release, cancel_recording, cancel_processing, cancel_runtime, cancel,
  release, cancel_stored, cancel_current, cancel_recording_of, cancel_processing_of,
  then_processing,
}

-- The threads, and the requests that wait for the last of them.
abbrev pub kept : Manager → Dict String Phase × List PendingBegin
kept m = (m.workers, m.pending_begins)

clear_handle-kept :
    (r : Option RuntimeSession) (id : String) (m : Manager) → kept (clear_handle_of r id m) ≡ kept m
clear_handle-kept none id m = refl
clear_handle-kept (some r) id m = refl

leave_recording-kept : (id : String) (m : Manager) → kept (leave_recording id m) ≡ kept m
unfolding leave_recording pop_session set_status
leave_recording-kept id m = refl

after_release-kept :
    (id : String) (r : Result AudioError (Unit {0}) × AudioCapture) (m : Manager)
    → kept (after_release id r m).1 ≡ kept m
after_release-kept id (ok u, c) m =
    leave_recording-kept id _
    ∙ clear_handle-kept (lookup id m.sessions) id (record m { capture = c })
after_release-kept id (err e, c) m = refl

cancel_recording-kept :
    (id : String) (r : RuntimeSession) (handle : Option ℕ) (m : Manager)
    → r.capture_handle ≡ handle
    → kept (cancel_recording id r m).1 ≡ kept m
unfolding cancel_recording
cancel_recording-kept id r none m e = rw e (leave_recording-kept id m)
cancel_recording-kept id r (some handle) m e =
    rw e (after_release-kept id (release r.source handle m.capture) m)

cancel_processing-kept : (id : String) (m : Manager) → kept (cancel_processing id m) ≡ kept m
unfolding cancel_processing pop_session set_status
cancel_processing-kept id m = refl

cancel_stored-kept : (s : Option StoredSession) (m : Manager) → kept (cancel_stored s m).1 ≡ kept m
cancel_stored-kept none m = refl
cancel_stored-kept (some s) m =
    elim s.status
      as (λ status. kept (cancel_stored (some (record s { status = status })) m).1 ≡ kept m) [
        | SessionStatus.canceled ↦ refl
        | _ ↦ refl
      ]

cancel_runtime-kept :
    (id : String) (r : Option RuntimeSession) (m : Manager)
    → kept (cancel_runtime id r m).1 ≡ kept m
cancel_runtime-kept id none m = cancel_stored-kept (lookup id m.store) m
cancel_runtime-kept id (some r) m = elim (Bool-cases (eq_id id m.recording_session_id)) [
  | inl recorded ↦ rw recorded (cancel_recording-kept id r r.capture_handle m refl)
  | inr other ↦ rw other (elim (Bool-cases (eq_id id m.processing_session_id)) [
    | inl processed ↦ rw processed (cancel_processing-kept id m)
    | inr neither ↦ rw neither refl
  ])
]

pub cancel-kept : (id : String) (m : Manager) → kept (cancel id m).1 ≡ kept m
unfolding cancel
cancel-kept id m = cancel_runtime-kept id (lookup id m.sessions) m

cancel_recording_of-kept :
    (o : Option String) (m : Manager) → kept (cancel_recording_of o m).1 ≡ kept m
cancel_recording_of-kept none m = refl
cancel_recording_of-kept (some id) m = cancel-kept id m

cancel_processing_of-kept :
    (o : Option String) (m : Manager) → kept (cancel_processing_of o m) ≡ kept m
cancel_processing_of-kept none m = refl
cancel_processing_of-kept (some id) m = cancel_processing-kept id m

then_processing-kept :
    (r : Result SessionError (Unit {0})) (m : Manager) → kept (then_processing r m).1 ≡ kept m
then_processing-kept (ok u) m = cancel_processing_of-kept m.processing_session_id m
then_processing-kept (err e) m = refl

cancel_current-kept : (m : Manager) → kept (cancel_current m).1 ≡ kept m
unfolding cancel_current
cancel_current-kept m =
    let (r, m') = cancel_recording_of m.recording_session_id m in
    then_processing-kept r m' ∙ cancel_recording_of-kept m.recording_session_id m

pub cancel_current-workers : (m : Manager) → (cancel_current m).1.workers ≡ m.workers
cancel_current-workers m = ap (λ k. k.0) (cancel_current-kept m)

-- What a recording that was canceled with success leaves: nothing is recorded or processed, and the
-- active mode is the same.
abbrev pub IsLeftIdle : Manager → Manager → Type 0
IsLeftIdle m m' =
    (m'.recording_session_id ≡ none)
    × (m'.processing_session_id ≡ none)
    × (m'.active_mode_id ≡ m.active_mode_id)

clear_handle-others :
    (r : Option RuntimeSession) (id : String) (m : Manager)
    → ((clear_handle_of r id m).processing_session_id ≡ m.processing_session_id)
      × ((clear_handle_of r id m).active_mode_id ≡ m.active_mode_id)
clear_handle-others none id m = (refl, refl)
clear_handle-others (some r) id m = (refl, refl)

after_release-idle :
    (id : String) (r : Result AudioError (Unit {0}) × AudioCapture) (m : Manager)
    → m.processing_session_id ≡ none
    → (after_release id r m).0 ≡ ok tt
    → IsLeftIdle m (after_release id r m).1
unfolding leave_recording pop_session set_status
after_release-idle id (ok u, c) m processed e =
    let (here, mode) = clear_handle-others (lookup id m.sessions) id (record m { capture = c }) in
    (refl, here ∙ processed, mode)
after_release-idle id (err x, c) m processed e = absurd (cc)

cancel_recording-idle :
    (id : String) (r : RuntimeSession) (handle : Option ℕ) (m : Manager)
    → m.processing_session_id ≡ none
    → (cancel_recording id (record r { capture_handle = handle }) m).0 ≡ ok tt
    → IsLeftIdle m (cancel_recording id (record r { capture_handle = handle }) m).1
unfolding cancel_recording leave_recording pop_session set_status
cancel_recording-idle id r none m processed canceled = (refl, processed, refl)
cancel_recording-idle id r (some handle) m processed canceled =
    after_release-idle id (release r.source handle m.capture) m processed canceled

cancel-recorded :
    (id : String) (r : RuntimeSession) (m : Manager)
    → m.recording_session_id ≡ some id
    → lookup id m.sessions ≡ some r
    → cancel id m ≡ cancel_recording id r m
unfolding cancel
cancel-recorded id r m recorded known = rw (known, recorded, (string_eq.beq_iff id id).1 refl) refl

pub cancel_recorded-idle :
    (id : String) (r : RuntimeSession) (m : Manager)
    → m.recording_session_id ≡ some id
    → m.processing_session_id ≡ none
    → lookup id m.sessions ≡ some r
    → (cancel id m).0 ≡ ok tt
    → IsLeftIdle m (cancel id m).1
cancel_recorded-idle id r m recorded processed known canceled =
    let same = cancel-recorded id r m recorded known in
    subst (λ x. IsLeftIdle m x.1) (sym same)
      (cancel_recording-idle id r r.capture_handle m processed
        (ap (λ x. x.0) (sym same) ∙ canceled))
