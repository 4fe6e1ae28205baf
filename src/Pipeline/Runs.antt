-- ===== src/Pipeline/Runs.antt =====
-- Whole runs follow the plan of their mode.
use app_stt_aio.Base.{
  Bool, Bool-cases, Bytes, List, Option, String, [], ap, if◌then◌else◌, inl, inr, nat_eq, none,
  refl, some, string_eq, subst, sym, ℕ, ◌++◌, ◌∙◌, ◌∷◌, ◌≡◌, leb, ltb, ◌⊎◌,
}
use mathlib.Core.List.{append-nil}
use app_stt_aio.Base.Result.{Result, ok, err}
use app_stt_aio.Session.State.{SessionSource}
use app_stt_aio.Pipeline.{
  PipelineStatus, PipelineMode, PipelineInput, Failure, canceled_error, other_error, Engine,
  Services, emit, fail, handle,
}
use app_stt_aio.Pipeline.Stages.{
  stage1, continue, llm_if, conclude, run_stages, run, new_engine, run_session, run_audio,
  mode_or_default, is_batch,
}
use app_stt_aio.Pipeline.Plan.{
  Mark, finish, marks, stage_plan, when_wanted, Open, Stopped, IsEnding, Out, cancel-Stopped,
  fail-Stopped, map-append,
}
use app_stt_aio.Base.Dict.{some_inj}
use app_stt_aio.Pipeline.Steps.{llm_if-Out, stage1-Out, continue-Out, ended-stops}

-- What a whole run has done: a first part of the plan, and how it ended. It is finished only behind
-- the whole plan.
pub record IsRunOf (plan : List Mark) (s : Engine) : Type 0 where
  pub taken : List Mark
  pub rest : List Mark
  pub ending : List Mark
  pub split : plan ≡ taken ++ rest
  pub trace : marks s ≡ taken ++ ending
  pub ended :
      ((s.run.status ≡ PipelineStatus.finished)
        × (rest ≡ [])
        × (ending ≡ finish PipelineStatus.finished ∷ []))
      ⊎ IsEnding s.run.status ending

Stopped-IsRunOf : (plan : List Mark) (s : Engine) → Stopped [] plan s → IsRunOf plan s
Stopped-IsRunOf plan s h = record {
  taken = h.taken;
  rest = h.rest;
  ending = h.ending;
  split = h.split;
  trace = h.trace;
  ended = inr h.ended;
}

conclude-IsRunOf : (plan : List Mark) (s : Engine) → Open plan s → IsRunOf plan (conclude s).1
unfolding conclude emit
conclude-IsRunOf plan s h = record {
  taken = plan;
  rest = [];
  ending = finish PipelineStatus.finished ∷ [];
  split = sym (append-nil plan);
  trace = map-append s.events (_ ∷ []) ∙ ap (λ l. l ++ finish PipelineStatus.finished ∷ []) h.trace;
  ended = inl (refl, refl, refl);
}

pub finish-IsRunOf :
    (k : ℕ) (plan : List Mark) (r : Result Failure (Unit {0}) × Engine)
    → Out [] plan r
    → IsRunOf plan (handle k (continue conclude r))
unfolding handle
finish-IsRunOf k plan (err (canceled_error text), s) (taken, rest, split, h) =
    Stopped-IsRunOf plan _ (cancel-Stopped k [] plan taken rest s split h)
finish-IsRunOf k plan (err (other_error text), s) (taken, rest, split, h) =
    Stopped-IsRunOf plan _ (fail-Stopped k (other_error text) [] plan taken rest s split h)
finish-IsRunOf k plan (ok u, s) (inl h) =
    simp h.running (unfold conclude in conclude-IsRunOf plan s h)
finish-IsRunOf k plan (ok u, s) (inr h) =
    simp (ended-stops s.run.status h.ending h.ended) (Stopped-IsRunOf plan s h)

-- What a mode asks of a run.
abbrev pub plan_of : PipelineMode → List Mark
plan_of mode =
    stage_plan mode 1
    ++ when_wanted (leb 2 mode.target_stage) (stage_plan mode 2)
    ++ when_wanted (leb 3 mode.target_stage) (stage_plan mode 3)

pub new_engine-Open : (id : String) (answers : List Bool) → Open [] (new_engine id answers)
unfolding new_engine
new_engine-Open id answers = record { running = refl; trace = refl }

pub failed-IsRunOf :
    (k : ℕ) (e : Failure) (plan : List Mark) (s : Engine) → Open [] s → IsRunOf plan (fail k e s)
failed-IsRunOf k e plan s h =
    Stopped-IsRunOf plan (fail k e s) (fail-Stopped k e [] plan [] plan s refl h)

run_stages-Out :
    (v : Services) (mode : PipelineMode) (audio : Bytes) (s : Engine)
    → Open [] s
    → IsRunOf (plan_of mode) (handle 1 (run_stages v mode audio s))
unfolding run_stages
run_stages-Out v mode audio s h =
    let p1 = stage_plan mode 1 in
    let p2 = when_wanted (leb 2 mode.target_stage) (stage_plan mode 2) in
    finish-IsRunOf 1 (plan_of mode) _ (
      continue-Out (llm_if v mode (leb 3 mode.target_stage) 3) [] (p1 ++ p2)
        (when_wanted (leb 3 mode.target_stage) (stage_plan mode 3)) _
        (continue-Out (llm_if v mode (leb 2 mode.target_stage) 2) [] p1 p2 (stage1 v mode audio s)
          (stage1-Out v mode audio [] s h) (llm_if-Out v mode (leb 2 mode.target_stage) 2 p1))
        (llm_if-Out v mode (leb 3 mode.target_stage) 3 (p1 ++ p2)))

run_audio-IsRunOf :
    (v : Services) (mode : PipelineMode) (audio : Option Bytes) (s : Engine)
    → Open [] s
    → IsRunOf (plan_of mode) (run_audio v mode audio s)
run_audio-IsRunOf v mode none s h = failed-IsRunOf 1 _ (plan_of mode) s h
run_audio-IsRunOf v mode (some audio) s h = elim (Bool-cases (ltb mode.target_stage 1)) [
  | inl low ↦ rw low (failed-IsRunOf 1 _ (plan_of mode) s h)
  | inr fine ↦ rw fine (run_stages-Out v mode audio s h)
]

run_session-IsRunOf :
    (v : Services) (i : PipelineInput) (mode : PipelineMode) (id : Option String)
    (answers : List Bool) (s : Engine)
    → run_session v i mode id answers ≡ some s
    → IsRunOf (plan_of mode) s
run_session-IsRunOf v i mode none answers s e = absurd (cc)
run_session-IsRunOf v i mode (some id) answers s e =
    subst (IsRunOf (plan_of mode)) (some_inj e)
      (elim i.source
        as (λ source. IsRunOf (plan_of mode) (
          if is_batch source
          then run_audio v mode i.audio (new_engine id answers)
          else fail 0 (other_error "source is planned for a later phase")
              (new_engine id answers))) [
                | SessionSource.batch ↦
                    run_audio-IsRunOf v mode i.audio _ (new_engine-Open id answers)
                | _ ↦ failed-IsRunOf 0 _ (plan_of mode) _ (new_engine-Open id answers)
              ])

-- Every run that starts does a first part of what its mode asks, in order: stage by stage its start,
-- its completion and, at the injection stage, the injection. Then it ends by one event, whatever fails
-- and whenever it is canceled: finished, only behind all of the plan; canceled; or an error, behind the
-- event of the error.
pub run-IsRunOf :
    (v : Services) (i : PipelineInput) (mode : Option PipelineMode) (answers : List Bool)
    (s : Engine)
    → run v i mode answers ≡ some s
    → IsRunOf (plan_of (mode_or_default mode)) s
unfolding run
run-IsRunOf v i mode answers s e =
    run_session-IsRunOf v i (mode_or_default mode) i.session_id answers s e
