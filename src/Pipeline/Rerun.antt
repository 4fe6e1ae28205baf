-- ===== src/Pipeline/Rerun.antt =====
-- Reprocessing follows the plan of the stages from its first one on.
use app_stt_aio.Base.{
  Bool, List, Option, String, [], false, if◌then◌else◌, nat_eq, none, some, string_eq, subst, true,
  ℕ, ◌++◌, ◌==◌, ◌≡◌, leb, not, ◌&&◌,
}
use app_stt_aio.Base.Result.{Result, ok, err, ok_inj}
use app_stt_aio.Base.Dict.{lookup}
use app_stt_aio.Pipeline.{PipelineMode, StageArtifact, Failure, Engine, Services, handle}
use app_stt_aio.Pipeline.Stages.{llm_if, new_engine}
use app_stt_aio.Pipeline.Reprocess.{
  StoredText, load, load_stage, rerun, rerun_seeded, with_seed, rerun_from, reach, reprocess,
}
use app_stt_aio.Pipeline.Plan.{Mark, stage_plan, when_wanted, Open, persist-Open, set_artifact-Open}
use app_stt_aio.Pipeline.Steps.{llm_if-Out, continue-Out}
use app_stt_aio.Pipeline.Runs.{IsRunOf, finish-IsRunOf, failed-IsRunOf, new_engine-Open}

-- What reprocessing asks for; stage 1 is never among it.
abbrev pub rerun_plan : ℕ → PipelineMode → List Mark
rerun_plan from_stage mode =
    when_wanted (leb from_stage 2 && leb 2 mode.target_stage) (stage_plan mode 2)
    ++ when_wanted (leb from_stage 3 && leb 3 mode.target_stage) (stage_plan mode 3)

load_stage-Open :
    (id : String) (k : ℕ) (o : Option StoredText) (s : Engine)
    → Open [] s
    → Open [] (load_stage id k o s)
load_stage-Open id k none s h = h
load_stage-Open id k (some t) s h = set_artifact-Open _ [] s h

load-Open :
    (id : String) (latest : ℕ → Option StoredText) (s : Engine)
    → Open [] s
    → Open [] (load id latest s)
unfolding load
load-Open id latest s h =
    load_stage-Open id 3 (latest 3) _
      (load_stage-Open id 2 (latest 2) _ (load_stage-Open id 1 (latest 1) s h))

rerun-IsRunOf :
    (v : Services) (mode : PipelineMode) (k : ℕ) (s : Engine)
    → Open [] s
    → IsRunOf (rerun_plan k mode) (handle k (rerun v mode k s))
unfolding rerun
rerun-IsRunOf v mode k s h =
    let w2 = leb k 2 && leb 2 mode.target_stage in
    let w3 = leb k 3 && leb 3 mode.target_stage in
    finish-IsRunOf k (rerun_plan k mode) _ (
      continue-Out (llm_if v mode w3 3) [] (when_wanted w2 (stage_plan mode 2))
        (when_wanted w3 (stage_plan mode 3)) (llm_if v mode w2 2 s) (llm_if-Out v mode w2 2 [] s h)
        (llm_if-Out v mode w3 3 (when_wanted w2 (stage_plan mode 2))))

with_seed-Open :
    (v : Services) (seed : Option String) (one : StageArtifact) (s : Engine)
    → Open [] s
    → Open [] (with_seed v seed one s).1
with_seed-Open v none one s h = h
with_seed-Open v (some text) one s h = persist-Open v _ none [] _ (set_artifact-Open _ [] s h)

rerun_seeded-IsRunOf :
    (v : Services) (mode : PipelineMode) (k : ℕ) (r : Result Failure (Unit {0}) × Engine)
    (s : Engine)
    → Open [] r.1
    → rerun_seeded v mode k r ≡ ok s
    → IsRunOf (rerun_plan k mode) s
rerun_seeded-IsRunOf v mode k (err e, s') s h e' = absurd (cc)
rerun_seeded-IsRunOf v mode k (ok u, s') s h e =
    subst (IsRunOf (rerun_plan k mode)) (ok_inj e) (rerun-IsRunOf v mode k s' h)

rerun_from-IsRunOf :
    (v : Services) (mode : PipelineMode) (k : ℕ) (seed : Option String) (one : Option StageArtifact)
    (s' s : Engine)
    → Open [] s'
    → rerun_from v mode k seed one s' ≡ ok s
    → IsRunOf (rerun_plan k mode) s
rerun_from-IsRunOf v mode k seed none s' s h e =
    subst (IsRunOf (rerun_plan k mode)) (ok_inj e) (failed-IsRunOf k _ (rerun_plan k mode) s' h)
rerun_from-IsRunOf v mode k seed (some one) s' s h e =
    rerun_seeded-IsRunOf v mode k (with_seed v seed one s') s (with_seed-Open v seed one s' h) e

guarded :
    (allowed first : Bool) (e : Failure) (x s : Engine) (y : Result Failure Engine)
    (plan : List Mark)
    → IsRunOf plan x
    → (y ≡ ok s → IsRunOf plan s)
    → ◌≡◌ {A = Result Failure Engine}
        (if not allowed then err e else if first then ok x else y)
        (ok s)
    → IsRunOf plan s
guarded false first e x s y plan hx hy same = absurd (cc)
guarded true true e x s y plan hx hy same = subst (IsRunOf plan) (ok_inj same) hx
guarded true false e x s y plan hx hy same = hy same

-- Reprocessing that does not raise to its caller does a first part of what the mode, raised to the first
-- stage if need be, asks from that stage on, and ends as a run does. It never starts stage 1.
pub reprocess-IsRunOf :
    (v : Services) (latest : ℕ → Option StoredText) (id : String) (k : ℕ) (mode : PipelineMode)
    (seed : Option String) (answers : List Bool) (s : Engine)
    → reprocess v latest id k mode seed answers ≡ ok s
    → IsRunOf (rerun_plan k (reach k mode)) s
unfolding reprocess
reprocess-IsRunOf v latest id k mode seed answers s e =
    let plan = rerun_plan k (reach k mode) in
    let s' = load id latest (new_engine id answers) in
    let h = load-Open id latest (new_engine id answers) (new_engine-Open id answers) in
    guarded (leb 1 k && leb k 3) (k == 1) _ _ s _ plan (failed-IsRunOf 1 _ plan s' h)
      (rerun_from-IsRunOf v (reach k mode) k seed (lookup 1 s'.run.artifacts) s' s h) e
