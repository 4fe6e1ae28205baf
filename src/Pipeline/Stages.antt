-- ===== src/Pipeline/Stages.antt =====
-- core/pipeline/stages.py, and the stages of `Pipeline` around it: `_run_stage2`, `_run_stage3`,
-- `_run_unlocked` and `run`.
use app_stt_aio.Base.{
  Bool, Bytes, List, Option, String, [], false, if◌then◌else◌, leb, ltb, nat_eq, none, some,
  string_eq, true, ℕ, ◌==◌,
}
use app_stt_aio.Base.Dict.{lookup}
use app_stt_aio.Base.Result.{Result, ok, err}
use app_stt_aio.Base.Text.{strip}
use app_stt_aio.Session.State.{SessionSource}
use app_stt_aio.Pipeline.{
  PipelineStatus, PipelineMode, default_batch_mode, PipelineInput, StageArtifact, PipelineRun,
  Failure, other_error, stage_started, stage_completed, pipeline_finished, Engine, Transcript,
  Completion, Services, Action, emit, canceled_now, asked, cancel, fail, handle, persist,
  set_artifact, inject_at,
}

abbrev processed : Transcript → String → Result Failure String → Result Failure StageArtifact
processed t session_id (err e) = err e
processed t session_id (ok text) = ok (record {
  session_id = session_id;
  stage = 1;
  text = text;
  language = t.language;
  provider = if t.provider_id == "" then none else some t.provider_id;
  inject_result = none;
})

abbrev transcribed : Services → String → Result Failure Transcript → Result Failure StageArtifact
transcribed v session_id (err e) = err e
transcribed v session_id (ok t) = processed t session_id (v.process t.text)

-- `run_stage1`
unfoldable pub run_stage1 : Services → Bytes → String → Result Failure StageArtifact
run_stage1 v audio session_id = transcribed v session_id (v.transcribe audio)

abbrev artifact_of : String → ℕ → StageArtifact → String → Option String → StageArtifact
artifact_of session_id stage source text provider = record {
  session_id = session_id;
  stage = stage;
  text = text;
  language = source.language;
  provider = provider;
  inject_result = none;
}

abbrev completed :
    String
    → ℕ
    → StageArtifact
    → String
    → Result Failure Completion
    → Result Failure (StageArtifact × String)
completed session_id stage source prompt (err e) = err e
completed session_id stage source prompt (ok c) =
    ok (artifact_of session_id stage source c.text (some c.provider_id), prompt)

abbrev prompted :
    Services
    → String
    → ℕ
    → StageArtifact
    → Result Failure String
    → Result Failure (StageArtifact × String)
prompted v session_id stage source (err e) = err e
prompted v session_id stage source (ok prompt) =
    if strip source.text == ""
    then ok (artifact_of session_id stage source source.text none, prompt)
    else completed session_id stage source prompt (v.complete prompt source.text)

-- `run_stage2` and `run_stage3`, which differ in the number of the stage only.
unfoldable pub run_llm_stage :
    Services → String → ℕ → StageArtifact → Result Failure (StageArtifact × String)
run_llm_stage v session_id stage source = prompted v session_id stage source (v.prompt stage)

-- After the row of the artifact was added: the end of a stage.
abbrev pub complete_stage :
    Services
    → PipelineMode
    → StageArtifact
    → Result Failure (Unit {0}) × Engine
    → Result Failure (Unit {0}) × Engine
complete_stage v mode a (err e, s) = (err e, s)
complete_stage v mode a (ok u, s) =
    let s' = emit (stage_completed a) (set_artifact a s) in
    if canceled_now s'.answers
    then (ok tt, cancel a.stage (asked s'))
    else inject_at v a.stage mode a (asked s')

abbrev pub stage1_from : Services → PipelineMode → Result Failure StageArtifact → Action (Unit {0})
stage1_from v mode (err e) s = (err e, s)
stage1_from v mode (ok a) s = complete_stage v mode a (persist v a none s)

-- The part of `_run_unlocked` that is stage 1.
unfoldable pub stage1 : Services → PipelineMode → Bytes → Action (Unit {0})
stage1 v mode audio s =
    let s' = emit (stage_started 1) s in
    if canceled_now s'.answers
    then (ok tt, cancel 1 (asked s'))
    else stage1_from v mode (run_stage1 v audio s.run.session_id) (asked s')

-- An exception of the language model is caught within the stage.
abbrev pub llm_from :
    Services → PipelineMode → ℕ → Result Failure (StageArtifact × String) → Action (Unit {0})
llm_from v mode stage (err e) s = (ok tt, fail stage e s)
llm_from v mode stage (ok (a, prompt)) s = complete_stage v mode a (persist v a (some prompt) s)

-- What a stage reads. `none` is a `KeyError` for the artifact of stage 1.
abbrev first_of : Option StageArtifact → Option StageArtifact → Option StageArtifact
first_of (some a) other = some a
first_of none other = other

unfoldable pub source_of : ℕ → PipelineRun → Option StageArtifact
source_of stage r =
    if stage == 3
    then elim (lookup 1 r.artifacts) [
      | none ↦ none
      | some one ↦ first_of (lookup 2 r.artifacts) (some one)
    ]
    else lookup 1 r.artifacts

-- Stage 2 reads within its `try`, stage 3 before it.
abbrev pub llm_on : Services → PipelineMode → ℕ → Option StageArtifact → Action (Unit {0})
llm_on v mode stage none s =
    if stage == 3 then (err (other_error "1"), s) else (ok tt, fail stage (other_error "1") s)
llm_on v mode stage (some source) s =
    llm_from v mode stage (run_llm_stage v s.run.session_id stage source) s

-- `_run_stage2` and `_run_stage3`
unfoldable pub llm_stage : Services → PipelineMode → ℕ → Action (Unit {0})
llm_stage v mode stage s =
    let s' = emit (stage_started stage) s in
    if canceled_now s'.answers
    then (ok tt, cancel stage (asked s'))
    else llm_on v mode stage (source_of stage s.run) (asked s')

abbrev pub is_running : PipelineStatus → Bool
is_running PipelineStatus.running = true
is_running _ = false

-- `if run.status is not RUNNING: return run`
abbrev pub continue :
    Action (Unit {0}) → Result Failure (Unit {0}) × Engine → Result Failure (Unit {0}) × Engine
continue next (err e, s) = (err e, s)
continue next (ok u, s) = if is_running s.run.status then next s else (ok tt, s)

abbrev pub llm_if : Services → PipelineMode → Bool → ℕ → Action (Unit {0})
llm_if v mode wanted stage s = if wanted then llm_stage v mode stage s else (ok tt, s)

unfoldable pub conclude : Action (Unit {0})
conclude s =
    let run = record s.run { status = PipelineStatus.finished } in
    (ok tt, emit (pipeline_finished run) (record s { run = run }))

-- The `try` block of `_run_unlocked`.
unfoldable pub run_stages : Services → PipelineMode → Bytes → Action (Unit {0})
run_stages v mode audio s = continue conclude (
    continue (llm_if v mode (leb 3 mode.target_stage) 3)
      (continue (llm_if v mode (leb 2 mode.target_stage) 2) (stage1 v mode audio s)))

unfoldable pub new_engine : String → List Bool → Engine
new_engine session_id answers = record {
  run = record {
    session_id = session_id;
    artifacts = [];
    status = PipelineStatus.running;
    error_stage = none;
    error = none;
  };
  events = [];
  rows = [];
  injections = [];
  answers = answers;
}

abbrev pub is_batch : SessionSource → Bool
is_batch SessionSource.batch = true
is_batch _ = false

abbrev pub run_audio : Services → PipelineMode → Option Bytes → Engine → Engine
run_audio v mode none s = fail 1 (other_error "batch input requires audio") s
run_audio v mode (some audio) s =
    if ltb mode.target_stage 1
    then fail 1 (other_error "target_stage must be >= 1") s
    else handle 1 (run_stages v mode audio s)

abbrev pub run_session :
    Services → PipelineInput → PipelineMode → Option String → List Bool → Option Engine
run_session v i mode none answers = none
run_session v i mode (some session_id) answers =
    let s = new_engine session_id answers in
    some (
      if is_batch i.source
      then run_audio v mode i.audio s
      else fail 0 (other_error "source is planned for a later phase") s)

abbrev pub mode_or_default : Option PipelineMode → PipelineMode
mode_or_default none = default_batch_mode
mode_or_default (some mode) = mode

-- `run`, with `_run_unlocked`; `none` is the `ValueError` for a missing session.
unfoldable pub run : Services → PipelineInput → Option PipelineMode → List Bool → Option Engine
run v i mode answers = run_session v i (mode_or_default mode) i.session_id answers
