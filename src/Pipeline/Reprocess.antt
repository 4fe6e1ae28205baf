-- ===== src/Pipeline/Reprocess.antt =====
-- `reprocess` of core/pipeline/pipeline.py. `latest` is what the table has as the latest artifact of
-- a stage of the session.
use app_stt_aio.Base.{
  Bool, List, Option, String, if◌then◌else◌, leb, ltb, nat_eq, none, not, some, string_eq, ℕ, ◌&&◌,
  ◌==◌,
}
use app_stt_aio.Base.Dict.{lookup}
use app_stt_aio.Base.Result.{Result, ok, err}
use app_stt_aio.Pipeline.{
  PipelineMode, StageArtifact, Failure, other_error, Engine, Services, Action, fail, handle,
  persist, set_artifact,
}
use app_stt_aio.Pipeline.Stages.{continue, llm_if, conclude, new_engine}

-- What the code reads of a stored artifact.
pub record StoredText : Type 0 where
  pub text : String
  pub provider : Option String

abbrev pub load_stage : String → ℕ → Option StoredText → Engine → Engine
load_stage session_id stage none s = s
load_stage session_id stage (some t) s =
    set_artifact
      (record {
        session_id = session_id;
        stage = stage;
        text = t.text;
        language = "ko";
        provider = t.provider;
        inject_result = none;
      })
      s

unfoldable pub load : String → (ℕ → Option StoredText) → Engine → Engine
load session_id latest s =
    load_stage session_id 3 (latest 3)
      (load_stage session_id 2 (latest 2) (load_stage session_id 1 (latest 1) s))

-- The stages that run again.
unfoldable pub rerun : Services → PipelineMode → ℕ → Action (Unit {0})
rerun v mode from_stage s = continue conclude (
    continue (llm_if v mode (leb from_stage 3 && leb 3 mode.target_stage) 3)
      (llm_if v mode (leb from_stage 2 && leb 2 mode.target_stage) 2 s))

abbrev pub rerun_seeded :
    Services → PipelineMode → ℕ → Result Failure (Unit {0}) × Engine → Result Failure Engine
rerun_seeded v mode from_stage (err e, s) = err e
rerun_seeded v mode from_stage (ok u, s) = ok (handle from_stage (rerun v mode from_stage s))

-- The edited text takes the place of stage 1 and is stored. An error of the table goes to the caller.
abbrev pub with_seed : Services → Option String → StageArtifact → Action (Unit {0})
with_seed v none one s = (ok tt, s)
with_seed v (some text) one s =
    let a = record one {
      text = text;
      stage = 1;
      session_id = s.run.session_id;
      inject_result = none;
    } in
    persist v a none (set_artifact a s)

abbrev pub rerun_from :
    Services
    → PipelineMode
    → ℕ
    → Option String
    → Option StageArtifact
    → Engine
    → Result Failure Engine
rerun_from v mode from_stage seed none s =
    ok (fail from_stage (other_error "stage 1 artifact is required for reprocess") s)
rerun_from v mode from_stage seed (some one) s =
    rerun_seeded v mode from_stage (with_seed v seed one s)

unfoldable pub reach : ℕ → PipelineMode → PipelineMode
reach from_stage mode =
    if ltb mode.target_stage from_stage then record mode { target_stage = from_stage } else mode

-- `mode` is the argument, or `resolve_mode_for_session`.
unfoldable pub reprocess :
    Services
    → (ℕ → Option StoredText)
    → String
    → ℕ
    → PipelineMode
    → Option String
    → List Bool
    → Result Failure Engine
reprocess v latest session_id from_stage mode seed answers =
    if not (leb 1 from_stage && leb from_stage 3)
    then err (other_error "from_stage must be 1, 2, or 3")
    else let s = load session_id latest (new_engine session_id answers) in
      if from_stage == 1
      then ok (fail 1 (other_error "reprocess from stage 1 requires original audio") s)
      else rerun_from v (reach from_stage mode) from_stage seed (lookup 1 s.run.artifacts) s
