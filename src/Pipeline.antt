-- ===== src/Pipeline.antt =====
-- core/pipeline: a batch run from audio to text, through at most three stages. An `Engine` is the
-- run, which the code changes in place, with what can be seen of it: the events on the bus, the rows
-- of artifacts, and the texts that went to the injector. Callbacks that raise are caught by the bus.
-- `answers` is what the cancel check will say, call by call. The lock of the queue makes a run one step.
pub mod Stages
pub mod Reprocess
pub mod Plan
pub mod Steps
pub mod Runs
pub mod Rerun
mod Tests
use app_stt_aio.Base.{
  Bool, Bytes, List, Option, String, [], ap, false, if◌then◌else◌, nat_eq, none, some, string_eq,
  suc, true, ℕ, ◌++◌, ◌+◌, ◌-◌, ◌/◌, ◌==◌, ◌∷◌,
}
use app_stt_aio.Base.Dict.{Dict, lookup, insert}
use app_stt_aio.Base.Result.{Result, Exec, ok, err}
use app_stt_aio.Base.Text.{strip}
use app_stt_aio.Session.State.{SessionSource}

pub data PipelineStatus : Type 0 where
  pending running finished error canceled : PipelineStatus

pub record PipelineMode : Type 0 where
  pub id : Option String
  pub target_stage : ℕ
  pub inject_stage : ℕ

abbrev pub default_batch_mode : PipelineMode
default_batch_mode = record { id = none; target_stage = 1; inject_stage = 1 }

pub record PipelineInput : Type 0 where
  pub source : SessionSource
  pub audio : Option Bytes
  pub session_id : Option String

pub record InjectOutcome : Type 0 where
  pub success : Bool
  pub chars_injected : ℕ

pub record StageArtifact : Type 0 where
  pub session_id : String
  pub stage : ℕ
  pub text : String
  pub language : String
  pub provider : Option String
  pub inject_result : Option InjectOutcome

pub record PipelineRun : Type 0 where
  pub session_id : String
  pub artifacts : Dict ℕ StageArtifact
  pub status : PipelineStatus
  pub error_stage : Option ℕ
  pub error : Option String

-- A `PipelineCanceledError` or any other exception, with its text.
pub data Failure : Type 0 where
  canceled_error : String → Failure
  other_error : String → Failure

pub data Event : Type 0 where
  stage_started : ℕ → Event
  stage_completed : StageArtifact → Event
  inject_requested : StageArtifact → Event
  pipeline_error : ℕ → Event
  pipeline_finished : PipelineRun → Event

-- A row of the table of artifacts, with the prompt that it was made with.
pub record Row : Type 0 where
  pub artifact : StageArtifact
  pub prompt_snapshot : Option String

pub record Engine : Type 0 where
  pub run : PipelineRun
  pub events : List Event
  pub rows : List Row
  pub injections : List String
  pub answers : List Bool

pub record Transcript : Type 0 where
  pub text : String
  pub language : String
  pub provider_id : String

pub record Completion : Type 0 where
  pub text : String
  pub provider_id : String

-- What the run calls: the recognizer, the text processor, the prompt that the session's mode has for a
-- stage, the language model, the table of artifacts, and the injector.
pub record Services : Type 0 where
  pub transcribe : Bytes → Result Failure Transcript
  pub process : String → Result Failure String
  pub prompt : ℕ → Result Failure String
  pub complete : String → String → Result Failure Completion
  pub add : Row → Option Failure
  pub inject : String → Result Failure InjectOutcome

abbrev pub Action : Type 0 → Type 0
Action A = Exec Failure Engine A

unfoldable pub emit : Event → Engine → Engine
emit e s = record s { events = s.events ++ e ∷ [] }

-- `is_canceled()`; without answers it is the default, which says no.
unfoldable pub canceled_now : List Bool → Bool
canceled_now [] = false
canceled_now (b ∷ bs) = b

abbrev later : List Bool → List Bool
later [] = []
later (b ∷ bs) = bs

unfoldable pub asked : Engine → Engine
asked s = record s { answers = later s.answers }

-- `_cancel`
unfoldable pub cancel : ℕ → Engine → Engine
cancel stage s =
    let run = record s.run { status = canceled; error_stage = some stage } in
    emit (pipeline_finished run) (record s { run = run })

abbrev text_of : Failure → String
text_of (canceled_error text) = text
text_of (other_error text) = text

-- `_fail`
unfoldable pub fail : ℕ → Failure → Engine → Engine
fail stage e s =
    let run = record s.run { status = error; error_stage = some stage; error = some (text_of e) } in
    emit (pipeline_finished run) (emit (pipeline_error stage) (record s { run = run }))

-- `except PipelineCanceledError: _cancel; except Exception: _fail`
unfoldable pub handle : ℕ → Result Failure (Unit {0}) × Engine → Engine
handle stage (ok u, s) = s
handle stage (err (canceled_error text), s) = cancel stage s
handle stage (err (other_error text), s) = fail stage (other_error text) s

abbrev pub added : Option Failure → Row → Action (Unit {0})
added none row s = (ok tt, record s { rows = s.rows ++ row ∷ [] })
added (some e) row s = (err e, s)

-- `_persist_stage_artifact`
unfoldable pub persist : Services → StageArtifact → Option String → Action (Unit {0})
persist v a snapshot s =
    let row : Row = record { artifact = a; prompt_snapshot = snapshot } in added (v.add row) row s

unfoldable pub set_artifact : StageArtifact → Engine → Engine
set_artifact a s = record s { run = record s.run { artifacts = insert a.stage a s.run.artifacts } }

-- `_inject_text`, with the same look at a blank text in `inject_stage_text`. `true` says that the
-- injector is called.
unfoldable pub inject_text : Services → String → Bool × Result Failure InjectOutcome
inject_text v text =
    if strip text == ""
    then (false, ok (record { success = true; chars_injected = 0 }))
    else (true, v.inject text)

abbrev pub injected : StageArtifact → Result Failure InjectOutcome → Action (Unit {0})
injected a (err e) s = (err e, s)
injected a (ok r) s =
    let a' = record a { inject_result = some r } in
    (ok tt, set_artifact a' (emit (inject_requested a') s))

-- `_inject_artifact`, and the artifact put back into the run.
unfoldable pub inject_artifact : Services → StageArtifact → Action (Unit {0})
inject_artifact v a s =
    let (called, r) = inject_text v a.text in
    injected a r (if called then record s { injections = s.injections ++ a.text ∷ [] } else s)

unfoldable pub inject_at : Services → ℕ → PipelineMode → StageArtifact → Action (Unit {0})
inject_at v stage mode a s =
    if mode.inject_stage == stage then inject_artifact v a s else (ok tt, s)
