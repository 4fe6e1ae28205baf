-- ===== src/Pipeline/Tests.antt =====
-- Tests of the pipeline.
use app_stt_aio.Base.{
  Option, [], false, if◌then◌else◌, nat_eq, none, refl, some, string_eq, true, ℕ, ◌==◌, ◌∷◌,
}
use app_stt_aio.Base.Dict.{lookup, insert}
use app_stt_aio.Base.Result.{Result, ok, err}
use app_stt_aio.Session.State.{SessionSource}
use app_stt_aio.Pipeline.{
  PipelineMode, PipelineInput, Failure, Engine, Services, emit, canceled_now, asked, cancel, fail,
  handle, persist, set_artifact, inject_text, inject_artifact, inject_at,
}
use app_stt_aio.Pipeline.Stages.{
  run_stage1, run_llm_stage, stage1, source_of, llm_stage, conclude, run_stages, new_engine,
  mode_or_default, run,
}
use app_stt_aio.Pipeline.Reprocess.{StoredText, load, rerun, reach, reprocess}
use app_stt_aio.Pipeline.Runs.{IsRunOf, plan_of, run-IsRunOf}
use app_stt_aio.Pipeline.Rerun.{rerun_plan, reprocess-IsRunOf}

-- A recognizer that hears "hi", and a language model that answers "hello".
abbrev services : Services
services = record {
  transcribe = λ _. ok (record { text = "hi"; language = "en"; provider_id = "local" });
  process = λ text. ok text;
  prompt = λ _. ok "prompt";
  complete = λ _ _. ok (record { text = "hello"; provider_id = "llm" });
  add = λ _. none;
  inject = λ _. ok (record { success = true; chars_injected = 5 });
}

abbrev two_stages : PipelineMode
two_stages = record { id = none; target_stage = 2; inject_stage = 2 }

abbrev input : PipelineInput
input = record { source = SessionSource.batch; audio = some (1 ∷ []); session_id = some "s" }

abbrev engine_of : Option Engine → Engine
engine_of none = new_engine "" []
engine_of (some s) = s

abbrev result_of : Result Failure Engine → Engine
result_of (err e) = new_engine "" []
result_of (ok s) = s

abbrev stored : ℕ → Option StoredText
stored k = if k == 1 then some (record { text = "hi"; provider = none }) else none

-- A run that is canceled after stage 1.
run-IsRunOf_example :
    IsRunOf
      (plan_of (mode_or_default (some two_stages)))
      (engine_of (run services input (some two_stages) (false ∷ true ∷ [])))
unfolding run run_stages stage1 run_stage1 llm_stage run_llm_stage source_of conclude new_engine
    emit canceled_now asked cancel fail handle persist set_artifact inject_text inject_artifact
    inject_at
run-IsRunOf_example =
    run-IsRunOf services input (some two_stages) (false ∷ true ∷ [])
      (engine_of (run services input (some two_stages) (false ∷ true ∷ []))) refl

reprocess-IsRunOf_example :
    IsRunOf
      (rerun_plan 2 (reach 2 two_stages))
      (result_of (reprocess services stored "s" 2 two_stages (some "ho") []))
unfolding reprocess rerun load reach llm_stage run_llm_stage source_of conclude new_engine emit
    canceled_now asked cancel fail handle persist set_artifact inject_text inject_artifact inject_at
    lookup insert
reprocess-IsRunOf_example =
    reprocess-IsRunOf services stored "s" 2 two_stages (some "ho") []
      (result_of (reprocess services stored "s" 2 two_stages (some "ho") [])) refl
