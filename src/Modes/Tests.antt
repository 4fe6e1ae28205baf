-- ===== src/Modes/Tests.antt =====
-- A table with two modes.
use app_stt_aio.Base.{
  Bool, String, [], arith, false, nat_eq, none, refl, string_eq, true, ◌∷◌, some, ◌≡◌,
}
use app_stt_aio.Base.Dict.{sum_by}
use app_stt_aio.Base.Int.{pos}
use app_stt_aio.Modes.{ModeDraft, Mode, ModeTable, Prompts}
use app_stt_aio.Base.Result.{ok}
use app_stt_aio.Modes.Choice.{resolve_mode, has_enabled, IsChosen, resolve_mode-IsChosen}
use app_stt_aio.Modes.Defaults.{
  creating, deleting, defaulting, seeding, restoring, edit_all, edit_all-TableIsWf,
}
use app_stt_aio.Modes.Wf.{TableIsWf, defaults}

abbrev draft_of : String → Bool → ModeDraft
draft_of name is_default = record {
  name = name;
  target_stage = pos 2;
  inject_stage = pos 1;
  correction_prompt = "c";
  report_prompt = "";
  stt_provider = none;
  llm_provider = none;
  is_default = is_default;
  enabled = true;
}

abbrev prompts : Prompts
prompts = record { correction = "correct"; report = "report" }

abbrev quick_mode : Mode
quick_mode = record { id = "quick"; draft = draft_of "Quick" true; is_builtin = true }

abbrev two_modes : ModeTable
two_modes =
    ("quick", quick_mode)
    ∷ ("polish", record { id = "polish"; draft = draft_of "Polish" false; is_builtin = false })
    ∷ []

two_modes-TableIsWf : TableIsWf two_modes
unfolding defaults sum_by
two_modes-TableIsWf = record {
  single = omega arith;
  valid = (
    record { named = refl; target = refl; inject = refl; reached = refl },
    (record { named = refl; target = refl; inject = refl; reached = refl }, tt),
  );
}

edit_all-TableIsWf_example : TableIsWf (
    edit_all prompts
      (defaulting "polish"
        ∷ deleting "quick"
        ∷ seeding
        ∷ restoring "polish"
        ∷ creating "new" (draft_of "New" true)
        ∷ [])
      two_modes)
edit_all-TableIsWf_example =
    edit_all-TableIsWf prompts
      (defaulting "polish"
        ∷ deleting "quick"
        ∷ seeding
        ∷ restoring "polish"
        ∷ creating "new" (draft_of "New" true)
        ∷ [])
      two_modes two_modes-TableIsWf

-- Any mode comes before any other.
abbrev as_they_come : String → String → Bool
as_they_come a b = true

resolve_mode-IsChosen_example :
    (got : Mode) × (resolve_mode as_they_come (some "unknown") two_modes ≡ ok got)
    × IsChosen as_they_come (some "unknown") two_modes got
unfolding has_enabled
resolve_mode-IsChosen_example = resolve_mode-IsChosen as_they_come (some "unknown") two_modes refl
