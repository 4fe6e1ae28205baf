-- ===== src/Modes/Builtins.antt =====
-- The modes of core/modes/defaults.py: `seed_defaults` and `restore_builtin` of the manager. The modes that
-- `seed_defaults` returns are left out.
pub mod Keeps
use app_stt_aio.Base.{
  Bool, Option, String, [], false, nat_eq, none, some, string_eq, true, ℕ, ◌∷◌, ap, if◌then◌else◌,
  not, ◌-◌, ◌/◌,
}
use app_stt_aio.Base.Dict.{Dict, lookup}
use app_stt_aio.Base.Result.{Result, Exec, ok, err, and_then}
use app_stt_aio.Base.Int.{pos}
use app_stt_aio.Modes.{
  ModeDraft, Mode, ModeError, mode_not_found, ModeTable, Prompts, validate_mode_draft, create,
  update,
}

-- A draft with the defaults of `ModeDraft`.
abbrev plain_draft : String → ℕ → ℕ → ModeDraft
plain_draft name target inject = record {
  name = name;
  target_stage = pos target;
  inject_stage = pos inject;
  correction_prompt = "";
  report_prompt = "";
  stt_provider = none;
  llm_provider = none;
  is_default = false;
  enabled = true;
}

-- `BUILTIN_MODES`
pub builtin_modes : Prompts → Dict String ModeDraft
builtin_modes p =
    ("quick-dictation", record (plain_draft "빠른 받아쓰기" 1 1) { is_default = true })
    ∷ ("polish", record (plain_draft "문장 다듬기" 2 2) { correction_prompt = p.correction })
    ∷ (
      "meeting",
      record (plain_draft "회의록" 3 0) { correction_prompt = p.correction; report_prompt = p.report },
    )
    ∷ (
      "report",
      record (plain_draft "보고서" 3 0) { correction_prompt = p.correction; report_prompt = p.report },
    )
    ∷ []

seed_valid : String → Result ModeError ModeDraft → Exec ModeError ModeTable Mode
seed_valid id (err e) t = (err e, t)
seed_valid id (ok d) t = create (record { id = id; draft = d; is_builtin = true }) t

-- Each mode is a transaction of its own.
seed_modes : Prompts → Dict String ModeDraft → Exec ModeError ModeTable (Unit {0})
unfolding seed_valid
seed_modes p [] t = (ok tt, t)
seed_modes p ((id, d) ∷ ds) t =
    and_then (seed_valid id (validate_mode_draft p d) t) (λ _. seed_modes p ds)

-- Only into an empty table.
pub seed_defaults : Prompts → Exec ModeError ModeTable (Unit {0})
unfolding seed_modes builtin_modes
seed_defaults p [] = seed_modes p (builtin_modes p) []
seed_defaults p (row ∷ t) = (ok tt, row ∷ t)

restore_valid : Mode → Result ModeError ModeDraft → Exec ModeError ModeTable Mode
restore_valid old (err e) t = (err e, t)
restore_valid old (ok d) t =
    update
      (record {
        id = old.id;
        draft = record d { is_default = old.draft.is_default; enabled = true };
        is_builtin = true;
      })
      t

restore_found : Prompts → ModeDraft → Option Mode → Exec ModeError ModeTable Mode
unfolding restore_valid
restore_found p d none t = (err mode_not_found, t)
restore_found p d (some old) t = restore_valid old (validate_mode_draft p d) t

restore_known : Prompts → Option ModeDraft → String → Exec ModeError ModeTable Mode
unfolding restore_found
restore_known p none id t = (err mode_not_found, t)
restore_known p (some d) id t = restore_found p d (lookup id t) t

pub restore_builtin : Prompts → String → Exec ModeError ModeTable Mode
unfolding restore_known builtin_modes
restore_builtin p id t = restore_known p (lookup id (builtin_modes p)) id t
