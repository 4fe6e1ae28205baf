-- ===== src/Modes.antt =====
-- core/modes: presets of the pipeline, with the table of core/store/repos/mode_repo.py. The time of
-- the last change is left out; a new id comes as an argument. A transaction that fails changes nothing.
pub mod Wf
pub mod Builtins
pub mod Defaults
pub mod Choice
mod Tests
use app_stt_aio.Base.{
  Bool, Option, String, [], ap, false, if◌then◌else◌, leb, ltb, nat_eq, none, not, some, string_eq,
  suc, true, ℕ, ◌&&◌, ◌-◌, ◌/◌, ◌==◌, ◌||◌, ◌∷◌,
}
use app_stt_aio.Base.Dict.{Dict, lookup, insert, remove, is_some}
use app_stt_aio.Base.Result.{Result, Exec, ok, err}
use app_stt_aio.Base.Int.{ℤ, pos, negsuc}
use app_stt_aio.Base.Text.{strip}

pub record ModeDraft : Type 0 where
  pub name : String
  pub target_stage : ℤ
  pub inject_stage : ℤ
  pub correction_prompt : String
  pub report_prompt : String
  pub stt_provider : Option String
  pub llm_provider : Option String
  pub is_default : Bool
  pub enabled : Bool

pub record Mode : Type 0 where
  pub id : String
  pub draft : ModeDraft
  pub is_builtin : Bool

-- The classes of core/modes/errors.py, the `KeyError` of the table, and its refusal of a second row.
pub data ModeError : Type 0 where
  mode_not_found mode_validation delete_forbidden key_error integrity_error : ModeError

abbrev pub ModeTable : Type 0
ModeTable = Dict String Mode

-- `stage in (lo, ..., 3)`
abbrev pub is_stage : ℕ → ℤ → Bool
is_stage lo (negsuc n) = false
is_stage lo (pos n) = leb lo n && leb n 3

abbrev pub exceeds : ℤ → ℤ → Bool
exceeds (negsuc a) (negsuc b) = ltb a b
exceeds (negsuc a) (pos b) = false
exceeds (pos a) (negsuc b) = true
exceeds (pos a) (pos b) = ltb b a

abbrev reaches : ℕ → ℤ → Bool
reaches n (negsuc a) = false
reaches n (pos a) = leb n a

-- `normalize_prompt`, with the default prompt of the stage.
normalize_prompt : String → String → String
normalize_prompt default prompt = if strip prompt == "" then default else strip prompt

-- The two prompts of core/modes/defaults.py.
pub record Prompts : Type 0 where
  pub correction : String
  pub report : String

normalize : Prompts → ModeDraft → ModeDraft
unfolding normalize_prompt
normalize p d = record d {
  name = strip d.name;
  correction_prompt =
      if reaches 2 d.target_stage
      then normalize_prompt p.correction (strip d.correction_prompt)
      else strip d.correction_prompt;
  report_prompt =
      if reaches 3 d.target_stage
      then normalize_prompt p.report (strip d.report_prompt)
      else strip d.report_prompt;
}

pub validate_mode_draft : Prompts → ModeDraft → Result ModeError ModeDraft
unfolding normalize
validate_mode_draft p d =
    if strip d.name == ""
    then err mode_validation
    else if not (is_stage 1 d.target_stage)
    then err mode_validation
    else if not (is_stage 0 d.inject_stage)
    then err mode_validation
    else if exceeds d.inject_stage d.target_stage
    then err mode_validation
    else ok (normalize p d)

abbrev undefault : Mode → Mode
undefault m = record m { draft = record m.draft { is_default = false } }

-- `UPDATE modes SET is_default = 0`
clear_defaults : ModeTable → ModeTable
clear_defaults [] = []
clear_defaults ((k, m) ∷ t) = (k, undefault m) ∷ clear_defaults t

make_way : Mode → ModeTable → ModeTable
unfolding clear_defaults
make_way m t = if m.draft.is_default then clear_defaults t else t

-- `ModeRepo.create`
pub create : Mode → Exec ModeError ModeTable Mode
unfolding make_way
create m t =
    if is_some (lookup m.id t)
    then (err integrity_error, t)
    else (ok m, insert m.id m (make_way m t))

update_row : Option Mode → Mode → Exec ModeError ModeTable Mode
update_row none m t = (err key_error, t)
update_row (some old) m t =
    let m' = record m { is_builtin = old.is_builtin } in (ok m', insert m.id m' t)

-- `ModeRepo.update`, which leaves `is_builtin` as it is.
pub update : Mode → Exec ModeError ModeTable Mode
unfolding make_way update_row
update m t = let t' = make_way m t in update_row (lookup m.id t') m t'

create_valid : String → Result ModeError ModeDraft → Exec ModeError ModeTable Mode
create_valid id (err e) t = (err e, t)
create_valid id (ok d) t =
    if is_some (lookup id t)
    then (err mode_validation, t)
    else create (record { id = id; draft = d; is_builtin = false }) t

pub create_mode : Prompts → String → ModeDraft → Exec ModeError ModeTable Mode
unfolding create_valid
create_mode p id d t = create_valid id (validate_mode_draft p d) t

update_valid : Mode → Result ModeError ModeDraft → Exec ModeError ModeTable Mode
update_valid old (err e) t = (err e, t)
update_valid old (ok d) t = update (record old { draft = d }) t

update_found : Prompts → Option Mode → ModeDraft → Exec ModeError ModeTable Mode
unfolding update_valid
update_found p none d t = (err mode_not_found, t)
update_found p (some old) d t = update_valid old (validate_mode_draft p d) t

pub update_mode : Prompts → String → ModeDraft → Exec ModeError ModeTable Mode
unfolding update_found
update_mode p id d t = update_found p (lookup id t) d t

delete_found : Option Mode → String → Exec ModeError ModeTable (Unit {0})
delete_found none id t = (err mode_not_found, t)
delete_found (some m) id t =
    if m.is_builtin || m.draft.is_default then (err delete_forbidden, t) else (ok tt, remove id t)

pub delete_mode : String → Exec ModeError ModeTable (Unit {0})
unfolding delete_found
delete_mode id t = delete_found (lookup id t) id t

disable_found : Prompts → Option Mode → String → Exec ModeError ModeTable Mode
disable_found p none id t = (err mode_not_found, t)
disable_found p (some m) id t =
    if m.draft.is_default
    then (err delete_forbidden, t)
    else update_mode p id (record m.draft { is_default = false; enabled = false }) t

pub disable_mode : Prompts → String → Exec ModeError ModeTable Mode
unfolding disable_found
disable_mode p id t = disable_found p (lookup id t) id t

set_default_found : Prompts → Option Mode → String → Exec ModeError ModeTable Mode
set_default_found p none id t = (err mode_not_found, t)
set_default_found p (some m) id t =
    if not m.draft.enabled
    then (err mode_validation, t)
    else update_mode p id (record m.draft { is_default = true; enabled = true }) t

pub set_default_mode : Prompts → String → Exec ModeError ModeTable Mode
unfolding set_default_found
set_default_mode p id t = set_default_found p (lookup id t) id t
