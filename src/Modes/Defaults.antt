-- ===== src/Modes/Defaults.antt =====
-- What holds of the table of modes: at most one mode is the default, and every mode is valid.
use app_stt_aio.Base.{
  Bool-cases, Option, [], arith, inl, inr, none, some, String, nat_eq, string_eq, ◌∷◌, ◌≤◌, List,
  ◌||◌,
}
use app_stt_aio.Base.Dict.{lookup, remove, sum_by, AllValues-remove}
use app_stt_aio.Modes.{
  ModeDraft, Mode, ModeTable, Prompts, create_mode, update_mode, delete_found, delete_mode,
  disable_found, disable_mode, set_default_found, set_default_mode,
}
use app_stt_aio.Modes.Wf.{
  defaults, IsValid, TableIsWf, create_mode-TableIsWf, update_mode-TableIsWf,
}
use app_stt_aio.Modes.Builtins.{seed_defaults, restore_builtin}
use app_stt_aio.Modes.Builtins.Keeps.{seed_defaults-TableIsWf, restore_builtin-TableIsWf}

defaults-remove : (id : String) (t : ModeTable) → defaults (remove id t) ≤ defaults t
unfolding defaults remove sum_by
defaults-remove id [] = omega arith
defaults-remove id ((k, m) ∷ t) = ground (arith, defaults-remove id t)

delete_found-TableIsWf :
    (o : Option Mode) (id : String) (t : ModeTable)
    → TableIsWf t
    → TableIsWf (delete_found o id t).1
unfolding delete_found
delete_found-TableIsWf none id t h = h
delete_found-TableIsWf (some m) id t h = elim (Bool-cases (m.is_builtin || m.draft.is_default)) [
  | inl kept ↦ rw kept h
  | inr free ↦ rw free (record {
    single = omega (arith, defaults-remove id t, h.single);
    valid = AllValues-remove IsValid id t h.valid;
  })
]

disable_found-TableIsWf :
    (p : Prompts) (o : Option Mode) (id : String) (t : ModeTable)
    → TableIsWf t
    → TableIsWf (disable_found p o id t).1
unfolding disable_found
disable_found-TableIsWf p none id t h = h
disable_found-TableIsWf p (some m) id t h = elim (Bool-cases m.draft.is_default) [
  | inl kept ↦ rw kept h
  | inr free ↦ rw free (update_mode-TableIsWf p id _ t h)
]

set_default_found-TableIsWf :
    (p : Prompts) (o : Option Mode) (id : String) (t : ModeTable)
    → TableIsWf t
    → TableIsWf (set_default_found p o id t).1
unfolding set_default_found
set_default_found-TableIsWf p none id t h = h
set_default_found-TableIsWf p (some m) id t h = elim (Bool-cases m.draft.enabled) [
  | inl able ↦ simp able (update_mode-TableIsWf p id _ t h)
  | inr disabled ↦ simp disabled h
]

-- What the program asks of the manager of modes that writes the table.
pub data Edit : Type 0 where
  creating : String → ModeDraft → Edit
  updating : String → ModeDraft → Edit
  deleting : String → Edit
  disabling : String → Edit
  defaulting : String → Edit
  seeding : Edit
  restoring : String → Edit

pub edit : Prompts → Edit → ModeTable → ModeTable
edit p (creating id d) t = (create_mode p id d t).1
edit p (updating id d) t = (update_mode p id d t).1
edit p (deleting id) t = (delete_mode id t).1
edit p (disabling id) t = (disable_mode p id t).1
edit p (defaulting id) t = (set_default_mode p id t).1
edit p seeding t = (seed_defaults p t).1
edit p (restoring id) t = (restore_builtin p id t).1

pub edit_all : Prompts → List Edit → ModeTable → ModeTable
edit_all p [] t = t
edit_all p (e ∷ es) t = edit_all p es (edit p e t)

edit-TableIsWf : (p : Prompts) (e : Edit) (t : ModeTable) → TableIsWf t → TableIsWf (edit p e t)
unfolding edit delete_mode disable_mode set_default_mode
edit-TableIsWf p (creating id d) t h = create_mode-TableIsWf p id d t h
edit-TableIsWf p (updating id d) t h = update_mode-TableIsWf p id d t h
edit-TableIsWf p (deleting id) t h = delete_found-TableIsWf (lookup id t) id t h
edit-TableIsWf p (disabling id) t h = disable_found-TableIsWf p (lookup id t) id t h
edit-TableIsWf p (defaulting id) t h = set_default_found-TableIsWf p (lookup id t) id t h
edit-TableIsWf p seeding t h = seed_defaults-TableIsWf p t h
edit-TableIsWf p (restoring id) t h = restore_builtin-TableIsWf p id t h

-- A table with at most one default and valid modes keeps at most one default and valid modes through
-- any series of changes: modes that are created, updated, deleted, disabled or made the default,
-- built-in modes that are seeded or restored, and what of these the manager refuses.
pub edit_all-TableIsWf :
    (p : Prompts) (es : List Edit) (t : ModeTable) → TableIsWf t → TableIsWf (edit_all p es t)
unfolding edit_all
edit_all-TableIsWf p [] t h = h
edit_all-TableIsWf p (e ∷ es) t h = edit_all-TableIsWf p es (edit p e t) (edit-TableIsWf p e t h)
