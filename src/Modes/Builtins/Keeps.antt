-- ===== src/Modes/Builtins/Keeps.antt =====
-- What the modes that are built in leave of the table.
use app_stt_aio.Base.{Option, String, [], nat_eq, none, some, string_eq, ◌∷◌, ◌≡◌, refl, true}
use app_stt_aio.Base.Dict.{Dict, lookup}
use app_stt_aio.Base.Result.{Result, ok, err, Exec, and_then}
use app_stt_aio.Modes.{ModeDraft, Mode, ModeError, ModeTable, Prompts, validate_mode_draft}
use app_stt_aio.Modes.Builtins.{
  builtin_modes, seed_valid, seed_modes, seed_defaults, restore_valid, restore_found, restore_known,
  restore_builtin,
}
use app_stt_aio.Modes.Wf.{
  DraftIsValid, TableIsWf, create-TableIsWf, update-TableIsWf, validate_mode_draft-DraftIsValid,
}

seed_valid-TableIsWf :
    (id : String) (r : Result ModeError ModeDraft) (t : ModeTable)
    → ((got : ModeDraft) → r ≡ ok got → DraftIsValid got)
    → TableIsWf t
    → TableIsWf (seed_valid id r t).1
unfolding seed_valid
seed_valid-TableIsWf id (err e) t v h = h
seed_valid-TableIsWf id (ok d) t v h =
    create-TableIsWf (record { id = id; draft = d; is_builtin = true }) t (v d refl) h

and_then-TableIsWf :
    {A B : Type 0} (r : Result ModeError A × ModeTable) (f : A → Exec ModeError ModeTable B)
    → TableIsWf r.1
    → ((a : A) (t : ModeTable) → TableIsWf t → TableIsWf (f a t).1)
    → TableIsWf (and_then r f).1
and_then-TableIsWf (ok a, t) f h k = k a t h
and_then-TableIsWf (err e, t) f h k = h

seed_modes-TableIsWf :
    (p : Prompts) (ds : Dict String ModeDraft) (t : ModeTable)
    → TableIsWf t
    → TableIsWf (seed_modes p ds t).1
unfolding seed_modes
seed_modes-TableIsWf p [] t h = h
seed_modes-TableIsWf p ((id, d) ∷ ds) t h =
    and_then-TableIsWf (seed_valid id (validate_mode_draft p d) t) (λ _. seed_modes p ds)
      (seed_valid-TableIsWf id (validate_mode_draft p d) t (validate_mode_draft-DraftIsValid p d) h)
      (λ _ t' h'. seed_modes-TableIsWf p ds t' h')

pub seed_defaults-TableIsWf :
    (p : Prompts) (t : ModeTable) → TableIsWf t → TableIsWf (seed_defaults p t).1
unfolding seed_defaults
seed_defaults-TableIsWf p [] h = seed_modes-TableIsWf p (builtin_modes p) [] h
seed_defaults-TableIsWf p (row ∷ t) h = h

restore_valid-TableIsWf :
    (old : Mode) (r : Result ModeError ModeDraft) (t : ModeTable)
    → ((got : ModeDraft) → r ≡ ok got → DraftIsValid got)
    → TableIsWf t
    → TableIsWf (restore_valid old r t).1
unfolding restore_valid
restore_valid-TableIsWf old (err e) t v h = h
restore_valid-TableIsWf old (ok d) t v h =
    let valid = v d refl in
    update-TableIsWf _ t
      (record {
        named = valid.named;
        target = valid.target;
        inject = valid.inject;
        reached = valid.reached;
      })
      h

restore_found-TableIsWf :
    (p : Prompts) (d : ModeDraft) (o : Option Mode) (t : ModeTable)
    → TableIsWf t
    → TableIsWf (restore_found p d o t).1
unfolding restore_found
restore_found-TableIsWf p d none t h = h
restore_found-TableIsWf p d (some old) t h =
    restore_valid-TableIsWf old (validate_mode_draft p d) t (validate_mode_draft-DraftIsValid p d) h

restore_known-TableIsWf :
    (p : Prompts) (o : Option ModeDraft) (id : String) (t : ModeTable)
    → TableIsWf t
    → TableIsWf (restore_known p o id t).1
unfolding restore_known
restore_known-TableIsWf p none id t h = h
restore_known-TableIsWf p (some d) id t h = restore_found-TableIsWf p d (lookup id t) t h

pub restore_builtin-TableIsWf :
    (p : Prompts) (id : String) (t : ModeTable) → TableIsWf t → TableIsWf (restore_builtin p id t).1
unfolding restore_builtin
restore_builtin-TableIsWf p id t h = restore_known-TableIsWf p (lookup id (builtin_modes p)) id t h
