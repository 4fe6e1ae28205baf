-- ===== src/Modes/Wf.antt =====
-- What holds of the table of modes, and that a row that is written keeps it.
use app_stt_aio.Base.{
  Bool, Bool-cases, Option, [], arith, false, if◌then◌else◌, inl, inr, nat_eq, none, refl, some,
  string_eq, true, ℕ, ◌+◌, ◌==◌, ◌∷◌, ◌≡◌, ◌≤◌, String, not, subst,
}
use app_stt_aio.Base.Dict.{
  lookup, insert, is_some, sum_by, AllValues, AllValues-insert, sum_by-insert,
}
use app_stt_aio.Base.Result.{Result, ok, err}
use app_stt_aio.Base.Text.{strip}
use app_stt_aio.Modes.{
  ModeError, mode_validation, ModeDraft, Mode, ModeTable, Prompts, is_stage, exceeds, normalize,
  validate_mode_draft, clear_defaults, make_way, create, update_row, update, create_valid,
  create_mode, update_valid, update_found, update_mode,
}

abbrev default_weight : Mode → ℕ
default_weight m = if m.draft.is_default then 1 else 0

-- How many modes are marked as the default.
unfoldable pub defaults : ModeTable → ℕ
defaults t = sum_by default_weight t

-- Text is injected at a stage that is reached.
pub record DraftIsValid (d : ModeDraft) : Type 0 where
  pub named : (d.name == "") ≡ false
  pub target : is_stage 1 d.target_stage ≡ true
  pub inject : is_stage 0 d.inject_stage ≡ true
  pub reached : exceeds d.inject_stage d.target_stage ≡ false

abbrev pub IsValid : Mode → Type 0
IsValid m = DraftIsValid m.draft

pub record TableIsWf (t : ModeTable) : Type 0 where
  pub single : defaults t ≤ 1
  pub valid : AllValues IsValid t

defaults-clear : (t : ModeTable) → defaults (clear_defaults t) ≡ 0
unfolding defaults clear_defaults sum_by
defaults-clear [] = refl
defaults-clear ((k, m) ∷ t) = omega (arith, defaults-clear t)

AllValues-clear : (t : ModeTable) → AllValues IsValid t → AllValues IsValid (clear_defaults t)
unfolding clear_defaults
AllValues-clear [] h = tt
AllValues-clear ((k, m) ∷ t) h = (
  record { named = h.0.named; target = h.0.target; inject = h.0.inject; reached = h.0.reached },
  AllValues-clear t h.1,
)

defaults-make_way :
    (m : Mode) (t : ModeTable) → TableIsWf t → defaults (make_way m t) + default_weight m ≤ 1
unfolding make_way
defaults-make_way m t h = elim (Bool-cases m.draft.is_default) [
  | inl marked ↦ rw marked (omega (arith, defaults-clear t))
  | inr unmarked ↦ rw unmarked (omega (arith, h.single))
]

make_way-TableIsWf : (m : Mode) (t : ModeTable) → TableIsWf t → TableIsWf (make_way m t)
unfolding make_way
make_way-TableIsWf m t h = elim (Bool-cases m.draft.is_default) [
  | inl marked ↦
      rw marked
        (record { single = omega (arith, defaults-clear t); valid = AllValues-clear t h.valid })
  | inr unmarked ↦ rw unmarked h
]

insert-TableIsWf :
    (m : Mode) (t : ModeTable) → IsValid m → TableIsWf t → TableIsWf (insert m.id m (make_way m t))
unfolding defaults
insert-TableIsWf m t v h = record {
  single =
      omega (arith, defaults-make_way m t h, sum_by-insert default_weight m.id m (make_way m t));
  valid = AllValues-insert IsValid m.id m (make_way m t) v (make_way-TableIsWf m t h).valid;
}

pub create-TableIsWf :
    (m : Mode) (t : ModeTable) → IsValid m → TableIsWf t → TableIsWf (create m t).1
unfolding create
create-TableIsWf m t v h = elim (Bool-cases (is_some (lookup m.id t))) [
  | inl taken ↦ rw taken h
  | inr free ↦ rw free (insert-TableIsWf m t v h)
]

update_row-TableIsWf :
    (o : Option Mode) (m : Mode) (t : ModeTable)
    → IsValid m
    → TableIsWf t
    → TableIsWf (update_row o m (make_way m t)).1
unfolding update_row make_way
update_row-TableIsWf none m t v h = make_way-TableIsWf m t h
update_row-TableIsWf (some old) m t v h =
    insert-TableIsWf (record m { is_builtin = old.is_builtin }) t v h

pub update-TableIsWf :
    (m : Mode) (t : ModeTable) → IsValid m → TableIsWf t → TableIsWf (update m t).1
unfolding update
update-TableIsWf m t v h = update_row-TableIsWf (lookup m.id (make_way m t)) m t v h

not-false : {b : Bool} → not b ≡ false → b ≡ true
not-false {b = true} e = refl
not-false {b = false} e = absurd (cc)

accepted :
    (a b c f : Bool) (d got : ModeDraft)
    → ◌≡◌ {A = Result ModeError ModeDraft}
        (if a
          then err mode_validation
          else if b
          then err mode_validation
          else if c
          then err mode_validation
          else if f
          then err mode_validation
          else ok d)
        (ok got)
    → (a ≡ false) × (b ≡ false) × (c ≡ false) × (f ≡ false) × (d ≡ got)
accepted true b c f d got e = absurd (cc)
accepted false true c f d got e = absurd (cc)
accepted false false true f d got e = absurd (cc)
accepted false false false true d got e = absurd (cc)
accepted false false false false d got e = (refl, refl, refl, refl, cc)

-- A draft that is accepted has a name, a target stage from 1 to 3, and an injection stage from 0 to
-- the target stage.
pub validate_mode_draft-DraftIsValid :
    (p : Prompts) (d got : ModeDraft) → validate_mode_draft p d ≡ ok got → DraftIsValid got
unfolding validate_mode_draft normalize
validate_mode_draft-DraftIsValid p d got e =
    let (named, target, inject, reached, same) =
      accepted (strip d.name == "") (not (is_stage 1 d.target_stage))
        (not (is_stage 0 d.inject_stage)) (exceeds d.inject_stage d.target_stage) _ got e in
    subst DraftIsValid same (record {
      named = named;
      target = not-false target;
      inject = not-false inject;
      reached = reached;
    })

create_valid-TableIsWf :
    (id : String) (r : Result ModeError ModeDraft) (t : ModeTable)
    → ((got : ModeDraft) → r ≡ ok got → DraftIsValid got)
    → TableIsWf t
    → TableIsWf (create_valid id r t).1
unfolding create_valid
create_valid-TableIsWf id (err e) t v h = h
create_valid-TableIsWf id (ok d) t v h = elim (Bool-cases (is_some (lookup id t))) [
  | inl taken ↦ rw taken h
  | inr free ↦
      rw free (create-TableIsWf (record { id = id; draft = d; is_builtin = false }) t (v d refl) h)
]

update_valid-TableIsWf :
    (old : Mode) (r : Result ModeError ModeDraft) (t : ModeTable)
    → ((got : ModeDraft) → r ≡ ok got → DraftIsValid got)
    → TableIsWf t
    → TableIsWf (update_valid old r t).1
unfolding update_valid
update_valid-TableIsWf old (err e) t v h = h
update_valid-TableIsWf old (ok d) t v h = update-TableIsWf (record old { draft = d }) t (v d refl) h

update_found-TableIsWf :
    (p : Prompts) (o : Option Mode) (d : ModeDraft) (t : ModeTable)
    → TableIsWf t
    → TableIsWf (update_found p o d t).1
unfolding update_found
update_found-TableIsWf p none d t h = h
update_found-TableIsWf p (some old) d t h =
    update_valid-TableIsWf old (validate_mode_draft p d) t (validate_mode_draft-DraftIsValid p d) h

pub update_mode-TableIsWf :
    (p : Prompts) (id : String) (d : ModeDraft) (t : ModeTable)
    → TableIsWf t
    → TableIsWf (update_mode p id d t).1
unfolding update_mode
update_mode-TableIsWf p id d t h = update_found-TableIsWf p (lookup id t) d t h

pub create_mode-TableIsWf :
    (p : Prompts) (id : String) (d : ModeDraft) (t : ModeTable)
    → TableIsWf t
    → TableIsWf (create_mode p id d t).1
unfolding create_mode
create_mode-TableIsWf p id d t h =
    create_valid-TableIsWf id (validate_mode_draft p d) t (validate_mode_draft-DraftIsValid p d) h
