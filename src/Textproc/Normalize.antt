-- ===== src/Textproc/Normalize.antt =====
-- core/textproc/normalize_ko.py. Each substitution of a regular expression is written out;
-- `is_digit` is `\d`.
use app_stt_aio.Base.{
  Bool, List, Option, [], false, if◌then◌else◌, leb, nat_eq, none, not, some, string_eq, true, ℕ,
  ◌&&◌, ◌==◌, ◌||◌, ◌∷◌,
}
use app_stt_aio.Base.Text.{is_space}

-- `_CONTROL_CHARS`
abbrev pub is_control : ℕ → Bool
is_control c = leb c 8 || c == 0xb || c == 0xc || (leb 0xe c && leb c 0x1f) || c == 0x7f

unfoldable pub remove_controls : List ℕ → List ℕ
remove_controls [] = []
remove_controls (c ∷ t) = let rest = remove_controls t in if is_control c then rest else c ∷ rest

-- `[^\S\n]`
abbrev pub is_blank_char : ℕ → Bool
is_blank_char c = is_space c && not (c == 10)

-- `_MULTI_SPACE.sub(" ", text)`: `within` says that the character before was replaced with this one.
unfoldable pub collapse : Bool → List ℕ → List ℕ
collapse within [] = []
collapse within (c ∷ t) =
    let inside = collapse true t in
    let outside = collapse false t in
    if not (is_blank_char c) then c ∷ outside else if within then inside else 32 ∷ inside

unfoldable pub lstrip : List ℕ → List ℕ
lstrip [] = []
lstrip (c ∷ t) = let rest = lstrip t in if is_space c then rest else c ∷ t

abbrev pub all_space : List ℕ → Bool
all_space [] = true
all_space (c ∷ t) = is_space c && all_space t

unfoldable pub rstrip : List ℕ → List ℕ
rstrip [] = []
rstrip (c ∷ t) = let rest = rstrip t in if all_space (c ∷ t) then [] else c ∷ rest

unfoldable pub basic_normalize : List ℕ → List ℕ
unfolding remove_controls collapse lstrip rstrip
basic_normalize t = rstrip (lstrip (collapse false (remove_controls t)))

-- The first character that is no space.
pub first_visible : List ℕ → Option ℕ
first_visible [] = none
first_visible (c ∷ t) = let rest = first_visible t in if is_space c then rest else some c

abbrev satisfies : (ℕ → Bool) → Option ℕ → Bool
satisfies p none = false
satisfies p (some c) = p c

-- `\s+([...])` gives the character alone.
pub close_up_before : (ℕ → Bool) → List ℕ → List ℕ
close_up_before p [] = []
close_up_before p (c ∷ t) =
    let rest = close_up_before p t in
    if is_space c && satisfies p (first_visible t) then rest else c ∷ rest

-- `([...])\s+` gives the character alone; `after` says that only spaces came since such a character.
pub close_up_after : (ℕ → Bool) → Bool → List ℕ → List ℕ
close_up_after p after [] = []
close_up_after p after (c ∷ t) =
    let rest = close_up_after p true t in
    let others = close_up_after p (p c) t in if is_space c && after then rest else c ∷ others

abbrev pub is_sentence_mark : ℕ → Bool
is_sentence_mark c = c == 44 || c == 46 || c == 33 || c == 63 || c == 59 || c == 58

abbrev pub is_opening : ℕ → Bool
is_opening c = c == 40 || c == 91 || c == 123 || c == 0x300c || c == 0x300e

abbrev pub is_closing : ℕ → Bool
is_closing c = c == 41 || c == 93 || c == 125 || c == 0x300d || c == 0x300f

-- `_KO_UNITS`: counters and units of one syllable, and one of two.
abbrev ko_units : List ℕ
ko_units =
    0xc6d0 ∷ 0xac1c ∷ 0xba85 ∷ 0xac74 ∷ 0xd68c ∷ 0xce35 ∷ 0xbc88 ∷ 0xc2dc ∷ 0xbd84 ∷ 0xcd08 ∷ 0xb144
    ∷ 0xc6d4 ∷ 0xc77c ∷ 0xb300 ∷ 0xad8c ∷ 0xc7a5 ∷ 0xbc8c ∷ 0xc0b4 ∷ 0xbc30 ∷ 0xd3ec ∷ 0xd1b5
    ∷ 0xc794 ∷ 0xbcd1 ∷ []

abbrev is_one_of : ℕ → List ℕ → Bool
is_one_of c [] = false
is_one_of c (x ∷ xs) = c == x || is_one_of c xs

abbrev starts_unit : List ℕ → Bool
starts_unit [] = false
starts_unit (c ∷ []) = is_one_of c ko_units
starts_unit (c ∷ d ∷ t) = is_one_of c ko_units || (c == 0xb9c8 && d == 0xb9ac)

-- `_DIGIT_UNIT_SPACE.sub(r"\1\2", text)`: `after` says that only spaces came since a digit.
pub close_up_units : (ℕ → Bool) → Bool → List ℕ → List ℕ
close_up_units is_digit after [] = []
close_up_units is_digit after (c ∷ t) =
    let rest = close_up_units is_digit true t in
    let others = close_up_units is_digit (is_digit c) t in
    if is_space c && after && starts_unit (lstrip t) then rest else c ∷ others

unfoldable pub apply_ko_surface_rules : (ℕ → Bool) → Bool → Bool → List ℕ → List ℕ
unfolding close_up_units close_up_before close_up_after
apply_ko_surface_rules is_digit punctuation_spacing number_spacing t =
    let numbered = if number_spacing then close_up_units is_digit false t else t in
    if punctuation_spacing
    then close_up_before is_closing
        (close_up_after is_opening false (close_up_before is_sentence_mark numbered))
    else numbered

unfoldable pub normalize_ko : (ℕ → Bool) → Bool → Bool → List ℕ → List ℕ
normalize_ko is_digit punctuation_spacing number_spacing t =
    apply_ko_surface_rules is_digit punctuation_spacing number_spacing (basic_normalize t)
