-- ===== src/Updater/Version.antt =====
-- core/updater/version.py. `decimal` is the value of a decimal digit of any script.
use app_stt_aio.Base.{
  Bool, List, Option, String, [], arith, false, if◌then◌else◌, ltb, nat_eq, none, refl, some,
  string_eq, true, ℕ, ◌*◌, ◌+◌, ◌==◌, ◌||◌, ◌∷◌, ◌≡◌,
}
use app_stt_aio.Base.Text.{strip}
use Prim.Native.Char.{Char, code}

unfoldable pub lstrip_v : String → String
lstrip_v String.[] = ""
lstrip_v (String.◌∷◌ c s) =
    let rest = lstrip_v s in if code c == 118 || code c == 86 then rest else String.◌∷◌ c s

abbrev put_first : Char → List String → List String
put_first c [] = String.◌∷◌ c "" ∷ []
put_first c (p ∷ ps) = String.◌∷◌ c p ∷ ps

-- `split(".")`
pub split_dots : String → List String
split_dots String.[] = "" ∷ []
split_dots (String.◌∷◌ c s) =
    let rest = split_dots s in if code c == 46 then "" ∷ rest else put_first c rest

module _ (decimal : ℕ → Option ℕ) where
  -- `int` of the digits at the front of a piece, read after the number so far.
  abbrev add_digit : (Option ℕ → Option ℕ) → Option ℕ → Option ℕ → Option ℕ
  add_digit rest seen none = seen
  add_digit rest none (some d) = rest (some d)
  add_digit rest (some n) (some d) = rest (some (n * 10 + d))

  pub leading_number : String → Option ℕ → Option ℕ
  leading_number String.[] seen = seen
  leading_number (String.◌∷◌ c s) seen = add_digit (leading_number s) seen (decimal (code c))

  -- The numbers up to the first piece that starts with none.
  abbrev put_number : Option ℕ → List ℕ → List ℕ
  put_number none ns = []
  put_number (some n) ns = n ∷ ns

  pub numbers : List String → List ℕ
  numbers [] = []
  numbers (p ∷ ps) = put_number (leading_number p none) (numbers ps)

  abbrev or_zero : List ℕ → List ℕ
  or_zero [] = 0 ∷ []
  or_zero (n ∷ ns) = n ∷ ns

  unfoldable pub parse_version : String → List ℕ
  unfolding split_dots leading_number numbers
  parse_version version = or_zero (numbers (split_dots (lstrip_v (strip version))))

-- `a > b` of tuples.
unfoldable pub tuple_gt : List ℕ → List ℕ → Bool
tuple_gt [] bs = false
tuple_gt (a ∷ xs) [] = true
tuple_gt (a ∷ xs) (b ∷ bs) = let rest = tuple_gt xs bs in if a == b then rest else ltb b a

unfoldable pub is_newer_version : (ℕ → Option ℕ) → String → String → Bool
is_newer_version decimal latest current =
    tuple_gt (parse_version decimal latest) (parse_version decimal current)

tuple_gt_irrefl : (xs : List ℕ) → tuple_gt xs xs ≡ false
unfolding tuple_gt
tuple_gt_irrefl [] = refl
tuple_gt_irrefl (a ∷ xs) = ground (arith, tuple_gt_irrefl xs)

tuple_gt_trans :
    (xs bs cs : List ℕ) → tuple_gt xs bs ≡ true → tuple_gt bs cs ≡ true → tuple_gt xs cs ≡ true
unfolding tuple_gt
tuple_gt_trans [] bs cs h k = h
tuple_gt_trans (a ∷ xs) [] cs h k = absurd (cc)
tuple_gt_trans (a ∷ xs) (b ∷ bs) [] h k = refl
tuple_gt_trans (a ∷ xs) (b ∷ bs) (c ∷ cs) h k = ground (arith, tuple_gt_trans xs bs cs)

-- Neither is above the other only where they are equal.
tuple_gt_total : (xs bs : List ℕ) → tuple_gt xs bs ≡ false → tuple_gt bs xs ≡ false → xs ≡ bs
unfolding tuple_gt
tuple_gt_total [] [] h k = refl
tuple_gt_total [] (b ∷ bs) h k = absurd (cc)
tuple_gt_total (a ∷ xs) [] h k = absurd (cc)
tuple_gt_total (a ∷ xs) (b ∷ bs) h k = ground (arith, tuple_gt_total xs bs)

-- A version newer than one that is newer than a third is newer than the third.
is_newer_version_trans :
    (decimal : ℕ → Option ℕ) (u v w : String)
    → is_newer_version decimal u v ≡ true
    → is_newer_version decimal v w ≡ true
    → is_newer_version decimal u w ≡ true
unfolding is_newer_version
is_newer_version_trans decimal u v w h k =
    tuple_gt_trans (parse_version decimal u) (parse_version decimal v) (parse_version decimal w) h k

-- Of two versions neither of which is newer, both have the same numbers.
is_newer_version_total :
    (decimal : ℕ → Option ℕ) (u v : String)
    → is_newer_version decimal u v ≡ false
    → is_newer_version decimal v u ≡ false
    → parse_version decimal u ≡ parse_version decimal v
unfolding is_newer_version
is_newer_version_total decimal u v h k =
    tuple_gt_total (parse_version decimal u) (parse_version decimal v) h k
