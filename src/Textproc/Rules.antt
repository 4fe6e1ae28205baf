-- ===== src/Textproc/Rules.antt =====
-- core/textproc/rules.py, dictionary.py and snippets.py. `subn` is the substitution of a word
-- that the regular expression of `compile_word_pattern` makes, with its count; `none` is an exception,
-- which skips the rule.
use app_stt_aio.Base.{
  Bool, List, Option, [], false, if◌then◌else◌, is_empty, leb, length, ltb, nat_eq, none, not, some,
  string_eq, suc, true, zero, ℕ, ◌&&◌, ◌++◌, ◌-◌, ◌==◌, ◌||◌, ◌∷◌,
}
use app_stt_aio.Base.Text.{is_space}

pub record DictionaryEntry : Type 0 where
  pub term : List ℕ
  pub replacement : List ℕ
  pub target_app : Option (List ℕ)

-- What was applied, in order.
pub data Rule : Type 0 where
  basic ko_punct ko_number : Rule
  vocab snippet : List ℕ → Rule

unfoldable pub text_eq : List ℕ → List ℕ → Bool
text_eq [] [] = true
text_eq [] (d ∷ u) = false
text_eq (c ∷ t) [] = false
text_eq (c ∷ t) (d ∷ u) = let rest = text_eq t u in c == d && rest

unfoldable pub text_le : List ℕ → List ℕ → Bool
text_le [] u = true
text_le (c ∷ t) [] = false
text_le (c ∷ t) (d ∷ u) = let rest = text_le t u in if c == d then rest else ltb c d

-- The key of an entry, `(-len(term), term)`, is at most another's.
unfoldable pub goes_first : List ℕ → List ℕ → Bool
goes_first t u = if length t == length u then text_le t u else ltb (length u) (length t)

unfoldable pub insert_entry : DictionaryEntry → List DictionaryEntry → List DictionaryEntry
insert_entry e [] = e ∷ []
insert_entry e (f ∷ fs) =
    let rest = insert_entry e fs in if goes_first e.term f.term then e ∷ f ∷ fs else f ∷ rest

-- A stable sort.
unfoldable pub sort_entries_by_priority : List DictionaryEntry → List DictionaryEntry
sort_entries_by_priority [] = []
sort_entries_by_priority (e ∷ es) = insert_entry e (sort_entries_by_priority es)

abbrev is_alnum : ℕ → Bool
is_alnum c = (leb 48 c && leb c 57) || (leb 65 c && leb c 90) || (leb 97 c && leb c 122)

abbrev all_word : List ℕ → Bool
all_word [] = true
all_word (c ∷ t) = (is_alnum c || c == 95 || c == 45 || c == 46 || c == 47) && all_word t

unfoldable pub is_ascii_word_term : List ℕ → Bool
is_ascii_word_term [] = false
is_ascii_word_term (c ∷ t) = is_alnum c && all_word t

-- `str.startswith`
unfoldable pub starts_with : List ℕ → List ℕ → Bool
starts_with [] t = true
starts_with (c ∷ p) [] = false
starts_with (c ∷ p) (d ∷ t) = let rest = starts_with p t in c == d && rest

-- `part in text`
unfoldable pub contains : List ℕ → List ℕ → Bool
contains part [] = is_empty part
contains part (c ∷ t) = let rest = contains part t in starts_with part (c ∷ t) || rest

-- `text.replace(part, by)` for a part that is not empty; `skip` characters of a part are left to drop.
unfoldable pub replace_from : List ℕ → List ℕ → ℕ → List ℕ → List ℕ
replace_from part by skip [] = []
replace_from part by (suc skip) (c ∷ t) = replace_from part by skip t
replace_from part by zero (c ∷ t) =
    let after = replace_from part by (length part - 1) t in
    let rest = replace_from part by 0 t in
    if starts_with part (c ∷ t) then by ++ after else c ∷ rest

module _ (subn : List ℕ → List ℕ → List ℕ → Option (List ℕ × ℕ)) where
  abbrev substituted : List ℕ → Option (List ℕ × ℕ) → List ℕ × Bool
  substituted t none = (t, false)
  substituted t (some (u, count)) = (u, ltb 0 count)

  unfoldable pub replace_vocab_term : List ℕ → DictionaryEntry → List ℕ × Bool
  replace_vocab_term t e =
      if is_empty e.term
      then (t, false)
      else if is_ascii_word_term e.term
      then substituted t (subn e.term e.replacement t)
      else if contains e.term t
      then (replace_from e.term e.replacement 0 t, true)
      else (t, false)

  unfoldable pub apply_sorted : List DictionaryEntry → List ℕ → List Rule → List ℕ × List Rule
  apply_sorted [] t rules = (t, rules)
  apply_sorted (e ∷ es) t rules =
      let (u, applied) = replace_vocab_term t e in
      if applied then apply_sorted es u (rules ++ vocab e.term ∷ []) else apply_sorted es t rules

  unfoldable pub apply_dictionary : List DictionaryEntry → List ℕ → List Rule → List ℕ × List Rule
  apply_dictionary entries t rules = apply_sorted (sort_entries_by_priority entries) t rules

-- `re.sub(alias + r"\s*", "/", text)`: `skip` characters of the alias are left, and `eat` says that only
-- spaces came since one.
unfoldable pub sub_alias : List ℕ → ℕ → Bool → List ℕ → List ℕ
sub_alias alias skip eat [] = []
sub_alias alias (suc skip) eat (c ∷ t) = sub_alias alias skip true t
sub_alias alias zero eat (c ∷ t) =
    let eaten = sub_alias alias 0 true t in
    let found = sub_alias alias (length alias - 1) true t in
    let other = sub_alias alias 0 false t in
    if eat && is_space c then eaten else if starts_with alias (c ∷ t) then 47 ∷ found else c ∷ other

unfoldable pub normalize_snippet_triggers : List ℕ → List ℕ
normalize_snippet_triggers t =
    sub_alias (0xc2ac ∷ 0xb7ec ∷ 0xc2dc ∷ []) 0 false
      (sub_alias (0xc2ac ∷ 0xb798 ∷ 0xc2dc ∷ []) 0 false t)

unfoldable pub expand_sorted : List DictionaryEntry → List ℕ → List Rule → List ℕ × List Rule
expand_sorted [] t rules = (t, rules)
expand_sorted (e ∷ es) t rules =
    let u = replace_from e.term e.replacement 0 t in
    if is_empty e.term || not (contains e.term t) || text_eq u t
    then expand_sorted es t rules
    else expand_sorted es u (rules ++ snippet e.term ∷ [])

unfoldable pub expand_snippets : List DictionaryEntry → List ℕ → List Rule → List ℕ × List Rule
expand_snippets entries t rules =
    expand_sorted (sort_entries_by_priority entries) (normalize_snippet_triggers t) rules
