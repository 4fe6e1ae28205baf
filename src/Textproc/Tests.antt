-- ===== src/Textproc/Tests.antt =====
-- Tests of the text processor.
use app_stt_aio.Base.{List, Option, [], nat_eq, none, refl, some, string_eq, ℕ, ◌∷◌, ◌≡◌}
use app_stt_aio.Textproc.Normalize.{remove_controls, collapse, lstrip, rstrip, basic_normalize}
use app_stt_aio.Textproc.Idempotence.{basic_normalize_idem}
use app_stt_aio.Textproc.Rules.{
  DictionaryEntry, starts_with, replace_from, apply_dictionary, expand_snippets, sub_alias,
  normalize_snippet_triggers,
}
use app_stt_aio.Textproc.Order.{unmoved, exchanged, apply-Rearranged}

-- Two spaces, a bell, a tab, a, a space, a line feed, b, a space.
abbrev untidy : List ℕ
untidy = 32 ∷ 32 ∷ 7 ∷ 9 ∷ 97 ∷ 32 ∷ 10 ∷ 98 ∷ 32 ∷ []

tidied : basic_normalize untidy ≡ 97 ∷ 32 ∷ 10 ∷ 98 ∷ []
unfolding basic_normalize remove_controls collapse lstrip rstrip
tidied = refl

basic_normalize_idem_example : basic_normalize (basic_normalize untidy) ≡ basic_normalize untidy
basic_normalize_idem_example = basic_normalize_idem untidy

-- Parts do not overlap.
replaced : replace_from (97 ∷ 97 ∷ []) (98 ∷ []) 0 (97 ∷ 97 ∷ 97 ∷ []) ≡ 98 ∷ 97 ∷ []
unfolding replace_from starts_with
replaced = refl

-- The spoken slash and the spaces after it.
slash :
    normalize_snippet_triggers (0xc2ac ∷ 0xb798 ∷ 0xc2dc ∷ 32 ∷ 97 ∷ 32 ∷ []) ≡ 47 ∷ 97 ∷ 32 ∷ []
unfolding normalize_snippet_triggers sub_alias starts_with
slash = refl

abbrev one_letter : DictionaryEntry
one_letter = record { term = 97 ∷ []; replacement = 120 ∷ []; target_app = none }

abbrev two_letters : DictionaryEntry
two_letters = record { term = 97 ∷ 98 ∷ []; replacement = 121 ∷ []; target_app = none }

-- A substitution that finds nothing.
abbrev never : List ℕ → List ℕ → List ℕ → Option (List ℕ × ℕ)
never term replacement t = some (t, 0)

apply-Rearranged_example :
    (apply_dictionary never (one_letter ∷ two_letters ∷ []) (97 ∷ 98 ∷ []) []
      ≡ apply_dictionary never (two_letters ∷ one_letter ∷ []) (97 ∷ 98 ∷ []) [])
    × (expand_snippets (one_letter ∷ two_letters ∷ []) (97 ∷ 98 ∷ []) []
        ≡ expand_snippets (two_letters ∷ one_letter ∷ []) (97 ∷ 98 ∷ []) [])
apply-Rearranged_example =
    apply-Rearranged never (one_letter ∷ two_letters ∷ []) (two_letters ∷ one_letter ∷ [])
      (97 ∷ 98 ∷ []) [] (exchanged [] [] one_letter two_letters (λ e. absurd (cc)) (unmoved _))
