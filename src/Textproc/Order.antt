-- ===== src/Textproc/Order.antt =====
-- The order of the entries of a dictionary.
use app_stt_aio.Base.{
  Bool-cases, List, [], ap, arith, false, inl, inr, nat_eq, refl, string_eq, true, ℕ, ◌∷◌, ◌≡◌,
  Option, sym, ◌++◌, ◌∙◌, ◌≢◌,
}
use app_stt_aio.Textproc.Rules.{
  DictionaryEntry, text_le, goes_first, insert_entry, sort_entries_by_priority, apply_dictionary,
  expand_snippets, Rule, apply_sorted, expand_sorted, normalize_snippet_triggers,
}

text_le_trans : (t u v : List ℕ) → text_le t u ≡ true → text_le u v ≡ true → text_le t v ≡ true
unfolding text_le
text_le_trans [] u v h k = refl
text_le_trans (c ∷ t) [] v h k = absurd (cc)
text_le_trans (c ∷ t) (d ∷ u) [] h k = absurd (cc)
text_le_trans (c ∷ t) (d ∷ u) (e ∷ v) h k = ground (arith, text_le_trans t u v)

text_le_antisym : (t u : List ℕ) → text_le t u ≡ true → text_le u t ≡ true → t ≡ u
unfolding text_le
text_le_antisym [] [] h k = refl
text_le_antisym [] (d ∷ u) h k = absurd (cc)
text_le_antisym (c ∷ t) [] h k = absurd (cc)
text_le_antisym (c ∷ t) (d ∷ u) h k = ground (arith, text_le_antisym t u)

text_le_total : (t u : List ℕ) → text_le t u ≡ false → text_le u t ≡ true
unfolding text_le
text_le_total [] u h = absurd (cc)
text_le_total (c ∷ t) [] h = refl
text_le_total (c ∷ t) (d ∷ u) h = ground (arith, text_le_total t u)

goes_first_trans :
    (t u v : List ℕ) → goes_first t u ≡ true → goes_first u v ≡ true → goes_first t v ≡ true
unfolding goes_first
goes_first_trans t u v h k = ground (arith, text_le_trans t u v)

goes_first_antisym : (t u : List ℕ) → goes_first t u ≡ true → goes_first u t ≡ true → t ≡ u
unfolding goes_first
goes_first_antisym t u h k = ground (arith, text_le_antisym t u)

goes_first_total : (t u : List ℕ) → goes_first t u ≡ false → goes_first u t ≡ true
unfolding goes_first
goes_first_total t u h = ground (arith, text_le_total t u)

insert_entry_comm :
    (a b : DictionaryEntry) (es : List DictionaryEntry)
    → goes_first a.term b.term ≡ true
    → goes_first b.term a.term ≡ false
    → insert_entry a (insert_entry b es) ≡ insert_entry b (insert_entry a es)
unfolding insert_entry
insert_entry_comm a b [] h k = rw (h, k) refl
insert_entry_comm a b (e ∷ es) h k = elim (Bool-cases (goes_first b.term e.term)) [
  | inl here ↦ rw (here, h, goes_first_trans a.term b.term e.term h here, k, here) refl
  | inr later ↦ elim (Bool-cases (goes_first a.term e.term)) [
    | inl before ↦ rw (later, before, k, later) refl
    | inr after ↦ rw (later, after, later) (ap (λ l. e ∷ l) (insert_entry_comm a b es h k))
  ]
]

insert_entry_swap :
    (a b : DictionaryEntry) (es : List DictionaryEntry)
    → a.term ≢ b.term
    → insert_entry a (insert_entry b es) ≡ insert_entry b (insert_entry a es)
insert_entry_swap a b es differ = elim (Bool-cases (goes_first a.term b.term)) [
  | inl first ↦ elim (Bool-cases (goes_first b.term a.term)) [
    | inl both ↦ absurd (differ (goes_first_antisym a.term b.term first both))
    | inr second ↦ insert_entry_comm a b es first second
  ]
  | inr second ↦ sym (insert_entry_comm b a es (goes_first_total a.term b.term second) second)
]

sort_swap :
    (xs ys : List DictionaryEntry) (a b : DictionaryEntry)
    → a.term ≢ b.term
    → sort_entries_by_priority (xs ++ a ∷ b ∷ ys) ≡ sort_entries_by_priority (xs ++ b ∷ a ∷ ys)
unfolding sort_entries_by_priority
sort_swap [] ys a b differ = insert_entry_swap a b (sort_entries_by_priority ys) differ
sort_swap (x ∷ xs) ys a b differ = ap (insert_entry x) (sort_swap xs ys a b differ)

-- The second list comes from the first by exchanges of neighbours with different terms.
pub data Rearranged : List DictionaryEntry → List DictionaryEntry → Type 0 where
  unmoved : (es : List DictionaryEntry) → Rearranged es es
  exchanged :
      (xs ys : List DictionaryEntry) (a b : DictionaryEntry) {fs : List DictionaryEntry}
      → a.term ≢ b.term
      → Rearranged (xs ++ b ∷ a ∷ ys) fs
      → Rearranged (xs ++ a ∷ b ∷ ys) fs

sort-Rearranged :
    (es fs : List DictionaryEntry)
    → Rearranged es fs
    → sort_entries_by_priority es ≡ sort_entries_by_priority fs
sort-Rearranged es fs (unmoved _) = refl
sort-Rearranged es fs (exchanged xs ys a b differ r) =
    sort_swap xs ys a b differ ∙ sort-Rearranged _ fs r

-- The order in which the table gives the entries does not matter, as long as those of one term keep theirs:
-- the dictionary and the snippets give the same text and apply the same rules in the same order.
pub apply-Rearranged :
    (subn : List ℕ → List ℕ → List ℕ → Option (List ℕ × ℕ)) (es fs : List DictionaryEntry)
    (t : List ℕ) (rules : List Rule)
    → Rearranged es fs
    → (apply_dictionary subn es t rules ≡ apply_dictionary subn fs t rules)
      × (expand_snippets es t rules ≡ expand_snippets fs t rules)
unfolding apply_dictionary expand_snippets
apply-Rearranged subn es fs t rules r =
    let same = sort-Rearranged es fs r in
    (
      ap (λ l. apply_sorted subn l t rules) same,
      ap (λ l. expand_sorted l (normalize_snippet_triggers t) rules) same,
    )
