-- ===== src/Textproc/Processor.antt =====
-- core/textproc/processor.py. `fetch` is the list of enabled entries of a type, and `none` where the table
-- raises.
use app_stt_aio.Base.{
  Bool, List, Option, [], false, if◌then◌else◌, nat_eq, none, not, some, string_eq, true, ℕ, ◌&&◌,
  ◌++◌, ◌||◌, ◌∷◌,
}
use app_stt_aio.Textproc.Normalize.{basic_normalize, apply_ko_surface_rules}
use app_stt_aio.Textproc.Rules.{
  DictionaryEntry, Rule, basic, ko_punct, ko_number, text_eq, apply_dictionary, expand_snippets,
}

pub record ProcOptions : Type 0 where
  pub normalize : Bool
  pub dictionary : Bool
  pub snippets : Bool
  pub punctuation_spacing : Bool
  pub number_spacing : Bool

abbrev pub default_options : ProcOptions
default_options = record {
  normalize = true;
  dictionary = true;
  snippets = true;
  punctuation_spacing = false;
  number_spacing = false;
}

pub record ProcCtx : Type 0 where
  pub target_app : Option (List ℕ)
  pub options : ProcOptions

pub record TextProcessor : Type 0 where
  pub vocab_cache : Option (List DictionaryEntry)
  pub snippet_cache : Option (List DictionaryEntry)

unfoldable pub invalidate_cache : TextProcessor → TextProcessor
invalidate_cache p = record { vocab_cache = none; snippet_cache = none }

abbrev is_default : ProcOptions → Bool
is_default o =
    o.normalize && o.dictionary && o.snippets && not o.punctuation_spacing && not o.number_spacing

-- The options of the context, unless they are the default ones: then those of the provider.
unfoldable pub resolve_options : ProcOptions → ProcCtx → ProcOptions
resolve_options provided ctx = if is_default ctx.options then provided else ctx.options

abbrev fits : Option (List ℕ) → Option (List ℕ) → Bool
fits target none = true
fits target (some []) = true
fits none (some app) = false
fits (some target) (some app) = text_eq app target

unfoldable pub filter_by_target_app : Option (List ℕ) → List DictionaryEntry → List DictionaryEntry
filter_by_target_app target [] = []
filter_by_target_app target (e ∷ es) =
    let rest = filter_by_target_app target es in if fits target e.target_app then e ∷ rest else rest

-- The cache, or else the table.
abbrev pub entries_of :
    Option (List DictionaryEntry) → Option (List DictionaryEntry) → Option (List DictionaryEntry)
entries_of (some entries) fetch = some entries
entries_of none fetch = fetch

pub record Tables : Type 0 where
  pub vocab : Option (List DictionaryEntry)
  pub snippets : Option (List DictionaryEntry)

abbrev pub Work : Type 0
Work = List ℕ × List Rule

-- A table that raises skips its step and leaves the cache empty.
abbrev pub with_entries :
    (List DictionaryEntry → Work → Work)
    → Option (List ℕ)
    → Option (List DictionaryEntry)
    → Work
    → Work
with_entries step target none w = w
with_entries step target (some entries) w = step (filter_by_target_app target entries) w

abbrev basic_step : Bool → List ℕ → Work
basic_step false t = (t, [])
basic_step true t = let u = basic_normalize t in if text_eq u t then (u, []) else (u, basic ∷ [])

abbrev mark_if : Bool → Rule → List Rule → List Rule
mark_if true r rules = rules ++ r ∷ []
mark_if false r rules = rules

module _ (subn : List ℕ → List ℕ → List ℕ → Option (List ℕ × ℕ)) (is_digit : ℕ → Bool) where
  abbrev ko_step : ProcOptions → Work → Work
  ko_step o (t, rules) =
      let u = apply_ko_surface_rules is_digit o.punctuation_spacing o.number_spacing t in
      if not (o.normalize && (o.punctuation_spacing || o.number_spacing))
      then (t, rules)
      else if text_eq u t
      then (u, rules)
      else (u, mark_if o.number_spacing ko_number (mark_if o.punctuation_spacing ko_punct rules))

  -- The steps on a text that is not empty, and the caches after them.
  unfoldable pub process_text :
      ProcOptions → Option (List ℕ) → Tables → List ℕ → TextProcessor → Work × TextProcessor
  process_text o target tables t p =
      let vocab = if o.dictionary then entries_of p.vocab_cache tables.vocab else p.vocab_cache in
      let snippets =
        if o.snippets then entries_of p.snippet_cache tables.snippets else p.snippet_cache in
      let w = basic_step o.normalize t in
      let w' =
        if o.dictionary
        then with_entries (λ es w. apply_dictionary subn es w.0 w.1) target vocab w
        else w in
      let w'' =
        if o.snippets
        then with_entries (λ es w. expand_snippets es w.0 w.1) target snippets w'
        else w' in
      (ko_step o w'', record { vocab_cache = vocab; snippet_cache = snippets })

  unfoldable pub process :
      ProcOptions → ProcCtx → Tables → List ℕ → TextProcessor → Work × TextProcessor
  process provided ctx tables [] p = (([], []), p)
  process provided ctx tables (c ∷ t) p =
      process_text (resolve_options provided ctx) ctx.target_app tables (c ∷ t) p
