-- ===== src/Textproc/Caches.antt =====
-- The caches of the text processor.
use app_stt_aio.Base.{Bool, List, Option, [], nat_eq, refl, some, string_eq, ℕ, ◌∷◌, ◌≡◌}
use app_stt_aio.Textproc.Rules.{DictionaryEntry}
use app_stt_aio.Textproc.Processor.{
  ProcOptions, ProcCtx, TextProcessor, Tables, invalidate_cache, process_text, process,
}

module _ (subn : List ℕ → List ℕ → List ℕ → Option (List ℕ × ℕ)) (is_digit : ℕ → Bool) where
  -- With both caches full the tables are not looked at: changed entries have no effect.
  process_cached :
      (provided : ProcOptions) (ctx : ProcCtx) (old new : Tables) (t : List ℕ)
      (vocab snippets : List DictionaryEntry) (p : TextProcessor)
      → p.vocab_cache ≡ some vocab
      → p.snippet_cache ≡ some snippets
      → process subn is_digit provided ctx old t p ≡ process subn is_digit provided ctx new t p
  unfolding process process_text
  process_cached provided ctx old new [] vocab snippets p v s = refl
  process_cached provided ctx old new (c ∷ t) vocab snippets p v s = rw (v, s) refl

  -- After `invalidate_cache` they are: what was cached before has no effect.
  process-invalidate_cache :
      (provided : ProcOptions) (ctx : ProcCtx) (tables : Tables) (t : List ℕ) (p q : TextProcessor)
      → process subn is_digit provided ctx tables t (invalidate_cache p)
        ≡ process subn is_digit provided ctx tables t (invalidate_cache q)
  unfolding invalidate_cache
  process-invalidate_cache provided ctx tables t p q = refl
