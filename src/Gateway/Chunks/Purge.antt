-- ===== src/Gateway/Chunks/Purge.antt =====
-- A purge removes exactly the expired uploads.
use app_stt_aio.Base.{
  ℕ, String, ◌≡◌, refl, Bool, false, Option, none, some, List, [], ◌∷◌, ◌||◌, ◌∙◌, arith, ◌==◌,
  string_eq, if◌then◌else◌,
}
use app_stt_aio.Base.Dict.{Dict, lookup, IsUnique, lookup-remove, remove}
use app_stt_aio.Gateway.Chunks.{
  ChunkSession, ChunkAssembler, is_expired, expired_keys, delete_all, purge_expired,
}
use app_stt_aio.Gateway.Chunks.Wf.{IsWf}

abbrev pub live : ℕ → Option ChunkSession → Option ChunkSession
live now none = none
live now (some s) = if is_expired now s then none else some s

abbrev mem : String → List String → Bool
mem k [] = false
mem k (j ∷ js) = j == k || mem k js

abbrev has_expired : ℕ → Option ChunkSession → Bool
has_expired now none = false
has_expired now (some s) = is_expired now s

mem-expired_keys :
    (now : ℕ) (k : String) (m : Dict String ChunkSession)
    → IsUnique m
    → mem k (expired_keys now m) ≡ has_expired now (lookup k m)
unfolding expired_keys lookup
mem-expired_keys now k [] h = refl
mem-expired_keys now k ((j, s) ∷ m) h =
    ground (arith, mem-expired_keys now k m h.1, string_eq.beq_iff j k, h.0)

lookup-delete_all :
    (k : String) (ks : List String) (m : Dict String ChunkSession)
    → lookup k (delete_all ks m) ≡ (if mem k ks then none else lookup k m)
unfolding delete_all
lookup-delete_all k [] m = refl
lookup-delete_all k (j ∷ js) m =
    lookup-delete_all k js (remove j m) ∙ ground (arith, lookup-remove j k m)

-- After a purge, an upload is found exactly if it was there and has not expired.
pub lookup-purge :
    (now : ℕ) (k : String) (a : ChunkAssembler)
    → IsWf a
    → lookup k (purge_expired now a).sessions ≡ live now (lookup k a.sessions)
unfolding purge_expired
lookup-purge now k a h = ground (
  arith,
  lookup-delete_all k (expired_keys now a.sessions) a.sessions,
  mem-expired_keys now k a.sessions h.unique,
)
