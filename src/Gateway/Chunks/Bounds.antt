-- ===== src/Gateway/Chunks/Bounds.antt =====
-- Receiving parts keeps the invariant, and bounds the memory that the assembler holds.
use app_stt_aio.Base.{
  ℕ, ◌*◌, ◌≤◌, String, ◌≡◌, refl, ap, Bool, false, Option, none, some, List, [], ◌∷◌, arith, not,
  ◌&&◌, ltb, ◌∙◌, nat_eq, string_eq, length, Bytes, is_empty, inl, inr, Bool-cases, Option-cases,
}
use app_stt_aio.Base.Dict.{
  Dict, lookup, sum_by, sum_by-le, weigh, AllValues, IsUnique-insert, IsUnique-remove,
  length-insert_old, sum_by-insert, sum_by-remove, AllValues-insert, AllValues-remove,
  AllValues-lookup, lookup-remove_self, is_some,
}
use app_stt_aio.Base.Int.{ℤ, pos, negsuc}
use app_stt_aio.Gateway.Chunks.{
  ChunkSession, ChunkAssembler, max_chunk_sessions, purge_expired, create_upload_id, add_part,
  drop_part, store_part, receive, find_and_receive,
}
use app_stt_aio.Gateway.Chunks.Wf.{SessionIsWf, IsWf, remove-AreWf, purge-IsWf, create-IsWf}

abbrev pub held_bytes : ChunkAssembler → ℕ
held_bytes a = sum_by (λ s. s.total_bytes) a.sessions

pub drop_part_lem :
    (max i : ℕ) (s : ChunkSession)
    → SessionIsWf max s
    → SessionIsWf max (drop_part i (lookup i s.parts) s)
      × (lookup i (drop_part i (lookup i s.parts) s).parts ≡ none)
unfolding drop_part
drop_part_lem max i s h = elim (Option-cases (lookup i s.parts)) [
  | inl absent ↦ rw (absent, drop_part) (h, absent)
  | inr (old, present) ↦
      rw (present, drop_part)
        (
          record {
            unique = IsUnique-remove i s.parts h.unique;
            counted = omega (
              arith,
              h.counted,
              sum_by-remove length i s.parts h.unique,
              ap (weigh length) present,
            );
            within = omega (arith, h.within);
            nonempty = AllValues-remove (λ bytes. is_empty bytes ≡ false) i s.parts h.nonempty;
          },
          lookup-remove_self i s.parts,
        )
]

pub store_part_lem :
    (max i : ℕ) (bytes : Bytes) (content_type : String) (s : ChunkSession)
    → SessionIsWf max s
    → lookup i s.parts ≡ none
    → (store_part i bytes content_type s).total_bytes ≤ max
    → SessionIsWf max (store_part i bytes content_type s)
unfolding store_part
store_part_lem max i [] content_type s h absent fits = record {
  unique = h.unique;
  counted = omega (arith, h.counted);
  within = fits;
  nonempty = h.nonempty;
}
store_part_lem max i (b ∷ bytes) content_type s h absent fits = record {
  unique = IsUnique-insert i (b ∷ bytes) s.parts h.unique;
  counted =
      omega
        (arith, h.counted, sum_by-insert length i (b ∷ bytes) s.parts, ap (weigh length) absent);
  within = fits;
  nonempty = AllValues-insert (λ part. is_empty part ≡ false) i (b ∷ bytes) s.parts refl h.nonempty;
}

receive-IsWf :
    (upload_id : String) (i : ℕ) (bytes : Bytes) (content_type : String) (is_final : Bool)
    (s : ChunkSession) (a : ChunkAssembler)
    → IsWf a
    → lookup upload_id a.sessions ≡ some s
    → IsWf (receive upload_id i bytes content_type is_final s a).1
unfolding receive
receive-IsWf upload_id i bytes content_type is_final s a h found =
    let (dropped, absent) =
      drop_part_lem a.max_bytes i s
        (AllValues-lookup (SessionIsWf a.max_bytes) upload_id s a.sessions h.each found) in
    let s' = store_part i bytes content_type (drop_part i (lookup i s.parts) s) in
    elim (Bool-cases (ltb a.max_bytes s'.total_bytes)) [
      | inl over ↦ rw over (remove-AreWf a.max_bytes upload_id a.sessions h)
      | inr fits ↦ rw fits (elim (Bool-cases is_final) [
        | inl final ↦ rw final (remove-AreWf a.max_bytes upload_id a.sessions h)
        | inr more ↦ rw more (record {
          unique = IsUnique-insert upload_id s' a.sessions h.unique;
          few = omega (arith, h.few, length-insert_old upload_id s' a.sessions (ap is_some found));
          each =
              AllValues-insert (SessionIsWf a.max_bytes) upload_id s' a.sessions
                (store_part_lem a.max_bytes i bytes content_type (drop_part i (lookup i s.parts) s)
                  dropped absent (ground arith))
                h.each;
        })
      ])
    ]

find_and_receive-IsWf :
    (upload_id : String) (i : ℕ) (bytes : Bytes) (content_type : String) (is_final : Bool)
    (o : Option ChunkSession) (a : ChunkAssembler)
    → IsWf a
    → lookup upload_id a.sessions ≡ o
    → IsWf (find_and_receive upload_id i bytes content_type is_final o a).1
unfolding find_and_receive
find_and_receive-IsWf upload_id i bytes content_type is_final none a h found = h
find_and_receive-IsWf upload_id i bytes content_type is_final (some s) a h found =
    receive-IsWf upload_id i bytes content_type is_final s a h found

-- Every call of `add_part`, also one that raises, keeps the invariant: the counts are exact, no
-- upload is over the limit, no part is empty, and there are at most 32 uploads.
pub add_part-IsWf :
    (now : ℕ) (upload_id : String) (chunk_index : ℤ) (bytes : Bytes) (content_type : String)
    (is_final : Bool) (a : ChunkAssembler)
    → IsWf a
    → IsWf (add_part now upload_id chunk_index bytes content_type is_final a).1
unfolding add_part
add_part-IsWf now upload_id (negsuc n) bytes content_type is_final a h = h
add_part-IsWf now upload_id (pos i) bytes content_type is_final a h =
    elim (Bool-cases (is_empty bytes && not is_final)) [
      | inl refused ↦ rw refused h
      | inr taken ↦
          let b = purge_expired now a in
          rw taken (
            find_and_receive-IsWf upload_id i bytes content_type is_final
              (lookup upload_id b.sessions) b (purge-IsWf now a h) refl)
    ]

-- What a client, or the gateway's routes, may ask for.
pub data Request : Type 0 where
  create : ℕ → ℕ → String → Request
  add : ℕ → String → ℤ → Bytes → String → Bool → Request

pub serve : List Request → ChunkAssembler → ChunkAssembler
serve [] a = a
serve (create now later upload_id ∷ rest) a = serve rest (create_upload_id now later upload_id a).1
serve (add now upload_id chunk_index bytes content_type is_final ∷ rest) a =
    serve rest (add_part now upload_id chunk_index bytes content_type is_final a).1

serve-IsWf : (requests : List Request) (a : ChunkAssembler) → IsWf a → IsWf (serve requests a)
unfolding serve
serve-IsWf [] a h = h
serve-IsWf (create now later upload_id ∷ rest) a h =
    serve-IsWf rest (create_upload_id now later upload_id a).1 (create-IsWf now later upload_id a h)
serve-IsWf (add now upload_id chunk_index bytes content_type is_final ∷ rest) a h =
    serve-IsWf rest (add_part now upload_id chunk_index bytes content_type is_final a).1
      (add_part-IsWf now upload_id chunk_index bytes content_type is_final a h)

AllValues-within :
    (max : ℕ) (m : Dict String ChunkSession)
    → AllValues (SessionIsWf max) m
    → AllValues (λ s. s.total_bytes ≤ max) m
AllValues-within max [] h = tt
AllValues-within max ((k, s) ∷ m) h = (h.0.within, AllValues-within max m h.1)

max_bytes-add_part :
    (now : ℕ) (upload_id : String) (chunk_index : ℤ) (bytes : Bytes) (content_type : String)
    (is_final : Bool) (a : ChunkAssembler)
    → (add_part now upload_id chunk_index bytes content_type is_final a).1.max_bytes ≡ a.max_bytes
unfolding add_part find_and_receive receive purge_expired
max_bytes-add_part now upload_id (negsuc n) bytes content_type is_final a = refl
max_bytes-add_part now upload_id (pos i) bytes content_type is_final a = ground arith

max_bytes-serve :
    (requests : List Request) (a : ChunkAssembler) → (serve requests a).max_bytes ≡ a.max_bytes
unfolding serve create_upload_id purge_expired
max_bytes-serve [] a = refl
max_bytes-serve (create now later upload_id ∷ rest) a =
    max_bytes-serve rest (create_upload_id now later upload_id a).1
max_bytes-serve (add now upload_id chunk_index bytes content_type is_final ∷ rest) a =
    max_bytes-serve rest (add_part now upload_id chunk_index bytes content_type is_final a).1
    ∙ max_bytes-add_part now upload_id chunk_index bytes content_type is_final a

abbrev pub new_assembler : ℕ → ChunkAssembler
new_assembler max = record { max_bytes = max; sessions = [] }

-- Whatever is asked of a new assembler, in any order and at any times, the bytes that it holds for
-- unfinished uploads stay within 32 times its limit for one upload.
pub serve-held_bytes :
    (requests : List Request) (max : ℕ)
    → held_bytes (serve requests (new_assembler max)) ≤ max_chunk_sessions * max
serve-held_bytes requests max =
    let a = serve requests (new_assembler max) in
    let w =
      serve-IsWf requests (new_assembler max)
        (record { unique = tt; few = omega arith; each = tt }) in
    let e : a.max_bytes ≡ max = max_bytes-serve requests (new_assembler max) in
    grind (
      arith,
      w.few,
      e,
      sum_by-le (λ (s : ChunkSession). s.total_bytes) a.max_bytes a.sessions
          (AllValues-within a.max_bytes a.sessions w.each),
    )
