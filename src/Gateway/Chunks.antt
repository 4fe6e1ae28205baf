-- ===== src/Gateway/Chunks.antt =====
-- remote/gateway/chunks.py: the assembler of chunked uploads. The lock makes each operation atomic;
-- a reading of the clock and the fresh `uuid4().hex` are arguments. Times are whole seconds.
pub mod Wf
pub mod Bounds
pub mod Purge
pub mod Indices
pub mod Assembly
pub mod Upload
mod Tests
use app_stt_aio.Base.{
  ℕ, zero, suc, ◌+◌, ◌-◌, String, Bool, true, false, not, ◌&&◌, Option, none, some, List, [], ◌∷◌,
  map, ltb, leb, ◌==◌, nat_eq, string_eq, if◌then◌else◌, length, join, Bytes, is_empty,
}
use app_stt_aio.Base.Dict.{Dict, lookup, insert, remove, keys}
use app_stt_aio.Base.Result.{Result, ok, err}
use app_stt_aio.Base.Int.{ℤ, pos, negsuc}

abbrev pub max_chunk_sessions : ℕ
max_chunk_sessions = 32

abbrev pub chunk_session_ttl_sec : ℕ
chunk_session_ttl_sec = 600

pub record ChunkSession : Type 0 where
  pub parts : Dict ℕ Bytes
  pub content_type : String
  pub created_at : ℕ
  pub total_bytes : ℕ

pub record ChunkAssembler : Type 0 where
  pub max_bytes : ℕ
  pub sessions : Dict String ChunkSession

-- The `ValueError`s by their messages, and the `KeyError`.
pub data ChunkError : Type 0 where
  negative_index empty_chunk unknown_upload too_large no_chunks incomplete : ChunkError

abbrev new_session : ℕ → ChunkSession
new_session now = record {
  parts = [];
  content_type = "application/octet-stream";
  created_at = now;
  total_bytes = 0;
}

-- `created_at < now - TTL`, with nothing subtracted.
abbrev pub is_expired : ℕ → ChunkSession → Bool
is_expired now s = ltb (s.created_at + chunk_session_ttl_sec) now

expired_keys : ℕ → Dict String ChunkSession → List String
expired_keys now [] = []
expired_keys now ((k, s) ∷ m) =
    let rest = expired_keys now m in if is_expired now s then k ∷ rest else rest

delete_all : List String → Dict String ChunkSession → Dict String ChunkSession
delete_all [] m = m
delete_all (k ∷ ks) m = delete_all ks (remove k m)

pub purge_expired : ℕ → ChunkAssembler → ChunkAssembler
unfolding expired_keys delete_all
purge_expired now a = record a { sessions = delete_all (expired_keys now a.sessions) a.sessions }

-- `min(sessions, key=created_at)`: the first of the oldest.
oldest_from : String → ℕ → Dict String ChunkSession → String
oldest_from k t [] = k
oldest_from k t ((j, s) ∷ m) =
    let older = ltb s.created_at t in
    oldest_from (if older then j else k) (if older then s.created_at else t) m

evict_oldest : Dict String ChunkSession → Dict String ChunkSession
evict_oldest [] = []
evict_oldest ((k, s) ∷ m) = remove (oldest_from k s.created_at m) ((k, s) ∷ m)

make_room : Dict String ChunkSession → Dict String ChunkSession
unfolding evict_oldest oldest_from
make_room m = if leb max_chunk_sessions (length m) then evict_oldest m else m

pub create_upload_id : ℕ → ℕ → String → ChunkAssembler → String × ChunkAssembler
unfolding make_room
create_upload_id now later upload_id a =
    let b = purge_expired now a in
    (upload_id, record b { sessions = insert upload_id (new_session later) (make_room b.sessions) })

-- The part that a repeated index overwrites is taken off the count first.
pub drop_part : ℕ → Option Bytes → ChunkSession → ChunkSession
drop_part i none s = s
drop_part i (some old) s = record s {
  total_bytes = s.total_bytes - length old;
  parts = remove i s.parts;
}

pub store_part : ℕ → Bytes → String → ChunkSession → ChunkSession
store_part i bytes content_type s = record s {
  total_bytes = s.total_bytes + length bytes;
  parts = if is_empty bytes then s.parts else insert i bytes s.parts;
  content_type = if content_type == "" then s.content_type else content_type;
}

insert_sorted : ℕ → List ℕ → List ℕ
insert_sorted i [] = i ∷ []
insert_sorted i (j ∷ js) = let rest = insert_sorted i js in if leb i j then i ∷ j ∷ js else j ∷ rest

-- `sorted(indices)`
pub sort : List ℕ → List ℕ
unfolding insert_sorted
sort [] = []
sort (i ∷ is) = insert_sorted i (sort is)

-- `list(range(lo, lo + n))`
abbrev range_from : ℕ → ℕ → List ℕ
range_from lo zero = []
range_from lo (suc n) = lo ∷ range_from (suc lo) n

pub same_list : List ℕ → List ℕ → Bool
same_list [] [] = true
same_list (i ∷ is) (j ∷ js) = i == j && same_list is js
same_list _ _ = false

-- `session.parts[i]` is read at keys only.
abbrev part_or_empty : Option Bytes → Bytes
part_or_empty none = []
part_or_empty (some bytes) = bytes

pub assemble : Dict ℕ Bytes → Result ChunkError (Option Bytes)
assemble [] = err no_chunks
assemble (p ∷ ps) =
    let indices = sort (keys (p ∷ ps)) in
    if same_list indices (range_from 0 (length indices))
    then ok (some (join (map (λ i. part_or_empty (lookup i (p ∷ ps))) indices)))
    else err incomplete

-- The rest of `add_part`, from the session that was found.
receive :
    String
    → ℕ
    → Bytes
    → String
    → Bool
    → ChunkSession
    → ChunkAssembler
    → Result ChunkError (Option Bytes) × ChunkAssembler
receive upload_id i bytes content_type is_final s a =
    let s' = store_part i bytes content_type (drop_part i (lookup i s.parts) s) in
    if ltb a.max_bytes s'.total_bytes
    then (err too_large, record a { sessions = remove upload_id a.sessions })
    else if is_final
    then (assemble s'.parts, record a { sessions = remove upload_id a.sessions })
    else (ok none, record a { sessions = insert upload_id s' a.sessions })

find_and_receive :
    String
    → ℕ
    → Bytes
    → String
    → Bool
    → Option ChunkSession
    → ChunkAssembler
    → Result ChunkError (Option Bytes) × ChunkAssembler
find_and_receive upload_id i bytes content_type is_final none a = (err unknown_upload, a)
find_and_receive upload_id i bytes content_type is_final (some s) a =
    receive upload_id i bytes content_type is_final s a

pub add_part :
    ℕ
    → String
    → ℤ
    → Bytes
    → String
    → Bool
    → ChunkAssembler
    → Result ChunkError (Option Bytes) × ChunkAssembler
add_part now upload_id (negsuc n) bytes content_type is_final a = (err negative_index, a)
add_part now upload_id (pos i) bytes content_type is_final a =
    if is_empty bytes && not is_final
    then (err empty_chunk, a)
    else let b = purge_expired now a in
      find_and_receive upload_id i bytes content_type is_final (lookup upload_id b.sessions) b
