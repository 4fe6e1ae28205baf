-- ===== src/Gateway/Chunks/Wf.antt =====
-- The invariant of the assembler, and that a purge and a new upload keep it.
use app_stt_aio.Base.{
  ℕ, ◌+◌, ◌≤◌, String, ◌≡◌, refl, true, false, ◌⊎◌, List, [], ◌∷◌, arith, ltb, leb, nat_eq,
  string_eq, if◌then◌else◌, length, is_empty, inl, inr, Bool-cases,
}
use app_stt_aio.Base.Dict.{
  Dict, lookup, insert, remove, sum_by, AllValues, IsUnique, IsUnique-insert, IsUnique-remove,
  length-insert, length-remove, length-remove_lt, AllValues-insert, AllValues-remove, is_some,
}
use app_stt_aio.Gateway.Chunks.{
  ChunkSession, ChunkAssembler, max_chunk_sessions, purge_expired, expired_keys, delete_all,
  create_upload_id, make_room, oldest_from,
}

-- The count of a session is exactly what its parts hold, no part is empty, and the limit is kept.
pub record SessionIsWf (max : ℕ) (s : ChunkSession) : Type 0 where
  pub unique : IsUnique s.parts
  pub counted : s.total_bytes ≡ sum_by length s.parts
  pub within : s.total_bytes ≤ max
  pub nonempty : AllValues (λ bytes. is_empty bytes ≡ false) s.parts

pub record SessionsAreWf (max : ℕ) (m : Dict String ChunkSession) : Type 0 where
  pub unique : IsUnique m
  pub few : length m ≤ max_chunk_sessions
  pub each : AllValues (SessionIsWf max) m

abbrev pub IsWf : ChunkAssembler → Type 0
IsWf a = SessionsAreWf a.max_bytes a.sessions

module _ (max : ℕ) where
  pub remove-AreWf :
      (k : String) (m : Dict String ChunkSession)
      → SessionsAreWf max m
      → SessionsAreWf max (remove k m)
  remove-AreWf k m h = record {
    unique = IsUnique-remove k m h.unique;
    few = omega (arith, h.few, length-remove k m);
    each = AllValues-remove (SessionIsWf max) k m h.each;
  }

  delete_all-AreWf :
      (ks : List String) (m : Dict String ChunkSession)
      → SessionsAreWf max m
      → SessionsAreWf max (delete_all ks m)
  unfolding delete_all
  delete_all-AreWf [] m h = h
  delete_all-AreWf (k ∷ ks) m h = delete_all-AreWf ks (remove k m) (remove-AreWf k m h)

pub purge-IsWf : (now : ℕ) (a : ChunkAssembler) → IsWf a → IsWf (purge_expired now a)
unfolding purge_expired
purge-IsWf now a h = delete_all-AreWf a.max_bytes (expired_keys now a.sessions) a.sessions h

-- The key that `oldest_from` gives is the one it starts from or one of the list.
oldest_from-present :
    (k : String) (t : ℕ) (m : Dict String ChunkSession)
    → (oldest_from k t m ≡ k) ⊎ (is_some (lookup (oldest_from k t m) m) ≡ true)
unfolding oldest_from lookup
oldest_from-present k t [] = inl refl
oldest_from-present k t ((j, s) ∷ m) =
    let older = ltb s.created_at t in
    let k' = if older then j else k in
    let t' = if older then s.created_at else t in
    ground (arith, oldest_from-present k' t' m, string_eq.beq_iff j (oldest_from k' t' m))

length-make_room :
    (m : Dict String ChunkSession)
    → length m ≤ max_chunk_sessions
    → length (make_room m) + 1 ≤ max_chunk_sessions
unfolding make_room lookup
length-make_room [] h = omega arith
length-make_room ((k, s) ∷ m) h =
    let o = oldest_from k s.created_at m in
    ground (
      arith,
      oldest_from-present k s.created_at m,
      length-remove_lt o ((k, s) ∷ m),
      string_eq.beq_iff k o,
    )

make_room-AreWf :
    (max : ℕ) (m : Dict String ChunkSession) → SessionsAreWf max m → SessionsAreWf max (make_room m)
unfolding make_room
make_room-AreWf max [] h = h
make_room-AreWf max ((k, s) ∷ m) h =
    elim (Bool-cases (leb max_chunk_sessions (length ((k, s) ∷ m)))) [
      | inl full ↦ rw full (remove-AreWf max (oldest_from k s.created_at m) ((k, s) ∷ m) h)
      | inr free ↦ rw free h
    ]

pub insert-AreWf :
    (max : ℕ) (k : String) (s : ChunkSession) (m : Dict String ChunkSession)
    → SessionIsWf max s
    → SessionsAreWf max m
    → length m + 1 ≤ max_chunk_sessions
    → SessionsAreWf max (insert k s m)
insert-AreWf max k s m p h room = record {
  unique = IsUnique-insert k s m h.unique;
  few = omega (arith, room, length-insert k s m);
  each = AllValues-insert (SessionIsWf max) k s m p h.each;
}

-- Creating an upload keeps the invariant: the oldest upload gives way when all 32 places are taken.
pub create-IsWf :
    (now later : ℕ) (upload_id : String) (a : ChunkAssembler)
    → IsWf a
    → IsWf (create_upload_id now later upload_id a).1
unfolding create_upload_id sum_by
create-IsWf now later upload_id a h =
    let b = purge_expired now a in
    let w = purge-IsWf now a h in
    insert-AreWf b.max_bytes upload_id _ (make_room b.sessions)
      (record { unique = tt; counted = refl; within = omega arith; nonempty = tt })
      (make_room-AreWf b.max_bytes b.sessions w) (length-make_room b.sessions w.few)
