-- ===== src/Gateway/Chunks/Upload.antt =====
-- A whole upload: parts sent in any order, with repeats, and the final part that closes it.
use app_stt_aio.Base.{
  ap, sym, ◌∙◌, ◌≢◌, join, All, some, ℕ, ◌+◌, ◌≤◌, String, ◌≡◌, ◌∙◌, Bool, true, false, Option,
  none, some, List, [], ◌∷◌, arith, ltb, ◌==◌, nat_eq, string_eq, if◌then◌else◌, length, Bytes,
  is_empty, inl, inr, Option-cases, ◌++◌, get_elem?, refl,
}
use app_stt_aio.Base.Dict.{
  lookup, insert, remove, lookup-insert, lookup-remove, lookup-insert_self, AllValues-lookup,
}
use app_stt_aio.Base.Result.{Result, ok}
use app_stt_aio.Base.Int.{pos}
use app_stt_aio.Gateway.Chunks.{
  ChunkSession, ChunkAssembler, ChunkError, chunk_session_ttl_sec, purge_expired, add_part,
  drop_part, store_part, receive, find_and_receive, assemble,
}
use app_stt_aio.Gateway.Chunks.Wf.{IsWf, SessionIsWf}
use app_stt_aio.Gateway.Chunks.Assembly.{assemble_complete}
use app_stt_aio.Gateway.Chunks.Bounds.{add_part-IsWf, drop_part_lem, store_part_lem}
use app_stt_aio.Gateway.Chunks.Purge.{lookup-purge}

-- A part as it is sent: the time, the index, the bytes and the content type.
pub record Sent : Type 0 where
  pub at : ℕ
  pub index : ℕ
  pub bytes : Bytes
  pub content_type : String

-- The session after a part was put into it.
abbrev updated : Sent → ChunkSession → ChunkSession
updated p s =
    store_part p.index p.bytes p.content_type (drop_part p.index (lookup p.index s.parts) s)

updated_parts :
    (p : Sent) (s : ChunkSession) (j : ℕ)
    → is_empty p.bytes ≡ false
    → lookup j (updated p s).parts ≡ (if p.index == j then some p.bytes else lookup j s.parts)
unfolding drop_part store_part
updated_parts p s j full = elim (Option-cases (lookup p.index s.parts)) [
  | inl absent ↦ rw (absent, drop_part, full) (lookup-insert p.index j p.bytes s.parts)
  | inr (old, present) ↦
      rw (present, drop_part, full)
        (lookup-insert p.index j p.bytes (remove p.index s.parts)
          ∙ ground (arith, lookup-remove p.index j s.parts))
]

updated_bytes :
    (p : Sent) (s : ChunkSession) → (updated p s).total_bytes ≤ s.total_bytes + length p.bytes
unfolding drop_part store_part
updated_bytes p s = ground arith

updated_created : (p : Sent) (s : ChunkSession) → (updated p s).created_at ≡ s.created_at
unfolding drop_part store_part
updated_created p s = ground arith

abbrev pub send_one :
    String → Bool → Sent → ChunkAssembler → Result ChunkError (Option Bytes) × ChunkAssembler
send_one upload_id is_final p a =
    add_part p.at upload_id (pos p.index) p.bytes p.content_type is_final a

-- The parts of `sends`, one after the other, none of them final.
pub send : String → List Sent → ChunkAssembler → ChunkAssembler
send upload_id [] a = a
send upload_id (p ∷ rest) a = send upload_id rest (send_one upload_id false p a).1

-- What was sent last at an index, over what the session held before.
unfoldable pub latest : List Sent → (ℕ → Option Bytes) → ℕ → Option Bytes
latest [] old j = old j
latest (p ∷ rest) old j = latest rest (λ i. if p.index == i then some p.bytes else old i) j

unfoldable pub sent_bytes : List Sent → ℕ
sent_bytes [] = 0
sent_bytes (p ∷ rest) = length p.bytes + sent_bytes rest

-- A part that has bytes and comes before its upload expires.
abbrev pub InTime : ChunkSession → Sent → Type 0
InTime s p = (is_empty p.bytes ≡ false) × (p.at ≤ s.created_at + chunk_session_ttl_sec)

max_bytes-purge : (now : ℕ) (a : ChunkAssembler) → (purge_expired now a).max_bytes ≡ a.max_bytes
unfolding purge_expired
max_bytes-purge now a = refl

module _ (upload_id : String) (s : ChunkSession) (p : Sent) (a : ChunkAssembler) (h : IsWf a)
    (found : lookup upload_id a.sessions ≡ some s) (fresh : InTime s p)
    (room : s.total_bytes + length p.bytes ≤ a.max_bytes) where
  still_there : lookup upload_id (purge_expired p.at a).sessions ≡ some s
  still_there = ground (arith, lookup-purge p.at upload_id a h, found)

  fits : ltb (purge_expired p.at a).max_bytes (updated p s).total_bytes ≡ false
  unfolding purge_expired
  fits = ground (arith, updated_bytes p s)

  send_more : send_one upload_id false p a ≡ (
    ok none,
    record (purge_expired p.at a) {
      sessions = insert upload_id (updated p s) (purge_expired p.at a).sessions;
    },
  )
  unfolding add_part find_and_receive receive
  send_more = rw (fresh.0, still_there, find_and_receive, fits)

  send_last : (send_one upload_id true p a).0 ≡ assemble (updated p s).parts
  unfolding add_part find_and_receive receive
  send_last = rw (fresh.0, still_there, find_and_receive, fits)

latest-cong :
    (sends : List Sent) (f g : ℕ → Option Bytes) (j : ℕ)
    → ((i : ℕ) → f i ≡ g i)
    → latest sends f j ≡ latest sends g j
unfolding latest
latest-cong [] f g j h = h j
latest-cong (p ∷ rest) f g j h = latest-cong rest _ _ j (λ i. ground (arith, h i))

-- What the assembler holds of the upload after some parts were sent.
record Received (upload_id : String) (s : ChunkSession) (sends : List Sent) (max : ℕ)
    (a : ChunkAssembler) : Type 0 where
  now : ChunkSession
  wf : IsWf a
  same_max : a.max_bytes ≡ max
  found : lookup upload_id a.sessions ≡ some now
  same_time : now.created_at ≡ s.created_at
  counted : now.total_bytes ≤ s.total_bytes + sent_bytes sends
  parts : (j : ℕ) → lookup j now.parts ≡ latest sends (λ i. lookup i s.parts) j

InTime-later :
    (s t : ChunkSession) (sends : List Sent)
    → t.created_at ≡ s.created_at
    → All (InTime s) sends
    → All (InTime t) sends
InTime-later s t [] e h = tt
InTime-later s t (p ∷ rest) e h = ((h.0.0, omega (arith, e, h.0.1)), InTime-later s t rest e h.1)

send_lem :
    (upload_id : String) (sends : List Sent) (s : ChunkSession) (a : ChunkAssembler)
    → IsWf a
    → lookup upload_id a.sessions ≡ some s
    → All (InTime s) sends
    → s.total_bytes + sent_bytes sends ≤ a.max_bytes
    → Received upload_id s sends a.max_bytes (send upload_id sends a)
unfolding send latest sent_bytes
send_lem upload_id [] s a h found times room = record {
  now = s;
  wf = h;
  same_max = refl;
  found = found;
  same_time = refl;
  counted = omega arith;
  parts = λ j. refl;
}
send_lem upload_id (p ∷ rest) s a h found times room =
    let a' = (send_one upload_id false p a).1 in
    let step = send_more upload_id s p a h found times.0 (omega (arith, room)) in
    let max' : a'.max_bytes ≡ a.max_bytes =
      ap (λ (r : Result ChunkError (Option Bytes) × ChunkAssembler). r.1.max_bytes) step
      ∙ max_bytes-purge p.at a in
    let found' : lookup upload_id a'.sessions ≡ some (updated p s) =
      ap (λ (r : Result ChunkError (Option Bytes) × ChunkAssembler). lookup upload_id r.1.sessions)
        step
      ∙ lookup-insert_self upload_id (updated p s) (purge_expired p.at a).sessions in
    let r =
      send_lem upload_id rest (updated p s) a'
        (add_part-IsWf p.at upload_id (pos p.index) p.bytes p.content_type false a h) found'
        (InTime-later s (updated p s) rest (updated_created p s) times.1)
        (omega (arith, updated_bytes p s, max', room)) in
    record {
      now = r.now;
      wf = r.wf;
      same_max = r.same_max ∙ max';
      found = r.found;
      same_time = r.same_time ∙ updated_created p s;
      counted = omega (arith, r.counted, updated_bytes p s);
      parts = λ j. r.parts j ∙ latest-cong rest _ _ j (λ i. updated_parts p s i times.0.0);
    }

latest_last :
    (sends : List Sent) (final : Sent) (old : ℕ → Option Bytes) (j : ℕ)
    → latest (sends ++ final ∷ []) old j
      ≡ (if final.index == j then some final.bytes else latest sends old j)
unfolding latest
latest_last [] final old j = refl
latest_last (p ∷ rest) final old j = latest_last rest final _ j

-- An upload whose parts, none of them empty, came in any order, with repeats, in time and within the
-- limit, gives the pieces in order, if what was sent last at each index is the piece of that index.
pub upload_any_order :
    (upload_id : String) (s : ChunkSession) (a : ChunkAssembler) (sends : List Sent) (final : Sent)
    (pieces : List Bytes)
    → IsWf a
    → lookup upload_id a.sessions ≡ some s
    → All (InTime s) (final ∷ sends)
    → s.total_bytes + sent_bytes (final ∷ sends) ≤ a.max_bytes
    → ((j : ℕ) → latest (sends ++ final ∷ []) (λ i. lookup i s.parts) j ≡ get_elem? pieces j)
    → pieces ≢ []
    → (send_one upload_id true final (send upload_id sends a)).0 ≡ ok (some (join pieces))
unfolding sent_bytes
upload_any_order upload_id s a sends final pieces h found times room complete some_piece =
    let r = send_lem upload_id sends s a h found times.1 (omega (arith, room)) in
    let a' = send upload_id sends a in
    let in_time = InTime-later s r.now (final ∷ []) r.same_time (times.0, tt) in
    let fits : r.now.total_bytes + length final.bytes ≤ a'.max_bytes =
      omega (arith, r.counted, r.same_max, room) in
    let dropped =
      drop_part_lem a'.max_bytes final.index r.now (
        AllValues-lookup (SessionIsWf a'.max_bytes) upload_id r.now a'.sessions r.wf.each
          r.found) in
    let wf =
      store_part_lem a'.max_bytes final.index final.bytes final.content_type
        (drop_part final.index (lookup final.index r.now.parts) r.now) dropped.0 dropped.1
        (omega (arith, updated_bytes final r.now, fits)) in
    send_last upload_id r.now final a' r.wf r.found in_time.0 fits
    ∙ assemble_complete (updated final r.now).parts pieces wf.unique
        (λ j.
          updated_parts final r.now j times.0.0
          ∙ ground (arith, r.parts j)
          ∙ sym (latest_last sends final (λ i. lookup i s.parts) j)
          ∙ complete j)
        some_piece
