-- ===== src/Gateway/Chunks/Tests.antt =====
-- Uploads of a few bytes.
use app_stt_aio.Base.{
  Bytes, List, [], arith, false, get_elem?, join, nat_eq, refl, some, string_eq, suc, true, zero, ℕ,
  ◌∷◌, ◌≡◌, ◌≤◌,
}
use app_stt_aio.Base.Dict.{Dict, lookup, sum_by}
use app_stt_aio.Base.Result.{ok}
use app_stt_aio.Base.Int.{pos}
use app_stt_aio.Gateway.Chunks.{
  ChunkSession, ChunkAssembler, add_part, assemble, sort, insert_sorted, same_list,
}
use app_stt_aio.Gateway.Chunks.Wf.{IsWf}
use app_stt_aio.Gateway.Chunks.Bounds.{
  create, add, serve, held_bytes, new_assembler, add_part-IsWf, serve-held_bytes,
}
use app_stt_aio.Gateway.Chunks.Assembly.{Holds, assemble_sound}
use app_stt_aio.Gateway.Chunks.Upload.{Sent, send, send_one, sent_bytes, latest, upload_any_order}

abbrev started : ChunkSession
started = record { parts = []; content_type = "audio/wav"; created_at = 5; total_bytes = 0 }

abbrev one_upload : ChunkAssembler
one_upload = record { max_bytes = 10; sessions = ("u", started) ∷ [] }

one_upload-IsWf : IsWf one_upload
unfolding lookup sum_by
one_upload-IsWf = record {
  unique = (refl, tt);
  few = omega arith;
  each = (record { unique = tt; counted = refl; within = omega arith; nonempty = tt }, tt);
}

abbrev late_part : Sent
late_part = record { at = 6; index = 1; bytes = 30 ∷ []; content_type = "" }

abbrev first_part : Sent
first_part = record { at = 9; index = 0; bytes = 10 ∷ 20 ∷ []; content_type = "" }

abbrev pieces : List Bytes
pieces = (10 ∷ 20 ∷ []) ∷ (30 ∷ []) ∷ []

abbrev two_parts : Dict ℕ Bytes
two_parts = (1, 30 ∷ []) ∷ (0, 10 ∷ 20 ∷ []) ∷ []

sent_pieces :
    (j : ℕ)
    → latest (late_part ∷ first_part ∷ []) (λ i. lookup i started.parts) j ≡ get_elem? pieces j
unfolding latest lookup
sent_pieces zero = refl
sent_pieces (suc zero) = refl
sent_pieces (suc (suc j)) = ground arith

two_parts-Holds : Holds two_parts pieces
unfolding lookup
two_parts-Holds zero = refl
two_parts-Holds (suc zero) = refl
two_parts-Holds (suc (suc j)) = ground arith

upload_any_order_example :
    (send_one "u" true first_part (send "u" (late_part ∷ []) one_upload)).0
    ≡ ok (some (10 ∷ 20 ∷ 30 ∷ []))
unfolding lookup sent_bytes
upload_any_order_example =
    upload_any_order "u" started one_upload (late_part ∷ []) first_part pieces one_upload-IsWf refl
      ((refl, omega arith), ((refl, omega arith), tt)) (omega arith) sent_pieces (λ e. absurd (cc))

serve-held_bytes_example :
    held_bytes
      (serve (create 0 0 "u" ∷ add 1 "u" (pos 0) (7 ∷ []) "" false ∷ []) (new_assembler 10))
    ≤ 320
serve-held_bytes_example =
    serve-held_bytes (create 0 0 "u" ∷ add 1 "u" (pos 0) (7 ∷ []) "" false ∷ []) 10

add_part-IsWf_example : IsWf (add_part 6 "u" (pos 1) (30 ∷ []) "" false one_upload).1
add_part-IsWf_example = add_part-IsWf 6 "u" (pos 1) (30 ∷ []) "" false one_upload one_upload-IsWf

assemble_sound_example : (ps : List Bytes) × Holds two_parts ps × ((10 ∷ 20 ∷ 30 ∷ []) ≡ join ps)
unfolding assemble sort insert_sorted same_list lookup
assemble_sound_example = assemble_sound two_parts (10 ∷ 20 ∷ 30 ∷ []) refl
