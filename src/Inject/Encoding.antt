-- ===== src/Inject/Encoding.antt =====
-- core/inject/text_encoding.py, and the inverse of the encoding. A str of Python may hold lone
-- surrogates, which have no encoding; its code points are below 0x110000.
use app_stt_aio.Base.{
  Bool, List, Option, [], false, if◌then◌else◌, leb, ltb, none, some, ℕ, ◌%◌, ◌&&◌, ◌*◌, ◌+◌, ◌-◌,
  ◌/◌, ◌<◌, ◌∷◌, ◌≡◌, All, arith, Bool-cases, inl, inr, length, refl, subst, nat_eq, string_eq,
}
use app_stt_aio.Inject.{Text}
use app_stt_aio.Base.Dict.{some_inj}

-- The units of one character.
abbrev pub is_surrogate : ℕ → Bool
is_surrogate c = leb 0xd800 c && leb c 0xdfff

abbrev pub high_unit : ℕ → ℕ
high_unit c = 0xd800 + (c - 0x10000) / 0x400

abbrev pub low_unit : ℕ → ℕ
low_unit c = 0xdc00 + (c - 0x10000) % 0x400

unfoldable pub units_of : ℕ → List ℕ → List ℕ
units_of c rest = if leb c 0xffff then c ∷ rest else high_unit c ∷ low_unit c ∷ rest

abbrev pub put_units : ℕ → Option (List ℕ) → Option (List ℕ)
put_units c none = none
put_units c (some us) = if is_surrogate c then none else some (units_of c us)

-- `none` is a `UnicodeEncodeError`.
unfoldable pub text_to_utf16_units : Text → Option (List ℕ)
text_to_utf16_units [] = some []
text_to_utf16_units (c ∷ t) = put_units c (text_to_utf16_units t)

unfoldable pub surrogate_pair_count : Text → ℕ
surrogate_pair_count [] = 0
surrogate_pair_count (c ∷ t) = (if ltb 0xffff c then 1 else 0) + surrogate_pair_count t

-- A decoder of UTF-16: a high surrogate and the unit after it are one character.
abbrev pub put_char : ℕ → Option Text → Option Text
put_char c none = none
put_char c (some t) = some (c ∷ t)

unfoldable pub decode_from : List ℕ → Option ℕ → Option Text
decode_from [] none = some []
decode_from [] (some high) = none
decode_from (u ∷ us) (some high) =
    if leb 0xdc00 u && leb u 0xdfff
    then put_char (0x10000 + (high - 0xd800) * 0x400 + (u - 0xdc00)) (decode_from us none)
    else none
decode_from (u ∷ us) none =
    if leb 0xd800 u && leb u 0xdbff
    then decode_from us (some u)
    else if leb 0xdc00 u && leb u 0xdfff
    then none
    else put_char u (decode_from us none)

abbrev pub IsCodePoint : ℕ → Type 0
IsCodePoint c = c < 0x110000

decode-units_of :
    (c : ℕ) (us : List ℕ)
    → IsCodePoint c
    → is_surrogate c ≡ false
    → decode_from (units_of c us) none ≡ put_char c (decode_from us none)
unfolding units_of decode_from
decode-units_of c us p q = ground arith

decode-put_units :
    (c : ℕ) (t : Text) (o : Option (List ℕ)) (us : List ℕ)
    → IsCodePoint c
    → ((vs : List ℕ) → o ≡ some vs → decode_from vs none ≡ some t)
    → put_units c o ≡ some us
    → decode_from us none ≡ some (c ∷ t)
decode-put_units c t none us p ih h = absurd (cc)
decode-put_units c t (some vs) us p ih h = elim (Bool-cases (is_surrogate c)) [
  | inl lone ↦ absurd (cc (rw lone at h))
  | inr other ↦
      subst (λ ws. decode_from ws none ≡ some (c ∷ t)) (some_inj (rw other at h))
        (rw (decode-units_of c vs p other, ih vs refl) refl)
]

-- Where a text whose characters are code points can be encoded, decoding its units gives it back.
pub decode-text_to_utf16_units :
    (t : Text) (us : List ℕ)
    → All IsCodePoint t
    → text_to_utf16_units t ≡ some us
    → decode_from us none ≡ some t
unfolding text_to_utf16_units decode_from
decode-text_to_utf16_units [] us p h = subst (λ ws. decode_from ws none ≡ some []) (some_inj h) refl
decode-text_to_utf16_units (c ∷ t) us p h =
    decode-put_units c t (text_to_utf16_units t) us p.0
      (λ vs k. decode-text_to_utf16_units t vs p.1 k) h

length-units_of :
    (c : ℕ) (us : List ℕ) → length (units_of c us) ≡ 1 + (if ltb 0xffff c then 1 else 0) + length us
unfolding units_of
length-units_of c us = ground arith

length-put_units :
    (c n : ℕ) (o : Option (List ℕ)) (us : List ℕ)
    → ((vs : List ℕ) → o ≡ some vs → length vs ≡ n)
    → put_units c o ≡ some us
    → length us ≡ 1 + (if ltb 0xffff c then 1 else 0) + n
length-put_units c n none us ih h = absurd (cc)
length-put_units c n (some vs) us ih h = elim (Bool-cases (is_surrogate c)) [
  | inl lone ↦ absurd (cc (rw lone at h))
  | inr other ↦
      subst (λ ws. length ws ≡ 1 + (if ltb 0xffff c then 1 else 0) + n) (some_inj (rw other at h))
        (rw length-units_of (omega (arith, ih vs refl)))
]

-- A text has one unit for each character and one more for each surrogate pair that
-- `surrogate_pair_count` counts.
length-text_to_utf16_units :
    (t : Text) (us : List ℕ)
    → text_to_utf16_units t ≡ some us
    → length us ≡ length t + surrogate_pair_count t
unfolding text_to_utf16_units surrogate_pair_count
length-text_to_utf16_units [] us h = subst (λ ws. length ws ≡ 0) (some_inj h) refl
length-text_to_utf16_units (c ∷ t) us h = omega (
  arith,
  length-put_units c (length t + surrogate_pair_count t) (text_to_utf16_units t) us
      (λ vs k. length-text_to_utf16_units t vs k) h,
)
