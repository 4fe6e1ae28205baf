-- ===== src/Base/Text.antt =====
-- `str.strip()` and `str.lower()`.
use Prim.Native.Nat.{ℕ, zero, suc, ◌-◌}
use Prim.Native.Char.{Char, code}
use Prim.Native.String.{String}
use mathlib.Core.Bool.{Bool, true, ◌&&◌, ◌||◌}
use app_stt_aio.Base.Tests.{leb, nat_eq, nat_beq, ◌==◌, if◌then◌else◌}

-- `str.isspace()` for one character.
abbrev pub is_space : ℕ → Bool
is_space c =
    (leb 9 c && leb c 13)
    || (leb 28 c && leb c 32)
    || nat_beq c 0x85
    || nat_beq c 0xa0
    || nat_beq c 0x1680
    || (leb 0x2000 c && leb c 0x200a)
    || nat_beq c 0x2028
    || nat_beq c 0x2029
    || nat_beq c 0x202f
    || nat_beq c 0x205f
    || nat_beq c 0x3000

abbrev pub is_blank : String → Bool
is_blank String.[] = true
is_blank (String.◌∷◌ c s) = is_space (code c) && is_blank s

pub lstrip : String → String
lstrip String.[] = ""
lstrip (String.◌∷◌ c s) = let rest = lstrip s in if is_space (code c) then rest else String.◌∷◌ c s

pub rstrip : String → String
rstrip String.[] = ""
rstrip (String.◌∷◌ c s) =
    let rest = rstrip s in if is_blank (String.◌∷◌ c s) then "" else String.◌∷◌ c rest

unfoldable pub strip : String → String
unfolding lstrip rstrip
strip s = rstrip (lstrip s)

-- `str.lower` as far as it can give an ASCII letter.
abbrev lower_letter : ℕ → Char
lower_letter zero = "a"
lower_letter (suc zero) = "b"
lower_letter (suc (suc zero)) = "c"
lower_letter (suc (suc (suc zero))) = "d"
lower_letter (suc (suc (suc (suc zero)))) = "e"
lower_letter (suc (suc (suc (suc (suc zero))))) = "f"
lower_letter (suc (suc (suc (suc (suc (suc zero)))))) = "g"
lower_letter (suc (suc (suc (suc (suc (suc (suc zero))))))) = "h"
lower_letter (suc (suc (suc (suc (suc (suc (suc (suc zero)))))))) = "i"
lower_letter (suc (suc (suc (suc (suc (suc (suc (suc (suc zero))))))))) = "j"
lower_letter (suc (suc (suc (suc (suc (suc (suc (suc (suc (suc zero)))))))))) = "k"
lower_letter (suc (suc (suc (suc (suc (suc (suc (suc (suc (suc (suc zero))))))))))) = "l"
lower_letter (suc (suc (suc (suc (suc (suc (suc (suc (suc (suc (suc (suc zero)))))))))))) = "m"
lower_letter (suc (suc (suc (suc (suc (suc (suc (suc (suc (suc (suc (suc (suc zero))))))))))))) =
    "n"
lower_letter
      (suc (suc (suc (suc (suc (suc (suc (suc (suc (suc (suc (suc (suc (suc zero)))))))))))))) =
    "o"
lower_letter
      (suc
        (suc (suc (suc (suc (suc (suc (suc (suc (suc (suc (suc (suc (suc (suc zero))))))))))))))) =
    "p"
lower_letter
      (suc (
        suc (
          suc
            (suc (suc (suc (suc (suc (suc (suc (suc (suc (suc (suc (suc (suc zero)))))))))))))))) =
    "q"
lower_letter
      (suc (
        suc (
          suc (
            suc (
              suc
                (suc (suc (suc (suc (suc (suc (suc (suc (suc (suc (suc (suc zero))))))))))))))))) =
    "r"
lower_letter
      (suc (
        suc (
          suc (
            suc (
              suc (
                suc (
                  suc
                    (suc (suc (suc (suc (suc (suc (suc (suc (suc (suc (suc zero)))))))))))))))))) =
    "s"
lower_letter
      (suc (
        suc (
          suc (
            suc (
              suc (
                suc (
                  suc (
                    suc (
                      suc
                        (suc (suc (suc (suc (suc (suc (suc (suc (suc (suc zero))))))))))))))))))) =
    "t"
lower_letter
      (suc (
        suc (
          suc (
            suc (
              suc (
                suc (
                  suc (
                    suc (
                      suc (
                        suc (
                          suc
                            (suc (suc (suc (suc (suc (suc (suc (suc (suc zero)))))))))))))))))))) =
    "u"
lower_letter
      (suc (
        suc (
          suc (
            suc (
              suc (
                suc (
                  suc (
                    suc (
                      suc (
                        suc (
                          suc (
                            suc (
                              suc
                                (suc (suc (suc (suc (suc (suc (suc (suc zero))))))))))))))))))))) =
    "v"
lower_letter
      (suc (
        suc (
          suc (
            suc (
              suc (
                suc (
                  suc (
                    suc (
                      suc (
                        suc (
                          suc (
                            suc (
                              suc (
                                suc (
                                  suc
                                    (suc (suc (suc (suc (suc (suc (suc zero)))))))))))))))))))))) =
    "w"
lower_letter
      (suc (
        suc (
          suc (
            suc (
              suc (
                suc (
                  suc (
                    suc (
                      suc (
                        suc (
                          suc (
                            suc (
                              suc (
                                suc (
                                  suc (
                                    suc (
                                      suc
                                        (suc (suc (suc (suc (suc (suc zero))))))))))))))))))))))) =
    "x"
lower_letter
      (suc (
        suc (
          suc (
            suc (
              suc (
                suc (
                  suc (
                    suc (
                      suc (
                        suc (
                          suc (
                            suc (
                              suc (
                                suc (
                                  suc (
                                    suc (
                                      suc (
                                        suc (
                                          suc
                                            (suc (suc (suc (suc (suc zero)))))))))))))))))))))))) =
    "y"
lower_letter _ = "z"

-- The letter k also has a sign of its own, for the unit Kelvin.
abbrev lower_char : Char → Char
lower_char c =
    if leb 65 (code c) && leb (code c) 90
    then lower_letter (code c - 65)
    else if code c == 0x212a
    then "k"
    else c

unfoldable pub lower : String → String
lower String.[] = ""
lower (String.◌∷◌ c s) = String.◌∷◌ (lower_char c) (lower s)
