-- ===== src/Hotkey/Binding.antt =====
-- app/hotkey/binding.py: chords such as ctrl+shift+space. The set of modifiers has four members.
-- No key has a name with another letter than the ASCII ones.
use Prim.Native.Char.{Char, code}
use app_stt_aio.Base.{
  Bool, List, Option, String, [], false, if◌then◌else◌, nat_eq, none, some, string_eq, true, ℕ,
  ◌&&◌, ◌==◌, ◌||◌, ◌∷◌,
}
use app_stt_aio.Base.Dict.{Dict, lookup}
use app_stt_aio.Base.Result.{Result, ok, err}
use app_stt_aio.Base.Text.{strip, lower}

pub data Modifier : Type 0 where
  ctrl shift alt win : Modifier

pub record Modifiers : Type 0 where
  pub has_ctrl : Bool
  pub has_shift : Bool
  pub has_alt : Bool
  pub has_win : Bool

abbrev pub no_modifiers : Modifiers
no_modifiers = record { has_ctrl = false; has_shift = false; has_alt = false; has_win = false }

unfoldable pub set_modifier : Bool → Modifier → Modifiers → Modifiers
set_modifier b ctrl s = record s { has_ctrl = b }
set_modifier b shift s = record s { has_shift = b }
set_modifier b alt s = record s { has_alt = b }
set_modifier b win s = record s { has_win = b }

unfoldable pub has_modifier : Modifier → Modifiers → Bool
has_modifier ctrl s = s.has_ctrl
has_modifier shift s = s.has_shift
has_modifier alt s = s.has_alt
has_modifier win s = s.has_win

abbrev pub implies : Bool → Bool → Bool
implies true b = b
implies false b = true

-- `issubset`
unfoldable pub subset : Modifiers → Modifiers → Bool
subset a b =
    implies a.has_ctrl b.has_ctrl
    && implies a.has_shift b.has_shift
    && implies a.has_alt b.has_alt
    && implies a.has_win b.has_win

pub record KeyChord : Type 0 where
  pub modifiers : Modifiers
  pub key_name : String
  pub vk : ℕ

abbrev pub modifier_aliases : Dict String Modifier
modifier_aliases =
    ("ctrl", ctrl)
    ∷ ("control", ctrl)
    ∷ ("shift", shift)
    ∷ ("alt", alt)
    ∷ ("menu", alt)
    ∷ ("win", win)
    ∷ ("windows", win)
    ∷ []

abbrev pub vk_by_name : Dict String ℕ
vk_by_name =
    ("space", 0x20)
    ∷ ("tab", 0x9)
    ∷ ("enter", 0xd)
    ∷ ("return", 0xd)
    ∷ ("escape", 0x1b)
    ∷ ("esc", 0x1b)
    ∷ ("backspace", 0x8)
    ∷ ("delete", 0x2e)
    ∷ ("del", 0x2e)
    ∷ ("pause", 0x13)
    ∷ ("capslock", 0x14)
    ∷ ("scrolllock", 0x91)
    ∷ ("insert", 0x2d)
    ∷ ("home", 0x24)
    ∷ ("end", 0x23)
    ∷ ("pageup", 0x21)
    ∷ ("pagedown", 0x22)
    ∷ ("left", 0x25)
    ∷ ("up", 0x26)
    ∷ ("right", 0x27)
    ∷ ("down", 0x28)
    ∷ ("f1", 0x70)
    ∷ ("f2", 0x71)
    ∷ ("f3", 0x72)
    ∷ ("f4", 0x73)
    ∷ ("f5", 0x74)
    ∷ ("f6", 0x75)
    ∷ ("f7", 0x76)
    ∷ ("f8", 0x77)
    ∷ ("f9", 0x78)
    ∷ ("f10", 0x79)
    ∷ ("f11", 0x7a)
    ∷ ("f12", 0x7b)
    ∷ ("a", 0x41)
    ∷ ("b", 0x42)
    ∷ ("c", 0x43)
    ∷ ("d", 0x44)
    ∷ ("e", 0x45)
    ∷ ("f", 0x46)
    ∷ ("g", 0x47)
    ∷ ("h", 0x48)
    ∷ ("i", 0x49)
    ∷ ("j", 0x4a)
    ∷ ("k", 0x4b)
    ∷ ("l", 0x4c)
    ∷ ("m", 0x4d)
    ∷ ("n", 0x4e)
    ∷ ("o", 0x4f)
    ∷ ("p", 0x50)
    ∷ ("q", 0x51)
    ∷ ("r", 0x52)
    ∷ ("s", 0x53)
    ∷ ("t", 0x54)
    ∷ ("u", 0x55)
    ∷ ("v", 0x56)
    ∷ ("w", 0x57)
    ∷ ("x", 0x58)
    ∷ ("y", 0x59)
    ∷ ("z", 0x5a)
    ∷ ("0", 0x30)
    ∷ ("1", 0x31)
    ∷ ("2", 0x32)
    ∷ ("3", 0x33)
    ∷ ("4", 0x34)
    ∷ ("5", 0x35)
    ∷ ("6", 0x36)
    ∷ ("7", 0x37)
    ∷ ("8", 0x38)
    ∷ ("9", 0x39)
    ∷ []

-- The codes of the keys of a modifier.
unfoldable pub modifier_from_vk : ℕ → Option Modifier
modifier_from_vk vk =
    if vk == 0xa2 || vk == 0xa3 || vk == 0x11
    then some ctrl
    else if vk == 0xa0 || vk == 0xa1 || vk == 0x10
    then some shift
    else if vk == 0xa4 || vk == 0xa5 || vk == 0x12
    then some alt
    else if vk == 0x5b || vk == 0x5c || vk == 0x5d
    then some win
    else none

unfoldable pub chord_matches_pressed : KeyChord → Modifiers → Bool
chord_matches_pressed chord pressed = subset chord.modifiers pressed

abbrev put_front : Char → List String → List String
put_front c [] = String.◌∷◌ c "" ∷ []
put_front c (p ∷ ps) = String.◌∷◌ c p ∷ ps

-- `split("+")`
pub split_plus : String → List String
split_plus String.[] = "" ∷ []
split_plus (String.◌∷◌ c s) =
    let rest = split_plus s in if code c == 43 then "" ∷ rest else put_front c rest

-- `[part.strip() for part in parts if part.strip()]`
pub parts_of : List String → List String
parts_of [] = []
parts_of (p ∷ ps) = let rest = parts_of ps in if strip p == "" then rest else strip p ∷ rest

pub data BindingError : Type 0 where
  empty_binding invalid_binding two_main_keys no_main_key unknown_key : BindingError

-- The loop over the parts.
abbrev read_part :
    String
    → Option Modifier
    → Modifiers
    → Option String
    → Result BindingError (Modifiers × Option String)
read_part part (some m) mods main = ok (set_modifier true m mods, main)
read_part part none mods (some main) = err two_main_keys
read_part part none mods none = ok (mods, some part)

pub read_parts :
    List String → Modifiers → Option String → Result BindingError (Modifiers × Option String)
read_parts [] mods main = ok (mods, main)
read_parts (p ∷ ps) mods main = elim (read_part p (lookup p modifier_aliases) mods main) [
  | err e ↦ err e
  | ok r ↦ read_parts ps r.0 r.1
]

abbrev key_of : Modifiers → String → Option ℕ → Result BindingError KeyChord
key_of mods main none = err unknown_key
key_of mods main (some vk) = ok (record { modifiers = mods; key_name = main; vk = vk })

abbrev chord_of : Result BindingError (Modifiers × Option String) → Result BindingError KeyChord
chord_of (err e) = err e
chord_of (ok (mods, none)) = err no_main_key
chord_of (ok (mods, some main)) = key_of mods main (lookup main vk_by_name)

abbrev read_all : List String → Result BindingError KeyChord
read_all [] = err invalid_binding
read_all (p ∷ ps) = chord_of (read_parts (p ∷ ps) no_modifiers none)

unfoldable pub parse_binding : String → Result BindingError KeyChord
unfolding split_plus parts_of read_parts
parse_binding keys =
    let normalized = lower (strip keys) in
    if normalized == "" then err empty_binding else read_all (parts_of (split_plus normalized))
