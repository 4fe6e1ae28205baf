-- ===== src/Updater/Manifest.antt =====
-- core/updater/manifest.py and checker.py. `Values V` is what Python makes of the values of a decoded JSON
-- text; `fetch` is the object that a URL gives, and `none` where fetching or decoding raises or gives
-- another value.
use app_stt_aio.Base.{
  Bool, Option, String, [], false, if◌then◌else◌, nat_eq, none, not, some, string_eq, true, ℕ, ◌&&◌,
  ◌==◌, ◌∷◌, ◌≡◌, Bool-cases, inl, inr, refl,
}
use mathlib.Core.Option
use app_stt_aio.Base.Dict.{Dict, lookup, insert}
use app_stt_aio.Base.Text.{strip}
use app_stt_aio.Updater.Version.{is_newer_version}

pub record Values (V : Type 0) : Type 0 where
  pub str : V → String
  pub is_truthy : V → Bool
  pub is_none : V → Bool
  pub as_dict : V → Option (Dict String V)

pub record UpdateManifest : Type 0 where
  pub version : String
  pub download_url : Option String
  pub release_notes : String
  pub checksum_sha256 : Option String
  pub mandatory : Bool
  pub notes_by_version : Dict String String

abbrev pub or_none : String → Option String
or_none s = if s == "" then none else some s

module _ {V : Type 0} (py : Values V) where
  -- A missing key gives `None` too.
  unfoldable pub optional_str : Option V → Option String
  optional_str none = none
  optional_str (some v) = if py.is_none v then none else or_none (strip (py.str v))

  abbrev pub str_or_empty : Option V → String
  str_or_empty none = strip ""
  str_or_empty (some v) = strip (py.str v)

  abbrev pub bool_or_false : Option V → Bool
  bool_or_false none = false
  bool_or_false (some v) = py.is_truthy v

  -- The notes that are not blank. The keys of a decoded object are texts.
  unfoldable pub notes_of : Dict String V → Dict String String → Dict String String
  notes_of [] notes = notes
  notes_of ((k, v) ∷ raw) notes =
      notes_of raw (if strip (py.str v) == "" then notes else insert k (py.str v) notes)

  abbrev pub notes_in : Option (Dict String V) → Dict String String
  notes_in none = []
  notes_in (some raw) = notes_of raw []

  abbrev pub dict_in : Option V → Option (Dict String V)
  dict_in none = none
  dict_in (some v) = py.as_dict v

  unfoldable pub parse_manifest : Dict String V → UpdateManifest
  parse_manifest payload = record {
    version = str_or_empty (lookup "version" payload);
    download_url = optional_str (lookup "download_url" payload);
    release_notes = str_or_empty (lookup "release_notes" payload);
    checksum_sha256 = optional_str (lookup "checksum_sha256" payload);
    mandatory = bool_or_false (lookup "mandatory" payload);
    notes_by_version = notes_in (dict_in (lookup "notes_by_version" payload));
  }

-- `version or manifest.version`, without the spaces around it.
abbrev pub target_version : UpdateManifest → Option String → String
target_version m none = strip m.version
target_version m (some v) = if v == "" then strip m.version else strip v

abbrev pub notes_or_default : UpdateManifest → Option String → String
notes_or_default m none = m.release_notes
notes_or_default m (some notes) = notes

unfoldable pub get_release_notes : UpdateManifest → Option String → String
get_release_notes m version =
    let target = target_version m version in
    if target == "" then m.release_notes else notes_or_default m (lookup target m.notes_by_version)

pub record UpdateInfo : Type 0 where
  pub current_version : String
  pub latest_version : String
  pub download_url : Option String
  pub release_notes : String
  pub checksum_sha256 : Option String
  pub mandatory : Bool

-- `from_manifest`, with `__version__`.
unfoldable pub from_manifest : String → UpdateManifest → UpdateInfo
from_manifest current m = record {
  current_version = current;
  latest_version = m.version;
  download_url = m.download_url;
  release_notes = get_release_notes m none;
  checksum_sha256 = m.checksum_sha256;
  mandatory = m.mandatory;
}

-- `bool(s)` of a text or `None`.
abbrev pub has_text : Option String → Bool
has_text none = false
has_text (some s) = not (s == "")

unfoldable pub supports_direct_download : UpdateInfo → Bool
supports_direct_download info = has_text info.download_url && has_text info.checksum_sha256

module _ {V : Type 0} (py : Values V) (fetch : String → Option (Dict String V)) where
  unfoldable pub fetch_manifest : String → Option UpdateManifest
  fetch_manifest manifest_url =
      let url = strip manifest_url in
      if url == "" then none else Option.map (parse_manifest py) (fetch url)

  module _ (decimal : ℕ → Option ℕ) (current : String) where
    abbrev pub offered : Option UpdateManifest → Option UpdateInfo
    offered none = none
    offered (some m) =
        if m.version == ""
        then none
        else if not (is_newer_version decimal m.version current)
        then none
        else some (from_manifest current m)

    -- `strip` of the URL is done again in `fetch_manifest`.
    unfoldable pub check_for_updates : Option String → Option UpdateInfo
    check_for_updates none = none
    check_for_updates (some manifest_url) =
        let url = strip manifest_url in if url == "" then none else offered (fetch_manifest url)

    abbrev pub IsUpdate : Option UpdateInfo → Type 0
    IsUpdate none = Unit {0}
    IsUpdate (some info) =
        (is_newer_version decimal info.latest_version current ≡ true)
        × (info.current_version ≡ current)
        × (info.latest_version == "" ≡ false)

    offered-IsUpdate : (o : Option UpdateManifest) → IsUpdate (offered o)
    unfolding from_manifest
    offered-IsUpdate none = tt
    offered-IsUpdate (some m) = elim (Bool-cases (m.version == "")) [
      | inl empty ↦ rw empty tt
      | inr named ↦ elim (Bool-cases (is_newer_version decimal m.version current)) [
        | inl newer ↦ rw (named, newer) (newer, refl, named)
        | inr old ↦ rw (named, old) tt
      ]
    ]

    -- What the check offers is newer than the running version, whatever the server answers.
    check_for_updates-IsUpdate :
        (manifest_url : Option String) → IsUpdate (check_for_updates manifest_url)
    unfolding check_for_updates
    check_for_updates-IsUpdate none = tt
    check_for_updates-IsUpdate (some url) = elim (Bool-cases (strip url == "")) [
      | inl blank ↦ rw blank tt
      | inr given ↦ rw given (offered-IsUpdate (fetch_manifest (strip url)))
    ]

  unfoldable pub get_release_notes_for_version : String → String → Option String
  get_release_notes_for_version manifest_url version =
      Option.map (λ m. get_release_notes m (some version)) (fetch_manifest manifest_url)
