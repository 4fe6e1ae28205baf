-- ===== src/Updater/Download.antt =====
-- core/updater/downloader.py and verify.py. The directory of updates is a dictionary of files; paths are
-- texts. A digest has ASCII letters only. `digest` is the hexadecimal SHA-256 of bytes, and `tmp` the name that `mkstemp` makes up.
use app_stt_aio.Base.{
  Bool, Bytes, List, Option, String, [], if◌then◌else◌, is_empty, length, nat_eq, none, not, some,
  string_eq, ℕ, ◌++◌, ◌+◌, ◌==◌, ◌∷◌,
}
use app_stt_aio.Base.Dict.{Dict, lookup, insert, remove}
use app_stt_aio.Base.Result.{Result, Exec, ok, err}
use app_stt_aio.Base.Text.{strip, lower}

pub data DownloadFault : Type 0 where
  os_error download_error checksum_mismatch file_not_found : DownloadFault

-- How a response ends: with its last byte, or in an exception.
pub data Ending : Type 0 where
  complete url_error timeout_error other_error : Ending

-- What the network and the disk answer to one download. `file_ok` and `move_ok` say whether the temporary
-- file is made and moves; `unlink_ok` whether it can be deleted; `progress_ok` whether a call of
-- `on_progress` returns.
pub record Answers : Type 0 where
  pub chunks : List Bytes
  pub ending : Ending
  pub total : Option ℕ
  pub file_ok : Bool
  pub move_ok : Bool
  pub unlink_ok : Bool
  pub progress_ok : ℕ → Option ℕ → Bool

abbrev pub Files : Type 0
Files = Dict String Bytes

abbrev pub Download : Type 0 → Type 0
Download A = Exec DownloadFault Files A

abbrev pub content : Option Bytes → Bytes
content none = []
content (some bytes) = bytes

-- A write at the end of the temporary file.
abbrev pub write : String → Bytes → Files → Files
write tmp chunk files = insert tmp (content (lookup tmp files) ++ chunk) files

-- `int` of the header may fail as well, which is an ending like `other_error`.
abbrev pub ending_result : Ending → Result DownloadFault (Unit {0})
ending_result complete = ok tt
ending_result url_error = err download_error
ending_result timeout_error = err download_error
ending_result other_error = err os_error

-- `_fetch_to_file`: the chunks that are read, how much has come, and the calls of `on_progress`.
unfoldable pub fetch_to_file : Answers → String → List Bytes → ℕ → Download (Unit {0})
fetch_to_file env tmp [] downloaded files = (ending_result env.ending, files)
fetch_to_file env tmp (chunk ∷ chunks) downloaded files =
    let files' = write tmp chunk files in
    let downloaded' = downloaded + length chunk in
    let rest = fetch_to_file env tmp chunks downloaded' files' in
    if is_empty chunk
    then (ok tt, files)
    else if env.progress_ok downloaded' env.total
    then rest
    else (err os_error, files')

module _ (digest : Bytes → String) where
  abbrev pub compared : String → Option Bytes → Result DownloadFault (Unit {0})
  compared expected none = err file_not_found
  compared expected (some bytes) = if digest bytes == expected then ok tt else err checksum_mismatch

  unfoldable pub verify_checksum : String → String → Files → Result DownloadFault (Unit {0})
  verify_checksum path expected files = compared (lower (strip expected)) (lookup path files)

  -- `if expected_sha256:`
  abbrev pub verify_if : Option String → String → Files → Result DownloadFault (Unit {0})
  verify_if none path files = ok tt
  verify_if (some expected) path files =
      if expected == "" then ok tt else verify_checksum path expected files

  -- `tmp_path.replace(dest_path)`
  abbrev pub move : Bool → String → String → Files → Result DownloadFault (Unit {0}) × Files
  move done tmp dest files =
      if done
      then (ok tt, insert dest (content (lookup tmp files)) (remove tmp files))
      else (err os_error, files)

  abbrev pub move_if :
      Bool
      → String
      → String
      → Result DownloadFault (Unit {0}) × Files
      → Result DownloadFault (Unit {0}) × Files
  move_if done tmp dest (ok _, files) = move done tmp dest files
  move_if done tmp dest (err e, files) = (err e, files)

  abbrev pub verify_fetched :
      Option String
      → String
      → Result DownloadFault (Unit {0}) × Files
      → Result DownloadFault (Unit {0}) × Files
  verify_fetched expected tmp (ok _, files) = (verify_if expected tmp files, files)
  verify_fetched expected tmp (err e, files) = (err e, files)

  -- The `except` clauses: two errors go on as they are, and the others become a `DownloadError`.
  abbrev pub as_download_error : DownloadFault → DownloadFault
  as_download_error checksum_mismatch = checksum_mismatch
  as_download_error _ = download_error

  abbrev pub raised : String → Result DownloadFault (Unit {0}) → Result DownloadFault String
  raised dest (ok _) = ok dest
  raised dest (err e) = err (as_download_error e)

  -- `finally`: the temporary file is deleted where there is one.
  abbrev pub clean : Bool → String → Files → Files
  clean done tmp files = if done then remove tmp files else files

  unfoldable pub download_update : Answers → String → String → Option String → Download String
  unfolding fetch_to_file verify_checksum
  download_update env tmp dest expected files =
      if not env.file_ok
      then (err os_error, files)
      else let fetched = fetch_to_file env tmp env.chunks 0 (insert tmp [] files) in
        let (r, files') = move_if env.move_ok tmp dest (verify_fetched expected tmp fetched) in
        (raised dest r, clean env.unlink_ok tmp files')
