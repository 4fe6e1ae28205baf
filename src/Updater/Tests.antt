-- ===== src/Updater/Tests.antt =====
-- Tests of the updater.
use app_stt_aio.Base.{Bytes, String, [], nat_eq, none, refl, some, string_eq, true, ◌∷◌}
use app_stt_aio.Base.Dict.{lookup}
use app_stt_aio.Updater.Download.{Answers, complete, Files, download_update}
use app_stt_aio.Updater.Installed.{IsInstalled, download_update-IsInstalled}

-- Two chunks arrive, and the digest of everything is "ab".
abbrev answers : Answers
answers = record {
  chunks = (1 ∷ 2 ∷ []) ∷ (3 ∷ []) ∷ [];
  ending = complete;
  total = none;
  file_ok = true;
  move_ok = true;
  unlink_ok = true;
  progress_ok = λ _ _. true;
}

abbrev same_digest : Bytes → String
same_digest bytes = "ab"

abbrev old_files : Files
old_files = ("setup.exe", 9 ∷ []) ∷ []

download_update-IsInstalled_example :
    IsInstalled same_digest answers "tmp" "setup.exe"
      (some " AB ")
      "setup.exe"
      old_files
      (download_update same_digest answers "tmp" "setup.exe" (some " AB ") old_files)
unfolding lookup
download_update-IsInstalled_example =
    download_update-IsInstalled same_digest answers "tmp" "setup.exe" (some " AB ") "setup.exe"
      old_files refl refl refl
