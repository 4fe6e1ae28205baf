-- ===== src/Updater/Installed.antt =====
-- What a download leaves on the disk.
use mathlib.Core.List.{append-nil, append_assoc}
use app_stt_aio.Base.{
  Bytes, List, Option, String, [], ap, false, if◌then◌else◌, is_empty, nat_eq, none, refl, some,
  string_eq, true, ℕ, ◌++◌, ◌+◌, ◌==◌, ◌∙◌, ◌∷◌, ◌≡◌, Bool-cases, inl, inr, length, sym, subst,
}
use app_stt_aio.Base.Dict.{lookup, lookup-insert, lookup-insert_self, remove, lookup-remove, insert}
use app_stt_aio.Base.Result.{ok, Result, err}
use app_stt_aio.Base.Text.{strip, lower}
use app_stt_aio.Updater.Download.{
  Answers, Files, content, write, fetch_to_file, verify_checksum, verify_if, DownloadFault, move_if,
  raised, verify_fetched, download_update,
}

-- The bytes of a response: a read that gives none ends it.
unfoldable pub received : List Bytes → Bytes
received [] = []
received (chunk ∷ chunks) = if is_empty chunk then [] else chunk ++ received chunks

-- What a checksum promises of bytes; an empty one promises nothing.
abbrev pub IsVerified : (Bytes → String) → Option String → Bytes → Type 0
IsVerified digest none bytes = Unit {0}
IsVerified digest (some expected) bytes =
    if expected == "" then Unit {0} else (digest bytes == lower (strip expected)) ≡ true

module _ (env : Answers) (tmp : String) where
  fetch-other :
      (k : String) (chunks : List Bytes) (n : ℕ) (files : Files)
      → (tmp == k) ≡ false
      → lookup k (fetch_to_file env tmp chunks n files).1 ≡ lookup k files
  unfolding fetch_to_file
  fetch-other k [] n files h = refl
  fetch-other k (chunk ∷ chunks) n files h =
      let step = lookup-insert tmp k (content (lookup tmp files) ++ chunk) files ∙ rw h refl in
      elim (Bool-cases (is_empty chunk)) [
        | inl end ↦ rw end refl
        | inr more ↦ elim (Bool-cases (env.progress_ok (n + length chunk) env.total)) [
          | inl going ↦
              rw (more, going)
                (fetch-other k chunks (n + length chunk) (write tmp chunk files) h ∙ step)
          | inr stopped ↦ rw (more, stopped) step
        ]
      ]

  written :
      (chunk : Bytes) (files : Files) (before : Bytes)
      → lookup tmp files ≡ some before
      → lookup tmp (write tmp chunk files) ≡ some (before ++ chunk)
  written chunk files before h = rw (lookup-insert_self, h) refl

  fetch-tmp :
      (chunks : List Bytes) (n : ℕ) (files : Files) (before : Bytes)
      → lookup tmp files ≡ some before
      → (fetch_to_file env tmp chunks n files).0 ≡ ok tt
      → lookup tmp (fetch_to_file env tmp chunks n files).1 ≡ some (before ++ received chunks)
  unfolding fetch_to_file received
  fetch-tmp [] n files before h done = h ∙ ap some (sym (append-nil before))
  fetch-tmp (chunk ∷ chunks) n files before h done = elim (Bool-cases (is_empty chunk)) [
    | inl end ↦ rw end (h ∙ ap some (sym (append-nil before)))
    | inr more ↦ elim (Bool-cases (env.progress_ok (n + length chunk) env.total)) [
      | inl going ↦
          rw (more, going)
            (fetch-tmp chunks (n + length chunk) (write tmp chunk files) (before ++ chunk)
                (written chunk files before h) (rw (more, going) at done)
              ∙ ap some (append_assoc before chunk (received chunks)))
      | inr stopped ↦ absurd (cc (rw (more, stopped) at done))
    ]
  ]

verify_if-IsVerified :
    (digest : Bytes → String) (expected : Option String) (path : String) (files : Files)
    (bytes : Bytes)
    → lookup path files ≡ some bytes
    → verify_if digest expected path files ≡ ok tt
    → IsVerified digest expected bytes
unfolding verify_checksum
verify_if-IsVerified digest none path files bytes h done = tt
verify_if-IsVerified digest (some expected) path files bytes h done =
    elim (Bool-cases (expected == "")) [
      | inl blank ↦ rw blank tt
      | inr given ↦ rw given (elim (Bool-cases (digest bytes == lower (strip expected))) [
        | inl same ↦ same
        | inr other ↦ absurd (cc (rw (given, h, other) at done))
      ])
    ]

module _ (digest : Bytes → String) (env : Answers) (tmp dest : String) (expected : Option String)
    (k : String) (files : Files) where
  -- What one path k holds after a download.
  abbrev pub IsInstalled : Result DownloadFault String × Files → Type 0
  IsInstalled (ok path, files') =
      (path ≡ dest)
      × (lookup k files' ≡ (if dest == k then some (received env.chunks) else lookup k files))
      × IsVerified digest expected (received env.chunks)
  IsInstalled (err e, files') = lookup k files' ≡ lookup k files

  module _ (fresh : lookup tmp files ≡ none) (apart : (tmp == dest) ≡ false) where
    cleaned :
        (now : Files)
        → ((tmp == k) ≡ false → lookup k now ≡ lookup k files)
        → lookup k (remove tmp now) ≡ lookup k files
    cleaned now other = rw lookup-remove (elim (Bool-cases (tmp == k)) [
      | inl same ↦
          rw same
            (sym (subst (λ i. lookup i files ≡ none) ((string_eq.beq_iff tmp k).0 same) fresh))
      | inr apart' ↦ rw apart' (other apart')
    ])

    elsewhere : (tmp == k) ≡ true → (dest == k) ≡ false
    elsewhere same = elim (Bool-cases (dest == k)) [
      | inr no_dest ↦ no_dest
      | inl also ↦ absurd (
          cc (
            apart,
            (string_eq.beq_iff tmp dest).1
                ((string_eq.beq_iff tmp k).0 same ∙ sym ((string_eq.beq_iff dest k).0 also)),
          ))
    ]

    moved :
        (now : Files)
        → ((tmp == k) ≡ false → lookup k now ≡ lookup k files)
        → lookup tmp now ≡ some (received env.chunks)
        → lookup k (remove tmp (insert dest (content (lookup tmp now)) (remove tmp now)))
          ≡ (if dest == k then some (received env.chunks) else lookup k files)
    moved now other here =
        rw (lookup-remove, lookup-insert, lookup-remove, here)
          (elim (Bool-cases (tmp == k)) [
            | inl same ↦
                rw (same, elsewhere same)
                  (sym
                    (subst (λ i. lookup i files ≡ none) ((string_eq.beq_iff tmp k).0 same) fresh))
            | inr apart' ↦ rw (apart', other apart') refl
          ])

    finished :
        (now : Files) (v : Result DownloadFault (Unit {0}))
        → ((tmp == k) ≡ false → lookup k now ≡ lookup k files)
        → lookup tmp now ≡ some (received env.chunks)
        → (v ≡ ok tt → IsVerified digest expected (received env.chunks))
        → IsInstalled (
            let (r, files') = move_if digest env.move_ok tmp dest (v, now) in
            (raised digest dest r, remove tmp files'))
    finished now (err e) other here checked = cleaned now other
    finished now (ok tt) other here checked = elim (Bool-cases env.move_ok) [
      | inl done ↦ rw done (refl, moved now other here, checked refl)
      | inr held ↦ rw held (cleaned now other)
    ]

    fetched :
        (r : Result DownloadFault (Unit {0}) × Files)
        → ((tmp == k) ≡ false → lookup k r.1 ≡ lookup k files)
        → (r.0 ≡ ok tt → lookup tmp r.1 ≡ some (received env.chunks))
        → IsInstalled (
            let (x, files') =
              move_if digest env.move_ok tmp dest (verify_fetched digest expected tmp r) in
            (raised digest dest x, remove tmp files'))
    fetched (err e, now) other here = cleaned now other
    fetched (ok tt, now) other here =
        finished now (verify_if digest expected tmp now) other (here refl) (λ done.
          verify_if-IsVerified digest expected tmp now (received env.chunks) (here refl) done)

-- Where the temporary file has a name of its own and can be deleted: a download that returns has put
-- at the destination the bytes that were received, they match the checksum that was asked for, and no other
-- file has changed; one that raises has changed no file at all, not even the one that stood at the
-- destination.
pub download_update-IsInstalled :
    (digest : Bytes → String) (env : Answers) (tmp dest : String) (expected : Option String)
    (k : String) (files : Files)
    → lookup tmp files ≡ none
    → (tmp == dest) ≡ false
    → env.unlink_ok ≡ true
    → IsInstalled digest env tmp dest expected k files
        (download_update digest env tmp dest expected files)
unfolding download_update
download_update-IsInstalled digest env tmp dest expected k files fresh apart unlinked =
    elim (Bool-cases env.file_ok) [
      | inr none_made ↦ rw none_made refl
      | inl made ↦
          rw (made, unlinked)
            (fetched digest env tmp dest expected k files fresh apart
              (fetch_to_file env tmp env.chunks 0 (insert tmp [] files))
              (λ other.
                fetch-other env tmp k env.chunks 0 _ other
                ∙ lookup-insert tmp k [] files
                ∙ rw other refl)
              (λ done. fetch-tmp env tmp env.chunks 0 _ [] (lookup-insert_self tmp [] files) done))
    ]
