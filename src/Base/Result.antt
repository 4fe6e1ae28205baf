-- ===== src/Base/Result.antt =====
-- Exceptions: `Result` for what may raise, `Exec` for methods that change an object and may raise.
use mathlib.Core.Path.{◌≡◌}

pub data Result {ℓ κ} (E : Type ℓ) (A : Type κ) : Type (ℓ ⊔ κ) where
  ok : A → Result E A
  err : E → Result E A

-- What was written before a raise stays written, so the state comes back beside the error too.
abbrev pub Exec : Type 0 → Type 0 → Type 0 → Type 0
Exec E S A = S → Result E A × S

pub ok_inj {ℓ κ} : {E : Type ℓ} {A : Type κ} {a b : A} → ◌≡◌ {A = Result E A} (ok a) (ok b) → a ≡ b
ok_inj h = cc

abbrev pub pure : {E S A : Type 0} → A → Exec E S A
pure a s = (ok a, s)

abbrev pub raise : {E S A : Type 0} → E → Exec E S A
raise e s = (err e, s)

abbrev pub and_then : {E S A B : Type 0} → Result E A × S → (A → Exec E S B) → Result E B × S
and_then (ok a, s) f = f a s
and_then (err e, s) f = (err e, s)

infixl 5 ◌>>=◌ ◌>>◌
abbrev pub ◌>>=◌ : {E S A B : Type 0} → Exec E S A → (A → Exec E S B) → Exec E S B
◌>>=◌ m f s = and_then (m s) f

abbrev pub ◌>>◌ : {E S A B : Type 0} → Exec E S A → Exec E S B → Exec E S B
m >> k = m >>= λ _. k

-- `except E as e: handle(e)`
abbrev pub recover : {E S A : Type 0} → (E → Exec E S A) → Result E A × S → Result E A × S
recover h (ok a, s) = (ok a, s)
recover h (err e, s) = h e s

-- `finally: f()`, where `f` returns.
abbrev pub finally : {E S A : Type 0} → (S → S) → Result E A × S → Result E A × S
finally f (r, s) = (r, f s)
