-- ===== src/Exec.antt =====
-- Functions of the C code that return EXIT_SUCCESS or EXIT_FAILURE and work on a state: `some` is
-- success with the values passed back through pointers, `none` is EXIT_FAILURE. What was done to
-- the state before a failure stays done.
use clip_share_server.Prelude.{Bool, true, false, Option, none, some}

abbrev pub Exec {ℓ} : Type ℓ → Type ℓ → Type ℓ
Exec S A = S → Option A × S

module _ {ℓ} {S A : Type ℓ} where
  abbrev pub pure : A → Exec S A
  pure a s = (some a, s)

  -- return EXIT_FAILURE;
  abbrev pub fail : Exec S A
  fail s = (none, s)

  abbrev pub gets : (S → A) → Exec S A
  gets f s = (some (f s), s)

-- if (!cond) return EXIT_FAILURE;
abbrev pub require {ℓ} : {S : Type ℓ} → Bool → Exec S (Unit {ℓ})
require true s = (some tt, s)
require false s = (none, s)

module _ {ℓ} {S A B : Type ℓ} where
  abbrev pub continue : Option A × S → (A → Exec S B) → Option B × S
  continue (some a, s) f = f a s
  continue (none, s) f = (none, s)

  infixl 10 ◌>>=◌ ◌>>◌
  abbrev pub ◌>>=◌ : Exec S A → (A → Exec S B) → Exec S B
  ◌>>=◌ m f s = continue (m s) f

  abbrev pub ◌>>◌ : Exec S A → Exec S B → Exec S B
  m >> n = m >>= λ _. n

  -- The result and the failure are both dropped: a call whose status is not looked at.
  abbrev pub anyway : Exec S A → Exec S B → Exec S B
  anyway m n s = n (m s).1
