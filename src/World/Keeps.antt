-- ===== src/World/Keeps.antt =====
-- Calls that leave the file system and the clipboard as they are.
use clip_share_server.Prelude.{
  ℕ, ◌≡◌, refl, sym, subst, ◌∙◌, Bool, true, false, Option, none, some, List, if◌then◌else◌,
}
use clip_share_server.Exec.{Exec, ◌>>=◌, ◌>>◌, require, anyway, continue}
use clip_share_server.World.{World, FsOp, resume, after}

-- What a handler may change besides its socket.
pub record Outcome : Type 0 where
  pub log : List FsOp
  pub pasted : Option (List ℕ)
  pub cut : Option (List (List ℕ))

abbrev pub outcome : World → Outcome
outcome w = record { log = w.log; pasted = w.pasted; cut = w.cut }

abbrev pub Keeps : {A : Type 0} → Exec World A → Type 0
Keeps m = (w : World) → outcome (m w).1 ≡ outcome w

continue-Keeps :
    {A B : Type 0} (r : Option A × World) (f : A → Exec World B) (w : World)
    → outcome r.1 ≡ outcome w
    → ((a : A) → Keeps (f a))
    → outcome (continue r f).1 ≡ outcome w
continue-Keeps (some a, v) f w h k = k a v ∙ h
continue-Keeps (none, v) f w h k = h

module _ {A B : Type 0} where
  pub bind-Keeps :
      (m : Exec World A) (f : A → Exec World B)
      → Keeps m
      → ((a : A) → Keeps (f a))
      → Keeps (m >>= f)
  bind-Keeps m f h k w = continue-Keeps (m w) f w (h w) k

  pub then-Keeps : (m : Exec World A) (n : Exec World B) → Keeps m → Keeps n → Keeps (m >> n)
  then-Keeps m n h k = bind-Keeps m (λ _. n) h (λ _. k)

  anyway-Keeps : (m : Exec World A) (n : Exec World B) → Keeps m → Keeps n → Keeps (anyway m n)
  anyway-Keeps m n h k w = k (m w).1 ∙ h w

pub require-Keeps : (b : Bool) → Keeps (require b)
require-Keeps true w = refl
require-Keeps false w = refl

resume-Keeps :
    {A : Type 0} (hung : Bool) (r : Option (Unit {0})) (next : Bool → Exec World A) (v w : World)
    → ((b : Bool) → Keeps (next b))
    → outcome v ≡ outcome w
    → outcome (resume hung r next v).1 ≡ outcome w
resume-Keeps true r next v w k e = e
resume-Keeps false (some u) next v w k e = k true v ∙ e
resume-Keeps false none next v w k e = k false v ∙ e

pub after-Keeps :
    {A : Type 0} (m : Exec World (Unit {0})) (next : Bool → Exec World A)
    → Keeps m
    → ((b : Bool) → Keeps (next b))
    → Keeps (after m next)
after-Keeps m next h k w = resume-Keeps (m w).1.hung (m w).0 next (m w).1 w k (h w)

module _ {A : Type 0} where
  pub if-Keeps : (b : Bool) (m n : Exec World A) → Keeps m → Keeps n → Keeps (if b then m else n)
  if-Keeps true m n h k = h
  if-Keeps false m n h k = k

  pub option-Keeps :
      {X : Type 0} (o : Option X) (n : Exec World A) (f : X → Exec World A)
      → Keeps n
      → ((x : X) → Keeps (f x))
      → Keeps (elim o [ none ↦ n | some x ↦ f x ])
  option-Keeps none n f h k = h
  option-Keeps (some x) n f h k = k x

-- A property of the outcome that holds before a call that keeps everything holds after the
-- sequence, if it does after each continuation that is reached.
pub bind-ends :
    {A B : Type 0} (P : Outcome → Type 0) (m : Exec World A) (f : A → Exec World B) (w : World)
    → Keeps m
    → P (outcome w)
    → ((a : A) → (m w).0 ≡ some a → outcome (m w).1 ≡ outcome w → P (outcome (f a (m w).1).1))
    → P (outcome ((m >>= f) w).1)
bind-ends {A = A} {B = B} P m f w h idle k = go (m w).0 (m w).1 (h w) k
  where
    go :
        (r : Option A) (v : World)
        → outcome v ≡ outcome w
        → ((a : A) → r ≡ some a → outcome v ≡ outcome w → P (outcome (f a v).1))
        → P (outcome (continue (r, v) f).1)
    go (some a) v e next = next a refl e
    go none v e next = subst P (sym e) idle

pub require-true : (b : Bool) (w : World) {u : Unit {0}} → (require b w).0 ≡ some u → b ≡ true
require-true true w e = refl
require-true false w e = cc
