-- ===== src/World/Changes.antt =====
-- The changes of the file system that a call makes: those it adds to the list.
use clip_share_server.Prelude.{
  ℕ, ◌≡◌, refl, sym, ap, ◌∙◌, Bool, true, false, Option, none, some, List, [], ◌∷◌, ◌++◌,
  append_assoc, All, All-append, if◌then◌else◌,
}
use clip_share_server.Exec.{Exec, ◌>>=◌, ◌>>◌, continue, require}
use clip_share_server.World.{
  resume, after, World, FsOp, made_dir, created, wrote, removed, renamed, removed_dir, did,
}
use clip_share_server.World.Keeps.{Keeps}

-- All the paths that a change concerns are as the predicate says.
abbrev pub IsOn : (List ℕ → Type 0) → FsOp → Type 0
IsOn P (made_dir path) = P path
IsOn P (created path) = P path
IsOn P (wrote path part) = P path
IsOn P (removed path) = P path
IsOn P (renamed old new) = P old × P new
IsOn P (removed_dir path) = P path

-- The later list is the earlier one with new changes in front, all of them as `P` says.
abbrev pub Added : (List ℕ → Type 0) → List FsOp → List FsOp → Type 0
Added P before later = (news : List FsOp) × (later ≡ news ++ before) × All (IsOn P) news

abbrev pub Adds : {A : Type 0} → (List ℕ → Type 0) → Exec World A → Type 0
Adds P m = (w : World) → Added P w.log (m w).1.log

module _ (P : List ℕ → Type 0) where
  pub Added-refl : (l : List FsOp) → Added P l l
  Added-refl l = ([], refl, tt)

  pub Added-eq : {l k : List FsOp} → k ≡ l → Added P l k
  Added-eq e = ([], e, tt)

  pub Added-trans : {a b c : List FsOp} → Added P a b → Added P b c → Added P a c
  Added-trans {a = a} (xs, e, h) (ys, d, k) = (
    ys ++ xs,
    d ∙ ap (λ t. ys ++ t) e ∙ sym (append_assoc ys xs a),
    All-append (IsOn P) ys xs k h,
  )

  pub if-Added :
      {A : Type 0} (l : List FsOp) (b : Bool) (r r' : Option A × World)
      → Added P l r.1.log
      → Added P l r'.1.log
      → Added P l (if b then r else r').1.log
  if-Added l true r r' h k = h
  if-Added l false r r' h k = k

  pub if-Adds :
      {A : Type 0} (b : Bool) (m n : Exec World A)
      → Adds P m
      → Adds P n
      → Adds P (if b then m else n)
  if-Adds true m n h k = h
  if-Adds false m n h k = k

  pub Keeps-Adds : {A : Type 0} (m : Exec World A) → Keeps m → Adds P m
  Keeps-Adds m h w = Added-eq (ap (λ o. o.log) (h w))

  pub continue-Adds :
      {A B : Type 0} (l : List FsOp) (r : Option A) (v : World) (f : A → Exec World B)
      → Added P l v.log
      → ((a : A) → r ≡ some a → Adds P (f a))
      → Added P l (continue (r, v) f).1.log
  continue-Adds l none v f h k = h
  continue-Adds l (some a) v f h k = Added-trans h (k a refl v)

  pub bind-Adds :
      {A B : Type 0} (m : Exec World A) (f : A → Exec World B)
      → Adds P m
      → ((a : A) → Adds P (f a))
      → Adds P (m >>= f)
  bind-Adds m f h k w = continue-Adds w.log (m w).0 (m w).1 f (h w) (λ a _. k a)

  pub then-Adds :
      {A B : Type 0} (m : Exec World A) (n : Exec World B) → Adds P m → Adds P n → Adds P (m >> n)
  then-Adds m n h k = bind-Adds m (λ _. n) h (λ _. k)

  resume-Adds :
      {A : Type 0} (hung : Bool) (r : Option (Unit {0})) (next : Bool → Exec World A) (v : World)
      → ((b : Bool) → Adds P (next b))
      → Added P v.log (resume hung r next v).1.log
  resume-Adds true r next v k = Added-refl v.log
  resume-Adds false (some u) next v k = k true v
  resume-Adds false none next v k = k false v

  pub after-Adds :
      {A : Type 0} (m : Exec World (Unit {0})) (next : Bool → Exec World A)
      → Adds P m
      → ((b : Bool) → Adds P (next b))
      → Adds P (after m next)
  after-Adds m next h k w = Added-trans (h w) (resume-Adds (m w).1.hung (m w).0 next (m w).1 k)

  pub require-Adds : (b : Bool) → Adds P (require b)
  require-Adds true w = Added-refl w.log
  require-Adds false w = Added-refl w.log

  pub did-Adds : (op : FsOp) → IsOn P op → Adds P (did op)
  did-Adds op h w = (op ∷ [], refl, (h, tt))

All-weaken :
    (P Q : List ℕ → Type 0) (ops : List FsOp)
    → ((path : List ℕ) → P path → Q path)
    → All (IsOn P) ops
    → All (IsOn Q) ops
All-weaken P Q [] f h = tt
All-weaken P Q (made_dir path ∷ ops) f (h, hs) = (f path h, All-weaken P Q ops f hs)
All-weaken P Q (created path ∷ ops) f (h, hs) = (f path h, All-weaken P Q ops f hs)
All-weaken P Q (wrote path part ∷ ops) f (h, hs) = (f path h, All-weaken P Q ops f hs)
All-weaken P Q (removed path ∷ ops) f (h, hs) = (f path h, All-weaken P Q ops f hs)
All-weaken P Q (renamed old new ∷ ops) f ((h, k), hs) =
    ((f old h, f new k), All-weaken P Q ops f hs)
All-weaken P Q (removed_dir path ∷ ops) f (h, hs) = (f path h, All-weaken P Q ops f hs)

pub Adds-weaken :
    {A : Type 0} (P Q : List ℕ → Type 0) (m : Exec World A)
    → ((path : List ℕ) → P path → Q path)
    → Adds P m
    → Adds Q m
Adds-weaken P Q m f h w = let (ops, e, all) = h w in (ops, e, All-weaken P Q ops f all)
