-- ===== src/Proto/Save/Paths.antt =====
-- Where `save_file` of src/proto/methods.c can write.
use clip_share_server.Prelude.{
  ℕ, zero, suc, ◌-◌, ◌≡◌, refl, sym, subst, ap, ◌∙◌, Bool, true, false, not, ◌||◌, Option, none,
  some, List, [], ◌∷◌, ◌++◌, append-nil, append_assoc, Bool-cases, inl, inr, ◌⊎◌, ◌==◌, leb, min,
  if◌then◌else◌, has_prefix, contains, arith, some_injective, drop, ℤ, pos, negsuc, gt_nat, ◌&&◌,
  ◌/◌, ◌+◌, magnitude, le_zero,
}
use clip_share_server.Exec.{Exec, ◌>>=◌, ◌>>◌, fail, require, gets}
use clip_share_server.Utils.Eol.{peek}
use clip_share_server.Utils.Dirs.{mkdirs, path_sep, max_file_name_len}
use clip_share_server.Utils.Dirs.Prefixes.{StartOf, mkdirs-Adds}
use clip_share_server.Net.Size.{read_size}
use clip_share_server.World.{Env, World, created, wrote, removed, on_socket, read_bytes, did}
use clip_share_server.World.Changes.{
  Adds, Added, Added-refl, if-Added, if-Adds, then-Adds, bind-Adds, require-Adds, did-Adds,
  Adds-weaken,
}
use clip_share_server.Proto.Transfer.{file_buf_sz}
use clip_share_server.Proto.Save.{
  parent, bad_path, write_part, give_up, receive_part, receive_body, create, save_body,
  save_file_common, make_directories, save_at, save_file, path_in, cleaned, is_valid_fname,
}

-- The path of an entry below a directory, or of the directory or of one above it on the way.
abbrev pub Below : List ℕ → List ℕ → Type 0
Below dirname path =
    ((below : List ℕ) × (path ≡ dirname ++ path_sep ∷ below)) ⊎ StartOf dirname path

-- Inside a directory, and never up through "/../".
abbrev pub Inside : List ℕ → List ℕ → Type 0
Inside dirname path = Below dirname path × (contains bad_path path ≡ false)

cons_eq : {c d : ℕ} {xs ys : List ℕ} → c ≡ d → xs ≡ ys → (c ∷ xs) ≡ (d ∷ ys)
cons_eq e k i = e i ∷ k i

pub StartOf-Below :
    (dirname below path : List ℕ) → StartOf (dirname ++ path_sep ∷ below) path → Below dirname path
StartOf-Below dirname below [] h = inr (dirname, refl)
StartOf-Below [] below (c ∷ path) (rest, e) = inl (path, ap (λ k. k ∷ path) (ap peek e))
StartOf-Below (d ∷ dirname) below (c ∷ path) (rest, e) =
    elim (StartOf-Below dirname below path (rest, ap (drop 1) e)) [
      | inl (x, k) ↦ inl (x, cons_eq (ap peek e) k)
      | inr (x, k) ↦ inr (x, cons_eq (ap peek e) k)
    ]

has_prefix_longer : (p s more : List ℕ) → has_prefix p s ≡ true → has_prefix p (s ++ more) ≡ true
unfolding has_prefix
has_prefix_longer [] s more h = refl
has_prefix_longer (x ∷ p) [] more h = cc
has_prefix_longer (x ∷ p) (y ∷ s) more h = ground (arith, has_prefix_longer p s more)

contains_longer : (p s more : List ℕ) → contains p s ≡ true → contains p (s ++ more) ≡ true
unfolding contains
contains_longer p [] [] h = h
contains_longer p [] (x ∷ more) h = ground (arith, has_prefix_longer p [] (x ∷ more) h)
contains_longer p (x ∷ s) more h =
    ground (arith, contains_longer p s more, has_prefix_longer p (x ∷ s) more)

eq_of : (a b : ℕ) → (a == b) ≡ true → a ≡ b
eq_of a b h = ground arith

parent-StartOf : (path dir : List ℕ) → parent path ≡ some dir → StartOf path dir
unfolding parent
parent-StartOf [] dir h = cc
parent-StartOf (c ∷ path) dir h = go (parent path) refl h (parent-StartOf path)
  where
    bare : (b : Bool) → (if b then some [] else none) ≡ some dir → StartOf (c ∷ path) dir
    bare true k = (c ∷ path, ap (λ t. t ++ c ∷ path) (sym (some_injective k)))
    bare false k = cc

    go :
        (r : Option (List ℕ))
        → parent path ≡ r
        → elim r [ some p ↦ some (c ∷ p) | none ↦ if c == path_sep then some [] else none ]
          ≡ some dir
        → ((p : List ℕ) → parent path ≡ some p → StartOf path p)
        → StartOf (c ∷ path) dir
    go none e k next = bare (c == path_sep) k
    go (some p) e k next =
        let (rest, d) = next p e in
        (rest, ap (λ t. t ++ rest) (sym (some_injective k)) ∙ cons_eq refl d)

module _ (env : Env) where
  -- What is done to the file itself.
  give_up-Adds : (path : List ℕ) → Adds (λ p. p ≡ path) (give_up env path)
  give_up-Adds path w = did-Adds (λ p. p ≡ path) (removed path) refl w

  receive_part-Adds :
      (path : List ℕ) (read_len : ℕ) → Adds (λ p. p ≡ path) (receive_part env path read_len)
  receive_part-Adds path read_len w = go (read_bytes read_len w).0 (read_bytes read_len w).1 refl
    where
      P : List ℕ → Type 0
      P p = p ≡ path

      go :
          (r : Option (List ℕ)) (v : World)
          → v.log ≡ w.log
          → Added P w.log
              (elim r as (λ k. Option (Unit {0}) × World) [
                | none ↦ give_up env path v
                | some part ↦ write_part env path part v
              ]).1.log
      go none v e = subst (λ l. Added P l (give_up env path v).1.log) e (give_up-Adds path v)
      go (some part) v e =
          subst (λ l. Added P l (write_part env path part v).1.log) e
            (if-Added P v.log (env.writes v.log path) (did (wrote path part) v) (give_up env path v)
              (did-Adds P (wrote path part) refl v) (give_up-Adds path v))

  receive_body-Adds :
      (fuel : ℕ) (path : List ℕ) (size : ℕ) → Adds (λ p. p ≡ path) (receive_body env fuel path size)
  unfolding receive_body
  receive_body-Adds fuel path zero = λ w. Added-refl _ w.log
  receive_body-Adds zero path (suc n) = λ w. Added-refl _ w.log
  receive_body-Adds (suc fuel) path (suc n) =
      let read_len = min (suc n) file_buf_sz in
      then-Adds (λ p. p ≡ path) (receive_part env path read_len)
        (receive_body env fuel path (suc n - read_len)) (receive_part-Adds path read_len)
        (receive_body-Adds fuel path (suc n - read_len))

  create-Adds : (path : List ℕ) → Adds (λ p. p ≡ path) (create env path)
  create-Adds path w =
      if-Added (λ p. p ≡ path) w.log (env.opens w.log path) (did (created path) w) (none, w)
        (did-Adds (λ p. p ≡ path) (created path) refl w) (Added-refl _ w.log)

  eq-StartOf : (path p : List ℕ) → p ≡ path → StartOf path p
  eq-StartOf path p e = ([], append-nil p ∙ e)

  save_body-Adds :
      (version : ℕ) (size : ℤ) (path : List ℕ)
      → Adds (StartOf path) (save_body env version size path)
  unfolding save_body
  save_body-Adds version (negsuc n) path =
      if-Adds (StartOf path) (n == 0 && leb 3 version) (mkdirs env path) fail (mkdirs-Adds env path)
        (λ w. Added-refl _ w.log)
  save_body-Adds version (pos n) path =
      let body = receive_body env (n / file_buf_sz + 1) path n in
      if-Adds (StartOf path) (gt_nat (pos n) env.configuration.max_file_size) fail
        (create env path >> body) (λ w. Added-refl _ w.log)
        (Adds-weaken (λ p. p ≡ path) (StartOf path) (create env path >> body) (eq-StartOf path)
          (then-Adds (λ p. p ≡ path) (create env path) body (create-Adds path)
            (receive_body-Adds (n / file_buf_sz + 1) path n)))

  pub save_file_common-Adds :
      (version : ℕ) (path : List ℕ) → Adds (StartOf path) (save_file_common env version path)
  unfolding save_file_common
  save_file_common-Adds version path =
      bind-Adds (StartOf path) (on_socket read_size) _ (λ w. Added-refl _ w.log)
        (λ size. save_body-Adds version size path)

  make_directories-Adds : (path : List ℕ) → Adds (StartOf path) (make_directories env path)
  unfolding make_directories
  make_directories-Adds path = go (parent path) (parent-StartOf path)
    where
      go :
          (r : Option (List ℕ))
          → ((dir : List ℕ) → r ≡ some dir → StartOf path dir)
          → Adds {A = Unit {0}}
              (StartOf path)
              (elim r as (λ k. Exec World (Unit {0})) [ none ↦ fail | some dir ↦ mkdirs env dir ])
      go none h = λ w. Added-refl _ w.log
      go (some dir) h =
          let (rest, e) = h dir refl in
          Adds-weaken (StartOf dir) (StartOf path) (mkdirs env dir)
            (λ p (more, d).
              (more ++ rest, sym (append_assoc p more rest) ∙ ap (λ t. t ++ rest) d ∙ e))
            (mkdirs-Adds env dir)

  pub StartOf-Inside :
      (dirname below path : List ℕ)
      → contains bad_path (dirname ++ path_sep ∷ below) ≡ false
      → StartOf (dirname ++ path_sep ∷ below) path
      → Inside dirname path
  StartOf-Inside dirname below path safe (rest, e) = (
    StartOf-Below dirname below path (rest, e),
    elim (Bool-cases (contains bad_path path)) [
      | inr k ↦ k
      | inl k ↦
          let both : true ≡ false =
            sym (contains_longer bad_path path rest k) ∙ ap (contains bad_path) e ∙ safe in
          cc
    ],
  )

  save_at-Adds :
      (version : ℕ) (dirname below : List ℕ)
      → Adds (Inside dirname) (save_at env version (dirname ++ path_sep ∷ below))
  unfolding save_at
  save_at-Adds version dirname below =
      let path = dirname ++ path_sep ∷ below in
      let made = require true >> make_directories env path in
      let looked = made >> gets (λ w. env.file_exists w.log path) in
      let save : Bool → Exec World (Unit {0}) =
        λ exists. require (not exists) >> save_file_common env version path in
      elim (Bool-cases (contains bad_path path)) [
        | inl e ↦ rw e (λ w. Added-refl _ w.log)
        | inr e ↦ rw e (
            Adds-weaken (StartOf path) (Inside dirname) (looked >>= save)
              (λ p h. StartOf-Inside dirname below p e h)
              (bind-Adds (StartOf path) looked save
                (then-Adds (StartOf path) made (gets (λ w. env.file_exists w.log path))
                  (then-Adds (StartOf path) (require true) (make_directories env path)
                    (require-Adds (StartOf path) true) (make_directories-Adds path))
                  (λ w. Added-refl _ w.log))
                (λ exists.
                  then-Adds (StartOf path) (require (not exists))
                    (save_file_common env version path) (require-Adds (StartOf path) (not exists))
                    (save_file_common-Adds version path))))
      ]

  path_in-split :
      (dirname name : List ℕ)
      → (below : List ℕ) × (path_in dirname name ≡ dirname ++ path_sep ∷ below)
  unfolding path_in
  path_in-split dirname [] = ([], refl)
  path_in-split dirname (c ∷ name) = elim (Bool-cases (c == path_sep)) [
    | inl e ↦ rw e (name, ap (λ t. dirname ++ t ∷ name) (eq_of c path_sep e))
    | inr e ↦ rw e (c ∷ name, refl)
  ]

  -- Whatever a client sends as the name and the content of a file, every path that `save_file`
  -- makes, writes or removes is below the directory it was given, or a part of the path that leads
  -- to it, and does not contain "/../".
  pub save_file-Inside :
      (version : ℕ) (dirname : List ℕ) → Adds (Inside dirname) (save_file env version dirname)
  unfolding save_file
  save_file-Inside version dirname =
      let P = Inside dirname in
      bind-Adds P (on_socket read_size) _ (λ w. Added-refl _ w.log)
        (λ size.
          let fits = not (le_zero size || gt_nat size max_file_name_len) in
          bind-Adds P (require fits) _ (require-Adds P fits) (λ _.
            bind-Adds P (read_bytes (magnitude size)) _ (λ w. Added-refl _ w.log)
              (λ raw.
                then-Adds P (require (is_valid_fname env raw))
                  (save_at env version (path_in dirname (cleaned raw)))
                  (require-Adds P (is_valid_fname env raw)) (saved (cleaned raw)))))
    where
      saved : (name : List ℕ) → Adds (Inside dirname) (save_at env version (path_in dirname name))
      saved name =
          let (below, e) = path_in-split dirname name in
          subst (λ p. Adds (Inside dirname) (save_at env version p)) (sym e)
            (save_at-Adds version dirname below)
