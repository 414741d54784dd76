-- ===== src/ListUtils/Growth.antt =====
-- What a `list2` holds after appends, and where it writes past its slots.
use clip_share_server.Prelude.{
  ℕ, ◌+◌, ◌-◌, ◌≤◌, ◌<◌, ◌^◌, ◌≡◌, ◌≢◌, refl, sym, ap, ◌∙◌, Bool, true, false, some, List, [], ◌∷◌,
  ◌++◌, append_assoc, append-nil, length, length-append, arith, inl, inr, ◌↔◌, ltb, lt→ltb, ltb→lt,
  if◌then◌else◌, Bool-cases, Option-cases,
}
use clip_share_server.ListUtils.{
  List2, Append, appended, dropped, overrun, store, grown, append, append_all,
}

pub record IsValid {A : Type 0} (lst : List2 A) : Type 0 where
  pub counted : lst.len ≡ length lst.array
  pub within : lst.len ≤ lst.capacity
  pub word : lst.capacity < 2 ^ 32

-- The outcome of `append elem` on `lst`: at the end, in order; or nothing changes.
abbrev pub Appends : {A : Type 0} → List2 A → A → Append A → Type 0
Appends lst elem (appended lst') =
    IsValid lst'
    × (lst'.array ≡ lst.array ++ elem ∷ [])
    × (lst.capacity ≤ lst'.capacity)
    × (0 < lst'.capacity)
Appends lst elem (dropped lst') = lst' ≡ lst
Appends lst elem overrun = ⊥

grown_bounds : (c d : ℕ) → grown c ≡ some d → 0 < c → c < 2 ^ 32 → (c < d) × (d < 2 ^ 32)
unfolding grown
grown_bounds c d h p q = ground arith

module _ {A : Type 0} where
  store-Appends :
      (lst lst' : List2 A) (elem : A)
      → IsValid lst
      → lst'.array ≡ lst.array
      → lst'.len ≡ lst.len
      → lst.capacity ≤ lst'.capacity
      → lst'.capacity < 2 ^ 32
      → lst.len < lst'.capacity
      → Appends lst elem (store lst' elem)
  unfolding store
  store-Appends lst lst' elem v e l c w h =
      let fits : ltb lst'.len lst'.capacity ≡ true = lt→ltb _ _ (omega arith) in
      rw fits (
        record {
          counted = omega (arith, v.counted, ap length e, length-append lst'.array (elem ∷ []));
          within = omega arith;
          word = w;
        },
        ap (λ t. t ++ elem ∷ []) e,
        c,
        omega arith,
      )

  -- An `append` to a list with at least one slot stores the element behind the others, or leaves
  -- the list as it was; it never writes past the slots, and the capacity never shrinks. The list
  -- stays well formed.
  append-Appends :
      (granted : Bool) (lst : List2 A) (elem : A)
      → IsValid lst
      → 0 < lst.capacity
      → Appends lst elem (append granted lst elem)
  unfolding append
  append-Appends granted lst elem v h = elim (Bool-cases (ltb lst.len lst.capacity)) [
    | inl space ↦
        rw space (store-Appends lst lst elem v refl refl (omega arith) v.word (ltb→lt _ _ space))
    | inr full ↦ rw full (elim (Option-cases (grown lst.capacity)) [
      | inl top ↦ rw top refl
      | inr (new_cap, e) ↦
          rw e (grow granted new_cap (grown_bounds lst.capacity new_cap e h v.word))
    ])
  ]
    where
      grow :
          (granted : Bool) (new_cap : ℕ)
          → (lst.capacity < new_cap) × (new_cap < 2 ^ 32)
          → Appends lst elem
              (if granted then store (record lst { capacity = new_cap }) elem else dropped lst)
      grow false new_cap b = refl
      grow true new_cap (lo, hi) =
          store-Appends lst (record lst { capacity = new_cap }) elem v refl refl (omega arith) hi
            (omega (arith, v.within))

module _ {A : Type 0} where
  -- A list of no slots: `init_list(0)` with an `append` whose `realloc` gives a block of 0 bytes.
  -- Doubling the capacity leaves it 0, and the element is written past the block. On every other
  -- well-formed list no `append` does that.
  append_overruns :
      (granted : Bool) (lst : List2 A) (elem : A)
      → IsValid lst
      → (append granted lst elem ≡ overrun) ↔ ((lst.capacity ≡ 0) × (granted ≡ true))
  unfolding append store grown
  append_overruns granted lst elem v = (λ e. ground arith, λ h. ground arith)

  granted_stores :
      (lst lst' : List2 A) (elem : A)
      → IsValid lst
      → 0 < lst.capacity
      → lst.len < 2 ^ 32 - 1
      → append true lst elem ≢ dropped lst'
  unfolding append store grown
  granted_stores lst lst' elem v h k = λ e. ground arith

  append_granted :
      (lst : List2 A) (elem : A)
      → IsValid lst
      → 0 < lst.capacity
      → lst.len < 2 ^ 32 - 1
      → (lst' : List2 A) × (append true lst elem ≡ appended lst') × Appends lst elem (appended lst')
  append_granted lst elem v h k = go (append true lst elem) refl (append-Appends true lst elem v h)
    where
      go :
          (r : Append A)
          → append true lst elem ≡ r
          → Appends lst elem r
          → (lst' : List2 A) × (append true lst elem ≡ appended lst')
            × Appends lst elem (appended lst')
      go (appended lst') e p = (lst', e, p)
      go (dropped lst') e p = absurd (granted_stores lst lst' elem v h k e)
      go overrun e p = absurd p

  -- Where every allocation is granted, a list of any positive capacity holds what is appended, in
  -- order, as long as it stays below 2 ^ 32 - 1 elements.
  pub append_all-array :
      (lst : List2 A) (xs : List A)
      → IsValid lst
      → 0 < lst.capacity
      → lst.len + length xs < 2 ^ 32 - 1
      → (lst' : List2 A) × (append_all lst xs ≡ appended lst') × (lst'.array ≡ lst.array ++ xs)
  unfolding append_all
  append_all-array lst [] v h k = (lst, refl, sym (append-nil lst.array))
  append_all-array lst (x ∷ xs) v h k =
      let (l, e, p) = append_granted lst x v h (omega arith) in
      let (l', e', q) =
        append_all-array l xs p.0 p.3 (
          omega (arith, p.0.counted, v.counted, ap length p.1, length-append lst.array (x ∷ []))) in
      (l', rw (e, append_all) e', q ∙ ap (λ t. t ++ xs) p.1 ∙ append_assoc lst.array (x ∷ []) xs)
