-- ===== src/ListUtils.antt =====
-- src/utils/list_utils.c: `list2`, a growing array of pointers. An element stands for what its
-- pointer points to. Whether `malloc` and `realloc` succeed is an argument.
pub mod Growth
use clip_share_server.Prelude.{
  ℕ, suc, ◌+◌, ◌*◌, ◌%◌, ◌^◌, Bool, true, false, not, Option, none, some, List, [], ◌∷◌, ◌++◌, ltb,
  leb, if◌then◌else◌,
}

-- `array` holds the first `len` of the `capacity` slots.
pub record List2 {ℓ} (A : Type ℓ) : Type ℓ where
  pub len : ℕ
  pub capacity : ℕ
  pub array : List A

-- What a call of `append` does: store the element, return without it, or write past the slots.
pub data Append {ℓ} (A : Type ℓ) : Type ℓ where
  appended : List2 A → Append A
  dropped : List2 A → Append A
  overrun : Append A

-- The new capacity; none where the list is as long as it may be.
unfoldable pub grown : ℕ → Option ℕ
grown capacity =
    if leb capacity 0x7FFFFFFF
    then some (capacity * 2)
    else if leb 0xFFFFFFFF capacity
    then none
    else some 0xFFFFFFFF

module _ {ℓ} {A : Type ℓ} where
  -- `granted` says whether both allocations succeed.
  unfoldable pub init_list : Bool → ℕ → Option (List2 A)
  init_list granted len =
      if granted then some (record { len = 0; capacity = len; array = [] }) else none

  -- lst->array[lst->len] = elem; lst->len++;
  unfoldable pub store : List2 A → A → Append A
  store lst elem =
      if ltb lst.len lst.capacity
      then appended (record lst { len = (lst.len + 1) % 2 ^ 32; array = lst.array ++ elem ∷ [] })
      else overrun

  unfoldable pub append : Bool → List2 A → A → Append A
  append granted lst elem =
      if ltb lst.len lst.capacity then store lst elem else elim (grown lst.capacity) [
        | none ↦ dropped lst
        | some new_cap ↦
            if granted then store (record lst { capacity = new_cap }) elem else dropped lst
      ]

  -- One call for each element, with every allocation granted.
  unfoldable pub append_all : List2 A → List A → Append A
  append_all lst [] = appended lst
  append_all lst (x ∷ xs) = elim (append true lst x) [
    | appended lst' ↦ append_all lst' xs
    | dropped lst' ↦ append_all lst' xs
    | overrun ↦ overrun
  ]
