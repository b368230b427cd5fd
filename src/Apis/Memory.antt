-- ===== src/Apis/Memory.antt =====
-- A heap, and how the deep copies of pkg/apis/mesh/v1alpha1/zz_generated.deepcopy.go work on it. A
-- pointer, a slice and a map are an address or nil; a heap is the list of its cells, of type `K`, and
-- an allocation adds a cell at its end. A slice is allocated when its elements are copied. A copy
-- yields nothing if it meets an address without a cell of the right type, which no Go heap has.
pub mod Readers
pub mod Faithful
use lite_mesh.Base.{ℕ, List, [], ◌∷◌, ◌++◌, Option, none, some, length, get_elem?}

abbrev pub Address : Type 0
Address = Option ℕ

-- What a copy of a `T` does: the new value and the heap after it.
abbrev pub Copy : Type 0 → Type 0 → Type 0
Copy K T = T → List K → Option (T × List K)

-- A type of cells: how a content lies in a cell, and how it is found there.
pub record CellType (K A : Type 0) : Type 0 where
  pub to_cell : A → K
  pub of_cell : K → Option A

unfoldable pub bind : {A B : Type 0} → Option A → (A → Option B) → Option B
bind none f = none
bind (some a) f = f a

unfoldable pub and_then :
    {K A B : Type 0}
    → Option (A × List K)
    → (A → List K → Option (B × List K))
    → Option (B × List K)
and_then none f = none
and_then (some (a, h)) f = f a h

-- A value without pointers.
unfoldable pub copy_value : {K T : Type 0} → Copy K T
copy_value x h = some (x, h)

unfoldable pub copy_list : {K T : Type 0} → Copy K T → Copy K (List T)
unfolding and_then
copy_list cp [] h = some ([], h)
copy_list cp (x ∷ xs) h =
    and_then (cp x h) (λ x' h'. and_then (copy_list cp xs h') (λ xs' h''. some (x' ∷ xs', h'')))

-- The copy of what an address refers to: nil stays nil.
unfoldable pub copy_ref : {K A : Type 0} → CellType K A → Copy K A → Copy K Address
unfolding bind and_then
copy_ref ct cp none h = some (none, h)
copy_ref ct cp (some a) h = bind (get_elem? h a) (λ c.
    bind (ct.of_cell c)
      (λ x. and_then (cp x h) (λ x' h'. some (some (length h'), h' ++ ct.to_cell x' ∷ []))))

-- Two fields, in order.
unfoldable pub copy_both : {K A B : Type 0} → Copy K A → Copy K B → Copy K (A × B)
unfolding and_then
copy_both cp cq (a, b) h =
    and_then (cp a h) (λ a' h'. and_then (cq b h') (λ b' h''. some ((a', b'), h'')))

-- `*out = *in`, then copies of some of the fields, which `set` writes.
unfoldable pub copy_struct : {K T F : Type 0} → (T → F) → (T → F → T) → Copy K F → Copy K T
unfolding and_then
copy_struct fields set cp x h = and_then (cp (fields x) h) (λ f h'. some (set x f, h'))
