-- ===== src/Collector/Sorted.antt =====
-- Sorted lists under a total comparison, and the insertion that the stores are measured against.
use Prim.Native.Nat.{Ordering}
use bluge.Base.{
  suc, ◌≡◌, refl, Bool, true, false, List, [], ◌∷◌, ◌++◌, arith, length, All, All-imp, Perm,
}
use mathlib.Core.List.Perm
use bluge.Search.Order.{IsTotal}

abbrev pub is_lt : Ordering → Bool
is_lt Ordering.lt = true
is_lt _ = false

module _ {D : Type 0} (c : D → D → Ordering) where
  -- `d` behind every entry that it is not less than.
  unfoldable pub insert : D → List D → List D
  insert d [] = d ∷ []
  insert d (x ∷ xs) = elim (c d x) [ Ordering.lt ↦ d ∷ x ∷ xs | _ ↦ x ∷ insert d xs ]

  -- The insertion sort of what is still to come into a sorted list.
  unfoldable pub insert_all : List D → List D → List D
  unfolding insert
  insert_all sorted [] = sorted
  insert_all sorted (d ∷ rest) = insert_all (insert d sorted) rest

  -- No entry of the list is less than `x`.
  abbrev pub Above : D → List D → Type 0
  Above x = All (λ y. is_lt (c y x) ≡ false)

  abbrev pub IsSorted : List D → Type 0
  IsSorted [] = Unit
  IsSorted (x ∷ xs) = Above x xs × IsSorted xs

  pub insert-perm : (d : D) (xs : List D) → Perm (insert d xs) (d ∷ xs)
  unfolding insert
  insert-perm d [] = Perm.refl (d ∷ [])
  insert-perm d (x ∷ xs) = ground (
    arith,
    Perm.refl (d ∷ x ∷ xs),
    Perm.trans (Perm.cons x (insert-perm d xs)) (Perm.swap d x xs),
  )

  pub length-insert : (d : D) (xs : List D) → length (insert d xs) ≡ suc (length xs)
  unfolding insert
  length-insert d [] = refl
  length-insert d (x ∷ xs) = ground (arith, length-insert d xs)

  pub Above-insert :
      (x d : D) (xs : List D) → Above x xs → is_lt (c d x) ≡ false → Above x (insert d xs)
  unfolding insert
  Above-insert x d [] h k = (k, tt)
  Above-insert x d (y ∷ ys) h k = ground (arith, Above-insert x d ys h.1 k)

  module _ (total : IsTotal c) where
    pub not_lt_trans :
        (a b d : D) → is_lt (c b a) ≡ false → is_lt (c d b) ≡ false → is_lt (c d a) ≡ false
    not_lt_trans a b d h k =
        ground (
          arith,
          total.flip a b,
          total.flip a d,
          total.flip b d,
          total.trans d a b,
          total.tie a b d,
        )

    pub lt_not_lt : (a b d : D) → c a b ≡ Ordering.lt → is_lt (c d b) ≡ false → c a d ≡ Ordering.lt
    lt_not_lt a b d h k =
        ground (
          arith,
          total.flip b d,
          total.flip a d,
          total.flip a b,
          total.trans a b d,
          total.tie b d a,
        )

    pub not_lt_of_lt : (a b : D) → c a b ≡ Ordering.lt → is_lt (c b a) ≡ false
    not_lt_of_lt a b h = ground (arith, total.flip a b)

    pub IsSorted-insert : (d : D) (xs : List D) → IsSorted xs → IsSorted (insert d xs)
    unfolding insert
    IsSorted-insert d [] h = (tt, tt)
    IsSorted-insert d (x ∷ xs) h = ground (
      arith,
      IsSorted-insert d xs h.1,
      Above-insert x d xs h.0,
      not_lt_of_lt d x,
      Above-trans d x xs,
    )
      where
        Above-trans : (a b : D) (ys : List D) → c a b ≡ Ordering.lt → Above b ys → Above a ys
        Above-trans a b ys lt =
            All-imp _ (λ y. is_lt (c y a) ≡ false) ys
              (λ y h. not_lt_trans a b y (not_lt_of_lt a b lt) h)

    -- Below the first entry that `d` is less than, insertion leaves the rest alone.
    pub insert-append_lt :
        (d x : D) (xs ys : List D)
        → c d x ≡ Ordering.lt
        → insert d (xs ++ x ∷ ys) ≡ insert d xs ++ x ∷ ys
    unfolding insert
    insert-append_lt d x [] ys h = ground arith
    insert-append_lt d x (z ∷ xs) ys h = ground (arith, insert-append_lt d x xs ys h)

    -- Past an entry that `d` is not less than, insertion goes on behind it.
    pub insert-append_ge :
        (d x : D) (xs ys : List D)
        → IsSorted (xs ++ x ∷ ys)
        → is_lt (c d x) ≡ false
        → insert d (xs ++ x ∷ ys) ≡ xs ++ x ∷ insert d ys
    unfolding insert
    insert-append_ge d x [] ys s h = ground arith
    insert-append_ge d x (z ∷ xs) ys s h =
        ground (arith, insert-append_ge d x xs ys s.1 h, not_lt_trans z x d (Above-middle xs s.0) h)
      where
        Above-middle : (ws : List D) → Above z (ws ++ x ∷ ys) → is_lt (c x z) ≡ false
        Above-middle [] a = a.0
        Above-middle (w ∷ ws) a = Above-middle ws a.1
