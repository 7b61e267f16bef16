-- ===== src/Collector/Slice.antt =====
-- collectStoreSlice: the insertion from the end is the insertion of Collector.Sorted, and a full
-- store gives its greatest entry back.
use Prim.Native.Nat.{Ordering}
use bluge.Base.{
  ℕ, zero, suc, ◌≤◌, ◌≡◌, refl, ◌∙◌, Bool, true, false, List, [], ◌∷◌, ◌++◌, some, arith, length,
  take, drop, All, All-imp, ap, ◌==◌, if◌then◌else◌, Bool-cases, inl, inr,
}
use bluge.Search.Order.{IsTotal}
use bluge.Collector.Store.{slice_add_loop, slice_add, slice_remove_last}
use bluge.Collector.Sorted.{insert, is_lt, IsSorted, Above, lt_not_lt}

module _ {D : Type 0} (c : D → D → Ordering) where
  -- The index in a list is one more than in its tail, or lies at the head.
  slice_add_loop-cons :
      (d x : D) (xs : List D) (i : ℕ)
      → slice_add_loop c d (x ∷ xs) (suc i) ≡ (
          if slice_add_loop c d xs i == 0
          then if is_lt (c d x) then 0 else 1
          else suc (slice_add_loop c d xs i))
  unfolding slice_add_loop
  slice_add_loop-cons d x xs zero = ground arith
  slice_add_loop-cons d x xs (suc i) = ground (arith, slice_add_loop-cons d x xs i)

  slice_add_loop-All :
      (d : D) (xs : List D) (i : ℕ)
      → All (λ y. c d y ≡ Ordering.lt) xs
      → i ≤ length xs
      → slice_add_loop c d xs i ≡ 0
  unfolding slice_add_loop
  slice_add_loop-All d [] zero a h = refl
  slice_add_loop-All d [] (suc i) a h = absurd (omega arith)
  slice_add_loop-All d (x ∷ xs) zero a h = refl
  slice_add_loop-All d (x ∷ xs) (suc i) a h =
      ground (arith, slice_add_loop-cons d x xs i, slice_add_loop-All d xs i a.1)

  abbrev splice : D → List D → ℕ → List D
  splice d xs i = take i xs ++ d ∷ drop i xs

  splice-cons :
      (d x : D) (xs : List D) (p : ℕ) (less : Bool)
      → splice d (x ∷ xs) (if p == 0 then if less then 0 else 1 else suc p)
        ≡ (if p == 0 then if less then d ∷ x ∷ xs else x ∷ d ∷ xs else x ∷ splice d xs p)
  splice-cons d x xs zero true = refl
  splice-cons d x xs zero false = refl
  splice-cons d x xs (suc p) less = ground arith

  slice_add-cons :
      (d x : D) (xs : List D)
      → slice_add c d (x ∷ xs) ≡ (
          if slice_add_loop c d xs (length xs) == 0
          then if is_lt (c d x) then d ∷ x ∷ xs else x ∷ d ∷ xs
          else x ∷ slice_add c d xs)
  unfolding slice_add
  slice_add-cons d x xs =
      ap (splice d (x ∷ xs)) (slice_add_loop-cons d x xs (length xs))
      ∙ splice-cons d x xs (slice_add_loop c d xs (length xs)) (is_lt (c d x))

  slice_add-at_zero :
      (d : D) (xs : List D) → slice_add_loop c d xs (length xs) ≡ 0 → slice_add c d xs ≡ d ∷ xs
  unfolding slice_add
  slice_add-at_zero d xs h = ap (splice d xs) h

  All-less :
      (d x : D) (xs : List D)
      → IsTotal c
      → c d x ≡ Ordering.lt
      → Above c x xs
      → All (λ y. c d y ≡ Ordering.lt) xs
  All-less d x xs total h = All-imp _ _ xs (λ y k. lt_not_lt c total d x y h k)

  -- On a sorted slice `add` inserts.
  pub slice_add-eq-insert :
      (d : D) (xs : List D) → IsTotal c → IsSorted c xs → slice_add c d xs ≡ insert c d xs
  unfolding insert
  slice_add-eq-insert d [] total s =
      slice_add-at_zero d [] (slice_add_loop-All d [] 0 tt (omega arith))
  slice_add-eq-insert d (x ∷ xs) total s = elim (Bool-cases (is_lt (c d x))) [
    | inl less ↦ ground (
      arith,
      slice_add-cons d x xs,
      slice_add_loop-All d xs (length xs) (All-less d x xs total (ground arith) s.0) (omega arith),
    )
    | inr not_less ↦
        ground
          (arith, slice_add-cons d x xs, slice_add-at_zero d xs, slice_add-eq-insert d xs total s.1)
  ]

  pub slice_remove_last-snoc :
      (xs : List D) (x : D) → slice_remove_last c (xs ++ x ∷ []) ≡ some (x, xs)
  unfolding slice_remove_last
  slice_remove_last-snoc [] x = refl
  slice_remove_last-snoc (y ∷ xs) x = ground (arith, slice_remove_last-snoc xs x)
