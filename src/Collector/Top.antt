-- ===== src/Collector/Top.antt =====
-- The invariant of the collector with a slice store: the store holds the first entries of all hits
-- in order, and lowestMatchOutsideResults ties with the first entry behind them.
use Prim.Native.Nat.{Ordering}
use mathlib.Core.List.{append_assoc, append-nil}
use bluge.Base.{
  ℕ, ◌≤◌, ◌<◌, ◌≡◌, refl, sym, ◌∙◌, false, List, [], ◌∷◌, ◌++◌, Option, none, some, arith, length,
  length-append, ap, if◌then◌else◌, subst, Bool-cases, inl, inr,
}
use bluge.Search.Order.{IsTotal}
use bluge.Collector.Store.{HeapOps, slice_store, add_not_exceeding_size}
use bluge.Collector.Sorted.{
  insert, is_lt, IsSorted, Above, IsSorted-insert, length-insert, insert-append_lt,
  insert-append_ge,
}
use bluge.Collector.Slice.{slice_add-eq-insert, slice_remove_last-snoc}

module _ {D : Type 0} where
  pub snoc_view :
      (xs : List D) → 0 < length xs → (init : List D) × (last : D) × (xs ≡ init ++ last ∷ [])
  snoc_view [] h = absurd (omega arith)
  snoc_view (x ∷ []) h = ([], x, refl)
  snoc_view (x ∷ y ∷ xs) h =
      let (init, last, e) = snoc_view (y ∷ xs) (omega arith) in (x ∷ init, last, ap (◌∷◌ x) e)

module _ {D : Type 0} (c : D → D → Ordering) (total : IsTotal c) where
  module _ (ops : HeapOps D) (limit : ℕ) (d : D) (T : List D) (sorted : IsSorted c T) where
    pub add_room :
        length T < limit
        → add_not_exceeding_size c ops (slice_store T) d limit ≡ (none, slice_store (insert c d T))
    unfolding add_not_exceeding_size
    add_room h = ground (arith, slice_add-eq-insert c d T total sorted, length-insert c d T)

    pub add_full :
        (init : List D) (last : D)
        → length T ≡ limit
        → insert c d T ≡ init ++ last ∷ []
        → add_not_exceeding_size c ops (slice_store T) d limit ≡ (some last, slice_store init)
    unfolding add_not_exceeding_size
    add_full init last h e = ground (
      arith,
      slice_add-eq-insert c d T total sorted,
      length-insert c d T,
      slice_remove_last-snoc c init last,
    )

  -- The lowest match outside the results, for the entries behind the store.
  abbrev pub IsLowest : Option D → List D → Type 0
  IsLowest none rest = rest ≡ []
  IsLowest (some l) rest = (r : D) × (rs : List D) × (rest ≡ r ∷ rs) × (c l r ≡ Ordering.eq)

  pub record IsTop (limit : ℕ) (S T : List D) (low : Option D) : Type 0 where
    pub rest : List D
    pub sorted : IsSorted c S
    pub split : S ≡ T ++ rest
    pub bounded : length T ≤ limit
    pub full : 0 < length rest → length T ≡ limit
    pub lowest : IsLowest low rest

  IsSorted-prefix : (xs ys : List D) → IsSorted c (xs ++ ys) → IsSorted c xs
  IsSorted-prefix [] ys h = tt
  IsSorted-prefix (x ∷ xs) ys h = (Above-prefix xs h.0, IsSorted-prefix xs ys h.1)
    where
      Above-prefix : (zs : List D) → Above c x (zs ++ ys) → Above c x zs
      Above-prefix [] a = tt
      Above-prefix (z ∷ zs) a = (a.0, Above-prefix zs a.1)

  -- In a sorted list the last entry of a front part is not greater than what follows.
  last-le :
      (init : List D) (last r : D) (rs : List D)
      → IsSorted c (init ++ last ∷ r ∷ rs)
      → is_lt (c r last) ≡ false
  last-le [] last r rs h = h.0.0
  last-le (x ∷ init) last r rs h = last-le init last r rs h.1

  module _ (limit : ℕ) (d : D) {S T : List D} {low : Option D} (top : IsTop limit S T low) where
    pub store-IsSorted : IsSorted c T
    store-IsSorted = IsSorted-prefix T top.rest (subst (IsSorted c) top.split top.sorted)

    now-IsSorted : IsSorted c (insert c d S)
    now-IsSorted = IsSorted-insert c total d S top.sorted

    pub IsTop-room : length T < limit → IsTop limit (insert c d S) (insert c d T) low
    IsTop-room h =
        let empty : top.rest ≡ [] = no_rest top.rest refl in
        record {
          rest = [];
          sorted = now-IsSorted;
          split =
              ap (insert c d) (top.split ∙ ap (λ r. T ++ r) empty ∙ append-nil T)
              ∙ sym (append-nil (insert c d T));
          bounded = omega (arith, length-insert c d T);
          full = λ p. absurd (omega arith);
          lowest = subst (IsLowest low) empty top.lowest;
        }
      where
        no_rest : (r : List D) → top.rest ≡ r → top.rest ≡ []
        no_rest [] e = e
        no_rest (x ∷ r) e = absurd (omega (arith, top.full, ap length e))

    -- A hit that is not less than the lowest match outside changes nothing.
    pub IsTop-skip :
        (l : D) → low ≡ some l → is_lt (c d l) ≡ false → IsTop limit (insert c d S) T low
    IsTop-skip l e h =
        let (r, rs, behind, ties) = subst (λ o. IsLowest o top.rest) e top.lowest in
        let whole : S ≡ T ++ r ∷ rs = top.split ∙ ap (λ x. T ++ x) behind in
        let past : is_lt (c d r) ≡ false =
          ground (arith, total.tie l r d, total.flip l d, total.flip r d) in
        record {
          rest = r ∷ insert c d rs;
          sorted = now-IsSorted;
          split =
              ap (insert c d) whole
              ∙ insert-append_ge c total d r T rs (subst (IsSorted c) whole top.sorted) past;
          bounded = top.bounded;
          full = λ _. omega (arith, top.full, ap length behind);
          lowest =
              subst (λ o. IsLowest o (r ∷ insert c d rs)) (sym e) (r, insert c d rs, refl, ties);
        }

    -- The lowest match outside after `last` was pushed out.
    abbrev pub new_lowest : D → Option D → Option D
    new_lowest last none = some last
    new_lowest last (some l) = if is_lt (c last l) then some last else some l

    pub IsTop-full :
        (init : List D) (last : D)
        → length T ≡ limit
        → insert c d T ≡ init ++ last ∷ []
        → ((l : D) → low ≡ some l → c d l ≡ Ordering.lt)
        → IsTop limit (insert c d S) init (new_lowest last low)
    IsTop-full init last h e below = record {
      rest = last ∷ top.rest;
      sorted = now-IsSorted;
      split = whole;
      bounded = omega (arith, length-insert c d T, ap length e, length-append init (last ∷ []));
      full = λ _. omega (arith, length-insert c d T, ap length e, length-append init (last ∷ []));
      lowest = lowest_now low refl top.lowest;
    }
      where
        inserted :
            (o : Option D)
            → low ≡ o
            → IsLowest o top.rest
            → insert c d (T ++ top.rest) ≡ insert c d T ++ top.rest
        inserted none q k = rw (k, append-nil T, append-nil (insert c d T))
        inserted (some l) q (r, rs, behind, ties) = rw behind (
            insert-append_lt c total d r T rs
              (ground (arith, below l q, total.tie l r d, total.flip l d, total.flip r d)))

        whole : insert c d S ≡ init ++ last ∷ top.rest
        whole =
            ap (insert c d) top.split
            ∙ inserted low refl top.lowest
            ∙ ap (λ x. x ++ top.rest) e
            ∙ append_assoc init (last ∷ []) top.rest

        lowest_now :
            (o : Option D)
            → low ≡ o
            → IsLowest o top.rest
            → IsLowest (new_lowest last o) (last ∷ top.rest)
        lowest_now none q k = (last, top.rest, refl, ground (arith, total.flip last last))
        lowest_now (some l) q (r, rs, behind, ties) =
            let after : is_lt (c r last) ≡ false = last-le init last r rs (
              subst (λ x. IsSorted c (init ++ last ∷ x)) behind
                (subst (IsSorted c) whole now-IsSorted)) in
            elim (Bool-cases (is_lt (c last l))) [
              | inl less ↦ rw less (last, top.rest, refl, ground (arith, total.flip last last))
              | inr more ↦ rw more (
                last,
                top.rest,
                refl,
                ground (arith, total.tie l r last, total.flip l last, total.flip r last),
              )
            ]
