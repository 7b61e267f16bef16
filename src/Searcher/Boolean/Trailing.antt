-- ===== src/Searcher/Boolean/Trailing.antt =====
-- What advanceIfTrailing does to the documents that the boolean searcher has left.
use bluge.Base.{
  ℕ, ◌≤◌, ◌<◌, ◌≡◌, refl, not, ◌&&◌, ◌⊎◌, List, [], Option, none, some, ok, ltb, length, arith,
  Option-cases, Bool-cases, inl, inr,
}
use bluge.Searcher.{Match, Searcher, Child}
use bluge.Searcher.Contract.{Lists, has, IsAscending}
use bluge.Searcher.Moves.{
  advanced, advance_child_lem, pending-advanced, IsAscending-advanced, has-pending-advanced,
  length-pending-advanced,
}
use bluge.Searcher.Advancing.{IsSettled, settled, has-settled, IsAscending-settled}
use bluge.Searcher.Boolean.{Boolean, set_current, advance_if, advance_if_trailing}
use bluge.Searcher.Boolean.Turns.{left, base, wants, IsReady}

module _ {F E S : Type 0} (searcher : Searcher F E S) (score : List (Match F) → F) (min : ℕ)
    (lists : Lists searcher) where
  -- The searcher is behind `n`, or at its end.
  abbrev pub IsBehind : ℕ → Option (Child F S) → Type 0
  IsBehind n none = Unit
  IsBehind n (some c) =
      ((c.curr ≡ none) × (lists.view c.searcher ≡ []))
      ⊎ ((m : Match F) × (c.curr ≡ some m) × (m.number < n))

  abbrev pub IsSettledIf : Option (Child F S) → Type 0
  IsSettledIf none = Unit
  IsSettledIf (some c) = IsSettled searcher lists c

  abbrev pub advanced_if : ℕ → Option (Child F S) → Option (Child F S)
  advanced_if n none = none
  advanced_if n (some c) = some (advanced searcher lists n c)

  abbrev pub settled_if : ℕ → Option (Child F S) → Option (Child F S)
  settled_if n none = none
  settled_if n (some c) = some (settled searcher lists n c)

  advance_if_lem :
      (n : ℕ) (o : Option (Child F S)) → advance_if searcher score min n o ≡ ok (advanced_if n o)
  advance_if_lem n none = refl
  advance_if_lem n (some c) = ground (arith, advance_child_lem searcher lists n c)

  has-advanced_if :
      (n j : ℕ) (o : Option (Child F S))
      → IsBehind n o
      → has j (left searcher score min lists (advanced_if n o))
        ≡ (not (ltb j n) && has j (left searcher score min lists o))
  has-advanced_if n j none h = ground arith
  has-advanced_if n j (some c) (inl (e, v)) =
      ground (arith, e, v, pending-advanced searcher lists n c)
  has-advanced_if n j (some c) (inr (m, e, l)) =
      ground (arith, has-pending-advanced searcher lists c m e n j l)

  length-advanced_if :
      (n : ℕ) (o : Option (Child F S))
      → IsBehind n o
      → length (left searcher score min lists (advanced_if n o))
        ≤ length (left searcher score min lists o)
  length-advanced_if n none h = omega arith
  length-advanced_if n (some c) (inl (e, v)) =
      ground (arith, e, v, pending-advanced searcher lists n c)
  length-advanced_if n (some c) (inr (m, e, l)) =
      omega (arith, length-pending-advanced searcher lists c m e n l)

  has-settled_if :
      (n j : ℕ) (o : Option (Child F S))
      → IsAscending (left searcher score min lists o)
      → IsSettledIf o
      → has j (left searcher score min lists (settled_if n o))
        ≡ (not (ltb j n) && has j (left searcher score min lists o))
  has-settled_if n j none a h = ground arith
  has-settled_if n j (some c) a h = has-settled searcher lists n j c a h

  IsAscending-advanced_if :
      (n : ℕ) (o : Option (Child F S))
      → IsAscending (left searcher score min lists (advanced_if n o))
  IsAscending-advanced_if n none = tt
  IsAscending-advanced_if n (some c) = IsAscending-advanced searcher lists n c

  IsAscending-settled_if :
      (n : ℕ) (o : Option (Child F S))
      → IsAscending (left searcher score min lists o)
      → IsAscending (left searcher score min lists (settled_if n o))
  IsAscending-settled_if n none a = tt
  IsAscending-settled_if n (some c) a = IsAscending-settled searcher lists n c a

  -- The state after advanceIfTrailing.
  unfoldable pub trailing : ℕ → Boolean F S → Boolean F S
  trailing n b = set_current (record b {
    must = advanced_if n b.must;
    should = advanced_if n b.should;
    must_not = settled_if n b.must_not;
  })

  pub advance_if_trailing_lem :
      (n : ℕ) (b : Boolean F S) → advance_if_trailing searcher score min b n ≡ ok (trailing n b)
  unfolding advance_if_trailing trailing settled
  advance_if_trailing_lem n b = elim (Option-cases b.must_not) [
    | inl e ↦ ground (arith, e, advance_if_lem n b.must, advance_if_lem n b.should)
    | inr (c, e) ↦ elim (Option-cases c.curr) [
      | inl f ↦ ground (
        arith,
        e,
        f,
        advance_if_lem n b.must,
        advance_if_lem n b.should,
        advance_child_lem searcher lists n c,
      )
      | inr (m, f) ↦ elim (Bool-cases (ltb m.number n)) [
        | inl l ↦ ground (
          arith,
          e,
          f,
          l,
          advance_if_lem n b.must,
          advance_if_lem n b.should,
          advance_child_lem searcher lists n c,
        )
        | inr l ↦ ground (arith, e, f, l, advance_if_lem n b.must, advance_if_lem n b.should)
      ]
    ]
  ]

  module _ (n : ℕ) (b : Boolean F S) (r : IsReady searcher score min lists b)
      (p : IsBehind n b.must) (q : IsBehind n b.should) (s : IsSettledIf b.must_not) where
    pub trailing-IsReady : IsReady searcher score min lists (trailing n b)
    unfolding trailing
    trailing-IsReady = record {
      must = IsAscending-advanced_if n b.must;
      should = IsAscending-advanced_if n b.should;
      must_not = IsAscending-settled_if n b.must_not r.must_not;
      current = refl;
    }

    pub wants-trailing :
        (j : ℕ)
        → wants searcher score min lists (trailing n b) j
          ≡ (not (ltb j n) && wants searcher score min lists b j)
    unfolding trailing
    wants-trailing j =
        let m = has-advanced_if n j b.must p in
        let k = has-advanced_if n j b.should q in
        let x = has-settled_if n j b.must_not r.must_not s in
        elim (Option-cases b.must) [
          | inl d ↦ elim (Option-cases b.should) [
            | inl e ↦ ground (arith, d, e, x)
            | inr (c, e) ↦ ground (arith, d, e, k, x)
          ]
          | inr (a, d) ↦ elim (Option-cases b.should) [
            | inl e ↦ ground (arith, d, e, m, x)
            | inr (c, e) ↦ ground (arith, d, e, m, k, x)
          ]
        ]

    pub length-trailing :
        length (base searcher score min lists (trailing n b))
        ≤ length (base searcher score min lists b)
    unfolding trailing
    length-trailing = elim (Option-cases b.must) [
      | inl d ↦ ground (arith, d, length-advanced_if n b.should q)
      | inr (a, d) ↦ ground (arith, d, length-advanced_if n b.must p)
    ]
