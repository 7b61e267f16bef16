-- ===== src/Searcher/Disjunction/Turn.antt =====
-- One turn of the disjunction moves the searchers at the least document.
use bluge.Base.{
  ℕ, suc, ◌+◌, ◌≤◌, ◌<◌, ◌≡◌, refl, ap, sym, subst, Bool, false, ◌&&◌, List, [], ◌∷◌, none, some,
  ok, ltb, ◌==◌, length, All, arith, Option-cases, Bool-cases, Result-cases, inl, inr,
  if◌then◌else◌,
}
use bluge.Searcher.{Match, Searcher, Child}
use bluge.Searcher.Contract.{Lists, has, IsAscending, has-AllFrom}
use bluge.Searcher.Moves.{pending, moved, next_child_lem, pending-moved}
use bluge.Searcher.Disjunction.{Matching, bump_at, bump_all}
use bluge.Searcher.Disjunction.Matching.{at, AtLeast}

module _ {F E S : Type 0} (searcher : Searcher F E S) (lists : Lists searcher) where
  -- The number of searchers that match a document.
  abbrev pub count : ℕ → List (Child F S) → ℕ
  count k [] = 0
  count k (c ∷ cs) = if has k (pending searcher lists c) then suc (count k cs) else count k cs

  abbrev pub total_pending : List (Child F S) → ℕ
  total_pending [] = 0
  total_pending (c ∷ cs) = length (pending searcher lists c) + total_pending cs

  abbrev pub points_at : ℕ → Child F S → Bool
  points_at k c = elim c.curr [ none ↦ false | some m ↦ m.number == k ]

  -- The searchers after those at document `k` moved.
  abbrev pub bumped : ℕ → List (Child F S) → List (Child F S)
  bumped k [] = []
  bumped k (c ∷ cs) = (if points_at k c then moved searcher lists c else c) ∷ bumped k cs

  abbrev pub shifted : Matching F → Matching F
  shifted [] = []
  shifted (x ∷ xs) = (suc x.0, x.1) ∷ shifted xs

  at-shifted : (k i : ℕ) (cs : List (Child F S)) → at k (suc i) cs ≡ shifted (at k i cs)
  at-shifted k i [] = refl
  at-shifted k i (c ∷ cs) = elim (Option-cases c.curr) [
    | inl e ↦ ground (arith, e, at-shifted k (suc i) cs)
    | inr (m, e) ↦ ground (arith, e, at-shifted k (suc i) cs)
  ]

  module _ (score : List (Match F) → F) (min : ℕ) where
    bump_all-shifted :
        (xs : Matching F) (c : Child F S) (cs cs' : List (Child F S))
        → bump_all searcher score min xs cs ≡ ok cs'
        → bump_all searcher score min (shifted xs) (c ∷ cs) ≡ ok (c ∷ cs')
    unfolding bump_all bump_at
    bump_all-shifted [] c cs cs' h = ground (arith, h)
    bump_all-shifted (x ∷ xs) c cs cs' h = elim (Result-cases (bump_at searcher score min x.0 cs)) [
      | inl (e, b) ↦ absurd (ground (arith, h, b))
      | inr (a, b) ↦ ground (arith, h, b, bump_all-shifted xs c a cs')
    ]

    pub bump_all-bumped :
        (k : ℕ) (cs : List (Child F S))
        → bump_all searcher score min (at k 0 cs) cs ≡ ok (bumped k cs)
    unfolding bump_all bump_at
    bump_all-bumped k [] = refl
    bump_all-bumped k (c ∷ cs) =
        let ih = bump_all-bumped k cs in
        let s = at-shifted k 0 cs in
        elim (Option-cases c.curr) [
          | inl e ↦ ground (arith, e, s, bump_all-shifted (at k 0 cs) c cs (bumped k cs) ih)
          | inr (m, e) ↦ ground (
            arith,
            e,
            s,
            next_child_lem searcher lists c,
            bump_all-shifted (at k 0 cs) c cs (bumped k cs) ih,
            bump_all-shifted (at k 0 cs) (moved searcher lists c) cs (bumped k cs) ih,
          )
        ]

  -- The document `k` leaves the pending matches of a searcher with nothing before it.
  has-moved :
      (k j : ℕ) (c : Child F S)
      → IsAscending (pending searcher lists c)
      → AtLeast k c
      → has j (pending searcher lists (if points_at k c then moved searcher lists c else c))
        ≡ (ltb k j && has j (pending searcher lists c))
  has-moved k j c h a = elim (Option-cases c.curr) [
    | inl e ↦ ground (arith, e)
    | inr (m, e) ↦
        let p : pending searcher lists c ≡ m ∷ lists.view c.searcher = rw (pending, e) refl in
        let asc = subst IsAscending p h in
        let ka : k ≤ m.number = ground (arith, e, a) in
        elim (Bool-cases (m.number == k)) [
          | inl b ↦ ground (
            arith,
            e,
            b,
            p,
            pending-moved searcher lists c,
            has-AllFrom (suc m.number) j (lists.view c.searcher) asc.0,
          )
          | inr b ↦
              ground
                (arith, e, b, p, ka, has-AllFrom (suc m.number) j (lists.view c.searcher) asc.0)
        ]
  ]

  IsAscending-moved :
      (k : ℕ) (c : Child F S)
      → IsAscending (pending searcher lists c)
      → IsAscending (pending searcher lists (if points_at k c then moved searcher lists c else c))
  IsAscending-moved k c h = elim (Bool-cases (points_at k c)) [
    | inl e ↦
        rw e (subst IsAscending (sym (pending-moved searcher lists c)) (lists.ascending c.searcher))
    | inr e ↦ rw e h
  ]

  -- Every searcher's pending matches ascend.
  abbrev pub AllAscending : List (Child F S) → Type 0
  AllAscending = All (λ c. IsAscending (pending searcher lists c))

  pub AllAscending-bumped :
      (k : ℕ) (cs : List (Child F S)) → AllAscending cs → AllAscending (bumped k cs)
  AllAscending-bumped k [] h = tt
  AllAscending-bumped k (c ∷ cs) h = (IsAscending-moved k c h.0, AllAscending-bumped k cs h.1)

  -- The documents up to `k` are consumed, the others keep their searchers.
  pub count-bumped :
      (k j : ℕ) (cs : List (Child F S))
      → AllAscending cs
      → All (AtLeast k) cs
      → count j (bumped k cs) ≡ (if ltb k j then count j cs else 0)
  count-bumped k j [] h a = ground arith
  count-bumped k j (c ∷ cs) h a =
      ground (arith, has-moved k j c h.0 a.0, count-bumped k j cs h.1 a.1)

  -- The matching searchers are those that match the document.
  pub length-at :
      (k i : ℕ) (cs : List (Child F S))
      → AllAscending cs
      → All (AtLeast k) cs
      → length (at k i cs) ≡ count k cs
  length-at k i [] h a = refl
  length-at k i (c ∷ cs) h a = elim (Option-cases c.curr) [
    | inl e ↦ ground (arith, e, length-at k (suc i) cs h.1 a.1)
    | inr (m, e) ↦
        let p : pending searcher lists c ≡ m ∷ lists.view c.searcher = rw (pending, e) refl in
        let asc = subst IsAscending p h.0 in
        let ka : k ≤ m.number = ground (arith, e, a.0) in
        ground (
          arith,
          e,
          p,
          ka,
          length-at k (suc i) cs h.1 a.1,
          has-AllFrom (suc m.number) k (lists.view c.searcher) asc.0,
        )
  ]

  -- Nothing is pending before the least document.
  pub count-before :
      (k j : ℕ) (cs : List (Child F S))
      → AllAscending cs
      → All (AtLeast k) cs
      → j < k
      → count j cs ≡ 0
  count-before k j [] h a l = refl
  count-before k j (c ∷ cs) h a l = elim (Option-cases c.curr) [
    | inl e ↦ ground (arith, e, count-before k j cs h.1 a.1 l)
    | inr (m, e) ↦
        let p : pending searcher lists c ≡ m ∷ lists.view c.searcher = rw (pending, e) refl in
        let asc = subst IsAscending p h.0 in
        let ka : k ≤ m.number = ground (arith, e, a.0) in
        ground (
          arith,
          e,
          p,
          ka,
          count-before k j cs h.1 a.1 l,
          has-AllFrom (suc m.number) j (lists.view c.searcher) asc.0,
        )
  ]

  pub count-exhausted :
      (j : ℕ) (cs : List (Child F S)) → All (λ c. c.curr ≡ none) cs → count j cs ≡ 0
  count-exhausted j [] h = refl
  count-exhausted j (c ∷ cs) h = ground (arith, h.0, count-exhausted j cs h.1)

  total-bumped-le : (k : ℕ) (cs : List (Child F S)) → total_pending (bumped k cs) ≤ total_pending cs
  total-bumped-le k [] = omega arith
  total-bumped-le k (c ∷ cs) = elim (Option-cases c.curr) [
    | inl e ↦ ground (arith, e, total-bumped-le k cs)
    | inr (m, e) ↦
        ground (arith, e, total-bumped-le k cs, ap length (pending-moved searcher lists c))
  ]

  -- A turn consumes a match.
  pub total-bumped :
      (k i : ℕ) (cs : List (Child F S))
      → 0 < length (at k i cs)
      → total_pending (bumped k cs) < total_pending cs
  total-bumped k i [] h = absurd (ground (arith, h))
  total-bumped k i (c ∷ cs) h = elim (Option-cases c.curr) [
    | inl e ↦ ground (arith, e, h, total-bumped k (suc i) cs)
    | inr (m, e) ↦ ground (
      arith,
      e,
      h,
      total-bumped-le k cs,
      total-bumped k (suc i) cs,
      ap length (pending-moved searcher lists c),
    )
  ]
