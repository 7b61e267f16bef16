-- ===== src/Searcher/Disjunction/Matching.antt =====
-- updateMatches finds the searchers at the least document.
use bluge.Base.{
  ℕ, suc, ◌≤◌, ◌<◌, ◌≡◌, refl, ap, ◌∙◌, sym, subst, true, false, List, [], ◌∷◌, ◌++◌, Option, none,
  some, ltb, ◌==◌, ◌⊎◌, length, All, arith, Option-cases, Bool-cases, inl, inr, append-nil,
  append_assoc,
}
use bluge.Searcher.{Match, Child}
use bluge.Searcher.Disjunction.{Matching, Disjunction, add_match, update_loop, update_matches}

module _ {F : Type 0} where
  add_match_lem :
      (i : ℕ) (m : Match F) (x : ℕ × Match F) (xs : Matching F)
      → add_match i m (x ∷ xs) ≡ elim (ltb x.1.number m.number) [
        | true ↦ x ∷ xs
        | false ↦ elim (ltb m.number x.1.number) [
          | true ↦ (i, m) ∷ []
          | false ↦ (x ∷ xs) ++ (i, m) ∷ []
        ]
      ]
  unfolding add_match
  add_match_lem i m x xs = refl

module _ {F S : Type 0} where
  -- The searchers that point at document `k`, those of `cs` counted from `i`.
  abbrev pub at : ℕ → ℕ → List (Child F S) → Matching F
  at k i [] = []
  at k i (c ∷ cs) = elim c.curr [
    | none ↦ at k (suc i) cs
    | some m ↦ elim (m.number == k) [ true ↦ (i, m) ∷ at k (suc i) cs | false ↦ at k (suc i) cs ]
  ]

  -- The least of `k` and the documents that the searchers point at.
  abbrev pub least : ℕ → List (Child F S) → ℕ
  least k [] = k
  least k (c ∷ cs) = elim c.curr [
    | none ↦ least k cs
    | some m ↦ elim (ltb m.number k) [ true ↦ least m.number cs | false ↦ least k cs ]
  ]

  -- The searcher is exhausted or at document `k` or later.
  abbrev pub AtLeast : ℕ → Child F S → Type 0
  AtLeast k c = elim c.curr [ none ↦ Unit | some m ↦ k ≤ m.number ]

  least_le : (k : ℕ) (cs : List (Child F S)) → least k cs ≤ k
  least_le k [] = omega arith
  least_le k (c ∷ cs) = elim (Option-cases c.curr) [
    | inl e ↦ rw (least, e) (least_le k cs)
    | inr (m, e) ↦ ground (arith, e, least_le k cs, least_le m.number cs)
  ]

  update_loop_lem :
      (i : ℕ) (cs : List (Child F S)) (x : ℕ × Match F) (xs : Matching F)
      → update_loop i cs (x ∷ xs) ≡ elim (ltb (least x.1.number cs) x.1.number) [
        | true ↦ at (least x.1.number cs) i cs
        | false ↦ (x ∷ xs) ++ at x.1.number i cs
      ]
  unfolding update_loop
  update_loop_lem i [] x xs = ground (arith, append-nil (x ∷ xs))
  update_loop_lem i (c ∷ cs) x xs = elim (Option-cases c.curr) [
    | inl e ↦ ground (arith, e, update_loop_lem (suc i) cs x xs)
    | inr (m, e) ↦ ground (
      arith,
      e,
      add_match_lem i m x xs,
      update_loop_lem (suc i) cs x xs,
      update_loop_lem (suc i) cs (i, m) [],
      update_loop_lem (suc i) cs x (xs ++ (i, m) ∷ []),
      least_le x.1.number cs,
      least_le m.number cs,
      append_assoc xs ((i, m) ∷ []) (at x.1.number (suc i) cs),
    )
  ]

  -- The least document that a searcher points at.
  abbrev pub least_of : List (Child F S) → Option ℕ
  least_of [] = none
  least_of (c ∷ cs) = elim c.curr [ none ↦ least_of cs | some m ↦ some (least m.number cs) ]

  abbrev pub at_least_of : Option ℕ → ℕ → List (Child F S) → Matching F
  at_least_of none i cs = []
  at_least_of (some k) i cs = at k i cs

  exhausted :
      (o : Option ℕ) (i : ℕ) (c : Child F S) (cs : List (Child F S))
      → c.curr ≡ none
      → at_least_of o i (c ∷ cs) ≡ at_least_of o (suc i) cs
  exhausted none i c cs e = refl
  exhausted (some k) i c cs e = rw (at, e) refl

  first_match :
      (i : ℕ) (cs : List (Child F S)) → update_loop i cs [] ≡ at_least_of (least_of cs) i cs
  unfolding update_loop add_match
  first_match i [] = refl
  first_match i (c ∷ cs) = elim (Option-cases c.curr) [
    | inl e ↦ ground (arith, e, first_match (suc i) cs, exhausted (least_of cs) i c cs e)
    | inr (m, e) ↦ ground (arith, e, update_loop_lem (suc i) cs (i, m) [], least_le m.number cs)
  ]

  AtLeast-le : (j k : ℕ) → j ≤ k → (c : Child F S) → AtLeast k c → AtLeast j c
  AtLeast-le j k l c h = elim (Option-cases c.curr) [
    | inl e ↦ rw (AtLeast, e) tt
    | inr (m, e) ↦ ground (arith, e, h)
  ]

  least-AtLeast : (k : ℕ) (cs : List (Child F S)) → All (AtLeast (least k cs)) cs
  least-AtLeast k [] = tt
  least-AtLeast k (c ∷ cs) = elim (Option-cases c.curr) [
    | inl e ↦
        let same : least k (c ∷ cs) ≡ least k cs = ground (arith, e) in
        subst (λ j. AtLeast j c × All (AtLeast j) cs) (sym same)
          (rw (AtLeast, e) tt, least-AtLeast k cs)
    | inr (m, e) ↦ elim (Bool-cases (ltb m.number k)) [
      | inl l ↦
          let same : least k (c ∷ cs) ≡ least m.number cs = ground (arith, e, l) in
          subst (λ j. AtLeast j c × All (AtLeast j) cs) (sym same)
            (ground (arith, e, least_le m.number cs), least-AtLeast m.number cs)
      | inr l ↦
          let same : least k (c ∷ cs) ≡ least k cs = ground (arith, e, l) in
          subst (λ j. AtLeast j c × All (AtLeast j) cs) (sym same)
            (ground (arith, e, l, least_le k cs), least-AtLeast k cs)
    ]
  ]

  at-least : (k i : ℕ) (cs : List (Child F S)) → least k cs < k → 0 < length (at (least k cs) i cs)
  at-least k i [] h = absurd (omega arith)
  at-least k i (c ∷ cs) h = elim (Option-cases c.curr) [
    | inl e ↦ ground (arith, e, h, at-least k (suc i) cs)
    | inr (m, e) ↦ ground (
      arith,
      e,
      h,
      at-least k (suc i) cs,
      at-least m.number (suc i) cs,
      least_le m.number cs,
      least_le k cs,
    )
  ]

  least_of-none : (cs : List (Child F S)) → least_of cs ≡ none → All (λ c. c.curr ≡ none) cs
  least_of-none [] h = tt
  least_of-none (c ∷ cs) h = elim (Option-cases c.curr) [
    | inl e ↦ (e, least_of-none cs (ground (arith, h, e)))
    | inr (m, e) ↦ absurd (ground (arith, h, e))
  ]

  IsLeast : ℕ → ℕ → List (Child F S) → Type 0
  IsLeast k i cs = All (AtLeast k) cs × (0 < length (at k i cs))

  least_of-IsLeast : (k i : ℕ) (cs : List (Child F S)) → least_of cs ≡ some k → IsLeast k i cs
  unfolding IsLeast
  least_of-IsLeast k i [] h = absurd (ground (arith, h))
  least_of-IsLeast k i (c ∷ cs) h = elim (Option-cases c.curr) [
    | inl e ↦
        let ih = least_of-IsLeast k (suc i) cs (ground (arith, h, e)) in
        ((rw (AtLeast, e) tt, ih.0), ground (arith, e, ih.1))
    | inr (m, e) ↦
        let same : least m.number cs ≡ k = ground (arith, h, e) in
        (
          (
            ground (arith, e, least_le m.number cs, same),
            subst (λ j. All (AtLeast j) cs) same (least-AtLeast m.number cs),
          ),
          ground (arith, e, same, least_le m.number cs, at-least m.number (suc i) cs),
        )
  ]

  -- Every searcher is exhausted and nothing matches, or the matching searchers are those at the least
  -- document that any of them points at, in their order.
  abbrev pub IsLeastMatching : List (Child F S) → Matching F → Type 0
  IsLeastMatching cs matching =
      (All (λ c. c.curr ≡ none) cs × (matching ≡ []))
      ⊎ ((k : ℕ) × (matching ≡ at k 0 cs) × All (AtLeast k) cs × (0 < length matching))

  -- updateMatches finds no match when every searcher is exhausted, and otherwise exactly the
  -- searchers at the least document that one of them points at, in their order.
  pub update_matches-IsLeastMatching :
      (d : Disjunction F S) → IsLeastMatching d.children (update_matches d).matching
  unfolding update_matches IsLeast
  update_matches-IsLeastMatching d = elim (Option-cases (least_of d.children)) [
    | inl e ↦ inl (
      least_of-none d.children e,
      first_match 0 d.children ∙ ap (λ o. at_least_of o 0 d.children) e,
    )
    | inr (k, e) ↦
        let found = first_match 0 d.children ∙ ap (λ o. at_least_of o 0 d.children) e in
        let l = least_of-IsLeast k 0 d.children e in
        inr (k, found, l.0, subst (λ x. 0 < length x) (sym found) l.1)
  ]
