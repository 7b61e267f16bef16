-- ===== src/Searcher/Disjunction/Correct.antt =====
-- Next of the disjunction, over searchers that list their matches.
use bluge.Base.{
  ℕ, zero, suc, ◌+◌, ◌≤◌, ◌<◌, ◌≡◌, refl, ap, ◌∙◌, sym, subst, true, false, List, [], ◌∷◌, Option,
  none, some, Result, ok, ltb, leb, ◌==◌, length, All, arith, Option-cases, Bool-cases, List-cases,
  inl, inr, if◌then◌else◌,
}
use bluge.Searcher.{Match, Searcher, Child, build_document_match}
use bluge.Searcher.Contract.{Lists}
use bluge.Searcher.Disjunction.{
  Matching, Disjunction, matches_of, update_matches, turn, disjunction_loop, initialize,
  disjunction_next,
}
use bluge.Searcher.Disjunction.Matching.{
  at, AtLeast, IsLeastMatching, update_matches-IsLeastMatching,
}
use bluge.Searcher.Disjunction.Turn.{
  count, total_pending, bumped, bump_all-bumped, AllAscending, AllAscending-bumped, count-bumped,
  length-at, count-before, count-exhausted, total-bumped,
}

at-number :
    {F S : Type 0} (k i : ℕ) (cs : List (Child F S)) (x : ℕ × Match F) (xs : Matching F)
    → at k i cs ≡ x ∷ xs
    → x.1.number ≡ k
at-number k i [] x xs h = absurd (ground (arith, h))
at-number k i (c ∷ cs) x xs h = elim (Option-cases c.curr) [
  | inl e ↦ ground (arith, e, h, at-number k (suc i) cs x xs)
  | inr (m, e) ↦ ground (arith, e, h, at-number k (suc i) cs x xs)
]

module _ {F E S : Type 0} (searcher : Searcher F E S) (score : List (Match F) → F) (min : ℕ)
    (lists : Lists searcher) where
  -- The searchers ascend, and `matching` is what updateMatches finds.
  pub record IsReady (d : Disjunction F S) : Type 0 where
    pub ascending : AllAscending searcher lists d.children
    pub least : IsLeastMatching d.children d.matching

  -- Whether a document is matched by enough searchers.
  abbrev pub IsWanted : List (Child F S) → ℕ → Type 0
  IsWanted cs k = (0 < count searcher lists k cs) × (min ≤ count searcher lists k cs)

  abbrev pub IsUnwanted : List (Child F S) → ℕ → Type 0
  IsUnwanted cs k = 0 < count searcher lists k cs → count searcher lists k cs < min

  -- No document is wanted, or the match is the first wanted document and all later ones are left.
  abbrev pub IsFirst : List (Child F S) → Option (Match F) → List (Child F S) → Type 0
  IsFirst cs none cs' = (j : ℕ) → IsUnwanted cs j
  IsFirst cs (some m) cs' =
      IsWanted cs m.number
      × ((j : ℕ) → j < m.number → IsUnwanted cs j)
      × ((j : ℕ)
          → count searcher lists j cs' ≡ (if ltb m.number j then count searcher lists j cs else 0))

  pub record IsNext (cs : List (Child F S))
      (r : Option (Result E (Option (Match F) × Disjunction F S))) : Type 0 where
    pub match : Option (Match F)
    pub after : Disjunction F S
    pub returns : r ≡ some (ok (match, after))
    pub ready : IsReady after
    pub first : IsFirst cs match after.children

  turned : ℕ → Disjunction F S → Disjunction F S
  turned k d = update_matches (record d { children = bumped searcher lists k d.children })

  turn-turned :
      (k : ℕ) (d : Disjunction F S)
      → d.matching ≡ at k 0 d.children
      → turn searcher score min d ≡ ok (turned k d)
  unfolding turn turned
  turn-turned k d h = rw (turn, h, bump_all-bumped searcher lists score min k d.children) refl

  turned-IsReady :
      (k : ℕ) (d : Disjunction F S) → AllAscending searcher lists d.children → IsReady (turned k d)
  unfolding turned update_matches
  turned-IsReady k d h = record {
    ascending = AllAscending-bumped searcher lists k d.children h;
    least =
        update_matches-IsLeastMatching (record d { children = bumped searcher lists k d.children });
  }

  unwanted :
      (k j : ℕ) (cs : List (Child F S))
      → AllAscending searcher lists cs
      → All (AtLeast k) cs
      → count searcher lists k cs < min
      → IsUnwanted (bumped searcher lists k cs) j
      → IsUnwanted cs j
  unwanted k j cs h a few u p = elim (Bool-cases (ltb k j)) [
    | inl b ↦ ground (arith, b, u, p, count-bumped searcher lists k j cs h a)
    | inr b ↦ elim (Bool-cases (k == j)) [
      | inl e ↦
          let same : k ≡ j = ground (arith, e) in
          subst (λ i. count searcher lists i cs < min) same few
      | inr e ↦
          let before : j < k = ground (arith, b, e) in
          absurd (omega (arith, p, count-before searcher lists k j cs h a before))
    ]
  ]

  -- The result of the turns after `k`, where `k` itself is not wanted.
  later :
      (k : ℕ) (cs : List (Child F S)) (m : Option (Match F)) (cs' : List (Child F S))
      → AllAscending searcher lists cs
      → All (AtLeast k) cs
      → count searcher lists k cs < min
      → IsFirst (bumped searcher lists k cs) m cs'
      → IsFirst cs m cs'
  later k cs none cs' h a few first = λ j. unwanted k j cs h a few (first j)
  later k cs (some m) cs' h a few first =
      let c = count-bumped searcher lists k m.number cs h a in
      let after_k : k < m.number = ground (arith, c, first.0) in
      (
        ground (arith, c, first.0),
        (λ j l. unwanted k j cs h a few (first.1 j l)),
        λ j. ground (arith, after_k, first.2 j, count-bumped searcher lists k j cs h a),
      )

  loop-ends :
      (fuel : ℕ) (d : Disjunction F S)
      → d.matching ≡ []
      → disjunction_loop searcher score min (suc fuel) d ≡ some (ok (none, d))
  unfolding disjunction_loop
  loop-ends fuel d e = ground (arith, e)

  -- The match that a turn builds.
  scored : ℕ × Match F → Matching F → Match F
  scored x xs = record (x.1) { score = score (matches_of (x ∷ xs)) }

  loop-turns :
      (fuel : ℕ) (d d' : Disjunction F S) (x : ℕ × Match F) (xs : Matching F)
      → d.matching ≡ x ∷ xs
      → turn searcher score min d ≡ ok d'
      → disjunction_loop searcher score min (suc fuel) d ≡ elim (leb min (length (x ∷ xs))) [
        | true ↦ some (ok (some (scored x xs), d'))
        | false ↦ disjunction_loop searcher score min fuel d'
      ]
  unfolding disjunction_loop build_document_match scored
  loop-turns fuel d d' x xs e t = ground (arith, e, t)

  first_wanted :
      (k : ℕ) (m : Match F) (cs : List (Child F S))
      → AllAscending searcher lists cs
      → All (AtLeast k) cs
      → m.number ≡ k
      → 0 < count searcher lists k cs
      → min ≤ count searcher lists k cs
      → IsFirst cs (some m) (bumped searcher lists k cs)
  first_wanted k m cs h a number some_at enough = (
    subst (IsWanted cs) (sym number) (some_at, enough),
    (λ j l p. absurd (
        omega (
          arith,
          p,
          number,
          l,
          count-before searcher lists k j cs h a (omega (arith, l, number)),
        ))),
    λ j.
        count-bumped searcher lists k j cs h a
        ∙ ap (λ i. if ltb i j then count searcher lists j cs else 0) (sym number),
  )

  pub disjunction_loop-IsNext :
      (fuel : ℕ) (d : Disjunction F S)
      → IsReady d
      → total_pending searcher lists d.children < fuel
      → IsNext d.children (disjunction_loop searcher score min fuel d)
  unfolding turned update_matches scored
  disjunction_loop-IsNext zero d r h = absurd (omega arith)
  disjunction_loop-IsNext (suc fuel) d r h = elim r.least [
    | inl (ends, e) ↦ record {
      match = none;
      after = d;
      returns = loop-ends fuel d e;
      ready = r;
      first = λ j p. absurd (omega (arith, p, count-exhausted searcher lists j d.children ends));
    }
    | inr (k, found, from_k, some_match) ↦ elim (List-cases d.matching) [
      | inl e ↦ absurd (ground (arith, e, some_match))
      | inr (x, xs, e) ↦
          let d' = turned k d in
          let t = loop-turns fuel d d' x xs e (turn-turned k d found) in
          let ready' = turned-IsReady k d r.ascending in
          let number = at-number k 0 d.children x xs (sym found ∙ e) in
          let size : length (x ∷ xs) ≡ count searcher lists k d.children =
            ap length (sym e ∙ found)
            ∙ length-at searcher lists k 0 d.children r.ascending from_k in
          elim (Bool-cases (leb min (length (x ∷ xs)))) [
            | inl b ↦ record {
              match = some (scored x xs);
              after = d';
              returns = t ∙ rw b refl;
              ready = ready';
              first =
                  first_wanted k (scored x xs) d.children r.ascending from_k number
                    (omega (arith, size)) (ground (arith, b, size));
            }
            | inr b ↦
                let some_at = subst (λ l. 0 < length l) found some_match in
                let less : total_pending searcher lists d'.children < fuel =
                  omega (arith, h, total-bumped searcher lists k 0 d.children some_at) in
                let ih = disjunction_loop-IsNext fuel d' ready' less in
                record {
                  match = ih.match;
                  after = ih.after;
                  returns = t ∙ rw b ih.returns;
                  ready = ih.ready;
                  first =
                      later k d.children ih.match ih.after.children r.ascending from_k
                        (ground (arith, b, size)) ih.first;
                }
          ]
    ]
  ]

  -- With searchers that list ascending matches, matching searchers as updateMatches finds them,
  -- the initialization done and fuel for every pending match and one more, Next returns the first
  -- document that is pending in at least min searchers, and in one, and leaves pending exactly
  -- what is pending of the later documents; it returns nil if there is none.
  pub disjunction_next-IsNext :
      (d : Disjunction F S)
      → IsReady d
      → d.initialized ≡ true
      → IsNext d.children
          (disjunction_next searcher score min (total_pending searcher lists d.children + 1) d)
  unfolding disjunction_next initialize
  disjunction_next-IsNext d r i =
      let start : disjunction_next searcher score min (total_pending searcher lists d.children + 1)
            d
          ≡ disjunction_loop searcher score min (total_pending searcher lists d.children + 1) d =
        ground (arith, i) in
      subst (IsNext d.children) (sym start)
        (disjunction_loop-IsNext (total_pending searcher lists d.children + 1) d r (omega arith))
