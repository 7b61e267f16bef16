-- ===== src/Searcher/Conjunction/Correct.antt =====
-- Next and Advance of the conjunction, over searchers that list their matches.
use bluge.Base.{
  ℕ, ◌+◌, ◌*◌, ◌≤◌, ◌<◌, ◌≡◌, refl, sym, subst, true, false, not, ◌&&◌, ◌⊎◌, List, [], ◌∷◌, Option,
  none, some, ok, ltb, length, arith, Option-cases, Bool-cases, inl, inr, get_elem?,
}
use bluge.Searcher.{Match, Searcher, Child}
use bluge.Searcher.First.{IsFirst, IsFirst_same}
use bluge.Searcher.Contract.{Lists}
use bluge.Searcher.Disjunction.Turn.{total_pending, AllAscending}
use bluge.Searcher.Advancing.{
  AllSettled, all_settled, has-settled, advance_all_lem, AllAscending-all_settled,
  length-all_settled, total-all_settled,
}
use bluge.Searcher.Conjunction.{
  Conjunction, curr_at, enter, scan, init_conjunction, conjunction_next, conjunction_advance,
}
use bluge.Searcher.Conjunction.Steps.{in_all, wants}
use bluge.Searcher.Conjunction.Take.{IsReady, IsNext, wants_ended}
use bluge.Searcher.Conjunction.Scan.{moves, turns, fewer, none_above, raised, scan-IsNext}

module _ {F E S : Type 0} (searcher : Searcher F E S) (score : List (Match F) → F)
    (lists : Lists searcher) where
  -- Two turns of the inner loop over all searchers for every document left, and two more.
  abbrev pub conjunction_fuel : List (Child F S) → ℕ
  conjunction_fuel cs = (length cs + 1) * (2 * total_pending searcher lists cs + 2)

  -- `maxIDIdx` is only out of range without a searcher.
  without :
      (cs : List (Child F S)) (i j : ℕ)
      → (i ≡ 0) ⊎ (i < length cs)
      → get_elem? cs i ≡ none
      → wants searcher score lists cs j ≡ false
  without [] i j h g = refl
  without (c ∷ cs) i j (inl e) g = absurd (ground (arith, e, g))
  without (c ∷ cs) i j (inr l) g =
      absurd (omega (arith, l, none_above searcher score lists (c ∷ cs) i g))

  enter-IsNext :
      (s : Conjunction F S)
      → IsReady searcher score lists s
      → (fuel : ℕ) → turns searcher score lists 0 s < fuel
      → IsNext searcher score lists s (enter searcher score (scan searcher score fuel 0) s)
  enter-IsNext s r fuel h = elim (Option-cases (get_elem? s.children s.max_id_idx)) [
    | inl g ↦ record {
      match = none;
      after = s;
      returns = ground (arith, g);
      ready = r;
      first = λ j. without s.children s.max_id_idx j r.in_range g;
    }
    | inr (c, g) ↦ elim (Option-cases c.curr) [
      | inl e ↦ record {
        match = none;
        after = s;
        returns = ground (arith, g, e);
        ready = r;
        first = λ j. wants_ended searcher score lists s.max_id_idx j s.children c g e;
      }
      | inr (m, e) ↦
          let at : curr_at s.children s.max_id_idx ≡ some m = ground (arith, g, e) in
          subst (IsNext searcher score lists s) (ground (arith, g, e)) (
            scan-IsNext searcher score lists fuel 0 m.number s
              (raised searcher score lists s.max_id_idx s m s.children r.ascending at) h)
    ]
  ]

  enough :
      (s : Conjunction F S) (t : ℕ)
      → total_pending searcher lists s.children ≤ t
      → turns searcher score lists 0 s < (length s.children + 1) * (2 * t + 2)
  enough s t h =
      let bit : moves searcher score lists s < 2 * t + 2 = ground (arith, h) in
      omega (
        arith,
        fewer searcher score lists (length s.children) (2 * t + 2) (moves searcher score lists s)
            (length s.children) 0 bit,
      )

  -- With searchers that list ascending matches, maxIDIdx 0 or the index of a searcher, the
  -- initialization done and the fuel conjunction_fuel of the searchers, Next returns the first
  -- document that all searchers have left, and leaves exactly the later ones of these; it returns
  -- nil if there is none, and without a searcher.
  pub conjunction_next-IsNext :
      (s : Conjunction F S)
      → IsReady searcher score lists s
      → s.initialized ≡ true
      → IsNext searcher score lists s
          (conjunction_next searcher score (conjunction_fuel s.children) s)
  unfolding conjunction_next init_conjunction
  conjunction_next-IsNext s r i =
      let fuel = conjunction_fuel s.children in
      subst (IsNext searcher score lists s) (ground (arith, i))
        (enter-IsNext s r fuel (enough s (total_pending searcher lists s.children) (omega arith)))

  in_all-all_settled :
      (n j : ℕ) (cs : List (Child F S))
      → AllAscending searcher lists cs
      → AllSettled searcher lists cs
      → (j < n
          → 0 < length cs
          → in_all searcher score lists j (all_settled searcher lists n cs) ≡ false)
        × (n ≤ j
            → in_all searcher score lists j (all_settled searcher lists n cs)
              ≡ in_all searcher score lists j cs)
  unfolding all_settled
  in_all-all_settled n j [] a h = ((λ l p. absurd (omega (arith, p))), λ l. refl)
  in_all-all_settled n j (c ∷ cs) a h =
      let has_c = has-settled searcher lists n j c a.0 h.0 in
      let rest = (in_all-all_settled n j cs a.1 h.1).1 in
      ((λ l p. ground (arith, has_c, l)), λ l. ground (arith, has_c, l, rest l))

  wants-all_settled :
      (n j : ℕ) (cs : List (Child F S))
      → AllAscending searcher lists cs
      → AllSettled searcher lists cs
      → wants searcher score lists (all_settled searcher lists n cs) j
        ≡ (not (ltb j n) && wants searcher score lists cs j)
  unfolding all_settled
  wants-all_settled n j [] a h = ground arith
  wants-all_settled n j (c ∷ cs) a h =
      let (before, later) = in_all-all_settled n j (c ∷ cs) a h in
      elim (Bool-cases (ltb j n)) [
        | inl b ↦ ground (arith, b, before (ground (arith, b)) (omega arith))
        | inr b ↦ ground (arith, b, later (ground (arith, b)))
      ]

  -- Under the conditions of Next, if every searcher with a nil current match has nothing left,
  -- Advance returns the first document from the number on that all searchers have left, and leaves
  -- exactly the later ones of these; it returns nil if there is none.
  pub conjunction_advance-IsFirst :
      (s : Conjunction F S) (n : ℕ)
      → IsReady searcher score lists s
      → AllSettled searcher lists s.children
      → s.initialized ≡ true
      → (match : Option (Match F)) × (after : Conjunction F S) × (conjunction_advance searcher score
            (conjunction_fuel s.children)
            s
            n
          ≡ some (ok (match, after)))
        × IsReady searcher score lists after
        × IsFirst
            (λ j. not (ltb j n) && wants searcher score lists s.children j)
            match
            (wants searcher score lists after.children)
  unfolding conjunction_advance conjunction_next init_conjunction
  conjunction_advance-IsFirst s n r h i =
      let cs = all_settled searcher lists n s.children in
      let s' = record s { children = cs } in
      let r' : IsReady searcher score lists s' = record {
        ascending = AllAscending-all_settled searcher lists n s.children r.ascending;
        in_range =
            subst (λ l. (s.max_id_idx ≡ 0) ⊎ (s.max_id_idx < l))
              (sym (length-all_settled searcher lists n s.children)) r.in_range;
      } in
      let fuel = conjunction_fuel s.children in
      let size = total-all_settled searcher lists n s.children h in
      let enough' : turns searcher score lists 0 s' < fuel =
        subst
          (λ l.
            turns searcher score lists 0 s'
            < (l + 1) * (2 * total_pending searcher lists s.children + 2))
          (length-all_settled searcher lists n s.children)
          (enough s' (total_pending searcher lists s.children) size) in
      let next = enter-IsNext s' r' fuel enough' in
      (
        next.match,
        next.after,
        returned (next.match) (next.after) next.returns,
        next.ready,
        IsFirst_same (λ j. not (ltb j n) && wants searcher score lists s.children j)
            (wants searcher score lists cs) (wants searcher score lists next.after.children)
            next.match (λ j. wants-all_settled n j s.children r.ascending h) next.first,
      )
    where
      returned :
          (m : Option (Match F)) (a : Conjunction F S)
          → enter searcher score
              (scan searcher score (conjunction_fuel s.children) 0)
              (record s { children = all_settled searcher lists n s.children })
            ≡ some (ok (m, a))
          → conjunction_advance searcher score (conjunction_fuel s.children) s n ≡ some (ok (m, a))
      returned m a e = ground (arith, i, advance_all_lem searcher lists score 0 n s.children, e)
