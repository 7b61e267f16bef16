-- ===== src/Searcher/Advancing.antt =====
-- The loop of Advance of the disjunction and of the conjunction over their searchers.
use bluge.Base.{
  ℕ, suc, ◌≤◌, ◌≡◌, refl, ap, true, false, not, ◌&&◌, List, [], ◌∷◌, none, some, ok, ltb, leb,
  length, arith, Option-cases, Bool-cases, inl, inr, if◌then◌else◌,
}
use bluge.Searcher.{Match, Searcher, Child}
use bluge.Searcher.Contract.{Lists, has, IsAscending}
use bluge.Searcher.Moves.{
  pending, advanced, advance_child_lem, pending-advanced, IsAscending-advanced, has-pending_before,
  has-pending-advanced, length-pending-advanced,
}
use bluge.Searcher.Disjunction.{advance_all}
use bluge.Searcher.Disjunction.Turn.{total_pending, AllAscending, count}

module _ {F E S : Type 0} (searcher : Searcher F E S) (lists : Lists searcher) where
  -- A searcher whose current match is nil has nothing left.
  abbrev pub IsSettled : Child F S → Type 0
  IsSettled c = c.curr ≡ none → lists.view c.searcher ≡ []

  -- Advance of one searcher, unless it is there.
  unfoldable pub settled : ℕ → Child F S → Child F S
  settled n c = elim c.curr [
    | none ↦ advanced searcher lists n c
    | some m ↦ elim (leb n m.number) [ true ↦ c | false ↦ advanced searcher lists n c ]
  ]

  pub has-settled :
      (n j : ℕ) (c : Child F S)
      → IsAscending (pending searcher lists c)
      → IsSettled c
      → has j (pending searcher lists (settled n c))
        ≡ (not (ltb j n) && has j (pending searcher lists c))
  unfolding settled
  has-settled n j c a h = elim (Option-cases c.curr) [
    | inl e ↦ ground (arith, e, h e, pending-advanced searcher lists n c)
    | inr (m, e) ↦ elim (Bool-cases (leb n m.number)) [
      | inl b ↦ elim (Bool-cases (ltb j n)) [
        | inl l ↦
            ground
              (arith, e, b, l, has-pending_before searcher lists c m e j a (ground (arith, b, l)))
        | inr l ↦ ground (arith, e, b, l)
      ]
      | inr b ↦
          ground (arith, e, b, has-pending-advanced searcher lists c m e n j (ground (arith, b)))
    ]
  ]

  pub IsAscending-settled :
      (n : ℕ) (c : Child F S)
      → IsAscending (pending searcher lists c)
      → IsAscending (pending searcher lists (settled n c))
  unfolding settled
  IsAscending-settled n c a = elim (Option-cases c.curr) [
    | inl e ↦ ground (arith, e, IsAscending-advanced searcher lists n c)
    | inr (m, e) ↦ elim (Bool-cases (leb n m.number)) [
      | inl b ↦ ground (arith, e, b, a)
      | inr b ↦ ground (arith, e, b, IsAscending-advanced searcher lists n c)
    ]
  ]

  length-settled :
      (n : ℕ) (c : Child F S)
      → IsSettled c
      → length (pending searcher lists (settled n c)) ≤ length (pending searcher lists c)
  unfolding settled
  length-settled n c h = elim (Option-cases c.curr) [
    | inl e ↦ ground (arith, e, h e, pending-advanced searcher lists n c)
    | inr (m, e) ↦ elim (Bool-cases (leb n m.number)) [
      | inl b ↦ ground (arith, e, b)
      | inr b ↦
          ground (arith, e, b, length-pending-advanced searcher lists c m e n (ground (arith, b)))
    ]
  ]

  abbrev pub AllSettled : List (Child F S) → Type 0
  AllSettled [] = Unit
  AllSettled (c ∷ cs) = IsSettled c × AllSettled cs

  unfoldable pub all_settled : ℕ → List (Child F S) → List (Child F S)
  all_settled n [] = []
  all_settled n (c ∷ cs) = settled n c ∷ all_settled n cs

  pub advance_all_lem :
      (score : List (Match F) → F) (min n : ℕ) (cs : List (Child F S))
      → advance_all searcher score min n cs ≡ ok (all_settled n cs)
  unfolding advance_all settled all_settled
  advance_all_lem score min n [] = refl
  advance_all_lem score min n (c ∷ cs) = elim (Option-cases c.curr) [
    | inl e ↦
        ground (arith, e, advance_child_lem searcher lists n c, advance_all_lem score min n cs)
    | inr (m, e) ↦ elim (Bool-cases (leb n m.number)) [
      | inl b ↦ ground (arith, e, b, advance_all_lem score min n cs)
      | inr b ↦
          ground (arith, e, b, advance_child_lem searcher lists n c, advance_all_lem score min n cs)
    ]
  ]

  pub AllAscending-all_settled :
      (n : ℕ) (cs : List (Child F S))
      → AllAscending searcher lists cs
      → AllAscending searcher lists (all_settled n cs)
  unfolding all_settled
  AllAscending-all_settled n [] a = tt
  AllAscending-all_settled n (c ∷ cs) a =
      (IsAscending-settled n c a.0, AllAscending-all_settled n cs a.1)

  pub length-all_settled : (n : ℕ) (cs : List (Child F S)) → length (all_settled n cs) ≡ length cs
  unfolding all_settled
  length-all_settled n [] = refl
  length-all_settled n (c ∷ cs) = ap suc (length-all_settled n cs)

  pub total-all_settled :
      (n : ℕ) (cs : List (Child F S))
      → AllSettled cs
      → total_pending searcher lists (all_settled n cs) ≤ total_pending searcher lists cs
  unfolding all_settled
  total-all_settled n [] h = omega arith
  total-all_settled n (c ∷ cs) h = omega (arith, length-settled n c h.0, total-all_settled n cs h.1)

  -- The documents from `n` on stay, searcher by searcher.
  pub count-all_settled :
      (n j : ℕ) (cs : List (Child F S))
      → AllAscending searcher lists cs
      → AllSettled cs
      → count searcher lists j (all_settled n cs)
        ≡ (if ltb j n then 0 else count searcher lists j cs)
  unfolding all_settled
  count-all_settled n j [] a h = ground arith
  count-all_settled n j (c ∷ cs) a h =
      ground (arith, has-settled n j c a.0 h.0, count-all_settled n j cs a.1 h.1)
