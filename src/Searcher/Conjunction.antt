-- ===== src/Searcher/Conjunction.antt =====
-- search/searcher/search_conjunction.go: ConjunctionSearcher yields the documents that all its
-- searchers match. The searchers are in the order that the constructor sorted them in. The two
-- nested loops of Next are one loop, which takes fuel; `none` means that it ran out.
pub mod Steps
pub mod Take
pub mod Scan
pub mod Correct
use bluge.Base.{
  ℕ, zero, suc, Bool, true, false, List, [], ◌∷◌, Option, none, some, Result, ok, err, ◌>>=◌, ltb,
  ◌==◌, get_elem?,
}
use bluge.Searcher.{Match, Searcher, Child, advance_child, init_searchers, build_document_match}
use bluge.Searcher.Disjunction.{advance_all}

-- `searchers` with `currs`, `maxIDIdx` and `initialized`.
pub record Conjunction (F S : Type 0) : Type 0 where
  pub children : List (Child F S)
  pub max_id_idx : ℕ
  pub initialized : Bool

-- The matches that `currs` points at.
abbrev pub currs_of : {F S : Type 0} → List (Child F S) → List (Match F)
currs_of [] = []
currs_of (c ∷ cs) = elim c.curr [ none ↦ currs_of cs | some m ↦ m ∷ currs_of cs ]

abbrev pub curr_at : {F S : Type 0} → List (Child F S) → ℕ → Option (Match F)
curr_at cs i = elim (get_elem? cs i) [ none ↦ none | some c ↦ c.curr ]

module _ {F E S : Type 0} (searcher : Searcher F E S) (score : List (Match F) → F) where
  -- What Next returns, with the searcher after it.
  abbrev pub Outcome : Type 0
  Outcome = Option (Result E (Option (Match F) × Conjunction F S))

  -- advanceChild
  unfoldable pub advance_at : ℕ → ℕ → List (Child F S) → Result E (List (Child F S))
  unfolding advance_child
  advance_at i n [] = ok []
  advance_at zero n (c ∷ cs) = advance_child searcher n c >>= λ c'. ok (c' ∷ cs)
  advance_at (suc i) n (c ∷ cs) = advance_at i n cs >>= λ cs'. ok (c ∷ cs')

  -- advanceChild for the positions before `i`.
  unfoldable pub advance_below : ℕ → ℕ → List (Child F S) → Result E (List (Child F S))
  unfolding advance_child
  advance_below i n [] = ok []
  advance_below zero n (c ∷ cs) = ok (c ∷ cs)
  advance_below (suc i) n (c ∷ cs) =
      advance_child searcher n c >>= λ c'. advance_below i n cs >>= λ cs'. ok (c' ∷ cs')

  -- A document matched all searchers: it is scored, and they are all bumped.
  unfoldable pub take_all : Conjunction F S → Outcome
  unfolding build_document_match init_searchers
  take_all s = some (
      init_searchers searcher s.children >>= λ cs.
      ok (build_document_match score (currs_of s.children), record s { children = cs }))

  -- The condition of the outer loop, and `rest` with the `maxID` that its body starts with.
  abbrev pub enter : (ℕ → Conjunction F S → Outcome) → Conjunction F S → Outcome
  enter rest s = elim (curr_at s.children s.max_id_idx) [
    | none ↦ some (ok (none, s))
    | some m ↦ rest m.number s
  ]

  -- The inner loop at `i`, where `n` is `maxID`.
  unfoldable pub scan : ℕ → ℕ → ℕ → Conjunction F S → Outcome
  unfolding take_all advance_at advance_below
  scan zero i n s = none
  scan (suc fuel) i n s = elim (get_elem? s.children i) [
    | none ↦ take_all s
    | some c ↦ elim c.curr [
      | none ↦ some (ok (none, s))
      | some m ↦ elim (i == s.max_id_idx) [
        | true ↦ scan fuel (suc i) n s
        | false ↦ elim (n == m.number) [
          | true ↦ scan fuel (suc i) n s
          | false ↦ elim (ltb n m.number) [
            | true ↦ elim (advance_below i m.number s.children) [
              | err e ↦ some (err e)
              | ok cs ↦ enter (scan fuel 0) (record s { children = cs; max_id_idx = i })
            ]
            | false ↦ elim (advance_at i n s.children) [
              | err e ↦ some (err e)
              | ok cs ↦ scan fuel i n (record s { children = cs })
            ]
          ]
        ]
      ]
    ]
  ]

  -- initSearchers, unless it was done.
  unfoldable pub init_conjunction : Conjunction F S → Result E (Conjunction F S)
  unfolding init_searchers
  init_conjunction s = elim s.initialized [
    | true ↦ ok s
    | false ↦ init_searchers searcher s.children >>= λ cs.
        ok (record s { children = cs; initialized = true })
  ]

  unfoldable pub conjunction_next : ℕ → Conjunction F S → Outcome
  unfolding scan init_conjunction
  conjunction_next fuel s = elim (init_conjunction s) [
    | err e ↦ some (err e)
    | ok s' ↦ enter (scan fuel 0) s'
  ]

  unfoldable pub conjunction_advance : ℕ → Conjunction F S → ℕ → Outcome
  unfolding conjunction_next advance_all
  conjunction_advance fuel s n =
      elim (init_conjunction s >>= λ s'.
      advance_all searcher score 0 n s'.children >>= λ cs. ok (record s' { children = cs })) [
        | err e ↦ some (err e)
        | ok s' ↦ conjunction_next fuel s'
      ]
