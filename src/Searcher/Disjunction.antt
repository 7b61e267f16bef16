-- ===== src/Searcher/Disjunction.antt =====
-- search/searcher/search_disjunction_slice.go: DisjunctionSliceSearcher yields the documents that at
-- least `min` of its searchers match. The searchers are in the order that the constructor sorted
-- them in. Loops take fuel, and `none` means that it ran out.
pub mod Matching
pub mod Turn
pub mod Correct
pub mod Advance
use bluge.Base.{
  ℕ, zero, suc, ◌+◌, Bool, true, false, List, [], ◌∷◌, ◌++◌, Option, none, some, Result, ok, err,
  ◌>>=◌, ltb, leb, length,
}
use bluge.Searcher.{
  Match, Searcher, Child, next_child, advance_child, init_searchers, build_document_match,
}

-- `matching` and `matchingIdxs` are one list of matches with their searchers' indexes.
abbrev pub Matching : Type 0 → Type 0
Matching F = List (ℕ × Match F)

pub record Disjunction (F S : Type 0) : Type 0 where
  pub children : List (Child F S)
  pub matching : Matching F
  pub initialized : Bool

abbrev pub matches_of : {F : Type 0} → Matching F → List (Match F)
matches_of [] = []
matches_of (x ∷ xs) = x.1 ∷ matches_of xs

-- What the loop of updateMatches does with the match of the searcher `i`.
unfoldable pub add_match : {F : Type 0} → ℕ → Match F → Matching F → Matching F
add_match i m [] = (i, m) ∷ []
add_match i m (x ∷ xs) = elim (ltb x.1.number m.number) [
  | true ↦ x ∷ xs
  | false ↦ elim (ltb m.number x.1.number) [ true ↦ (i, m) ∷ [] | false ↦ (x ∷ xs) ++ (i, m) ∷ [] ]
]

unfoldable pub update_loop : {F S : Type 0} → ℕ → List (Child F S) → Matching F → Matching F
unfolding add_match
update_loop i [] matching = matching
update_loop i (c ∷ cs) matching = elim c.curr [
  | none ↦ update_loop (suc i) cs matching
  | some m ↦ update_loop (suc i) cs (add_match i m matching)
]

-- updateMatches
unfoldable pub update_matches : {F S : Type 0} → Disjunction F S → Disjunction F S
unfolding update_loop
update_matches d = record d { matching = update_loop 0 d.children [] }

module _ {F E S : Type 0} (searcher : Searcher F E S) (score : List (Match F) → F) (min : ℕ) where
  -- `s.currs[i], err = s.searchers[i].Next(ctx)`, nothing out of range.
  unfoldable pub bump_at : ℕ → List (Child F S) → Result E (List (Child F S))
  bump_at i [] = ok []
  bump_at zero (c ∷ cs) = next_child searcher c >>= λ c'. ok (c' ∷ cs)
  bump_at (suc i) (c ∷ cs) = bump_at i cs >>= λ cs'. ok (c ∷ cs')

  -- Next on all the matching searchers.
  unfoldable pub bump_all : Matching F → List (Child F S) → Result E (List (Child F S))
  unfolding bump_at
  bump_all [] cs = ok cs
  bump_all (x ∷ xs) cs = bump_at x.0 cs >>= bump_all xs

  -- One turn of the loop of Next after the test of `min`.
  unfoldable pub turn : Disjunction F S → Result E (Disjunction F S)
  unfolding bump_all update_matches
  turn d = bump_all d.matching d.children >>= λ cs. ok (update_matches (record d { children = cs }))

  -- The loop of Next. The result is a match or nil, or an error.
  unfoldable pub disjunction_loop :
      ℕ → Disjunction F S → Option (Result E (Option (Match F) × Disjunction F S))
  unfolding turn
  disjunction_loop zero d = none
  disjunction_loop (suc fuel) d = elim d.matching [
    | [] ↦ some (ok (none, d))
    | x ∷ xs ↦ elim (turn d) [
      | err e ↦ some (err e)
      | ok d' ↦ elim (leb min (length (x ∷ xs))) [
        | true ↦ some (ok (build_document_match score (matches_of (x ∷ xs)), d'))
        | false ↦ disjunction_loop fuel d'
      ]
    ]
  ]

  -- initSearchers, unless it was done.
  unfoldable pub initialize : Disjunction F S → Result E (Disjunction F S)
  unfolding update_matches
  initialize d = elim d.initialized [
    | true ↦ ok d
    | false ↦ init_searchers searcher d.children >>= λ cs.
        ok (update_matches (record d { children = cs; initialized = true }))
  ]

  unfoldable pub disjunction_next :
      ℕ → Disjunction F S → Option (Result E (Option (Match F) × Disjunction F S))
  unfolding disjunction_loop initialize
  disjunction_next fuel d = elim (initialize d) [
    | err e ↦ some (err e)
    | ok d' ↦ disjunction_loop fuel d'
  ]

  -- The loop of Advance over the searchers.
  unfoldable pub advance_all : ℕ → List (Child F S) → Result E (List (Child F S))
  advance_all number [] = ok []
  advance_all number (c ∷ cs) =
      let there : Bool = elim c.curr [ none ↦ false | some m ↦ leb number m.number ] in
      (elim there as (λ b. Result E (Child F S)) [
        | true ↦ ok c
        | false ↦ advance_child searcher number c
      ])
      >>= λ c'. advance_all number cs >>= λ cs'. ok (c' ∷ cs')

  unfoldable pub disjunction_advance :
      ℕ → Disjunction F S → ℕ → Option (Result E (Option (Match F) × Disjunction F S))
  unfolding disjunction_next advance_all
  disjunction_advance fuel d number =
      elim (initialize d >>= λ d'.
      advance_all number d'.children >>= λ cs. ok (update_matches (record d' { children = cs }))) [
        | err e ↦ some (err e)
        | ok d' ↦ disjunction_next fuel d'
      ]
