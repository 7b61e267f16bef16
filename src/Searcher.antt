-- ===== src/Searcher.antt =====
-- search/search.go (Searcher) and search/searcher: searchers that yield the matches of a query in the
-- order of their document numbers. A searcher of the index, a composite scorer and the states
-- behind the interface are parameters. The document match pool, explanations and term locations do
-- not influence which documents match and are left out.
pub mod Contract
pub mod Disjunction
pub mod Conjunction
pub mod Boolean
pub mod Filter
pub mod Moves
pub mod First
pub mod Advancing
use bluge.Base.{ℕ, zero, suc, Bool, List, [], ◌∷◌, Option, none, some, Result, ok, err, ◌>>=◌}

pub record Match (F : Type 0) : Type 0 where
  pub number : ℕ
  pub score : F

-- The methods of search.Searcher that move it; S is its state.
pub record Searcher (F E S : Type 0) : Type 0 where
  pub next : S → Result E (Option (Match F) × S)
  pub advance : S → ℕ → Result E (Option (Match F) × S)

-- A searcher with the match that it points at: `searchers[i]` and `currs[i]`.
pub record Child (F S : Type 0) : Type 0 where
  pub searcher : S
  pub curr : Option (Match F)

module _ {F E S : Type 0} (searcher : Searcher F E S) where
  -- `s.currs[i], err = s.searchers[i].Next(ctx)`
  unfoldable pub next_child : Child F S → Result E (Child F S)
  next_child c = searcher.next c.searcher >>= λ (m, s). ok (record { searcher = s; curr = m })

  -- `s.currs[i], err = s.searchers[i].Advance(ctx, number)`
  unfoldable pub advance_child : ℕ → Child F S → Result E (Child F S)
  advance_child n c =
      searcher.advance c.searcher n >>= λ (m, s). ok (record { searcher = s; curr = m })

  -- The loop of initSearchers.
  unfoldable pub init_searchers : List (Child F S) → Result E (List (Child F S))
  unfolding next_child
  init_searchers [] = ok []
  init_searchers (c ∷ rest) =
      next_child c >>= λ c'. init_searchers rest >>= λ rest'. ok (c' ∷ rest')

-- buildDocumentMatch: the first constituent, with the composite score. No constituent is a panic.
unfoldable pub build_document_match :
    {F : Type 0} → (List (Match F) → F) → List (Match F) → Option (Match F)
build_document_match score [] = none
build_document_match score (m ∷ rest) = some (record m { score = score (m ∷ rest) })
