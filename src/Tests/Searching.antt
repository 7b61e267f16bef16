-- ===== src/Tests/Searching.antt =====
-- A searcher over a list.
use bluge.Base.{
  ℕ, ◌+◌, ◌≡◌, refl, Bool, true, List, [], ◌∷◌, ok, none, some, length, arith, ◌==◌, ◌%◌,
}
use bluge.Searcher.{Match, Searcher, next_child, build_document_match}
use bluge.Searcher.Disjunction.{Disjunction, update_matches, disjunction_next}
use bluge.Searcher.Disjunction.Matching.{IsLeastMatching, update_matches-IsLeastMatching}
use bluge.Searcher.Disjunction.Turn.{total_pending}
use bluge.Searcher.Disjunction.Correct.{IsReady, IsNext, disjunction_next-IsNext}
use bluge.Searcher.Contract.{Lists, head?, tail, from, IsAscending, from-IsAscending}
use bluge.Searcher.Filter.{
  Yields, filter_next, filter_next-Yields, filter_advance, filter_advance-Yields,
}

abbrev pub Listed : Type 0
Listed = (xs : List (Match ℕ)) × IsAscending xs

pub tail-IsAscending : (xs : List (Match ℕ)) → IsAscending xs → IsAscending (tail xs)
tail-IsAscending [] h = tt
tail-IsAscending (x ∷ xs) h = h.1

abbrev pub skip : Listed → Listed
skip s = (tail s.0, tail-IsAscending s.0 s.1)

abbrev pub list_searcher : Searcher ℕ ℕ Listed
list_searcher = record {
  next = λ s. ok (head? s.0, skip s);
  advance = λ s n. ok (head? (from n s.0), skip (from n s.0, from-IsAscending n s.0 s.1));
}

abbrev pub list_contract : Lists list_searcher
list_contract = record {
  view = λ s. s.0;
  ascending = λ s. s.1;
  next_to = skip;
  next_lem = λ s. refl;
  next_view = λ s. refl;
  advance_to = λ s n. skip (from n s.0, from-IsAscending n s.0 s.1);
  advance_lem = λ s n. refl;
  advance_view = λ s n. refl;
}

abbrev pub found : ℕ → Match ℕ
found n = record { number = n; score = 1 }

abbrev pub matches : Listed
matches = (
  found 1 ∷ found 4 ∷ found 7 ∷ [],
  ((omega arith, (omega arith, tt)), ((omega arith, tt), (tt, tt))),
)

abbrev is_even : Match ℕ → Bool
is_even m = m.number % 2 == 0

filter_next-Yields_example :
    Yields list_searcher is_even list_contract
      (matches.0)
      (filter_next list_searcher is_even (length (matches.0) + 1) matches)
filter_next-Yields_example = filter_next-Yields list_searcher is_even list_contract matches

filter_advance-Yields_example :
    Yields list_searcher is_even list_contract
      (from 2 (matches.0))
      (filter_advance list_searcher is_even 4 matches 2)
filter_advance-Yields_example =
    filter_advance-Yields list_searcher is_even list_contract matches 2 4 (omega arith)

-- Searchers at the documents 4, 2 and 2, and one that is exhausted.
abbrev at_documents : Disjunction ℕ Listed
at_documents = record {
  children =
      record { searcher = matches; curr = some (found 4) }
      ∷ record { searcher = matches; curr = some (found 2) }
      ∷ record { searcher = matches; curr = none }
      ∷ record { searcher = matches; curr = some (found 2) }
      ∷ [];
  matching = [];
  initialized = true;
}

matching_documents : (update_matches at_documents).matching ≡ (1, found 2) ∷ (3, found 2) ∷ []
unfolding update_matches
matching_documents = refl

update_matches-IsLeastMatching_example :
    IsLeastMatching at_documents.children (update_matches at_documents).matching
update_matches-IsLeastMatching_example = update_matches-IsLeastMatching at_documents

abbrev pub later_matches : Listed
later_matches = (found 4 ∷ found 7 ∷ [], ((omega arith, tt), (tt, tt)))

abbrev pub no_matches : Listed
no_matches = ([], tt)

-- Searchers of the documents 1, 4 and 7, and of 4 alone.
abbrev two_searchers : Disjunction ℕ Listed
two_searchers = record {
  children =
      record { searcher = later_matches; curr = some (found 1) }
      ∷ record { searcher = no_matches; curr = some (found 4) }
      ∷ [];
  matching = [];
  initialized = true;
}

abbrev ready_searchers : Disjunction ℕ Listed
ready_searchers = update_matches two_searchers

abbrev pub add_scores : List (Match ℕ) → ℕ
add_scores [] = 0
add_scores (m ∷ rest) = m.score + add_scores rest

ready_searchers-IsReady : IsReady list_searcher add_scores 2 list_contract ready_searchers
unfolding update_matches
ready_searchers-IsReady = record {
  ascending = (((omega arith, (omega arith, tt)), ((omega arith, tt), (tt, tt))), ((tt, tt), tt));
  least = update_matches-IsLeastMatching two_searchers;
}

ready_searchers-initialized : ready_searchers.initialized ≡ true
unfolding update_matches
ready_searchers-initialized = refl

-- Only document 4 has two.
both :
    (r : Disjunction ℕ Listed) × (disjunction_next list_searcher add_scores 2 5 ready_searchers
      ≡ some (ok (some (record { number = 4; score = 2 }), r)))
unfolding disjunction_next update_matches next_child build_document_match
both = (_, refl)

disjunction_next-IsNext_example :
    IsNext list_searcher add_scores 2 list_contract ready_searchers.children (
      disjunction_next list_searcher add_scores 2
        (total_pending list_searcher list_contract ready_searchers.children + 1)
        ready_searchers)
disjunction_next-IsNext_example =
    disjunction_next-IsNext list_searcher add_scores 2 list_contract ready_searchers
      ready_searchers-IsReady ready_searchers-initialized
