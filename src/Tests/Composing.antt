-- ===== src/Tests/Composing.antt =====
-- The conjunction, the disjunction and the boolean searcher over searchers of lists.
use bluge.Base.{
  ℕ, ◌+◌, ◌≡◌, refl, true, false, not, ◌&&◌, List, [], ◌∷◌, Option, none, some, ok, inl, inr, ltb,
  arith, if◌then◌else◌,
}
use bluge.Searcher.{Match, Child, next_child, advance_child, build_document_match}
use bluge.Searcher.First.{IsFirst}
use bluge.Searcher.Contract.{IsAscending}
use bluge.Searcher.Advancing.{AllSettled}
use bluge.Searcher.Disjunction.{Disjunction, update_matches, disjunction_advance}
use bluge.Searcher.Disjunction.Matching.{update_matches-IsLeastMatching}
use bluge.Searcher.Disjunction.Turn.{count, total_pending}
use bluge.Searcher.Disjunction.Correct.{IsReady, IsNext}
use bluge.Searcher.Disjunction.Advance.{disjunction_advance-IsNext}
use bluge.Searcher.Conjunction.{Conjunction, conjunction_next, conjunction_advance}
use bluge.Searcher.Conjunction.Steps
use bluge.Searcher.Conjunction.Take
use bluge.Searcher.Conjunction.Correct.{
  conjunction_fuel, conjunction_next-IsNext, conjunction_advance-IsFirst,
}
use bluge.Searcher.Boolean.{Boolean, boolean_next, boolean_advance}
use bluge.Searcher.Boolean.Turns
use bluge.Searcher.Boolean.Correct
use bluge.Searcher.Boolean.Advance
use bluge.Tests.Searching.{
  Listed, list_searcher, list_contract, found, later_matches, no_matches, add_scores,
}

abbrev child : Listed → ℕ → Child ℕ Listed
child xs n = record { searcher = xs; curr = some (found n) }

-- The documents 1, 4 and 7, and 4 alone.
abbrev first_three : Child ℕ Listed
first_three = child later_matches 1

abbrev only_four : Child ℕ Listed
only_four = child no_matches 4

first_three-IsAscending : IsAscending (found 1 ∷ found 4 ∷ found 7 ∷ [])
first_three-IsAscending = ((omega arith, (omega arith, tt)), ((omega arith, tt), (tt, tt)))

abbrev conjoined : Conjunction ℕ Listed
conjoined = record { children = first_three ∷ only_four ∷ []; max_id_idx = 0; initialized = true }

conjoined-IsReady : Take.IsReady list_searcher add_scores list_contract conjoined
conjoined-IsReady = record {
  ascending = (first_three-IsAscending, ((tt, tt), tt));
  in_range = inl refl;
}

conjoined-AllSettled : AllSettled list_searcher list_contract conjoined.children
conjoined-AllSettled = ((λ e. ground (arith, e)), ((λ e. ground (arith, e)), tt))

conjunction_next-IsNext_example : Take.IsNext list_searcher add_scores list_contract conjoined (
    conjunction_next list_searcher add_scores
      (conjunction_fuel list_searcher add_scores list_contract conjoined.children)
      conjoined)
conjunction_next-IsNext_example =
    conjunction_next-IsNext list_searcher add_scores list_contract conjoined conjoined-IsReady refl

conjunction_advance-IsFirst_example :
    (match : Option (Match ℕ)) × (after : Conjunction ℕ Listed) × (conjunction_advance list_searcher
        add_scores
        (conjunction_fuel list_searcher add_scores list_contract conjoined.children)
        conjoined
        2
      ≡ some (ok (match, after)))
    × Take.IsReady list_searcher add_scores list_contract after
    × IsFirst
        (λ j.
          not (ltb j 2) && Steps.wants list_searcher add_scores list_contract conjoined.children j)
        match
        (Steps.wants list_searcher add_scores list_contract after.children)
conjunction_advance-IsFirst_example =
    conjunction_advance-IsFirst list_searcher add_scores list_contract conjoined 2 conjoined-IsReady
      conjoined-AllSettled refl

-- Both have the document 4.
conjoined_four :
    (r : Conjunction ℕ Listed) × (conjunction_next list_searcher add_scores 9 conjoined
      ≡ some (ok (some (record { number = 4; score = 2 }), r)))
unfolding conjunction_next next_child build_document_match
conjoined_four = (_, refl)

abbrev combined : Boolean ℕ Listed
combined = record {
  must = some first_three;
  should = some (child no_matches 1);
  must_not = some (child no_matches 7);
  current_match = some (found 1);
  initialized = true;
  done = false;
}

combined-IsReady : Turns.IsReady list_searcher add_scores 0 list_contract combined
combined-IsReady = record {
  must = first_three-IsAscending;
  should = (tt, tt);
  must_not = (tt, tt);
  current = refl;
}

boolean_next-IsNext_example :
    Correct.IsNext list_searcher add_scores 0 list_contract combined
      (boolean_next list_searcher add_scores 0 4 combined)
boolean_next-IsNext_example =
    Correct.boolean_next-IsNext list_searcher add_scores 0 list_contract 4 combined combined-IsReady
      refl refl (omega arith)

boolean_advance-IsAdvanced_example :
    Advance.IsAdvanced list_searcher add_scores 0 list_contract 2 combined
      (boolean_advance list_searcher add_scores 0 4 combined 2)
boolean_advance-IsAdvanced_example =
    Advance.boolean_advance-IsAdvanced list_searcher add_scores 0 list_contract 4 2 combined
      combined-IsReady (λ e. ground (arith, e)) (inr (found 1, refl, omega arith))
      (λ e. ground (arith, e)) refl refl (omega arith)

-- A required searcher that points past the number already loses its match in Advance.
abbrev ahead : Boolean ℕ Listed
ahead = record {
  must = some (child (found 5 ∷ [], (tt, tt)) 1);
  should = some (child no_matches 5);
  must_not = none;
  current_match = some (found 1);
  initialized = true;
  done = false;
}

lost :
    (r : Boolean ℕ Listed) × (boolean_advance list_searcher add_scores 1 9 ahead 3
      ≡ some (ok (none, r)))
unfolding boolean_advance advance_child next_child build_document_match
lost = (_, refl)

not_lost :
    (r : Boolean ℕ Listed) × (boolean_next list_searcher add_scores 1 9 ahead
      ≡ some (ok (some (record { number = 5; score = 2 }), r)))
unfolding boolean_next advance_child next_child build_document_match
not_lost = (_, refl)

abbrev disjoined : Disjunction ℕ Listed
disjoined =
    update_matches
      (record { children = first_three ∷ only_four ∷ []; matching = []; initialized = true })

disjoined-IsReady : IsReady list_searcher add_scores 1 list_contract disjoined
unfolding update_matches
disjoined-IsReady = record {
  ascending = (first_three-IsAscending, ((tt, tt), tt));
  least =
      update_matches-IsLeastMatching
        (record { children = first_three ∷ only_four ∷ []; matching = []; initialized = true });
}

disjunction_advance-IsNext_example :
    (cs : List (Child ℕ Listed)) × ((j : ℕ)
      → count list_searcher list_contract j cs
        ≡ (if ltb j 2 then 0 else count list_searcher list_contract j disjoined.children))
    × IsNext list_searcher add_scores 1 list_contract cs (
        disjunction_advance list_searcher add_scores 1
          (total_pending list_searcher list_contract disjoined.children + 1)
          disjoined
          2)
unfolding update_matches
disjunction_advance-IsNext_example =
    disjunction_advance-IsNext list_searcher add_scores 1 list_contract disjoined 2
      disjoined-IsReady ((λ e. ground (arith, e)), ((λ e. ground (arith, e)), tt)) refl
