-- ===== src/Tests/Posting.antt =====
-- The postings of two segments.
use bluge.Base.{◌≡◌, refl, [], ◌∷◌, none, some, ok, arith}
use bluge.Searcher.Contract.{head?, tail, from}
use bluge.Index.Postings.{Postings, postings_next, postings_advance}
use bluge.Index.Postings.Next.{all, left, postings_next-left}
use bluge.Index.Postings.Advance.{postings_advance-left}
use bluge.Tests.Searching.{Listed, list_searcher, list_contract, found, matches, later_matches}

-- The documents 1, 4 and 7 of a segment of 10, and 4 and 7 of the next one.
abbrev two_segments : Postings Listed
two_segments = record {
  iterators = (0, matches) ∷ (10, later_matches) ∷ [];
  segment_offset = 0;
  curr_id = none;
}

first_posting :
    (after : Postings Listed) × (postings_next list_searcher two_segments
      ≡ ok (some (found 1), after))
unfolding postings_next
first_posting = (_, refl)

posting_from_8 :
    (after : Postings Listed) × (postings_advance list_searcher (ok two_segments) two_segments 8
      ≡ some (ok (some (found 14), after)))
unfolding postings_advance
posting_from_8 = (_, refl)

-- Without a segment, Advance indexes the offsets with -1.
without_segments :
    postings_advance list_searcher
      (ok two_segments)
      (record { iterators = []; segment_offset = 0; curr_id = none })
      8
    ≡ none
unfolding postings_advance
without_segments = refl

postings_next-left_example :
    (after : Postings Listed) × (postings_next list_searcher two_segments
      ≡ ok (
        head? (left list_searcher list_contract two_segments.segment_offset two_segments.iterators),
        after,
      ))
    × (left list_searcher list_contract after.segment_offset after.iterators
        ≡ tail
            (left list_searcher list_contract two_segments.segment_offset two_segments.iterators))
postings_next-left_example = postings_next-left list_searcher list_contract two_segments

postings_advance-left_example :
    (after : Postings Listed) × (postings_advance list_searcher (ok two_segments) two_segments 8
      ≡ some (ok (head? (from 8 (all list_searcher list_contract two_segments.iterators)), after)))
    × (left list_searcher list_contract after.segment_offset after.iterators
        ≡ tail (from 8 (all list_searcher list_contract two_segments.iterators)))
postings_advance-left_example =
    postings_advance-left list_searcher list_contract (ok two_segments) two_segments two_segments 8
      matches ((10, later_matches) ∷ []) refl refl
      (omega arith, (omega arith, (omega arith, (omega arith, tt))), tt)
