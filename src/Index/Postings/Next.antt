-- ===== src/Index/Postings/Next.antt =====
-- Next of the postings: what the segments have left, one after the other.
use bluge.Base.{
  ℕ, zero, suc, ◌≡◌, refl, ap, ◌∙◌, List, [], ◌∷◌, ◌++◌, Option, Result, ok, arith, List-cases, inl,
  inr,
}
use bluge.Searcher.{Match, Searcher}
use bluge.Searcher.Contract.{Lists, head?, tail}
use bluge.Index.Postings.{Postings, shift, next_at, moved_to, postings_next}

module _ {F : Type 0} where
  abbrev pub shifted : ℕ → List (Match F) → List (Match F)
  shifted offset [] = []
  shifted offset (m ∷ ms) = shift offset m ∷ shifted offset ms

module _ {F E S : Type 0} (iterator : Searcher F E S) (lists : Lists iterator) where
  -- What all the segments have left.
  abbrev pub all : List (ℕ × S) → List (Match F)
  all [] = []
  all (x ∷ xs) = shifted x.0 (lists.view x.1) ++ all xs

  -- What is left from a segment on.
  abbrev pub left : ℕ → List (ℕ × S) → List (Match F)
  left k [] = []
  left zero (x ∷ xs) = all (x ∷ xs)
  left (suc k) (x ∷ xs) = left k xs

  pub left_zero : (xs : List (ℕ × S)) → left 0 xs ≡ all xs
  left_zero [] = refl
  left_zero (x ∷ xs) = refl

  pub record Yields (ms : List (Match F)) (r : Result E (Option (Match F) × ℕ × List (ℕ × S)))
      : Type 0 where
    pub index : ℕ
    pub after : List (ℕ × S)
    pub returns : r ≡ ok (head? ms, index, after)
    pub rest : left index after ≡ tail ms

  pub next_at-Yields : (k : ℕ) (xs : List (ℕ × S)) → Yields (left k xs) (next_at iterator k xs)
  unfolding next_at
  next_at-Yields k [] = record { index = k; after = []; returns = ground arith; rest = refl }
  next_at-Yields zero (x ∷ xs) =
      let e = lists.next_lem x.1 in
      let v = lists.next_view x.1 in
      let s = lists.next_to x.1 in
      elim (List-cases (lists.view x.1)) [
        | inl f ↦
            let ih = next_at-Yields zero xs in
            record {
              index = suc ih.index;
              after = (x.0, s) ∷ ih.after;
              returns = ground (arith, e, f, ih.returns, left_zero xs);
              rest = ih.rest ∙ ap tail (left_zero xs) ∙ ground (arith, f);
            }
        | inr (m, ms, f) ↦ record {
          index = 0;
          after = (x.0, s) ∷ xs;
          returns = ground (arith, e, f);
          rest = ground (arith, v, f);
        }
      ]
  next_at-Yields (suc k) (x ∷ xs) =
      let ih = next_at-Yields k xs in
      record {
        index = suc ih.index;
        after = x ∷ ih.after;
        returns = ground (arith, ih.returns);
        rest = ih.rest;
      }

  -- Over segments that list ascending postings, Next returns the first posting that the segments
  -- from segmentOffset on have left, one segment after the other and by its number in the
  -- snapshot, or nil if there is none, and leaves exactly the later ones.
  pub postings_next-left :
      (p : Postings S)
      → (after : Postings S) × (postings_next iterator p
          ≡ ok (head? (left p.segment_offset p.iterators), after))
        × (left after.segment_offset after.iterators ≡ tail (left p.segment_offset p.iterators))
  unfolding postings_next
  postings_next-left p =
      let y = next_at-Yields p.segment_offset p.iterators in
      (
        (moved_to iterator p.curr_id
            (head? (left p.segment_offset p.iterators), y.index, y.after)).1,
        ground (arith, y.returns),
        y.rest,
      )
