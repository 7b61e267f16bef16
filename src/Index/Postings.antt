-- ===== src/Index/Postings.antt =====
-- index/postings.go: the postings of a term in a snapshot, from an iterator for each segment, and the
-- place of a document in index/snapshot.go. The iterators of the segments are a parameter: they move
-- like a searcher. The impacts, the sizes and the recycling are left out.
pub mod Next
pub mod Advance
use bluge.Base.{
  ℕ, zero, suc, ◌+◌, ◌-◌, List, [], ◌∷◌, ◌++◌, Option, none, some, Bool, true, false, Result, ok,
  err, ◌>>=◌, ltb, leb, if◌then◌else◌,
}
use bluge.Searcher.{Match, Searcher}

-- `iterators` with the offset of each segment, `segmentOffset`, and `currID` with `currPosting`.
pub record Postings (S : Type 0) : Type 0 where
  pub iterators : List (ℕ × S)
  pub segment_offset : ℕ
  pub curr_id : Option ℕ

-- sort.Search for the first offset that is greater; the offsets ascend.
abbrev pub first_above : {S : Type 0} → ℕ → List (ℕ × S) → ℕ
first_above n [] = 0
first_above n (x ∷ xs) = let rest = first_above n xs in if ltb n x.0 then 0 else suc rest

-- The number in the snapshot.
abbrev pub shift : {F : Type 0} → ℕ → Match F → Match F
shift offset m = record m { number = m.number + offset }

module _ {F E S : Type 0} (iterator : Searcher F E S) where
  -- The loop of Next from `segmentOffset`: the posting, the offset and the iterators after it.
  unfoldable pub next_at : ℕ → List (ℕ × S) → Result E (Option (Match F) × ℕ × List (ℕ × S))
  next_at k [] = ok (none, k, [])
  next_at zero (x ∷ xs) = iterator.next x.1 >>= λ (m, s). elim m [
    | some p ↦ ok (some (shift x.0 p), 0, (x.0, s) ∷ xs)
    | none ↦ next_at zero xs >>= λ (r, i, xs'). ok (r, suc i, (x.0, s) ∷ xs')
  ]
  next_at (suc k) (x ∷ xs) = next_at k xs >>= λ (r, i, xs'). ok (r, suc i, x ∷ xs')

  -- The state after a posting, or after the last one.
  abbrev pub moved_to :
      Option ℕ → Option (Match F) × ℕ × List (ℕ × S) → Option (Match F) × Postings S
  moved_to curr (r, i, its) = (
    r,
    record {
      iterators = its;
      segment_offset = i;
      curr_id = elim r [ none ↦ curr | some m ↦ some m.number ];
    },
  )

  unfoldable pub postings_next : Postings S → Result E (Option (Match F) × Postings S)
  unfolding next_at
  postings_next p = next_at p.segment_offset p.iterators >>= λ r. ok (moved_to p.curr_id r)

  -- Advance of the iterator of a segment, and Next where it has nothing left.
  unfoldable pub advance_at : ℕ → ℕ → List (ℕ × S) → Result E (Option (Match F) × ℕ × List (ℕ × S))
  unfolding next_at
  advance_at k n [] = ok (none, k, [])
  advance_at zero n (x ∷ xs) = iterator.advance x.1 (n - x.0) >>= λ (m, s). elim m [
    | some p ↦ ok (some (shift x.0 p), 0, (x.0, s) ∷ xs)
    | none ↦ next_at zero ((x.0, s) ∷ xs)
  ]
  advance_at (suc k) n (x ∷ xs) = advance_at k n xs >>= λ (r, i, xs'). ok (r, suc i, x ∷ xs')

  -- The state that Advance works on: PostingsIterator again, to go back.
  abbrev pub restarted : Result E (Postings S) → Postings S → ℕ → Result E (Postings S)
  restarted restart p n = elim p.curr_id [
    | none ↦ ok p
    | some c ↦ elim (leb n c) [ true ↦ restart | false ↦ ok p ]
  ]

  -- Advance, where `restart` is PostingsIterator of the snapshot; `none` is a panic, of an index of
  -- -1 where no offset is at most the number.
  unfoldable pub postings_advance :
      Result E (Postings S) → Postings S → ℕ → Option (Result E (Option (Match F) × Postings S))
  unfolding advance_at
  postings_advance restart p n = elim (restarted restart p n) [
    | err e ↦ some (err e)
    | ok p' ↦ elim (first_above n p'.iterators) [
      | zero ↦ none
      | suc i ↦ some (advance_at i n p'.iterators >>= λ r. ok (moved_to p'.curr_id r))
    ]
  ]
