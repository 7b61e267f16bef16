-- ===== src/MergePlan/Eligible.antt =====
-- findLiveSizesAndEligibles, against an independent description of its three results.
use Prim.Native.Nat.{min}
use mathlib.Core.List.{append_assoc, append-nil}
use bluge.Base.{ℕ, ◌+◌, ◌/◌, ◌≤◌, ◌≡◌, sym, List, [], ◌∷◌, ◌++◌, arith, ltb, filterb}
use bluge.MergePlan.{
  Segment, Options, LiveSizes, max_int64, find_step, find_loop, find_live_sizes_and_eligibles,
}
use bluge.MergePlan.Rosters.{total_live}

-- The least live size, and math.MaxInt64 for no segment.
abbrev pub least_live : List Segment → ℕ
least_live [] = max_int64
least_live (s ∷ rest) = min s.live_size (least_live rest)

module _ {F : Type 0} (o : Options F) where
  -- The segments below half of the largest size.
  abbrev pub eligible : List Segment → List Segment
  eligible = filterb (λ s. ltb s.live_size (o.max_segment_size / 2))

  find_loop-min :
      (acc : LiveSizes) (xs : List Segment)
      → acc.min_live_size ≤ max_int64
      → (find_loop o acc xs).min_live_size ≡ min acc.min_live_size (least_live xs)
  unfolding find_loop
  find_loop-min acc [] h = omega arith
  find_loop-min acc (s ∷ rest) h = ground (arith, find_loop-min (find_step o acc s) rest)

  find_loop-eligibles :
      (acc : LiveSizes) (xs : List Segment)
      → (find_loop o acc xs).eligibles ≡ acc.eligibles ++ eligible xs
  unfolding find_loop
  find_loop-eligibles acc [] = sym (append-nil acc.eligibles)
  find_loop-eligibles acc (s ∷ rest) = ground (
    arith,
    find_loop-eligibles (find_step o acc s) rest,
    append_assoc acc.eligibles (s ∷ []) (eligible rest),
  )

  find_loop-total :
      (acc : LiveSizes) (xs : List Segment)
      → (find_loop o acc xs).eligibles_live_size
        ≡ acc.eligibles_live_size + total_live (eligible xs)
  unfolding find_loop
  find_loop-total acc [] = omega arith
  find_loop-total acc (s ∷ rest) = ground (arith, find_loop-total (find_step o acc s) rest)

  -- The three results of findLiveSizesAndEligibles are the least live size, the sum of the
  -- eligible live sizes, and the segments whose live size is below half of MaxSegmentSize, in
  -- their order.
  pub find_live_sizes_and_eligibles_lem :
      (xs : List Segment)
      → find_live_sizes_and_eligibles o xs ≡ record {
        min_live_size = least_live xs;
        eligibles_live_size = total_live (eligible xs);
        eligibles = eligible xs;
      }
  unfolding find_live_sizes_and_eligibles
  find_live_sizes_and_eligibles_lem xs =
      let start : LiveSizes = record {
        min_live_size = max_int64;
        eligibles_live_size = 0;
        eligibles = [];
      } in
      ground (
        arith,
        find_loop-min start xs,
        find_loop-eligibles start xs,
        find_loop-total start xs,
        least_live-le xs,
      )
    where
      least_live-le : (ys : List Segment) → least_live ys ≤ max_int64
      least_live-le [] = omega arith
      least_live-le (s ∷ rest) = omega (arith, least_live-le rest)
