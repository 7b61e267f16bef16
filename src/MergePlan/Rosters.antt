-- ===== src/MergePlan/Rosters.antt =====
-- The rosters that the planner examines: their size, their members, and the choice of the best.
use bluge.Base.{
  ℕ, ◌+◌, ◌≤◌, ◌<◌, ◌≡◌, refl, ◌⊎◌, inl, inr, true, false, List, [], ◌∷◌, ◌++◌, arith, ◌==◌, length,
  length-append, countb-append, All, All-append, ltb, Bool-cases,
}
use bluge.Base.Floats.{FloatOps}
use bluge.MergePlan.{Segment, Options, roster_makes_progress, roster_loop, best_loop, best_roster}
use bluge.MergePlan.Removal.{count_ident}

abbrev pub total_live : List Segment → ℕ
total_live [] = 0
total_live (s ∷ rest) = s.live_size + total_live rest

total_live-append : (xs ys : List Segment) → total_live (xs ++ ys) ≡ total_live xs + total_live ys
total_live-append [] ys = omega arith
total_live-append (x ∷ xs) ys = omega (arith, total_live-append xs ys)

-- What the planner promises of a task that is not the task of the empties.
pub record IsTask {F : Type 0} (o : Options F) (roster : List Segment) : Type 0 where
  pub few : length roster ≤ o.segments_per_merge_task
  pub small : total_live roster < o.max_segment_size
  pub progress : roster_makes_progress roster ≡ true

-- A property of every proper starting point of a roster.
abbrev pub AllStarts : (List Segment → Type 0) → List Segment → Type 0
AllStarts P [] = Unit
AllStarts P (x ∷ xs) = P (x ∷ xs) × AllStarts P xs

module _ {F : Type 0} (o : Options F) where
  -- The running roster keeps within the task's bounds.
  record IsPartial (roster : List Segment) (size : ℕ) : Type 0 where
    sum : size ≡ total_live roster
    few : length roster ≤ o.segments_per_merge_task
    small : 0 < length roster → size < o.max_segment_size

  roster_loop-IsPartial :
      (roster : List Segment) (size : ℕ) (xs : List Segment)
      → IsPartial roster size
      → IsPartial (roster_loop o roster size xs) (total_live (roster_loop o roster size xs))
  unfolding roster_loop
  roster_loop-IsPartial roster size [] v = ground arith
  roster_loop-IsPartial roster size (e ∷ rest) v = ground (
    arith,
    length-append roster (e ∷ []),
    total_live-append roster (e ∷ []),
    roster_loop-IsPartial (roster ++ e ∷ []) (size + e.live_size) rest,
    roster_loop-IsPartial roster size rest v,
  )

  roster_loop-count :
      (i : ℕ) (roster : List Segment) (size : ℕ) (xs : List Segment)
      → count_ident i (roster_loop o roster size xs) ≤ count_ident i roster + count_ident i xs
  unfolding roster_loop
  roster_loop-count i roster size [] = omega arith
  roster_loop-count i roster size (e ∷ rest) = ground (
    arith,
    countb-append (λ s. i == s.ident) roster (e ∷ []),
    roster_loop-count i (roster ++ e ∷ []) (size + e.live_size) rest,
    roster_loop-count i roster size rest,
  )

  roster_loop-All :
      (P : Segment → Type 0) (roster : List Segment) (size : ℕ) (xs : List Segment)
      → All P roster
      → All P xs
      → All P (roster_loop o roster size xs)
  unfolding roster_loop
  roster_loop-All P roster size [] h k = h
  roster_loop-All P roster size (e ∷ rest) h (p, k) =
      let with_e =
        roster_loop-All P (roster ++ e ∷ []) (size + e.live_size) rest
          (All-append P roster (e ∷ []) h (p, tt)) k in
      let without_e = roster_loop-All P roster size rest h k in
      elim (Bool-cases (ltb (length roster) o.segments_per_merge_task)) [
        | inr full ↦ rw (roster_loop, full) h
        | inl room ↦ elim (Bool-cases (ltb (size + e.live_size) o.max_segment_size)) [
          | inl fits ↦ rw (roster_loop, room, fits) with_e
          | inr large ↦ rw (roster_loop, room, large) without_e
        ]
      ]

  pub progress→nonempty : (r : List Segment) → roster_makes_progress r ≡ true → 0 < length r
  unfolding roster_makes_progress
  progress→nonempty [] h = ground arith
  progress→nonempty (s ∷ rest) h = omega arith

  -- The roster of a starting point.
  abbrev pub roster_at : List Segment → List Segment
  roster_at = roster_loop o [] 0

  roster_at-IsTask :
      (xs : List Segment) → roster_makes_progress (roster_at xs) ≡ true → IsTask o (roster_at xs)
  roster_at-IsTask xs h =
      let start : IsPartial [] 0 = omega arith in
      let v = roster_loop-IsPartial [] 0 xs start in
      record { few = v.few; small = v.small (progress→nonempty _ h); progress = h }

  module _ (f : FloatOps F) (score : List Segment → F) where
    -- Any property of the rosters that make progress holds of the choice, if it is not empty.
    best_loop_inv :
        (P : List Segment → Type 0) (best : List Segment) (best_score : F) (xs : List Segment)
        → P best
        → AllStarts (λ ys. roster_makes_progress (roster_at ys) ≡ true → P (roster_at ys)) xs
        → P (best_loop o f score best best_score xs)
    unfolding best_loop
    best_loop_inv P best best_score [] h k = h
    best_loop_inv P best best_score (x ∷ xs) h k =
        let roster = roster_at (x ∷ xs) in
        ground
          (arith, k.0, best_loop_inv P roster (score roster) xs, best_loop_inv P best best_score xs)

    IsTask-starts :
        (xs : List Segment)
        → AllStarts
            (λ ys.
              roster_makes_progress (roster_at ys) ≡ true
              → (roster_at ys ≡ []) ⊎ IsTask o (roster_at ys))
            xs
    IsTask-starts [] = tt
    IsTask-starts (x ∷ xs) = ((λ h. inr (roster_at-IsTask (x ∷ xs) h)), IsTask-starts xs)

    pub best_roster-IsTask :
        (xs : List Segment) → (best_roster o f score xs ≡ []) ⊎ IsTask o (best_roster o f score xs)
    unfolding best_roster
    best_roster-IsTask xs =
        best_loop_inv (λ r. (r ≡ []) ⊎ IsTask o r) [] (f.of_int 0) xs (inl refl) (IsTask-starts xs)

    count_starts :
        (i n : ℕ) (xs : List Segment)
        → count_ident i xs ≤ n
        → AllStarts
            (λ ys. roster_makes_progress (roster_at ys) ≡ true → count_ident i (roster_at ys) ≤ n)
            xs
    count_starts i n [] h = tt
    count_starts i n (x ∷ xs) h = (
      (λ _. omega (arith, roster_loop-count i [] 0 (x ∷ xs))),
      count_starts i n xs (ground arith),
    )

    starts-All :
        (P : Segment → Type 0) (xs : List Segment)
        → All P xs
        → AllStarts (λ ys. roster_makes_progress (roster_at ys) ≡ true → All P (roster_at ys)) xs
    starts-All P [] h = tt
    starts-All P (x ∷ xs) h = ((λ _. roster_loop-All P [] 0 (x ∷ xs) tt h), starts-All P xs h.1)

    -- The best roster takes its segments from the list.
    pub best_roster-All :
        (P : Segment → Type 0) (xs : List Segment) → All P xs → All P (best_roster o f score xs)
    unfolding best_roster
    best_roster-All P xs h = best_loop_inv (All P) [] (f.of_int 0) xs tt (starts-All P xs h)

    pub best_roster-count :
        (i : ℕ) (xs : List Segment) → count_ident i (best_roster o f score xs) ≤ count_ident i xs
    unfolding best_roster
    best_roster-count i xs =
        best_loop_inv (λ r. count_ident i r ≤ count_ident i xs) [] (f.of_int 0) xs (omega arith)
          (count_starts i (count_ident i xs) xs (omega arith))

    -- No roster makes progress, from any starting point.
    abbrev pub IsStuck : List Segment → Type 0
    IsStuck = AllStarts (λ ys. roster_makes_progress (roster_at ys) ≡ false)

    best_loop-eq-nil :
        (best : List Segment) (best_score : F) (xs : List Segment)
        → best_loop o f score best best_score xs ≡ []
        → (best ≡ []) × IsStuck xs
    unfolding best_loop
    best_loop-eq-nil best best_score [] h = (h, tt)
    best_loop-eq-nil best best_score (x ∷ xs) h =
        let roster = roster_at (x ∷ xs) in
        ground (
          arith,
          progress→nonempty roster,
          best_loop-eq-nil roster (score roster) xs,
          best_loop-eq-nil best best_score xs,
        )

    pub best_roster-eq-nil : (xs : List Segment) → best_roster o f score xs ≡ [] → IsStuck xs
    unfolding best_roster
    best_roster-eq-nil xs h = (best_loop-eq-nil [] (f.of_int 0) xs h).1
