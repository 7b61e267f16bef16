-- ===== src/MergePlan/Correct.antt =====
-- `plan` as a whole: what the tasks of a merge plan are, and that a plan is always returned.
use bluge.Base.{
  ℕ, ◌+◌, ◌/◌, ◌≤◌, ◌<◌, ◌≡◌, ◌⊎◌, inl, inr, some, List, [], ◌∷◌, ◌++◌, Perm, arith, ltb, leb, ◌==◌,
  length, All, In, In-All, In-filterb, sym, ap, ◌∙◌, subst, refl, filterb_all, filterb-All,
  append_assoc, All-append, All-imp, All-filterb, countb-append, countb-filterb-le, countb-perm,
}
use bluge.Base.Floats.{FloatOps}
use bluge.MergePlan.{Segment, MergeTask, MergePlan, Options, raise_to_floor_segment_size}
use bluge.MergePlan.Planner.{
  budget_of, score_of, empties, empties_task, without, plan_eligibles, plan,
}
use bluge.MergePlan.Removal.{count_ident}
use bluge.MergePlan.Rosters.{IsTask, IsStuck, total_live}
use bluge.MergePlan.Tasks.{
  segments_of, count_ident-segments_of, unmerged, is_unmerged, unmerged-append,
  remove_segments-eq-unmerged, IsUnique, count-remove_part, plan_loop_correct,
}
use bluge.MergePlan.Eligible.{least_live, eligible, find_live_sizes_and_eligibles_lem}
use bluge.MergePlan.Budget.{KeepsTiers, IsComparable, budget_of_total}

-- The task of the segments without live rows.
abbrev pub IsEmpties : MergeTask → Type 0
IsEmpties t = All (λ s. s.live_size ≡ 0) t.segments

module _ {F : Type 0} (f : FloatOps F) (o : Options F) where
  -- The contract of a plan for the eligible segments, under a budget.
  pub record IsPlan (budget : ℕ) (eligibles : List Segment) (tasks : List MergeTask) : Type 0 where
    pub good : All (λ t. IsEmpties t ⊎ IsTask o t.segments) tasks
    pub taken : All (λ s. In s eligibles) (segments_of tasks)
    pub conserved :
        (i : ℕ)
        → count_ident i (segments_of tasks) + count_ident i (unmerged tasks eligibles)
          ≡ count_ident i eligibles
    pub stops :
        (length (unmerged tasks eligibles) ≡ 0)
        ⊎ (length (unmerged tasks eligibles) + length tasks ≤ budget)
        ⊎ IsStuck o f (score_of f o) (unmerged tasks eligibles)

  -- The empties' task and what it leaves.
  split-empties :
      (i : ℕ) (xs removed : List Segment)
      → count_ident i xs ≤ 1
      → count_ident i removed ≤ count_ident i xs
      → count_ident i (segments_of (empties_task f o removed))
          + count_ident i (without f o xs removed)
        ≡ count_ident i xs
  split-empties i xs [] u h = omega arith
  split-empties i xs (s ∷ rest) u h = omega (
    arith,
    count-remove_part i xs (s ∷ rest) u h,
    countb-append (λ x. i == x.ident) (s ∷ rest) [],
  )

  without-eq-unmerged :
      (xs removed : List Segment) → without f o xs removed ≡ unmerged (empties_task f o removed) xs
  without-eq-unmerged xs [] = sym (filterb_all (is_unmerged []) xs (λ s. refl))
  without-eq-unmerged xs (s ∷ rest) = remove_segments-eq-unmerged xs (s ∷ rest)

  empties_task-All :
      (P : Segment → Type 0) (removed : List Segment)
      → All P removed
      → All P (segments_of (empties_task f o removed))
  empties_task-All P [] h = tt
  empties_task-All P (s ∷ rest) h = All-append P (s ∷ rest) [] h tt

  empties-taken : (xs : List Segment) → All (λ s. In s xs) (empties f o xs)
  unfolding empties
  empties-taken xs =
      filterb-All (λ s. In s xs) (λ s. leb s.live_size 0) xs (In-All (λ s. In s xs) xs (λ s i. i))

  segments_of-append :
      (xs ys : List MergeTask) → segments_of (xs ++ ys) ≡ segments_of xs ++ segments_of ys
  segments_of-append [] ys = refl
  segments_of-append (t ∷ xs) ys =
      ap (λ l. t.segments ++ l) (segments_of-append xs ys)
      ∙ sym (append_assoc t.segments (segments_of xs) (segments_of ys))

  empties_task-good :
      (removed : List Segment)
      → All (λ s. s.live_size ≡ 0) removed
      → All (λ t. IsEmpties t ⊎ IsTask o t.segments) (empties_task f o removed)
  empties_task-good [] h = tt
  empties_task-good (s ∷ rest) h = (inl h, tt)

  empties-zero : (xs : List Segment) → All (λ s. s.live_size ≡ 0) (empties f o xs)
  unfolding empties
  empties-zero xs =
      All-imp _ (λ s. s.live_size ≡ 0) _ (λ s h. ground arith)
        (All-filterb (λ s. leb s.live_size 0) xs)

  empties-count : (i : ℕ) (xs : List Segment) → count_ident i (empties f o xs) ≤ count_ident i xs
  unfolding empties
  empties-count i xs = countb-filterb-le _ _ xs

  -- From distinct eligible segments `plan` makes its tasks, for every budget.
  pub plan_eligibles_correct :
      (budget : ℕ) (eligibles : List Segment)
      → IsUnique eligibles
      → (tasks : List MergeTask) × (plan_eligibles f o budget eligibles ≡ some tasks)
        × IsPlan budget eligibles tasks
  unfolding plan_eligibles
  plan_eligibles_correct budget eligibles u =
      let removed = empties f o eligibles in
      let rest = without f o eligibles removed in
      let first = empties_task f o removed in
      let split : (i : ℕ)
          → count_ident i (segments_of first) + count_ident i rest ≡ count_ident i eligibles =
        λ i. split-empties i eligibles removed (u i) (empties-count i eligibles) in
      let (tasks, ends, s) =
        plan_loop_correct o f (score_of f o) (length rest + 1) budget first rest (omega arith)
          (λ i. omega (arith, split i, u i)) in
      let others = without-eq-unmerged eligibles removed in
      let left_are : s.left ≡ unmerged tasks eligibles =
        s.left_are
        ∙ ap (unmerged s.new) others
        ∙ unmerged-append first s.new eligibles
        ∙ ap (λ l. unmerged l eligibles) (sym s.extends) in
      (
        tasks,
        ends,
        record {
          good = rw s.extends (
              All-append _ first s.new (empties_task-good removed (empties-zero eligibles))
                (All-imp _ _ s.new (λ t h. inr h) s.good));
          conserved = λ i.
              subst
                (λ l. count_ident i (segments_of tasks) + count_ident i l ≡ count_ident i eligibles)
                left_are
                (rw s.extends
                  (omega (arith, count_ident-segments_of i first s.new, s.conserved i, split i)));
          stops =
              subst
                (λ l.
                  (length l ≡ 0)
                  ⊎ (length l + length tasks ≤ budget)
                  ⊎ IsStuck o f (score_of f o) l)
                left_are s.stops;
          taken =
              subst (λ l. All (λ x. In x eligibles) (segments_of l)) (sym s.extends)
                (subst (All (λ x. In x eligibles)) (sym (segments_of-append first s.new)) (
                  All-append (λ x. In x eligibles) (segments_of first) (segments_of s.new)
                    (empties_task-All (λ x. In x eligibles) removed (empties-taken eligibles))
                    (All-imp (λ x. In x rest) (λ x. In x eligibles) (segments_of s.new)
                      (λ x i. In-filterb x (is_unmerged first) eligibles (subst (In x) others i))
                      s.taken)));
        },
      )

  module _ (sort : List Segment → List Segment)
      (sort-perm : (xs : List Segment) → Perm (sort xs) xs) (keeps : KeepsTiers f)
      (comparable : IsComparable f o.tier_growth) where
    -- If the sort permutes, the growth of the options is not NaN, and the product of a positive
    -- tier size and a growth of 1 or above is positive, then for two or more distinct segments
    -- `plan` returns a plan. Its tasks take entries of the eligible segments only, each at most
    -- once, and each task is that of the segments without live rows or keeps the bounds of the
    -- options. For the eligible segments that no task has: there is none, or with the tasks they
    -- are within the budget, or no roster of them makes progress.
    pub plan_correct :
        (segments : List Segment)
        → 1 < length segments
        → IsUnique segments
        → (budget : ℕ) × (p : MergePlan) × (budget_of f o
              (total_live (eligible o (sort segments)))
              (raise_to_floor_segment_size o (least_live (sort segments)))
            ≡ some budget)
          × (plan f sort segments (some o) ≡ some (some p))
          × IsPlan budget (eligible o (sort segments)) p.tasks
    unfolding plan
    plan_correct segments h u =
        let xs = sort segments in
        let (budget, b) =
          budget_of_total f o (total_live (eligible o xs))
            (raise_to_floor_segment_size o (least_live xs)) keeps comparable in
        let unique : IsUnique (eligible o xs) = λ i. omega (
          arith,
          u i,
          countb-filterb-le (λ s. i == s.ident) (λ s. ltb s.live_size (o.max_segment_size / 2)) xs,
          countb-perm (λ s. i == s.ident) (sort-perm segments),
        ) in
        let (tasks, e, good) = plan_eligibles_correct budget (eligible o xs) unique in
        (
          budget,
          record { tasks = tasks },
          b,
          ground (arith, find_live_sizes_and_eligibles_lem o xs),
          good,
        )
