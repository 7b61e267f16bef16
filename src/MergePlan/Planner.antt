-- ===== src/MergePlan/Planner.antt =====
-- index/mergeplan/merge_plan.go: CalcBudget, ScoreSegments, and `plan`, which joins the parts of
-- the parent module. Loops take fuel, and `none` means that it ran out.
use bluge.Base.{
  ℕ, zero, suc, ◌+◌, ◌-◌, ◌*◌, true, false, ◌||◌, Option, none, some, List, [], ◌∷◌, ltb, leb, ◌==◌,
  if◌then◌else◌, length, filterb,
}
use mathlib.Core.Option
use bluge.Base.Floats.{FloatOps}
use bluge.MergePlan.{
  Segment, MergeTask, MergePlan, Options, raise_to_floor_segment_size,
  find_live_sizes_and_eligibles, remove_segments, plan_loop,
}

-- The running totals of ScoreSegments.
pub record Totals : Type 0 where
  pub before : ℕ
  pub after : ℕ
  pub after_floored : ℕ

module _ {F : Type 0} (f : FloatOps F) where
  unfoldable pub default_merge_plan_options : Options F
  default_merge_plan_options = record {
    max_segments_per_tier = 10;
    max_segment_size = 5_000_000;
    tier_growth = f.decimal 10 0;
    segments_per_merge_task = 10;
    floor_segment_size = 2000;
    reclaim_deletes_weight = f.decimal 2 0;
    calc_budget = none;
    score_segments = none;
  }

  module _ (max_segments_per_tier : ℕ) (tier_growth : F) where
    -- The `for totalSize > 0` of CalcBudget.
    unfoldable pub calc_budget_loop : ℕ → ℕ → ℕ → ℕ → Option ℕ
    calc_budget_loop zero total_size tier_size budget = none
    calc_budget_loop (suc fuel) total_size tier_size budget =
        let segments_in_tier = f.div (f.of_int total_size) (f.of_int tier_size) in
        elim (ltb 0 total_size) [
          | true ↦ elim (f.lt segments_in_tier (f.of_int max_segments_per_tier)) [
            | true ↦ some (budget + f.ceil_int segments_in_tier)
            | false ↦
                calc_budget_loop fuel (total_size - max_segments_per_tier * tier_size)
                  (f.trunc_int (f.mul (f.of_int tier_size) tier_growth))
                  (budget + max_segments_per_tier)
          ]
          | false ↦ some budget
        ]

  module _ (o : Options F) where
    abbrev pub clamped_growth : F
    clamped_growth = if f.lt o.tier_growth (f.of_int 1) then f.of_int 1 else o.tier_growth

    abbrev pub at_least_one : ℕ → ℕ
    at_least_one n = if ltb n 1 then 1 else n

    unfoldable pub calc_budget : ℕ → ℕ → Option ℕ
    unfolding calc_budget_loop
    calc_budget total_size first_tier_size =
        calc_budget_loop (at_least_one o.max_segments_per_tier) clamped_growth (total_size + 1)
          total_size (at_least_one first_tier_size) 0

    unfoldable pub total_sizes : List Segment → Totals
    unfolding raise_to_floor_segment_size
    total_sizes [] = record { before = 0; after = 0; after_floored = 0 }
    total_sizes (s ∷ rest) =
        let t = total_sizes rest in
        record {
          before = s.full_size + t.before;
          after = s.live_size + t.after;
          after_floored = raise_to_floor_segment_size o s.live_size + t.after_floored;
        }

    unfoldable pub score_segments : List Segment → F
    unfolding total_sizes
    score_segments [] = f.of_int 0
    score_segments (s ∷ rest) =
        let t = total_sizes (s ∷ rest) in
        if t.before == 0 || (t.after == 0 || t.after_floored == 0)
        then f.of_int 0
        else let balance =
            f.div (f.of_int (raise_to_floor_segment_size o s.live_size))
              (f.of_int t.after_floored) in
          let score = f.mul balance (f.pow (f.of_int t.after) (f.decimal 5 2)) in
          let non_del_ratio = f.div (f.of_int t.after) (f.of_int t.before) in
          f.mul score (f.pow non_del_ratio o.reclaim_deletes_weight)

    -- `o.CalcBudget` and `o.ScoreSegments`, or their defaults.
    unfoldable pub budget_of : ℕ → ℕ → Option ℕ
    unfolding calc_budget
    budget_of total first = elim o.calc_budget [
      | some calc ↦ some (calc total first)
      | none ↦ calc_budget total first
    ]

    unfoldable pub score_of : List Segment → F
    unfolding score_segments
    score_of segments = elim o.score_segments [
      | some score ↦ score segments
      | none ↦ score_segments segments
    ]

    unfoldable pub empties : List Segment → List Segment
    empties = filterb (λ s. leb s.live_size 0)

    abbrev pub empties_task : List Segment → List MergeTask
    empties_task [] = []
    empties_task (s ∷ rest) = record { segments = s ∷ rest } ∷ []

    -- What is left of `eligibles` when the empties have their task.
    abbrev pub without : List Segment → List Segment → List Segment
    without eligibles [] = eligibles
    without eligibles (s ∷ rest) = remove_segments eligibles (s ∷ rest)

    unfoldable pub plan_eligibles : ℕ → List Segment → Option (List MergeTask)
    unfolding empties plan_loop score_of
    plan_eligibles budget eligibles =
        let removed = empties eligibles in
        let left = without eligibles removed in
        plan_loop o f score_of (length left + 1) budget (empties_task removed) left

    unfoldable pub plan_with :
        (List Segment → List Segment) → List Segment → Option (Option MergePlan)
    unfolding find_live_sizes_and_eligibles budget_of plan_eligibles
    plan_with sort segments_in =
        let found = find_live_sizes_and_eligibles o (sort segments_in) in
        let least = raise_to_floor_segment_size o found.min_live_size in
        elim (budget_of found.eligibles_live_size least) [
          | none ↦ none
          | some budget ↦ elim (plan_eligibles budget found.eligibles) [
            | none ↦ none
            | some tasks ↦ some (some (record { tasks = tasks }))
          ]
        ]

  -- The inner `none` is the nil plan, and a nil `*Options` is `none`. `sort` is sort.Sort by
  -- byLiveSizeDescending.
  unfoldable pub plan :
      (List Segment → List Segment) → List Segment → Option (Options F) → Option (Option MergePlan)
  unfolding plan_with
  plan sort segments_in options =
      let o = Option.get_or options default_merge_plan_options in
      if leb (length segments_in) 1 then some none else plan_with o sort segments_in
