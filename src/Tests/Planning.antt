-- ===== src/Tests/Planning.antt =====
-- Merge plans of small indexes.
use mathlib.Core.List.Perm
use bluge.Base.{
  ℕ, ◌+◌, ◌-◌, ◌*◌, ◌/◌, ◌<◌, ◌≤◌, subst, ◌≡◌, refl, List, [], ◌∷◌, none, some, arith, inl, inr,
}
use bluge.MergePlan.{
  Segment, MergePlan, Options, raise_to_floor_segment_size, best_roster,
  find_live_sizes_and_eligibles,
}
use bluge.MergePlan.Planner.{budget_of, calc_budget, plan, score_of}
use bluge.MergePlan.Rosters.{total_live}
use bluge.MergePlan.Tasks.{IsUnique}
use bluge.MergePlan.Eligible.{least_live, eligible, find_live_sizes_and_eligibles_lem}
use bluge.MergePlan.Budget.{KeepsTiers, IsComparable, calc_budget_total}
use bluge.MergePlan.Choice.{IsLeast, best_roster-IsLeast}
use bluge.MergePlan.Correct.{IsPlan, plan_correct}
use bluge.Tests.Numbers.{thousandths, thousandths-order}

abbrev seg : ℕ → ℕ → ℕ → Segment
seg id full live = record { ident = id; id = id; full_size = full; live_size = live }

-- At most two segments in a task.
abbrev small_options : Options ℕ
small_options = record {
  max_segments_per_tier = 1;
  max_segment_size = 1000;
  tier_growth = 2000;
  segments_per_merge_task = 2;
  floor_segment_size = 1;
  reclaim_deletes_weight = 2000;
  calc_budget = none;
  score_segments = none;
}

abbrev index : List Segment
index = seg 1 900 800 ∷ seg 2 100 90 ∷ seg 3 80 80 ∷ seg 4 40 20 ∷ seg 5 10 10 ∷ seg 6 5 0 ∷ []

index-IsUnique : IsUnique index
index-IsUnique i = ground arith

-- With a budget of three.
abbrev tight_options : Options ℕ
tight_options = record small_options { calc_budget = some (λ total first. 3) }

-- The segment without live rows has its task, then the cheaper roster goes first.
planned :
    plan thousandths (λ xs. xs) index (some tight_options)
    ≡ some (
        some (record {
          tasks =
              record { segments = seg 6 5 0 ∷ [] }
              ∷ record { segments = seg 4 40 20 ∷ seg 5 10 10 ∷ [] }
              ∷ record { segments = seg 2 100 90 ∷ seg 3 80 80 ∷ [] }
              ∷ [];
        }))
unfolding plan
planned = refl

product_positive : (m d : ℕ) → 0 < (1 + m) * 1000 * (1000 + d) / 1000 / 1000
product_positive m d = omega arith

keeps_positive : (growth n : ℕ) → 1000 ≤ growth → 0 < n → 0 < n * 1000 * growth / 1000 / 1000
keeps_positive growth n h k =
    subst (λ g. 0 < n * 1000 * g / 1000 / 1000) {x = 1000 + (growth - 1000)} (omega arith)
      (subst (λ i. 0 < i * 1000 * (1000 + (growth - 1000)) / 1000 / 1000) {x = 1 + (n - 1)}
        (omega arith) (product_positive (n - 1) (growth - 1000)))

keeps_tiers : KeepsTiers thousandths
keeps_tiers growth (inl e) n h = keeps_positive growth n (omega arith) h
keeps_tiers growth (inr e) n h = keeps_positive growth n (ground arith) h

small_options-IsComparable : IsComparable thousandths small_options.tier_growth
small_options-IsComparable = inr (inr refl)

plan_correct_example :
    (budget : ℕ) × (p : MergePlan) × (budget_of thousandths small_options
        (total_live (eligible small_options index))
        (raise_to_floor_segment_size small_options (least_live index))
      ≡ some budget)
    × (plan thousandths (λ xs. xs) index (some small_options) ≡ some (some p))
    × IsPlan thousandths small_options budget (eligible small_options index) p.tasks
plan_correct_example =
    plan_correct thousandths small_options (λ xs. xs) Perm.refl keeps_tiers
      small_options-IsComparable index (omega arith) index-IsUnique

calc_budget_total_example : (n : ℕ) × (calc_budget thousandths small_options 200 1 ≡ some n)
calc_budget_total_example =
    calc_budget_total thousandths small_options 200 1 keeps_tiers small_options-IsComparable

best_roster-IsLeast_example :
    IsLeast small_options thousandths
      (score_of thousandths small_options)
      thousandths-order
      (best_roster small_options thousandths (score_of thousandths small_options) index)
      index
best_roster-IsLeast_example =
    best_roster-IsLeast small_options thousandths (score_of thousandths small_options)
      thousandths-order index

find_live_sizes_and_eligibles_lem_example :
    find_live_sizes_and_eligibles small_options index ≡ record {
      min_live_size = least_live index;
      eligibles_live_size = total_live (eligible small_options index);
      eligibles = eligible small_options index;
    }
find_live_sizes_and_eligibles_lem_example = find_live_sizes_and_eligibles_lem small_options index
