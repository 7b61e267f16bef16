-- ===== src/MergePlan/Budget.antt =====
-- CalcBudget stops, and the sums of `plan` stay within int64.
use bluge.Base.{
  ℕ, zero, suc, ◌+◌, ◌-◌, ◌*◌, ◌≤◌, ◌<◌, ◌≡◌, ◌⊎◌, true, some, List, arith, Bool-cases,
  Option-cases, inl, inr, ok,
}
use bluge.Base.Floats.{FloatOps}
use bluge.MergePlan.{Segment, Options, max_int64, validate_merge_planner_options}
use bluge.MergePlan.Planner.{calc_budget_loop, calc_budget, clamped_growth, at_least_one, budget_of}
use bluge.MergePlan.Rosters.{IsTask, total_live}

module _ {F : Type 0} (f : FloatOps F) where
  -- A tier of positive size does not shrink to nothing under this growth.
  abbrev Keeps : F → Type 0
  Keeps growth = (n : ℕ) → 0 < n → 0 < f.trunc_int (f.mul (f.of_int n) growth)

  -- The law of the product: `int64(float64(n) * growth)` is positive for every n > 0 and every
  -- growth that is 1 or above, as long as the product stays within int64.
  abbrev pub KeepsTiers : Type 0
  KeepsTiers =
      (growth : F)
      → (growth ≡ f.of_int 1) ⊎ (f.lt (f.of_int 1) growth ≡ true)
      → (n : ℕ) → 0 < n
      → 0 < f.trunc_int (f.mul (f.of_int n) growth)

  -- The number is below 1, 1 or above 1: it is not NaN.
  abbrev pub IsComparable : F → Type 0
  IsComparable x = (f.lt x (f.of_int 1) ≡ true) ⊎ (x ≡ f.of_int 1) ⊎ (f.lt (f.of_int 1) x ≡ true)

  -- The clamp of CalcBudget makes every growth that is not NaN one that keeps the tiers.
  clamped_growth-Keeps :
      (o : Options F) → KeepsTiers → IsComparable o.tier_growth → Keeps (clamped_growth f o)
  clamped_growth-Keeps o k c =
      k (clamped_growth f o) (elim (Bool-cases (f.lt o.tier_growth (f.of_int 1))) [
        | inl below ↦ inl (ground arith)
        | inr above ↦ elim c [
          | inl below ↦ absurd (cc)
          | inr (inl e) ↦ inl (ground arith)
          | inr (inr e) ↦ inr (ground arith)
        ]
      ])

  calc_budget_loop_total :
      (m : ℕ) (growth : F) (fuel total tier budget : ℕ)
      → Keeps growth
      → 0 < m
      → 0 < tier
      → total < fuel
      → (n : ℕ) × (calc_budget_loop f m growth fuel total tier budget ≡ some n)
  unfolding calc_budget_loop
  calc_budget_loop_total m growth zero total tier budget k p q h = absurd (omega arith)
  calc_budget_loop_total m growth (suc fuel) zero tier budget k p q h = (budget, ground arith)
  calc_budget_loop_total m growth (suc fuel) (suc total) tier budget k p q h =
      let (n, e) =
        calc_budget_loop_total m growth fuel (suc total - m * tier)
          (f.trunc_int (f.mul (f.of_int tier) growth)) (budget + m) k p (k tier q) (grind arith) in
      let segments_in_tier = f.div (f.of_int (suc total)) (f.of_int tier) in
      elim (Bool-cases (f.lt segments_in_tier (f.of_int m))) [
        | inl small ↦ (budget + f.ceil_int segments_in_tier, ground arith)
        | inr large ↦ (n, ground arith)
      ]

  -- If the growth of the options is not NaN, and the product of a positive tier size and a growth
  -- of 1 or above is positive, CalcBudget returns, whatever the sizes and the growth are.
  pub calc_budget_total :
      (o : Options F) (total first : ℕ)
      → KeepsTiers
      → IsComparable o.tier_growth
      → (n : ℕ) × (calc_budget f o total first ≡ some n)
  unfolding calc_budget
  calc_budget_total o total first k c =
      calc_budget_loop_total (at_least_one f o o.max_segments_per_tier) (clamped_growth f o)
        (total + 1) total (at_least_one f o first) 0 (clamped_growth-Keeps o k c) (ground arith)
        (ground arith) (omega arith)

  pub budget_of_total :
      (o : Options F) (total first : ℕ)
      → KeepsTiers
      → IsComparable o.tier_growth
      → (n : ℕ) × (budget_of f o total first ≡ some n)
  unfolding budget_of
  budget_of_total o total first k c = elim (Option-cases o.calc_budget) [
    | inl e ↦ let (n, h) = calc_budget_total o total first k c in (n, ground arith)
    | inr (calc, e) ↦ (calc total first, ground arith)
  ]

  -- With options that ValidateMergePlannerOptions accepts, adding an eligible segment to a task's
  -- live size does not overflow int64.
  pub roster_size_bounds :
      (o : Options F) (roster : List Segment) (s : Segment)
      → validate_merge_planner_options o ≡ ok tt
      → IsTask o roster
      → s.live_size < o.max_segment_size
      → total_live roster + s.live_size ≤ max_int64
  unfolding validate_merge_planner_options
  roster_size_bounds o roster s v t h = ground arith
