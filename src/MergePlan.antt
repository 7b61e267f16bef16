-- ===== src/MergePlan.antt =====
-- index/mergeplan/merge_plan.go and index/mergeplan/sort.go: the planner that chooses which
-- segments are merged. Sizes are counts of rows or bytes and never negative, so they are ℕ; an
-- option that Go lets be negative acts there as 0 does. A Segment is an interface value: `ident`
-- is what `==` compares (the pointer behind it). `sort.Sort` and float64 are parameters.
pub mod Planner
pub mod Removal
pub mod Rosters
pub mod Tasks
pub mod Choice
pub mod Eligible
pub mod Budget
pub mod Correct
use bluge.Base.{
  ℕ, zero, suc, ◌+◌, ◌-◌, ◌/◌, ◌^◌, Bool, true, false, not, ◌&&◌, ◌||◌, Option, none, some, List,
  [], ◌∷◌, ◌++◌, Result, ok, err, ltb, ◌==◌, if◌then◌else◌, length, filterb,
}
use bluge.Base.Floats.{FloatOps}

pub record Segment : Type 0 where
  pub ident : ℕ
  pub id : ℕ
  pub full_size : ℕ
  pub live_size : ℕ

pub record MergeTask : Type 0 where
  pub segments : List Segment

pub record MergePlan : Type 0 where
  pub tasks : List MergeTask

pub record Options (F : Type 0) : Type 0 where
  pub max_segments_per_tier : ℕ
  pub max_segment_size : ℕ
  pub tier_growth : F
  pub segments_per_merge_task : ℕ
  pub floor_segment_size : ℕ
  pub reclaim_deletes_weight : F
  -- The optional functions, closed over the options that Go passes them.
  pub calc_budget : Option (ℕ → ℕ → ℕ)
  pub score_segments : Option (List Segment → F)

abbrev pub max_segment_size_limit : ℕ
max_segment_size_limit = 2 ^ 31 - 1

pub data PlanError : Type 0 where
  max_segment_size_too_large : PlanError

unfoldable pub validate_merge_planner_options :
    {F : Type 0} → Options F → Result PlanError (Unit {0})
validate_merge_planner_options o =
    if ltb max_segment_size_limit o.max_segment_size then err max_segment_size_too_large else ok tt

-- byLiveSizeDescending.Less
unfoldable pub by_live_size_descending : Segment → Segment → Bool
by_live_size_descending a b =
    if a.live_size == b.live_size then ltb a.id b.id else ltb b.live_size a.live_size

unfoldable pub roster_makes_progress : List Segment → Bool
roster_makes_progress roster =
    if ltb 1 (length roster)
    then true
    else elim roster [ [] ↦ false | s ∷ rest ↦ length rest == 0 && ltb s.live_size s.full_size ]

-- Whether some segment of the list is `==` to the given one.
unfoldable pub contains : ℕ → List Segment → Bool
contains i [] = false
contains i (r ∷ rs) = i == r.ident || contains i rs

unfoldable pub remove_segments : List Segment → List Segment → List Segment
unfolding contains
remove_segments segments to_remove = filterb (λ s. not (contains s.ident to_remove)) segments

-- math.MaxInt64
abbrev pub max_int64 : ℕ
max_int64 = 2 ^ 63 - 1

pub record LiveSizes : Type 0 where
  pub min_live_size : ℕ
  pub eligibles_live_size : ℕ
  pub eligibles : List Segment

module _ {F : Type 0} (o : Options F) where
  unfoldable pub raise_to_floor_segment_size : ℕ → ℕ
  raise_to_floor_segment_size s = if ltb o.floor_segment_size s then s else o.floor_segment_size

  -- One round of the loop of findLiveSizesAndEligibles.
  unfoldable pub find_step : LiveSizes → Segment → LiveSizes
  find_step acc s =
      let least = if ltb s.live_size acc.min_live_size then s.live_size else acc.min_live_size in
      if ltb s.live_size (o.max_segment_size / 2)
      then record {
        min_live_size = least;
        eligibles_live_size = acc.eligibles_live_size + s.live_size;
        eligibles = acc.eligibles ++ s ∷ [];
      }
      else record acc { min_live_size = least }

  unfoldable pub find_loop : LiveSizes → List Segment → LiveSizes
  unfolding find_step
  find_loop acc [] = acc
  find_loop acc (s ∷ rest) = find_loop (find_step acc s) rest

  unfoldable pub find_live_sizes_and_eligibles : List Segment → LiveSizes
  unfolding find_loop
  find_live_sizes_and_eligibles =
      find_loop (record { min_live_size = max_int64; eligibles_live_size = 0; eligibles = [] })

  -- The inner loop of `plan`: the roster that starts at one index, and its live size so far.
  unfoldable pub roster_loop : List Segment → ℕ → List Segment → List Segment
  roster_loop roster size [] = roster
  roster_loop roster size (e ∷ rest) = elim (ltb (length roster) o.segments_per_merge_task) [
    | true ↦ elim (ltb (size + e.live_size) o.max_segment_size) [
      | true ↦ roster_loop (roster ++ e ∷ []) (size + e.live_size) rest
      | false ↦ roster_loop roster size rest
    ]
    | false ↦ roster
  ]

  module _ (f : FloatOps F) (score : List Segment → F) where
    -- `len(bestRoster) == 0 || rosterScore < bestRosterScore`, after the test for progress.
    unfoldable pub better : List Segment → List Segment → F → Bool
    unfolding roster_makes_progress
    better roster best best_score =
        roster_makes_progress roster && (length best == 0 || f.lt (score roster) best_score)

    -- The loop over startIdx, on the eligibles from there on.
    unfoldable pub best_loop : List Segment → F → List Segment → List Segment
    unfolding better roster_loop
    best_loop best best_score [] = best
    best_loop best best_score (e ∷ rest) =
        let roster = roster_loop [] 0 (e ∷ rest) in
        elim (better roster best best_score) [
          | true ↦ best_loop roster (score roster) rest
          | false ↦ best_loop best best_score rest
        ]

    unfoldable pub best_roster : List Segment → List Segment
    unfolding best_loop
    best_roster = best_loop [] (f.of_int 0)

    -- The `for` over budget. `none`: the fuel ran out.
    unfoldable pub plan_loop : ℕ → ℕ → List MergeTask → List Segment → Option (List MergeTask)
    unfolding best_roster remove_segments
    plan_loop zero budget tasks eligibles = none
    plan_loop (suc fuel) budget tasks eligibles =
        elim (ltb 0 (length eligibles) && ltb budget (length eligibles + length tasks)) [
          | true ↦ elim (best_roster eligibles) [
            | [] ↦ some tasks
            | r ∷ rs ↦
                plan_loop fuel budget (tasks ++ record { segments = r ∷ rs } ∷ [])
                  (remove_segments eligibles (r ∷ rs))
          ]
          | false ↦ some tasks
        ]
