-- ===== src/MergePlan/Tasks.antt =====
-- The main loop of `plan`: what its tasks are, that no segment gets lost or is taken twice, when it
-- stops, and that it stops.
use bluge.Base.{
  ℕ, zero, suc, ◌+◌, ◌≤◌, ◌<◌, ◌≡◌, sym, ◌∙◌, ◌⊎◌, inl, inr, true, false, ◌&&◌, some, List, [], ◌∷◌,
  ◌++◌, arith, ltb, ◌==◌, length, countb-append, All, In, In-All, In-filterb, All-append, All-imp,
  subst, ap, refl, not, filterb, filterb_ext, filterb-filterb, filterb_all, Bool, Bool-cases,
  List-cases,
}
use mathlib.Core.List.{append_assoc, append-nil}
use bluge.Base.Floats.{FloatOps}
use bluge.MergePlan.{Segment, MergeTask, Options, best_roster, plan_loop, remove_segments, contains}
use bluge.MergePlan.Removal.{
  count_ident, contains-eq-false, contains-eq-true, count_ident-remove_segments,
  length-remove_segments,
}
use bluge.MergePlan.Rosters.{
  IsTask, IsStuck, best_roster-IsTask, best_roster-All, best_roster-count, best_roster-eq-nil,
}

abbrev pub segments_of : List MergeTask → List Segment
segments_of [] = []
segments_of (t ∷ ts) = t.segments ++ segments_of ts

pub count_ident-segments_of :
    (i : ℕ) (xs ys : List MergeTask)
    → count_ident i (segments_of (xs ++ ys))
      ≡ count_ident i (segments_of xs) + count_ident i (segments_of ys)
count_ident-segments_of i [] ys = omega arith
count_ident-segments_of i (t ∷ xs) ys = omega (
  arith,
  countb-append (λ s. i == s.ident) t.segments (segments_of (xs ++ ys)),
  countb-append (λ s. i == s.ident) t.segments (segments_of xs),
  count_ident-segments_of i xs ys,
)

-- No task has the segment.
abbrev pub is_unmerged : List MergeTask → Segment → Bool
is_unmerged tasks s = count_ident s.ident (segments_of tasks) == 0

-- The segments of the list that no task has, in order.
abbrev pub unmerged : List MergeTask → List Segment → List Segment
unmerged tasks = filterb (is_unmerged tasks)

-- Removing the segments of a task leaves those that the task has not.
pub remove_segments-eq-unmerged :
    (xs rs : List Segment) → remove_segments xs rs ≡ unmerged (record { segments = rs } ∷ []) xs
unfolding remove_segments
remove_segments-eq-unmerged xs rs =
    filterb_ext (λ s. not (contains s.ident rs)) (is_unmerged (record { segments = rs } ∷ [])) xs
      (λ s. ground (
        arith,
        contains-eq-false s.ident rs,
        contains-eq-true s.ident rs,
        countb-append (λ x. s.ident == x.ident) rs [],
      ))

-- To leave out the segments of some tasks and then those of others.
pub unmerged-append :
    (ts us : List MergeTask) (xs : List Segment)
    → unmerged us (unmerged ts xs) ≡ unmerged (ts ++ us) xs
unmerged-append ts us xs =
    filterb-filterb (is_unmerged us) (is_unmerged ts) xs
    ∙ filterb_ext (λ s. is_unmerged ts s && is_unmerged us s) (is_unmerged (ts ++ us)) xs
        (λ s. ground (arith, count_ident-segments_of s.ident ts us))

-- No two entries are the same segment.
abbrev pub IsUnique : List Segment → Type 0
IsUnique xs = (i : ℕ) → count_ident i xs ≤ 1

-- Taking a part of a list of distinct segments away leaves exactly the others.
pub count-remove_part :
    (i : ℕ) (xs rs : List Segment)
    → count_ident i xs ≤ 1
    → count_ident i rs ≤ count_ident i xs
    → count_ident i rs + count_ident i (remove_segments xs rs) ≡ count_ident i xs
count-remove_part i xs rs u h =
    ground
      (arith, count_ident-remove_segments i xs rs, contains-eq-false i rs, contains-eq-true i rs)

pub length-remove_part :
    (r : Segment) (xs rs : List Segment)
    → ((i : ℕ) → count_ident i (r ∷ rs) ≤ count_ident i xs)
    → length (remove_segments xs (r ∷ rs)) < length xs
unfolding contains
length-remove_part r xs rs h =
    let own : contains r.ident (r ∷ rs) ≡ true = ground arith in
    ground (arith, h r.ident, length-remove_segments r.ident xs (r ∷ rs) own)

module _ {F : Type 0} (o : Options F) (f : FloatOps F) (score : List Segment → F) where
  -- How the loop ends on `tasks` and `eligibles`, with the segments `left` in no task.
  pub record Settled (budget : ℕ) (tasks : List MergeTask) (eligibles : List Segment)
      (out : List MergeTask) : Type 0 where
    pub new : List MergeTask
    pub left : List Segment
    pub extends : out ≡ tasks ++ new
    pub good : All (λ t. IsTask o t.segments) new
    pub conserved :
        (i : ℕ) → count_ident i (segments_of new) + count_ident i left ≡ count_ident i eligibles
    pub left_are : left ≡ unmerged new eligibles
    pub taken : All (λ s. In s eligibles) (segments_of new)
    pub stops : (length left ≡ 0) ⊎ (length left + length out ≤ budget) ⊎ IsStuck o f score left

  stop_here :
      (budget : ℕ) (tasks : List MergeTask) (eligibles : List Segment)
      → (length eligibles ≡ 0)
        ⊎ (length eligibles + length tasks ≤ budget)
        ⊎ IsStuck o f score eligibles
      → Settled budget tasks eligibles tasks
  stop_here budget tasks eligibles h = record {
    new = [];
    left = eligibles;
    extends = sym (append-nil tasks);
    good = tt;
    conserved = λ i. omega arith;
    left_are = sym (filterb_all (is_unmerged []) eligibles (λ s. refl));
    taken = tt;
    stops = h;
  }

  one_more :
      (budget : ℕ) (tasks : List MergeTask) (eligibles rest : List Segment) (t : MergeTask)
      (out : List MergeTask)
      → IsTask o t.segments
      → ((i : ℕ) → count_ident i t.segments + count_ident i rest ≡ count_ident i eligibles)
      → rest ≡ unmerged (t ∷ []) eligibles
      → All (λ s. In s eligibles) t.segments
      → Settled budget (tasks ++ t ∷ []) rest out
      → Settled budget tasks eligibles out
  one_more budget tasks eligibles rest t out good split others members s = record {
    new = t ∷ s.new;
    left = s.left;
    extends = s.extends ∙ append_assoc tasks (t ∷ []) s.new;
    good = (good, s.good);
    conserved = λ i. omega (
      arith,
      split i,
      s.conserved i,
      countb-append (λ x. i == x.ident) t.segments (segments_of s.new),
    );
    left_are = s.left_are ∙ ap (unmerged s.new) others ∙ unmerged-append (t ∷ []) s.new eligibles;
    taken =
        All-append (λ x. In x eligibles) t.segments (segments_of s.new) members
          (All-imp (λ x. In x rest) (λ x. In x eligibles) (segments_of s.new)
            (λ x i. In-filterb x (is_unmerged (t ∷ [])) eligibles (subst (In x) others i)) s.taken);
    stops = s.stops;
  }

  module _ (fuel budget : ℕ) (tasks : List MergeTask) (eligibles : List Segment) where
    -- The test of the `for`.
    abbrev over_budget : Bool
    over_budget = ltb 0 (length eligibles) && ltb budget (length eligibles + length tasks)

    plan_loop-within :
        over_budget ≡ false → plan_loop o f score (suc fuel) budget tasks eligibles ≡ some tasks
    unfolding plan_loop
    plan_loop-within h = ground arith

    plan_loop-stuck :
        over_budget ≡ true
        → best_roster o f score eligibles ≡ []
        → plan_loop o f score (suc fuel) budget tasks eligibles ≡ some tasks
    unfolding plan_loop
    plan_loop-stuck h e = ground arith

    plan_loop-next :
        (r : Segment) (rs : List Segment)
        → over_budget ≡ true
        → best_roster o f score eligibles ≡ r ∷ rs
        → plan_loop o f score (suc fuel) budget tasks eligibles
          ≡ plan_loop o f score fuel budget
              (tasks ++ record { segments = r ∷ rs } ∷ [])
              (remove_segments eligibles (r ∷ rs))
    unfolding plan_loop
    plan_loop-next r rs h e = ground arith

  pub plan_loop_correct :
      (fuel budget : ℕ) (tasks : List MergeTask) (eligibles : List Segment)
      → length eligibles < fuel
      → IsUnique eligibles
      → (out : List MergeTask) × (plan_loop o f score fuel budget tasks eligibles ≡ some out)
        × Settled budget tasks eligibles out
  plan_loop_correct zero budget tasks eligibles h u = absurd (omega arith)
  plan_loop_correct (suc fuel) budget tasks eligibles h u =
      elim (Bool-cases (over_budget fuel budget tasks eligibles)) [
        | inr within ↦ (
          tasks,
          plan_loop-within fuel budget tasks eligibles within,
          stop_here budget tasks eligibles (ground arith),
        )
        | inl over ↦ elim (List-cases (best_roster o f score eligibles)) [
          | inl e ↦ (
            tasks,
            plan_loop-stuck fuel budget tasks eligibles over e,
            stop_here budget tasks eligibles (inr (inr (best_roster-eq-nil o f score eligibles e))),
          )
          | inr (r, rs, e) ↦
              let task : MergeTask = record { segments = r ∷ rs } in
              let rest = remove_segments eligibles (r ∷ rs) in
              let part : (i : ℕ) → count_ident i (r ∷ rs) ≤ count_ident i eligibles =
                λ i. rw e at (best_roster-count o f score i eligibles) in
              let split : (i : ℕ)
                  → count_ident i (r ∷ rs) + count_ident i rest ≡ count_ident i eligibles =
                λ i. count-remove_part i eligibles (r ∷ rs) (u i) (part i) in
              let members : All (λ x. In x eligibles) (r ∷ rs) =
                subst (All (λ x. In x eligibles)) e (
                  best_roster-All o f score (λ x. In x eligibles) eligibles
                    (In-All (λ x. In x eligibles) eligibles (λ x i. i))) in
              let (out, ends, s) =
                plan_loop_correct fuel budget (tasks ++ task ∷ []) rest
                  (omega (arith, length-remove_part r eligibles rs part))
                  (λ i. omega (arith, split i, u i)) in
              (
                out,
                plan_loop-next fuel budget tasks eligibles r rs over e ∙ ends,
                one_more budget tasks eligibles rest task out (chosen r rs e) split
                    (remove_segments-eq-unmerged eligibles (r ∷ rs)) members s,
              )
        ]
      ]
    where
      chosen :
          (r : Segment) (rs : List Segment)
          → best_roster o f score eligibles ≡ r ∷ rs
          → IsTask o (r ∷ rs)
      chosen r rs e = elim (best_roster-IsTask o f score eligibles) [
        | inl empty ↦ absurd (cc)
        | inr good ↦ rw e at good
      ]
