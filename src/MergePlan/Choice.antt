-- ===== src/MergePlan/Choice.antt =====
-- Which roster `plan` picks among those that make progress.
use bluge.Base.{
  ◌<◌, ◌≡◌, refl, sym, subst, true, false, List, [], ◌∷◌, arith, length, Bool-cases, inl, inr,
}
use bluge.Base.Floats.{FloatOps, FloatOrder}
use bluge.MergePlan.{Segment, Options, roster_makes_progress, better, best_loop, best_roster}
use bluge.MergePlan.Rosters.{AllStarts, roster_at, progress→nonempty}

module _ {F : Type 0} (o : Options F) (f : FloatOps F) (score : List Segment → F)
    (order : FloatOrder f) where
  -- The choice has a score no larger than the best roster so far.
  best_loop-le_best :
      (best : List Segment) (xs : List Segment)
      → 0 < length best
      → f.lt (score best) (score (best_loop o f score best (score best) xs)) ≡ false
  unfolding best_loop
  best_loop-le_best best [] h = order.irrefl (score best)
  best_loop-le_best best (x ∷ xs) h =
      let roster = roster_at o (x ∷ xs) in
      let chosen = best_loop o f score roster (score roster) xs in
      ground (
        arith,
        progress→nonempty o roster,
        best_loop-le_best roster xs,
        best_loop-le_best best xs h,
        order.asym (score roster) (score best),
        order.negtrans (score best) (score roster) (score chosen),
      )

  -- No roster that makes progress has a lower score than `chosen`.
  abbrev pub IsLeast : List Segment → List Segment → Type 0
  IsLeast chosen = AllStarts (λ ys.
      roster_makes_progress (roster_at o ys) ≡ true
      → f.lt (score (roster_at o ys)) (score chosen) ≡ false)

  module _ (best : List Segment) (best_score : F) (x : Segment) (xs : List Segment) where
    abbrev next_best : List Segment
    next_best = best_loop o f score (roster_at o (x ∷ xs)) (score (roster_at o (x ∷ xs))) xs

    best_loop-taken :
        better o f score (roster_at o (x ∷ xs)) best best_score ≡ true
        → best_loop o f score best best_score (x ∷ xs) ≡ next_best
    unfolding best_loop
    best_loop-taken h = ground arith

    best_loop-kept :
        better o f score (roster_at o (x ∷ xs)) best best_score ≡ false
        → best_loop o f score best best_score (x ∷ xs) ≡ best_loop o f score best best_score xs
    unfolding best_loop
    best_loop-kept h = ground arith

    -- A roster that is taken makes progress, so it is a legal current best.
    taken-progress :
        better o f score (roster_at o (x ∷ xs)) best best_score ≡ true
        → 0 < length (roster_at o (x ∷ xs))
    unfolding better
    taken-progress h = ground (arith, progress→nonempty o (roster_at o (x ∷ xs)))

    -- A roster that is passed over has no lower score than the current best.
    kept-le :
        better o f score (roster_at o (x ∷ xs)) best best_score ≡ false
        → roster_makes_progress (roster_at o (x ∷ xs)) ≡ true
        → (0 < length best) × (f.lt (score (roster_at o (x ∷ xs))) best_score ≡ false)
    unfolding better
    kept-le h p = ground arith

  best_loop-IsLeast :
      (best : List Segment) (best_score : F) (xs : List Segment)
      → (0 < length best → best_score ≡ score best)
      → IsLeast (best_loop o f score best best_score xs) xs
  best_loop-IsLeast best best_score [] h = tt
  best_loop-IsLeast best best_score (x ∷ xs) h =
      let roster = roster_at o (x ∷ xs) in
      elim (Bool-cases (better o f score roster best best_score)) [
        | inl taken ↦
            subst (λ r. IsLeast r (x ∷ xs)) (sym (best_loop-taken best best_score x xs taken))
              (
                (λ _. best_loop-le_best roster xs (taken-progress best best_score x xs taken)),
                best_loop-IsLeast roster (score roster) xs (λ _. refl),
              )
        | inr kept ↦
            subst (λ r. IsLeast r (x ∷ xs)) (sym (best_loop-kept best best_score x xs kept))
              (
                (λ p.
                    let (full, le) = kept-le best best_score x xs kept p in
                    order.negtrans (score roster) (score best) _ (rw (h full) at le) (
                      subst (λ c. f.lt (score best) (score (best_loop o f score best c xs)) ≡ false)
                        (sym (h full)) (best_loop-le_best best xs full))),
                best_loop-IsLeast best best_score xs h,
              )
      ]

  -- If the floats are ordered, no roster that starts at an eligible segment and makes progress has
  -- a lower score than the roster that a round picks.
  pub best_roster-IsLeast : (xs : List Segment) → IsLeast (best_roster o f score xs) xs
  unfolding best_roster
  best_roster-IsLeast xs = best_loop-IsLeast [] (f.of_int 0) xs (λ p. absurd (omega arith))
