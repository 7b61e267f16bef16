-- ===== src/MergePlan/Removal.antt =====
-- What removeSegments takes away, counted by the segments' identities.
use bluge.Base.{
  ℕ, ◌+◌, ◌≤◌, ◌≡◌, true, false, List, [], ◌∷◌, arith, ◌==◌, if◌then◌else◌, length, countb, ==_iff,
}
use bluge.MergePlan.{Segment, contains, remove_segments}

-- How often the segment behind the identity `i` stands in the list.
abbrev pub count_ident : ℕ → List Segment → ℕ
count_ident i = countb (λ s. i == s.ident)

pub contains-eq-false : (i : ℕ) (rs : List Segment) → contains i rs ≡ false → count_ident i rs ≡ 0
unfolding contains
contains-eq-false i [] h = omega arith
contains-eq-false i (r ∷ rs) h = ground (arith, contains-eq-false i rs)

pub contains-eq-true : (i : ℕ) (rs : List Segment) → contains i rs ≡ true → 1 ≤ count_ident i rs
unfolding contains
contains-eq-true i [] h = ground arith
contains-eq-true i (r ∷ rs) h = ground (arith, contains-eq-true i rs)

pub count_ident-remove_segments :
    (i : ℕ) (xs rs : List Segment)
    → count_ident i (remove_segments xs rs) ≡ (if contains i rs then 0 else count_ident i xs)
unfolding remove_segments
count_ident-remove_segments i [] rs = ground arith
count_ident-remove_segments i (x ∷ xs) rs =
    ground (arith, count_ident-remove_segments i xs rs, ==_iff i x.ident)

pub length-remove_segments :
    (i : ℕ) (xs rs : List Segment)
    → contains i rs ≡ true
    → length (remove_segments xs rs) + count_ident i xs ≤ length xs
unfolding remove_segments
length-remove_segments i [] rs h = omega arith
length-remove_segments i (x ∷ xs) rs h =
    ground (arith, length-remove_segments i xs rs h, ==_iff i x.ident)
