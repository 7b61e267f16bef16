-- ===== src/Index/Introducer/Unchecked.antt =====
-- introduceMerge for a merge whose oldNewDocNums has all the numbers that are looked up: the loops
-- without the panic of an index out of range.
use bluge.Base.{
  ℕ, ◌+◌, ◌%◌, ◌^◌, Bool, true, false, not, ◌&&◌, List, [], ◌∷◌, Option, none, some, get_elem?,
}
use bluge.Index.Segments.{Bitmaps, Segments, SegmentSnapshot, is_live, doc_numbers_live}
use bluge.Index.Introducer.{Merge, lookup, remove}

module _ {G B T E : Type 0} (bitmaps : Bitmaps B) (segments : Segments G B T E) where
  -- The number of a document in the new segment, 0 where there is none.
  abbrev pub number_in_new : Merge G B → ℕ → ℕ → ℕ
  number_in_new m id j = elim (get_elem? (m.old_new_doc_nums id) j) [
    | none ↦ 0
    | some n ↦ n % 2 ^ 32
  ]

  -- The loop of ProcessSegmentNow.
  unfoldable pub add_numbers : Merge G B → ℕ → List ℕ → B → B
  add_numbers m id [] b = b
  add_numbers m id (j ∷ rest) b = add_numbers m id rest (bitmaps.add b (number_in_new m id j))

  -- ProcessSegmentNow: whether the segment goes away, the merge and newSegmentDeleted after it.
  unfoldable pub processed_now : Merge G B → SegmentSnapshot G B → B → Bool × Merge G B × B
  unfolding add_numbers
  processed_now m now b = elim (lookup now.id m.old) [
    | none ↦ (false, m, b)
    | some at_merge ↦
        let b' : B = elim at_merge [
          | none ↦ b
          | some s ↦ elim now.deleted [
            | none ↦ b
            | some d ↦
                let since : B = elim s.deleted [ none ↦ d | some k ↦ bitmaps.and_not d k ] in
                add_numbers m now.id (bitmaps.numbers since) b
          ]
        ] in
        (true, record m { old = remove now.id m.old }, b')
  ]

  -- The loop of introduceMerge over the segments of the root.
  unfoldable pub merged_loop :
      Merge G B
      → ℕ
      → B
      → List (SegmentSnapshot G B)
      → List (SegmentSnapshot G B) × List ℕ × ℕ × Merge G B × B
  unfolding processed_now
  merged_loop m running b [] = ([], [], running, m, b)
  merged_loop m running b (s ∷ rest) =
      let (away, m', b') = processed_now m s b in
      elim (not away && is_live bitmaps segments s) [
        | false ↦ merged_loop m' running b' rest
        | true ↦
            let (ss, os, total, m2, b2) =
              merged_loop m' (running + segments.count s.segment) b' rest in
            (s ∷ ss, running ∷ os, total, m2, b2)
      ]

  -- The loop over what is left in `old`.
  unfoldable pub cleared_old : Merge G B → List (ℕ × Option (SegmentSnapshot G B)) → B → Option B
  unfolding add_numbers
  cleared_old m [] b = some b
  cleared_old m (x ∷ rest) b = elim x.1 [
    | none ↦ none
    | some s ↦
        cleared_old m rest
          (add_numbers m x.0 (bitmaps.numbers (doc_numbers_live bitmaps segments s)) b)
  ]
