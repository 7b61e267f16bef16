-- ===== src/Index/Introducer/Numbers.antt =====
-- Where oldNewDocNums has every number that introduceMerge looks up, no index is out of range.
use bluge.Base.{
  ℕ, ◌+◌, ◌%◌, ◌^◌, ◌<◌, ◌≡◌, refl, ◌∙◌, sym, subst, true, false, List, [], ◌∷◌, Option, none, some,
  get_elem?, ◌==◌, arith, Bool-cases, Option-cases, inl, inr, All,
}
use bluge.Index.Segments.{
  Bitmaps, BitmapLaws, Segments, SegmentSnapshot, is_deleted, is_live, member, doc_numbers_live,
}
use bluge.Index.Introducer.{
  Merge, lookup, remove, add_new, process_segment_now, merge_loop, obsolete_old,
}
use bluge.Index.Introducer.Unchecked.{add_numbers, processed_now, merged_loop, cleared_old}
use bluge.Index.Introducer.Merges.{lookup-remove, is_away, removed, processed_now-Away}
use bluge.Index.Introducer.Leftovers.{
  Seen, Seen-behind, AreKeysUnique, lookup-removed, AllSome, contains-doc_numbers_live,
}

All-member : (P : ℕ → Type 0) (js : List ℕ) → ((j : ℕ) → member j js ≡ true → P j) → All P js
All-member P [] h = tt
All-member P (j ∷ js) h = (h j (ground arith), All-member P js (λ i k. h i (ground (arith, k))))

module _ {G B T E : Type 0} (bitmaps : Bitmaps B) (segments : Segments G B T E)
    (laws : BitmapLaws bitmaps) where
  -- The document has an entry in oldNewDocNums.
  abbrev pub HasNumber : Merge G B → ℕ → ℕ → Type 0
  HasNumber m id j = (n : ℕ) × (get_elem? (m.old_new_doc_nums id) j ≡ some n)

  -- So does every document of the segment that was deleted since the merge saw it.
  abbrev pub IsNumbered : Merge G B → SegmentSnapshot G B → Type 0
  IsNumbered m s =
      (t : SegmentSnapshot G B)
      → lookup s.id m.old ≡ some (some t)
      → (j : ℕ) → is_deleted bitmaps s.deleted j ≡ true
      → is_deleted bitmaps t.deleted j ≡ false
      → HasNumber m s.id j

  -- So does every document that was live when the merge saw this entry.
  abbrev pub IsOldNumbered : Merge G B → ℕ × Option (SegmentSnapshot G B) → Type 0
  IsOldNumbered m x =
      (t : SegmentSnapshot G B)
      → x.1 ≡ some t
      → (j : ℕ) → j < segments.count t.segment
      → is_deleted bitmaps t.deleted j ≡ false
      → HasNumber m x.0 j

  pub Seen-IsOldNumbered :
      (m : Merge G B) (old : List (ℕ × Option (SegmentSnapshot G B)))
      → AreKeysUnique bitmaps segments laws old
      → ((id j : ℕ) → Seen bitmaps segments laws old id j → HasNumber m id j)
      → All (IsOldNumbered m) old
  Seen-IsOldNumbered m [] u h = tt
  Seen-IsOldNumbered m (x ∷ rest) u h = (
    (λ t e j l d. h x.0 j (t, ground (arith, e), (l, d))),
    Seen-IsOldNumbered m rest u.1
        (λ id j s. h id j (Seen-behind bitmaps segments laws x rest id j u.0 s)),
  )

  add_new-numbered :
      (m : Merge G B) (id : ℕ) (js : List ℕ) (b : B)
      → All (HasNumber m id) js
      → add_new bitmaps segments m id js b ≡ some (add_numbers bitmaps segments m id js b)
  unfolding add_new add_numbers
  add_new-numbered m id [] b h = refl
  add_new-numbered m id (j ∷ rest) b ((n, e), h) =
      ground (arith, e, add_new-numbered m id rest (bitmaps.add b (n % 2 ^ 32)) h)

  process_segment_now-numbered :
      (m : Merge G B) (s : SegmentSnapshot G B) (b : B)
      → IsNumbered m s
      → process_segment_now bitmaps segments m s b ≡ some (processed_now bitmaps segments m s b)
  unfolding process_segment_now processed_now
  process_segment_now-numbered m s b h = elim (Option-cases (lookup s.id m.old)) [
    | inl e ↦ ground (arith, e)
    | inr (none, e) ↦ ground (arith, e)
    | inr (some t, e) ↦ elim (Option-cases s.deleted) [
      | inl f ↦ ground (arith, e, f)
      | inr (d, f) ↦ elim (Option-cases t.deleted) [
        | inl k ↦
            let all : All (HasNumber m s.id) (bitmaps.numbers d) =
              All-member (HasNumber m s.id) (bitmaps.numbers d) (λ j i.
                h t e j (ground (arith, f, i, laws.member-numbers d j)) (ground (arith, k))) in
            ground (arith, e, f, k, add_new-numbered m s.id (bitmaps.numbers d) b all)
        | inr (x, k) ↦
            let since = bitmaps.and_not d x in
            let all : All (HasNumber m s.id) (bitmaps.numbers since) =
              All-member (HasNumber m s.id) (bitmaps.numbers since) (λ j i.
                h t e j
                  (ground (arith, f, i, laws.member-numbers since j, laws.contains_and_not d x j))
                  (ground
                    (arith, k, i, laws.member-numbers since j, laws.contains_and_not d x j))) in
            ground (arith, e, f, k, add_new-numbered m s.id (bitmaps.numbers since) b all)
      ]
    ]
  ]

  lookup-of_removed :
      (x id : ℕ) (old : List (ℕ × Option (SegmentSnapshot G B))) (a : Option (SegmentSnapshot G B))
      → lookup x (remove id old) ≡ some a
      → lookup x old ≡ some a
  lookup-of_removed x id old a h = elim (Bool-cases (x == id)) [
    | inl b ↦
        let same : id ≡ x = ground (arith, b) in
        let gone : lookup x (remove id old) ≡ none =
          subst (λ i. lookup x (remove i old) ≡ none) (sym same)
            (lookup-removed bitmaps segments laws x old) in
        absurd (ground (arith, gone, h))
    | inr b ↦ sym (lookup-remove bitmaps segments laws x id old b) ∙ h
  ]

  IsNumbered-removed :
      (m : Merge G B) (id : ℕ) (ss : List (SegmentSnapshot G B))
      → All (IsNumbered m) ss
      → All (IsNumbered (removed bitmaps segments laws id m)) ss
  IsNumbered-removed m id [] h = tt
  IsNumbered-removed m id (s ∷ ss) h =
      ((λ t e. h.0 t (lookup-of_removed s.id id m.old (some t) e)), IsNumbered-removed m id ss h.1)

  pub merge_loop-numbered :
      (m : Merge G B) (running : ℕ) (b : B) (ss : List (SegmentSnapshot G B))
      → All (IsNumbered m) ss
      → merge_loop bitmaps segments m running b ss
        ≡ some (merged_loop bitmaps segments m running b ss)
  unfolding merge_loop merged_loop
  merge_loop-numbered m running b [] h = refl
  merge_loop-numbered m running b (s ∷ ss) h =
      let now = process_segment_now-numbered m s b h.0 in
      let a = processed_now-Away bitmaps segments laws m s b in
      elim (Bool-cases (is_away bitmaps segments laws m s)) [
        | inl w ↦ ground (
          arith,
          now,
          a.result,
          w,
          merge_loop-numbered (removed bitmaps segments laws s.id m) running a.bits ss
              (IsNumbered-removed m s.id ss h.1),
        )
        | inr w ↦ elim (Bool-cases (is_live bitmaps segments s)) [
          | inl v ↦ ground (
            arith,
            now,
            a.result,
            w,
            v,
            merge_loop-numbered m (running + segments.count s.segment) a.bits ss h.1,
          )
          | inr v ↦ ground (arith, now, a.result, w, v, merge_loop-numbered m running a.bits ss h.1)
        ]
      ]

  pub obsolete_old-numbered :
      (m : Merge G B) (old : List (ℕ × Option (SegmentSnapshot G B))) (b : B)
      → AllSome bitmaps segments laws old
      → All (IsOldNumbered m) old
      → obsolete_old bitmaps segments m old b ≡ cleared_old bitmaps segments m old b
  unfolding obsolete_old cleared_old
  obsolete_old-numbered m [] b k h = refl
  obsolete_old-numbered m (x ∷ rest) b ((t, e), k) h =
      let live = doc_numbers_live bitmaps segments t in
      let all : All (HasNumber m x.0) (bitmaps.numbers live) =
        All-member (HasNumber m x.0) (bitmaps.numbers live) (λ j i.
          let in_live =
            laws.member-numbers live j ∙ contains-doc_numbers_live bitmaps segments laws t j in
          h.0 t e j (ground (arith, i, in_live)) (ground (arith, i, in_live))) in
      let b' = add_numbers bitmaps segments m x.0 (bitmaps.numbers live) b in
      ground (
        arith,
        e,
        add_new-numbered m x.0 (bitmaps.numbers live) b all,
        obsolete_old-numbered m rest b' k h.1,
      )
