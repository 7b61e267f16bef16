-- ===== src/Index/Introducer/Merging.antt =====
-- The documents that are live after the introduction of a merge.
use bluge.Base.{
  ℕ, ◌+◌, ◌<◌, ◌≡◌, refl, ap, ◌∙◌, sym, subst, true, false, not, ◌&&◌, List, [], ◌∷◌, ◌++◌, none,
  some, ltb, arith, Bool-cases, Option-cases, inl, inr, All, append-nil,
}
use bluge.Base.{In, All-In, In-append_left, In-append_right, In-append}
use bluge.Index.Segments.{Bitmaps, BitmapLaws, Segments, SegmentSnapshot, is_live, IsBounded}
use bluge.Index.Introducer.{Snapshot, Merge, lookup, introduce_merge}
use bluge.Index.Segments.Live.{lives, lives_dropped}
use bluge.Index.Introducer.Views.{IsOffsets, IsWellFormed, sum_counts}
use bluge.Index.Introducer.Batches.{IsOffsets-append, All-append}
use bluge.Index.Introducer.Merges.{new_number, is_away}
use bluge.Index.Introducer.Loops.{staying, merged_loop-Looped}
use bluge.Index.Introducer.Leftovers.{Seen, cleared_old-Cleared, AreKeysUnique-remaining}
use bluge.Index.Introducer.Numbers.{merge_loop-numbered, obsolete_old-numbered}
use bluge.Index.Introducer.Merged.{IsLiveIn, IsMergeOf}
use bluge.Index.Introducer.Members.{staying-filterb, In-staying, staying-In}
use bluge.Index.Introducer.Keeps.{
  as_seen, Seen-live, left, merged, IsMarked, merged-IsBounded, live_at, live_before, unmarked,
  root-IsNumbered, left-IsOldNumbered, enough,
}
use bluge.Index.Introducer.Outcome.{IsMerged}

module _ {G B T E D : Type 0} (bitmaps : Bitmaps B) (segments : Segments G B T E)
    (laws : BitmapLaws bitmaps) (doc : G → ℕ → D) where
  All-staying :
      (m : Merge G B) (ss : List (SegmentSnapshot G B))
      → All (IsBounded bitmaps segments) ss
      → All (IsBounded bitmaps segments) (staying bitmaps segments laws m ss)
  All-staying m [] h = tt
  All-staying m (s ∷ ss) h =
      elim (Bool-cases (not (is_away bitmaps segments laws m s) && is_live bitmaps segments s)) [
        | inl b ↦
            subst (All (IsBounded bitmaps segments)) {x = s ∷ staying bitmaps segments laws m ss}
              (ground (arith, b)) (h.0, All-staying m ss h.1)
        | inr b ↦
            subst (All (IsBounded bitmaps segments)) {x = staying bitmaps segments laws m ss}
              (ground (arith, b)) (All-staying m ss h.1)
      ]

  module _ (m : Merge G B) (epoch : ℕ) (root : Snapshot G B) (g : G)
      (w : IsWellFormed bitmaps segments root)
      (h : IsMergeOf bitmaps segments laws doc m root g) where
    abbrev stays : List (SegmentSnapshot G B)
    stays = staying bitmaps segments laws m root.segments

    -- A live document of a segment that the merge does not know stays where it is.
    stays_live :
        (s : SegmentSnapshot G B) (j : ℕ)
        → In s root.segments
        → is_away bitmaps segments laws m s ≡ false
        → j < segments.count s.segment
        → lives bitmaps segments laws s j ≡ true
        → In s stays
    stays_live s j i a l v = elim (Bool-cases (is_live bitmaps segments s)) [
      | inl b ↦ staying-In bitmaps segments laws doc m s root.segments a b i
      | inr b ↦ absurd (
          ground (
            arith,
            v,
            lives_dropped bitmaps segments laws s j
                (All-In (IsBounded bitmaps segments) s root.segments w.bounded i) b l,
          ))
    ]

    -- A live document of a segment that goes away is unmarked in the new one.
    moves_live :
        (deleted : B) (s : SegmentSnapshot G B) (j : ℕ)
        → IsMarked bitmaps segments laws doc m root g w h deleted
        → In s root.segments
        → is_away bitmaps segments laws m s ≡ true
        → j < segments.count s.segment
        → lives bitmaps segments laws s j ≡ true
        → (n : ℕ) × (n < segments.count g)
          × (bitmaps.contains deleted n ≡ false)
          × (doc g n ≡ doc s.segment j)
    moves_live deleted s j k i a l v = elim (Option-cases (lookup s.id m.old)) [
      | inl e ↦ absurd (ground (arith, e, a))
      | inr (none, e) ↦ absurd (
          ground (
            arith,
            v,
            lives_dropped bitmaps segments laws s j
                (All-In (IsBounded bitmaps segments) s root.segments w.bounded i)
                (as_seen bitmaps segments laws doc m root g w h s (some none) i e) l,
          ))
      | inr (some t, e) ↦
          let seen = Seen-live bitmaps segments laws doc m root g w h s t j i e l v in
          let seen_as_t : seen.0 ≡ t = ground (arith, seen.1, e) in
          let same = (as_seen bitmaps segments laws doc m root g w h s (some (some t)) i e).0 in
          (
            new_number bitmaps segments laws m s.id j,
            h.below s.id j seen,
            unmarked bitmaps segments laws doc m root g w h deleted s t j k i e l v,
            h.copies s.id j seen
                ∙ ap (λ x. doc x.segment j) seen_as_t
                ∙ ap (λ x. doc x j) (sym same),
          )
    ]

    not_marked :
        (deleted : B) (s : SegmentSnapshot G B) (j : ℕ)
        → IsMarked bitmaps segments laws doc m root g w h deleted
        → In s root.segments
        → Seen bitmaps segments laws m.old s.id j
        → lives bitmaps segments laws s j ≡ true
        → bitmaps.contains deleted (new_number bitmaps segments laws m s.id j) ≡ false
    not_marked deleted s j k i (t, e, (l, d)) v =
        let same = (as_seen bitmaps segments laws doc m root g w h s (some (some t)) i e).0 in
        unmarked bitmaps segments laws doc m root g w h deleted s t j k i e
          (subst (λ x. j < segments.count x) (sym same) l) v

    module _ (deleted : B) (offsets : List ℕ)
        (k : IsMarked bitmaps segments laws doc m root g w h deleted)
        (sums : IsOffsets bitmaps segments 0 stays offsets) where
      -- The new segment goes to the end.
      appended : Snapshot G B
      appended = record {
        epoch = epoch;
        segments = stays ++ merged bitmaps segments laws doc m root g w h deleted ∷ [];
        offsets = offsets ++ (0 + sum_counts bitmaps segments stays) ∷ [];
      }

      IsMerged-appended :
          introduce_merge bitmaps segments m epoch root ≡ some (appended, false)
          → ltb (bitmaps.cardinality deleted) (segments.count g) ≡ true
          → IsMerged bitmaps segments laws doc m g epoch root
              (introduce_merge bitmaps segments m epoch root)
      unfolding appended
      IsMerged-appended e room =
          let x = merged bitmaps segments laws doc m root g w h deleted in
          record {
            new = appended;
            skipped = false;
            returns = e;
            dated = refl;
            well = record {
              bounded =
                  All-append bitmaps segments (IsBounded bitmaps segments) stays (x ∷ [])
                    (All-staying m root.segments w.bounded)
                    (merged-IsBounded bitmaps segments laws doc m root g w h deleted k, tt);
              offsets = IsOffsets-append bitmaps segments 0 stays offsets x sums;
            };
            deleted = deleted;
            segments_are =
                ap (λ l. l ++ (x ∷ [])) (staying-filterb bitmaps segments laws doc m root.segments);
            skips = ground (arith, room);
            unmarked_if = λ s j. not_marked deleted s j k;
            live_if = λ id j seen c.
                let (s, i, (same, _, alive)) =
                  live_at bitmaps segments laws doc m root g w h deleted id j k seen c in
                (s, i, (same, alive));
            kept = λ d (s, i, (j, l, v, z)). elim (Bool-cases (is_away bitmaps segments laws m s)) [
              | inr a ↦ (s, In-append_left s stays (x ∷ []) (stays_live s j i a l v), (j, l, v, z))
              | inl a ↦
                  let (n, below, clear, copy) = moves_live deleted s j k i a l v in
                  (
                    x,
                    In-append_right x stays (x ∷ []) (inl refl),
                    (n, below, ground (arith, clear), copy ∙ z),
                  )
            ];
            none_new = λ d (s, i, (j, l, v, z)). elim (In-append s stays (x ∷ []) i) [
              | inl old ↦
                  (s, In-staying bitmaps segments laws doc m s root.segments old, (j, l, v, z))
              | inr (inl same) ↦
                  let l' : j < segments.count g =
                    subst (λ y. j < segments.count y.segment) same l in
                  let v' : lives bitmaps segments laws x j ≡ true =
                    subst (λ y. lives bitmaps segments laws y j ≡ true) same v in
                  let z' : doc g j ≡ d = subst (λ y. doc y.segment j ≡ d) same z in
                  subst (IsLiveIn bitmaps segments laws doc root.segments) z' (
                    live_before bitmaps segments laws doc m root g w h deleted j k l'
                      (ground (arith, v')))
              | inr (inr nothing) ↦ absurd nothing
            ];
          }

      -- Nothing of the new segment is live, and it is skipped.
      IsMerged-skipped :
          introduce_merge bitmaps segments m epoch root
            ≡ some (record { epoch = epoch; segments = stays; offsets = offsets }, true)
          → ltb (bitmaps.cardinality deleted) (segments.count g) ≡ false
          → IsMerged bitmaps segments laws doc m g epoch root
              (introduce_merge bitmaps segments m epoch root)
      IsMerged-skipped e full = record {
        new = record { epoch = epoch; segments = stays; offsets = offsets };
        skipped = true;
        returns = e;
        dated = refl;
        well = record { bounded = All-staying m root.segments w.bounded; offsets = sums };
        deleted = deleted;
        segments_are =
            staying-filterb bitmaps segments laws doc m root.segments ∙ sym (append-nil _);
        skips = ground (arith, full);
        unmarked_if = λ s j. not_marked deleted s j k;
        live_if = λ id j seen c.
            let (s, i, (same, _, alive)) =
              live_at bitmaps segments laws doc m root g w h deleted id j k seen c in
            (s, i, (same, alive));
        kept = λ d (s, i, (j, l, v, z)). elim (Bool-cases (is_away bitmaps segments laws m s)) [
          | inr a ↦ (s, stays_live s j i a l v, (j, l, v, z))
          | inl a ↦
              let (n, below, clear, copy) = moves_live deleted s j k i a l v in
              absurd (
                ground (
                  arith,
                  full,
                  enough bitmaps segments laws doc m root g w h deleted n k below clear,
                ))
        ];
        none_new = λ d (s, i, (j, l, v, z)).
            (s, In-staying bitmaps segments laws doc m s root.segments i, (j, l, v, z));
      }

    -- If the root is well-formed, no two of its segments and no two of the merge share an
    -- identifier, the merge saw each segment of the root that it knows with no more deletions, or
    -- as nil if nothing in it is live, every segment that it saw as nil is still in the root, and
    -- the new segment has less than 2 ^ 63 documents, which are those that were live when the
    -- merge saw their segments, each under its own new number, which oldNewDocNums has, then
    -- introduceMerge does not panic on a nil snapshot or an index, and the new root is well-formed
    -- with the given epoch. Its segments are those of the root that have live documents and are
    -- not of the merge, in order, and then the new one, unless as many documents are marked in it
    -- as it has and it is skipped. A document of the merge is unmarked in the new one exactly if
    -- it is live in its segment of the root. A document is live in the new root exactly if it is
    -- live in the root.
    pub introduce_merge-IsMerged :
        IsMerged bitmaps segments laws doc m g epoch root
          (introduce_merge bitmaps segments m epoch root)
    unfolding introduce_merge appended
    introduce_merge-IsMerged =
        let loop =
          merged_loop-Looped bitmaps segments laws m 0 bitmaps.new_bitmap root.segments h.unique in
        let old = left bitmaps segments laws doc m root g w h in
        let m' : Merge G B = record m { old = old } in
        let looped =
          merge_loop-numbered bitmaps segments laws m 0 bitmaps.new_bitmap root.segments
            (root-IsNumbered bitmaps segments laws doc m root g w h) in
        let c =
          cleared_old-Cleared bitmaps segments laws m' old loop.bits h.known
            (AreKeysUnique-remaining bitmaps segments laws root.segments m.old h.keys) in
        let cleared =
          obsolete_old-numbered bitmaps segments laws m' old loop.bits h.known
            (left-IsOldNumbered bitmaps segments laws doc m root g w h) in
        let k : IsMarked bitmaps segments laws doc m root g w h c.bits = record {
          dead = λ n r. c.grows n (loop.adds n r);
          old = c.adds;
          only = λ n x. elim (c.sound n x) [
            | inr y ↦ inr y
            | inl y ↦ elim (loop.sound n y) [
              | inl z ↦ absurd (ground (arith, z, laws.contains_new n))
              | inr r ↦ inl r
            ]
          ];
        } in
        elim (Bool-cases (ltb (bitmaps.cardinality c.bits) (segments.count g))) [
          | inl b ↦
              IsMerged-appended c.bits loop.offsets k loop.sums
                (ground (arith, looped, cleared, loop.result, c.result, h.new, b)) b
          | inr b ↦
              IsMerged-skipped c.bits loop.offsets k loop.sums
                (ground (arith, looped, cleared, loop.result, c.result, h.new, b)) b
        ]
