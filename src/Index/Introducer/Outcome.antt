-- ===== src/Index/Introducer/Outcome.antt =====
-- What the introduction of a merge promises of the new root.
use bluge.Base.{
  ℕ, ◌≡◌, Bool, true, false, not, [], ◌∷◌, ◌++◌, Option, some, ltb, In, filterb, if◌then◌else◌,
}
use bluge.Index.Segments.{Bitmaps, BitmapLaws, Segments, SegmentSnapshot}
use bluge.Index.Introducer.{Snapshot, Merge}
use bluge.Index.Segments.Live.{lives}
use bluge.Index.Introducer.Views.{IsWellFormed}
use bluge.Index.Introducer.Merges.{new_number}
use bluge.Index.Introducer.Leftovers.{Seen}
use bluge.Index.Introducer.Merged.{is_other, IsLiveIn}

module _ {G B T E D : Type 0} (bitmaps : Bitmaps B) (segments : Segments G B T E)
    (laws : BitmapLaws bitmaps) (doc : G → ℕ → D) where
  -- The root after the merge `m` to the segment `g`.
  pub record IsMerged (m : Merge G B) (g : G) (epoch : ℕ) (root : Snapshot G B)
      (r : Option (Snapshot G B × Bool)) : Type 0 where
    pub new : Snapshot G B
    pub skipped : Bool
    pub returns : r ≡ some (new, skipped)
    pub dated : new.epoch ≡ epoch
    pub well : IsWellFormed bitmaps segments new
    -- What is marked in the new segment.
    pub deleted : B
    -- The segments that are not of the merge, in order, and the new one at the end.
    pub segments_are :
        new.segments
        ≡ filterb (is_other bitmaps segments laws doc m) root.segments
          ++ (if skipped
              then []
              else record { id = m.id; segment = g; deleted = some deleted } ∷ [])
    -- It is skipped if as many documents are marked in it as it has.
    pub skips : skipped ≡ not (ltb (bitmaps.cardinality deleted) (segments.count g))
    -- A document of the merge is unmarked exactly if it is live in its segment of the root.
    pub unmarked_if :
        (s : SegmentSnapshot G B) (j : ℕ)
        → In s root.segments
        → Seen bitmaps segments laws m.old s.id j
        → lives bitmaps segments laws s j ≡ true
        → bitmaps.contains deleted (new_number bitmaps segments laws m s.id j) ≡ false
    pub live_if :
        (id j : ℕ)
        → Seen bitmaps segments laws m.old id j
        → bitmaps.contains deleted (new_number bitmaps segments laws m id j) ≡ false
        → (s : SegmentSnapshot G B) × In s root.segments
          × ((s.id ≡ id) × (lives bitmaps segments laws s j ≡ true))
    pub kept :
        (d : D)
        → IsLiveIn bitmaps segments laws doc root.segments d
        → IsLiveIn bitmaps segments laws doc new.segments d
    pub none_new :
        (d : D)
        → IsLiveIn bitmaps segments laws doc new.segments d
        → IsLiveIn bitmaps segments laws doc root.segments d
