-- ===== src/Index/Introducer/Merged.antt =====
-- What a merge is of: the segments it saw, and the numbers of their documents in the new one.
use bluge.Base.{
  ℕ, ◌<◌, ◌^◌, ◌≡◌, Bool, true, false, not, ◌&&◌, ◌||◌, ◌==◌, List, [], ◌∷◌, Option, none, some,
  All, In,
}
use bluge.Index.Segments.{Bitmaps, BitmapLaws, Segments, SegmentSnapshot, is_live, is_deleted}
use bluge.Index.Introducer.{Snapshot, Merge, lookup}
use bluge.Index.Segments.Live.{lives}
use bluge.Index.Introducer.Merges.{new_number, AreUnique}
use bluge.Index.Introducer.Loops.{remaining}
use bluge.Index.Introducer.Leftovers.{Seen, AreKeysUnique, AllSome}
use bluge.Index.Introducer.Numbers.{HasNumber}

module _ {G B T E D : Type 0} (bitmaps : Bitmaps B) (segments : Segments G B T E)
    (laws : BitmapLaws bitmaps) (doc : G → ℕ → D) where
  -- The document is live in one of the segments.
  abbrev pub IsLiveIn : List (SegmentSnapshot G B) → D → Type 0
  IsLiveIn ss d =
      (s : SegmentSnapshot G B) × In s ss
      × ((j : ℕ) × (j < segments.count s.segment)
          × (lives bitmaps segments laws s j ≡ true)
          × (doc s.segment j ≡ d))

  -- What the merge saw of a segment of the root: the same segment, with less deleted in it, or nil
  -- for one without live documents.
  abbrev pub IsSeenAs : Option (Option (SegmentSnapshot G B)) → SegmentSnapshot G B → Type 0
  IsSeenAs none s = Unit
  IsSeenAs (some none) s = is_live bitmaps segments s ≡ false
  IsSeenAs (some (some t)) s =
      (s.segment ≡ t.segment)
      × ((j : ℕ) → is_deleted bitmaps t.deleted j ≡ true → is_deleted bitmaps s.deleted j ≡ true)

  -- The merge has a segment of this identifier.
  abbrev pub has_key : ℕ → List (ℕ × Option (SegmentSnapshot G B)) → Bool
  has_key id [] = false
  has_key id (x ∷ xs) = x.0 == id || has_key id xs

  -- A segment with live documents that is not one of the merge.
  abbrev pub is_other : Merge G B → SegmentSnapshot G B → Bool
  is_other m s = not (has_key s.id m.old) && is_live bitmaps segments s

  -- The merge `m` made the segment `g` of segments that the root has, or had.
  pub record IsMergeOf (m : Merge G B) (root : Snapshot G B) (g : G) : Type 0 where
    pub new : m.new ≡ some g
    pub size : segments.count g < 2 ^ 63
    pub unique : AreUnique bitmaps segments laws root.segments
    pub keys : AreKeysUnique bitmaps segments laws m.old
    pub seen : All (λ s. IsSeenAs (lookup s.id m.old) s) root.segments
    pub known : AllSome bitmaps segments laws (remaining bitmaps segments laws root.segments m.old)
    pub numbered :
        (id j : ℕ) → Seen bitmaps segments laws m.old id j → HasNumber bitmaps segments laws m id j
    pub below :
        (id j : ℕ)
        → Seen bitmaps segments laws m.old id j
        → new_number bitmaps segments laws m id j < segments.count g
    pub copies :
        (id j : ℕ) (x : Seen bitmaps segments laws m.old id j)
        → doc g (new_number bitmaps segments laws m id j) ≡ doc x.0.segment j
    pub apart :
        (id j id' j' : ℕ)
        → Seen bitmaps segments laws m.old id j
        → Seen bitmaps segments laws m.old id' j'
        → new_number bitmaps segments laws m id j ≡ new_number bitmaps segments laws m id' j'
        → (id ≡ id') × (j ≡ j')
    pub every :
        (n : ℕ)
        → n < segments.count g
        → (id : ℕ) × (j : ℕ) × Seen bitmaps segments laws m.old id j
          × (n ≡ new_number bitmaps segments laws m id j)
