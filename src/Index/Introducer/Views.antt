-- ===== src/Index/Introducer/Views.antt =====
-- The loop of introduceSegment leaves the documents that are neither deleted nor obsolete.
use bluge.Base.{
  ℕ, ◌+◌, ◌<◌, ◌≡◌, refl, ◌∙◌, sym, subst, Bool, true, false, not, ◌||◌, ◌⊎◌, List, [], ◌∷◌, ◌++◌,
  Result, ok, err, ◌>>=◌, arith, Bool-cases, Option-cases, Result-cases, inl, inr, All,
}
use bluge.Index.Segments.{
  Bitmaps, BitmapLaws, Segments, SegmentSnapshot, is_live, is_deleted, IsBounded,
}
use bluge.Index.Segments.Live.{select, select_same, view, view_dropped, lives}
use bluge.Index.Introducer.{Snapshot, Introduction, delta, obsoleted, obsolete_loop}

module _ {G B T E : Type 0} (bitmaps : Bitmaps B) (segments : Segments G B T E) where
  abbrev pub sum_counts : List (SegmentSnapshot G B) → ℕ
  sum_counts [] = 0
  sum_counts (s ∷ rest) = segments.count s.segment + sum_counts rest

  -- The offsets are the running sums of the counts.
  abbrev pub IsOffsets : ℕ → List (SegmentSnapshot G B) → List ℕ → Type 0
  IsOffsets running [] [] = Unit
  IsOffsets running [] (o ∷ os) = ⊥
  IsOffsets running (s ∷ ss) [] = ⊥
  IsOffsets running (s ∷ ss) (o ∷ os) =
      (o ≡ running) × IsOffsets (running + segments.count s.segment) ss os

  pub record IsWellFormed (root : Snapshot G B) : Type 0 where
    pub bounded : All (IsBounded bitmaps segments) root.segments
    pub offsets : IsOffsets 0 root.segments root.offsets

  module _ (next : Introduction G B T) where
    -- Whether the batch makes the document obsolete.
    abbrev pub is_obsolete : SegmentSnapshot G B → ℕ → Bool
    is_obsolete s j = elim (delta bitmaps segments next s) [
      | err e ↦ false
      | ok d ↦ bitmaps.contains d j
    ]

    -- What a batch makes obsolete are documents of the segment.
    abbrev pub IsInRange : SegmentSnapshot G B → Type 0
    IsInRange s = (j : ℕ) → is_obsolete s j ≡ true → j < segments.count s.segment

    -- The first segment whose search for the terms fails, fails with the error.
    abbrev pub Fails : E → List (SegmentSnapshot G B) → Type 0
    Fails e [] = ⊥
    Fails e (s ∷ rest) =
        (delta bitmaps segments next s ≡ err e)
        ⊎ ((d : B) × (delta bitmaps segments next s ≡ ok d) × Fails e rest)

    -- The documents that are neither deleted nor obsolete.
    abbrev pub surviving : {D : Type 0} → (G → ℕ → D) → List (SegmentSnapshot G B) → List D
    surviving doc [] = []
    surviving doc (s ∷ rest) =
        select (segments.count s.segment)
          (λ j. not (is_deleted bitmaps s.deleted j || is_obsolete s j)) (doc s.segment)
        ++ surviving doc rest

module _ {G B T E D : Type 0} (bitmaps : Bitmaps B) (segments : Segments G B T E)
    (laws : BitmapLaws bitmaps) (doc : G → ℕ → D) where
  -- The live documents of a snapshot, in order.
  abbrev pub view_all : List (SegmentSnapshot G B) → List D
  view_all [] = []
  view_all (s ∷ rest) = view bitmaps segments laws doc s ++ view_all rest

  module _ (next : Introduction G B T) where
    -- What the loop over the segments of the root ends with.
    abbrev pub IsObsoleted :
        ℕ → List (SegmentSnapshot G B) → Result E (List (SegmentSnapshot G B) × List ℕ × ℕ) → Type 0
    IsObsoleted running ss (err e) = Fails bitmaps segments next e ss
    IsObsoleted running ss (ok (after, offsets, total)) =
        (view_all after ≡ surviving bitmaps segments next doc ss)
        × IsOffsets bitmaps segments running after offsets
        × (total ≡ running + sum_counts bitmaps segments after)
        × All (IsBounded bitmaps segments) after

    obsoleted_deleted :
        (s : SegmentSnapshot G B) (d : B) (j : ℕ)
        → is_deleted bitmaps (obsoleted bitmaps segments s d).deleted j
          ≡ (is_deleted bitmaps s.deleted j || bitmaps.contains d j)
    obsoleted_deleted s d j = elim (Option-cases s.deleted) [
      | inl e ↦ elim (Bool-cases (bitmaps.is_empty d)) [
        | inl b ↦ ground (arith, e, b, laws.is_empty_lem d j b)
        | inr b ↦ ground (arith, e, b)
      ]
      | inr (k, e) ↦
          let o = laws.contains_or k d j in
          elim (Bool-cases (bitmaps.is_empty (bitmaps.or k d))) [
            | inl b ↦ ground (arith, e, b, o, laws.is_empty_lem (bitmaps.or k d) j b)
            | inr b ↦ ground (arith, e, b, o)
          ]
    ]

    -- The segment with the new obsoletions has the surviving documents.
    view-obsoleted :
        (s : SegmentSnapshot G B) (d : B)
        → delta bitmaps segments next s ≡ ok d
        → view bitmaps segments laws doc (obsoleted bitmaps segments s d)
          ≡ select
              (segments.count s.segment)
              (λ j. not (is_deleted bitmaps s.deleted j || is_obsolete bitmaps segments next s j))
              (doc s.segment)
    view-obsoleted s d e =
        select_same (segments.count s.segment)
          (lives bitmaps segments laws (obsoleted bitmaps segments s d))
          (λ j. not (is_deleted bitmaps s.deleted j || is_obsolete bitmaps segments next s j))
          (doc s.segment) (λ j l. ground (arith, e, obsoleted_deleted s d j))

    IsBounded-obsoleted :
        (s : SegmentSnapshot G B) (d : B)
        → delta bitmaps segments next s ≡ ok d
        → IsInRange bitmaps segments next s
        → IsBounded bitmaps segments s
        → IsBounded bitmaps segments (obsoleted bitmaps segments s d)
    IsBounded-obsoleted s d e range b = record {
      deleted = λ j h. elim (Bool-cases (bitmaps.contains d j)) [
        | inl c ↦ range j (ground (arith, e, c))
        | inr c ↦ b.deleted j (ground (arith, h, c, obsoleted_deleted s d j))
      ];
      size = b.size;
    }

    module _ (running : ℕ) (s : SegmentSnapshot G B) (rest : List (SegmentSnapshot G B)) (d : B)
        (h : delta bitmaps segments next s ≡ ok d)
        (b : IsBounded bitmaps segments (obsoleted bitmaps segments s d)) where
      -- A segment with live documents goes in front.
      kept :
          (r : Result E (List (SegmentSnapshot G B) × List ℕ × ℕ))
          → IsObsoleted (running + segments.count s.segment) rest r
          → IsObsoleted running (s ∷ rest) (
              r >>= λ (ss, os, total).
              ok (obsoleted bitmaps segments s d ∷ ss, running ∷ os, total))
      kept (err e) o = inr (d, h, o)
      kept (ok (ss, os, total)) o =
          (ground (arith, view-obsoleted s d h, o.0), (refl, o.1), omega (arith, o.2), (b, o.3))

      -- A segment without live documents is dropped.
      dropped :
          (r : Result E (List (SegmentSnapshot G B) × List ℕ × ℕ))
          → is_live bitmaps segments (obsoleted bitmaps segments s d) ≡ false
          → IsObsoleted running rest r
          → IsObsoleted running (s ∷ rest) r
      dropped (err e) l o = inr (d, h, o)
      dropped (ok (ss, os, total)) l o =
          let gone = view_dropped bitmaps segments laws doc (obsoleted bitmaps segments s d) b l in
          (ground (arith, sym (view-obsoleted s d h) ∙ gone, o.0), o.1, o.2, o.3)

    pub obsolete_loop-IsObsoleted :
        (running : ℕ) (ss : List (SegmentSnapshot G B))
        → All (IsBounded bitmaps segments) ss
        → All (IsInRange bitmaps segments next) ss
        → IsObsoleted running ss (obsolete_loop bitmaps segments next running ss)
    unfolding obsolete_loop
    obsolete_loop-IsObsoleted running [] b r = (refl, tt, omega arith, tt)
    obsolete_loop-IsObsoleted running (s ∷ rest) b r =
        elim (Result-cases (delta bitmaps segments next s)) [
          | inl (e, h) ↦
              let fails : err e ≡ obsolete_loop bitmaps segments next running (s ∷ rest) =
                ground (arith, h) in
              subst (IsObsoleted running (s ∷ rest)) fails (inl h)
          | inr (d, h) ↦
              let b' = IsBounded-obsoleted s d h r.0 b.0 in
              elim (Bool-cases (is_live bitmaps segments (obsoleted bitmaps segments s d))) [
                | inl l ↦ subst (IsObsoleted running (s ∷ rest)) (ground (arith, h, l)) (
                    kept running s rest d h b'
                      (obsolete_loop bitmaps segments next (running + segments.count s.segment)
                        rest)
                      (obsolete_loop-IsObsoleted (running + segments.count s.segment) rest b.1 r.1))
                | inr l ↦ subst (IsObsoleted running (s ∷ rest)) (ground (arith, h, l)) (
                    dropped running s rest d h b' (obsolete_loop bitmaps segments next running rest)
                      l (obsolete_loop-IsObsoleted running rest b.1 r.1))
              ]
        ]
