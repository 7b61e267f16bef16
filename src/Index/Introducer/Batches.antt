-- ===== src/Index/Introducer/Batches.antt =====
-- The documents that are live after the introduction of a batch.
use bluge.Base.{
  ℕ, ◌+◌, ◌<◌, ◌^◌, ◌≡◌, refl, ap, ◌∙◌, sym, subst, true, List, [], ◌∷◌, ◌++◌, Option, none, some,
  Result, ok, err, arith, Option-cases, Result-cases, inl, inr, All, append_assoc, append-nil,
}
use bluge.Index.Segments.{Bitmaps, BitmapLaws, Segments, SegmentSnapshot, IsBounded}
use bluge.Index.Segments.Live.{select, view}
use bluge.Index.Introducer.{Snapshot, Introduction, obsolete_loop, introduce_segment}
use bluge.Index.Introducer.Views.{
  sum_counts, IsOffsets, IsWellFormed, IsInRange, Fails, surviving, view_all, IsObsoleted,
  obsolete_loop-IsObsoleted,
}

module _ {G B T E : Type 0} (bitmaps : Bitmaps B) (segments : Segments G B T E) where
  pub IsOffsets-append :
      (running : ℕ) (ss : List (SegmentSnapshot G B)) (os : List ℕ) (s : SegmentSnapshot G B)
      → IsOffsets bitmaps segments running ss os
      → IsOffsets bitmaps segments running
          (ss ++ s ∷ [])
          (os ++ (running + sum_counts bitmaps segments ss) ∷ [])
  IsOffsets-append running [] [] s h = (omega arith, tt)
  IsOffsets-append running [] (o ∷ os) s h = absurd h
  IsOffsets-append running (x ∷ ss) [] s h = absurd h
  IsOffsets-append running (x ∷ ss) (o ∷ os) s h =
      let n = segments.count x.segment in
      (
        h.0,
        subst (λ i. IsOffsets bitmaps segments (running + n) (ss ++ s ∷ []) (os ++ i ∷ []))
            (omega arith) (IsOffsets-append (running + n) ss os s h.1),
      )

  pub All-append {ℓ} :
      {A : Type 0} (p : A → Type ℓ) (xs ys : List A) → All p xs → All p ys → All p (xs ++ ys)
  All-append p [] ys h k = k
  All-append p (x ∷ xs) ys h k = (h.0, All-append p xs ys h.1 k)

module _ {G B T E D : Type 0} (bitmaps : Bitmaps B) (segments : Segments G B T E)
    (laws : BitmapLaws bitmaps) (doc : G → ℕ → D) where
  pub view_all-append :
      (ss ts : List (SegmentSnapshot G B))
      → view_all bitmaps segments laws doc (ss ++ ts)
        ≡ view_all bitmaps segments laws doc ss ++ view_all bitmaps segments laws doc ts
  view_all-append [] ts = refl
  view_all-append (s ∷ ss) ts =
      ap (λ l. view bitmaps segments laws doc s ++ l) (view_all-append ss ts)
      ∙ sym (
          append_assoc (view bitmaps segments laws doc s) (view_all bitmaps segments laws doc ss)
            (view_all bitmaps segments laws doc ts))

  -- The documents of a new segment, none of which is deleted.
  abbrev pub fresh : Option G → List D
  fresh none = []
  fresh (some g) = select (segments.count g) (λ j. true) (doc g)

  abbrev pub IsSized : Option G → Type 0
  IsSized none = Unit
  IsSized (some g) = segments.count g < 2 ^ 63

  -- A batch fails as the first search for terms that fails, and otherwise leaves the surviving
  -- documents and adds its own.
  abbrev pub IsIntroduced : Introduction G B T → ℕ → Snapshot G B → Result E (Snapshot G B) → Type 0
  IsIntroduced next epoch root (err e) = Fails bitmaps segments next e root.segments
  IsIntroduced next epoch root (ok new) =
      (new.epoch ≡ epoch)
      × IsWellFormed bitmaps segments new
      × (view_all bitmaps segments laws doc new.segments
          ≡ surviving bitmaps segments next doc root.segments ++ fresh next.segment_data)

  -- The new segment behind what the loop left.
  appended :
      (next : Introduction G B T) (epoch : ℕ) (root : Snapshot G B) (g : G)
      (ss : List (SegmentSnapshot G B)) (os : List ℕ) (total : ℕ)
      → IsObsoleted bitmaps segments laws doc next 0 root.segments (ok (ss, os, total))
      → segments.count g < 2 ^ 63
      → (IsWellFormed bitmaps segments (record {
        epoch = epoch;
        segments = ss ++ record { id = next.id; segment = g; deleted = none } ∷ [];
        offsets = os ++ total ∷ [];
      }))
        × (view_all bitmaps segments laws doc
              (ss ++ record { id = next.id; segment = g; deleted = none } ∷ [])
            ≡ surviving bitmaps segments next doc root.segments ++ fresh (some g))
  appended next epoch root g ss os total o z =
      let s : SegmentSnapshot G B = record { id = next.id; segment = g; deleted = none } in
      (
        record {
          bounded =
              All-append bitmaps segments (IsBounded bitmaps segments) ss (s ∷ []) o.3
                (record { deleted = λ j h. absurd (ground (arith, h)); size = z }, tt);
          offsets =
              subst (λ i. IsOffsets bitmaps segments 0 (ss ++ s ∷ []) (os ++ i ∷ []))
                (omega (arith, o.2)) (IsOffsets-append bitmaps segments 0 ss os s o.1);
        },
        view_all-append ss (s ∷ [])
            ∙ ground (arith, o.0, append-nil (select (segments.count g) (λ j. true) (doc g))),
      )

  -- If the root is well-formed, a batch makes only documents of a segment obsolete and its new
  -- segment has less than 2 ^ 63 documents, introduceSegment fails with the error of the first
  -- segment whose search for the terms fails, and otherwise the new root is well-formed with the
  -- given epoch, and its live documents are, in order, those of the root that are not obsolete and
  -- then all of the new segment.
  pub introduce_segment-IsIntroduced :
      (next : Introduction G B T) (epoch : ℕ) (root : Snapshot G B)
      → IsWellFormed bitmaps segments root
      → All (IsInRange bitmaps segments next) root.segments
      → IsSized next.segment_data
      → IsIntroduced next epoch root (introduce_segment bitmaps segments next epoch root)
  unfolding introduce_segment
  introduce_segment-IsIntroduced next epoch root w r z =
      let loop = obsolete_loop bitmaps segments next 0 root.segments in
      let all =
        obsolete_loop-IsObsoleted bitmaps segments laws doc next 0 root.segments w.bounded r in
      let result = introduce_segment bitmaps segments next epoch root in
      elim (Result-cases loop) [
        | inl (e, h) ↦
            let fails : err e ≡ result = ground (arith, h) in
            subst (IsIntroduced next epoch root) fails
              (subst (IsObsoleted bitmaps segments laws doc next 0 root.segments) h all)
        | inr ((ss, os, total), h) ↦
            let o = subst (IsObsoleted bitmaps segments laws doc next 0 root.segments) h all in
            elim (Option-cases next.segment_data) [
              | inl e ↦
                  let new : Snapshot G B = record { epoch = epoch; segments = ss; offsets = os } in
                  let same : ok new ≡ result = ground (arith, h, e) in
                  subst (IsIntroduced next epoch root) same (
                    refl,
                    record { bounded = o.3; offsets = o.1 },
                    o.0
                        ∙ ground (
                          arith,
                          e,
                          append-nil (surviving bitmaps segments next doc root.segments),
                        ),
                  )
              | inr (g, e) ↦
                  let new : Snapshot G B = record {
                    epoch = epoch;
                    segments = ss ++ record { id = next.id; segment = g; deleted = none } ∷ [];
                    offsets = os ++ total ∷ [];
                  } in
                  let same : ok new ≡ result = ground (arith, h, e) in
                  let (well, views) =
                    appended next epoch root g ss os total o (subst IsSized e z) in
                  subst (IsIntroduced next epoch root) same (
                    refl,
                    well,
                    views
                        ∙ ap (λ x. surviving bitmaps segments next doc root.segments ++ fresh x)
                            (sym e),
                  )
            ]
      ]
