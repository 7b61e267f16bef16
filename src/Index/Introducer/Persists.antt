-- ===== src/Index/Introducer/Persists.antt =====
-- The documents that are live after the introduction of persisted segments.
use bluge.Base.{
  ℕ, zero, suc, ◌+◌, ◌<◌, ◌^◌, ◌≡◌, refl, ap, ◌∙◌, sym, subst, Bool, List, [], ◌∷◌, ◌++◌, Option,
  none, some, if◌then◌else◌, arith, Bool-cases, Option-cases, inl, inr, All, ◌==◌,
}
use bluge.Index.Segments.{Bitmaps, BitmapLaws, Segments, SegmentSnapshot, IsBounded}
use bluge.Index.Segments.Live.{select, view, lives}
use bluge.Index.Introducer.{Snapshot, persist_loop, introduce_persist}
use bluge.Index.Introducer.Views.{IsOffsets, IsWellFormed, view_all}

select_values :
    {D : Type 0} (n : ℕ) (p : ℕ → Bool) (f g : ℕ → D)
    → ((j : ℕ) → f j ≡ g j)
    → select n p f ≡ select n p g
select_values zero p f g h = refl
select_values (suc n) p f g h = ground (
  arith,
  h 0,
  select_values n (λ j. p (suc j)) (λ j. f (suc j)) (λ j. g (suc j)) (λ j. h (suc j)),
)

module _ {G B T E D : Type 0} (bitmaps : Bitmaps B) (segments : Segments G B T E)
    (laws : BitmapLaws bitmaps) (doc : G → ℕ → D) where
  -- The files that replace segments hold the same documents.
  abbrev pub IsReplacement : (ℕ → Option G) → SegmentSnapshot G B → Type 0
  IsReplacement persisted s =
      (g : G)
      → persisted s.id ≡ some g
      → (segments.count g ≡ segments.count s.segment) × ((j : ℕ) → doc g j ≡ doc s.segment j)

  restricted :
      (persisted : ℕ → Option G) (id : ℕ) (s : SegmentSnapshot G B)
      → IsReplacement persisted s
      → IsReplacement (λ x. if x == id then none else persisted x) s
  restricted persisted id s h g e = elim (Bool-cases (s.id == id)) [
    | inl b ↦ absurd (ground (arith, e, b))
    | inr b ↦ h g (ground (arith, e, b))
  ]

  restricted_all :
      (persisted : ℕ → Option G) (id : ℕ) (ss : List (SegmentSnapshot G B))
      → All (IsReplacement persisted) ss
      → All (IsReplacement (λ x. if x == id then none else persisted x)) ss
  restricted_all persisted id [] h = tt
  restricted_all persisted id (s ∷ ss) h =
      (restricted persisted id s h.0, restricted_all persisted id ss h.1)

  abbrev counts : List (SegmentSnapshot G B) → List ℕ
  counts [] = []
  counts (s ∷ ss) = segments.count s.segment ∷ counts ss

  -- Equal counts have equal offsets.
  IsOffsets-counts :
      (running : ℕ) (ss ts : List (SegmentSnapshot G B)) (os : List ℕ)
      → counts ts ≡ counts ss
      → IsOffsets bitmaps segments running ss os
      → IsOffsets bitmaps segments running ts os
  IsOffsets-counts running [] [] os c h = h
  IsOffsets-counts running [] (t ∷ ts) os c h = absurd (ground (arith, c))
  IsOffsets-counts running (s ∷ ss) [] os c h = absurd (ground (arith, c))
  IsOffsets-counts running (s ∷ ss) (t ∷ ts) [] c h = absurd h
  IsOffsets-counts running (s ∷ ss) (t ∷ ts) (o ∷ os) c h =
      let same : segments.count s.segment ≡ segments.count t.segment = ground (arith, c) in
      (
        h.0,
        IsOffsets-counts (running + segments.count t.segment) ss ts os (ground (arith, c))
            (subst (λ n. IsOffsets bitmaps segments (running + n) ss os) same h.1),
      )

  -- What the loop leaves as it is.
  record IsKept (before after : List (SegmentSnapshot G B)) : Type 0 where
    bounded : All (IsBounded bitmaps segments) after
    same_counts : counts after ≡ counts before
    views : view_all bitmaps segments laws doc after ≡ view_all bitmaps segments laws doc before

  view-replaced :
      (s : SegmentSnapshot G B) (g : G)
      → segments.count g ≡ segments.count s.segment
      → ((j : ℕ) → doc g j ≡ doc s.segment j)
      → view bitmaps segments laws doc (record s { segment = g }) ≡ view bitmaps segments laws doc s
  view-replaced s g c h =
      let p = lives bitmaps segments laws s in
      ap (λ n. select n p (doc g)) c
      ∙ select_values (segments.count s.segment) p (doc g) (doc s.segment) h

  persist_loop-IsKept :
      (persisted : ℕ → Option G) (ss : List (SegmentSnapshot G B))
      → All (IsBounded bitmaps segments) ss
      → All (IsReplacement persisted) ss
      → IsKept ss (persist_loop bitmaps segments persisted ss)
  unfolding persist_loop
  persist_loop-IsKept persisted [] b h = record { bounded = tt; same_counts = refl; views = refl }
  persist_loop-IsKept persisted (s ∷ rest) b h = elim (Option-cases (persisted s.id)) [
    | inl e ↦
        let ih = persist_loop-IsKept persisted rest b.1 h.1 in
        let after : List (SegmentSnapshot G B) = s ∷ persist_loop bitmaps segments persisted rest in
        subst (IsKept (s ∷ rest)) {x = after} (ground (arith, e)) (record {
          bounded = (b.0, ih.bounded);
          same_counts = ap (λ l. segments.count s.segment ∷ l) ih.same_counts;
          views = ap (λ l. view bitmaps segments laws doc s ++ l) ih.views;
        })
    | inr (g, e) ↦
        let others : ℕ → Option G = λ x. if x == s.id then none else persisted x in
        let ih = persist_loop-IsKept others rest b.1 (restricted_all persisted s.id rest h.1) in
        let (c, d) = h.0 g e in
        let after : List (SegmentSnapshot G B) =
          record s { segment = g } ∷ persist_loop bitmaps segments others rest in
        subst (IsKept (s ∷ rest)) {x = after} (ground (arith, e)) (record {
          bounded = (
            record {
              deleted = λ j k. subst (λ n. j < n) (sym c) (b.0.deleted j k);
              size = subst (λ n. n < 2 ^ 63) (sym c) b.0.size;
            },
            ih.bounded,
          );
          same_counts = ground (arith, c, ih.same_counts);
          views = ground (arith, view-replaced s g c d, ih.views);
        })
  ]

  -- If the root is well-formed and the files that replace segments hold the same documents,
  -- introducePersist keeps it well-formed and leaves the live documents, in order, as they are.
  pub introduce_persist-keeps :
      (persisted : ℕ → Option G) (epoch : ℕ) (root : Snapshot G B)
      → IsWellFormed bitmaps segments root
      → All (IsReplacement persisted) root.segments
      → IsWellFormed bitmaps segments (introduce_persist bitmaps segments persisted epoch root)
        × (view_all bitmaps segments laws doc
              (introduce_persist bitmaps segments persisted epoch root).segments
            ≡ view_all bitmaps segments laws doc root.segments)
  unfolding introduce_persist
  introduce_persist-keeps persisted epoch root w h =
      let k = persist_loop-IsKept persisted root.segments w.bounded h in
      (
        record {
          bounded = k.bounded;
          offsets =
              IsOffsets-counts 0 root.segments
                (persist_loop bitmaps segments persisted root.segments) root.offsets k.same_counts
                w.offsets;
        },
        k.views,
      )
