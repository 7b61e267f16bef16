-- ===== src/Index/Introducer/Loops.antt =====
-- The loop of introduceMerge over the segments of the root.
use bluge.Base.{
  ℕ, ◌+◌, ◌≡◌, refl, sym, subst, true, false, not, ◌&&◌, ◌⊎◌, List, [], ◌∷◌, none, if◌then◌else◌,
  arith, Bool-cases, Option-cases, inl, inr,
}
use bluge.Index.Segments.{Bitmaps, BitmapLaws, Segments, SegmentSnapshot, is_live}
use bluge.Index.Introducer.{Merge, lookup, remove}
use bluge.Index.Introducer.Unchecked.{processed_now, merged_loop}
use bluge.Index.Introducer.Views.{sum_counts, IsOffsets}
use bluge.Index.Introducer.Merges.{
  removed, Dead, is_away, Away, processed_now-Away, lookup-remove, IsFresh, AreUnique, Reason,
  Reason-removed, removed-Reason,
}

module _ {G B T E : Type 0} (bitmaps : Bitmaps B) (segments : Segments G B T E)
    (laws : BitmapLaws bitmaps) where
  -- The segments that the merge does not know and that have live documents.
  abbrev pub staying : Merge G B → List (SegmentSnapshot G B) → List (SegmentSnapshot G B)
  staying m [] = []
  staying m (s ∷ ss) =
      let rest = staying m ss in
      if not (is_away bitmaps segments laws m s) && is_live bitmaps segments s
      then s ∷ rest
      else rest

  -- What the merge knows beside the segments.
  abbrev pub remaining : {A : Type 0} → List (SegmentSnapshot G B) → List (ℕ × A) → List (ℕ × A)
  remaining [] old = old
  remaining (s ∷ ss) old = remaining ss (remove s.id old)

  staying-removed :
      (m : Merge G B) (id : ℕ) (ss : List (SegmentSnapshot G B))
      → IsFresh bitmaps segments laws id ss
      → staying (removed bitmaps segments laws id m) ss ≡ staying m ss
  staying-removed m id [] h = refl
  staying-removed m id (s ∷ ss) h =
      ground
        (arith, lookup-remove bitmaps segments laws s.id id m.old h.0, staying-removed m id ss h.1)

  remove-none :
      {A : Type 0} (id : ℕ) (old : List (ℕ × A)) → lookup id old ≡ none → remove id old ≡ old
  remove-none id [] e = refl
  remove-none id (o ∷ old) e = ground (arith, e, remove-none id old)

  pub record Looped (m : Merge G B) (running : ℕ) (b : B) (ss : List (SegmentSnapshot G B))
      (r : List (SegmentSnapshot G B) × List ℕ × ℕ × Merge G B × B) : Type 0 where
    pub offsets : List ℕ
    pub bits : B
    pub result : r ≡ (
      staying m ss,
      offsets,
      running + sum_counts bitmaps segments (staying m ss),
      record m { old = remaining ss m.old },
      bits,
    )
    pub sums : IsOffsets bitmaps segments running (staying m ss) offsets
    pub grows : (n : ℕ) → bitmaps.contains b n ≡ true → bitmaps.contains bits n ≡ true
    pub adds : (n : ℕ) → Reason bitmaps segments laws m ss n → bitmaps.contains bits n ≡ true
    pub sound :
        (n : ℕ)
        → bitmaps.contains bits n ≡ true
        → (bitmaps.contains b n ≡ true) ⊎ Reason bitmaps segments laws m ss n

  module _ (m : Merge G B) (running : ℕ) (b : B) (s : SegmentSnapshot G B)
      (ss : List (SegmentSnapshot G B)) (fresh : IsFresh bitmaps segments laws s.id ss) where
    gone :
        is_away bitmaps segments laws m s ≡ true
        → (a : Away bitmaps segments laws m s b (processed_now bitmaps segments m s b))
        → Looped
            (removed bitmaps segments laws s.id m)
            running
            a.bits
            ss
            (merged_loop bitmaps segments (removed bitmaps segments laws s.id m) running a.bits ss)
        → Looped m running b (s ∷ ss) (merged_loop bitmaps segments m running b (s ∷ ss))
    unfolding merged_loop
    gone w a l =
        let same = staying-removed m s.id ss fresh in
        let p = a.processed in
        record {
          offsets = l.offsets;
          bits = l.bits;
          result = ground (arith, a.result, w, l.result, same);
          sums =
              ground
                (arith, w, subst (λ x. IsOffsets bitmaps segments running x l.offsets) same l.sums);
          grows = λ n h. l.grows n (p.grows n h);
          adds = λ n r. elim r [
            | inl d ↦ l.grows n (p.adds n d)
            | inr x ↦ l.adds n (removed-Reason bitmaps segments laws m s.id ss n fresh x)
          ];
          sound = λ n h. elim (l.sound n h) [
            | inl k ↦ elim (p.sound n k) [ inl x ↦ inl x | inr d ↦ inr (inl d) ]
            | inr x ↦ inr (inr (Reason-removed bitmaps segments laws m s.id ss n fresh x))
          ];
        }

    -- A segment that the merge does not know gives no reason.
    unknown :
        (n : ℕ) → is_away bitmaps segments laws m s ≡ false → Dead bitmaps segments laws m s n → ⊥
    unknown n w (t, e, d) = ground (arith, w, e)

    not_known : is_away bitmaps segments laws m s ≡ false → lookup s.id m.old ≡ none
    not_known w = elim (Option-cases (lookup s.id m.old)) [
      | inl e ↦ e
      | inr (t, e) ↦ absurd (ground (arith, w, e))
    ]

    idle :
        is_away bitmaps segments laws m s ≡ false
        → is_live bitmaps segments s ≡ false
        → (a : Away bitmaps segments laws m s b (processed_now bitmaps segments m s b))
        → Looped m running a.bits ss (merged_loop bitmaps segments m running a.bits ss)
        → Looped m running b (s ∷ ss) (merged_loop bitmaps segments m running b (s ∷ ss))
    unfolding merged_loop
    idle w v a l =
        let same = remove-none s.id m.old (not_known w) in
        let p = a.processed in
        record {
          offsets = l.offsets;
          bits = l.bits;
          result = ground (arith, a.result, w, v, l.result, same);
          sums = ground (arith, w, v, l.sums);
          grows = λ n h. l.grows n (p.grows n h);
          adds = λ n r. elim r [ inl d ↦ absurd (unknown n w d) | inr x ↦ l.adds n x ];
          sound = λ n h. elim (l.sound n h) [
            | inl k ↦ elim (p.sound n k) [ inl x ↦ inl x | inr d ↦ inr (inl d) ]
            | inr x ↦ inr (inr x)
          ];
        }

    stay :
        is_away bitmaps segments laws m s ≡ false
        → is_live bitmaps segments s ≡ true
        → (a : Away bitmaps segments laws m s b (processed_now bitmaps segments m s b))
        → Looped m
            (running + segments.count s.segment)
            a.bits
            ss
            (merged_loop bitmaps segments m (running + segments.count s.segment) a.bits ss)
        → Looped m running b (s ∷ ss) (merged_loop bitmaps segments m running b (s ∷ ss))
    unfolding merged_loop
    stay w v a l =
        let same = remove-none s.id m.old (not_known w) in
        let p = a.processed in
        let here : staying m (s ∷ ss) ≡ s ∷ staying m ss = ground (arith, w, v) in
        record {
          offsets = running ∷ l.offsets;
          bits = l.bits;
          result = ground (arith, a.result, w, v, l.result, same);
          sums =
              subst (λ x. IsOffsets bitmaps segments running x (running ∷ l.offsets)) (sym here)
                (refl, l.sums);
          grows = λ n h. l.grows n (p.grows n h);
          adds = λ n r. elim r [ inl d ↦ absurd (unknown n w d) | inr x ↦ l.adds n x ];
          sound = λ n h. elim (l.sound n h) [
            | inl k ↦ elim (p.sound n k) [ inl x ↦ inl x | inr d ↦ inr (inl d) ]
            | inr x ↦ inr (inr x)
          ];
        }

  pub merged_loop-Looped :
      (m : Merge G B) (running : ℕ) (b : B) (ss : List (SegmentSnapshot G B))
      → AreUnique bitmaps segments laws ss
      → Looped m running b ss (merged_loop bitmaps segments m running b ss)
  unfolding merged_loop
  merged_loop-Looped m running b [] u = record {
    offsets = [];
    bits = b;
    result = ground arith;
    sums = tt;
    grows = λ n h. h;
    adds = λ n r. absurd r;
    sound = λ n h. inl h;
  }
  merged_loop-Looped m running b (s ∷ ss) u =
      let a = processed_now-Away bitmaps segments laws m s b in
      elim (Bool-cases (is_away bitmaps segments laws m s)) [
        | inl w ↦
            gone m running b s ss u.0 w a
              (merged_loop-Looped (removed bitmaps segments laws s.id m) running a.bits ss u.1)
        | inr w ↦ elim (Bool-cases (is_live bitmaps segments s)) [
          | inl v ↦
              stay m running b s ss u.0 w v a
                (merged_loop-Looped m (running + segments.count s.segment) a.bits ss u.1)
          | inr v ↦ idle m running b s ss u.0 w v a (merged_loop-Looped m running a.bits ss u.1)
        ]
      ]
