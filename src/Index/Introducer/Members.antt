-- ===== src/Index/Introducer/Members.antt =====
-- The segments of the root that stay, that have an identifier, and that give a reason.
use bluge.Base.{
  ℕ, ◌≡◌, refl, ap, ◌∙◌, sym, subst, true, false, not, ◌&&◌, List, [], ◌∷◌, arith, Bool-cases, inl,
  inr, ◌==◌, Option, none, some, filterb,
}
use bluge.Base.{In}
use bluge.Index.Segments.{Bitmaps, BitmapLaws, Segments, SegmentSnapshot, is_live}
use bluge.Index.Introducer.{Merge, lookup}
use bluge.Index.Introducer.Merges.{is_away, AreUnique, IsFresh, Dead, Reason}
use bluge.Index.Introducer.Loops.{staying}
use bluge.Index.Introducer.Leftovers.{has_id}
use bluge.Index.Introducer.Merged.{has_key, is_other}

module _ {G B T E D : Type 0} (bitmaps : Bitmaps B) (segments : Segments G B T E)
    (laws : BitmapLaws bitmaps) (doc : G → ℕ → D) where
  pub In-staying :
      (m : Merge G B) (s : SegmentSnapshot G B) (ss : List (SegmentSnapshot G B))
      → In s (staying bitmaps segments laws m ss)
      → In s ss
  In-staying m s [] i = i
  In-staying m s (x ∷ ss) i =
      elim (Bool-cases (not (is_away bitmaps segments laws m x) && is_live bitmaps segments x)) [
        | inl b ↦
            let i' : In s (x ∷ staying bitmaps segments laws m ss) =
              subst (In s) {y = x ∷ staying bitmaps segments laws m ss} (ground (arith, b)) i in
            elim i' [ inl e ↦ inl e | inr k ↦ inr (In-staying m s ss k) ]
        | inr b ↦
            let i' : In s (staying bitmaps segments laws m ss) =
              subst (In s) {y = staying bitmaps segments laws m ss} (ground (arith, b)) i in
            inr (In-staying m s ss i')
      ]

  is_away-has_key :
      (id : ℕ) (old : List (ℕ × Option (SegmentSnapshot G B)))
      → elim (lookup id old) [ none ↦ false | some t ↦ true ]
        ≡ has_key bitmaps segments laws doc id old
  is_away-has_key id [] = refl
  is_away-has_key id (x ∷ old) = ground (arith, is_away-has_key id old)

  pub staying-filterb :
      (m : Merge G B) (ss : List (SegmentSnapshot G B))
      → staying bitmaps segments laws m ss ≡ filterb (is_other bitmaps segments laws doc m) ss
  staying-filterb m [] = refl
  staying-filterb m (s ∷ ss) = ground (arith, is_away-has_key s.id m.old, staying-filterb m ss)

  pub staying-In :
      (m : Merge G B) (s : SegmentSnapshot G B) (ss : List (SegmentSnapshot G B))
      → is_away bitmaps segments laws m s ≡ false
      → is_live bitmaps segments s ≡ true
      → In s ss
      → In s (staying bitmaps segments laws m ss)
  staying-In m s [] a l i = i
  staying-In m s (x ∷ ss) a l (inl e) =
      subst (In s) {x = x ∷ staying bitmaps segments laws m ss}
        (ground (
          arith,
          subst (λ y. is_away bitmaps segments laws m y ≡ false) e a,
          subst (λ y. is_live bitmaps segments y ≡ true) e l,
        ))
        (inl e)
  staying-In m s (x ∷ ss) a l (inr i) =
      let rest = staying-In m s ss a l i in
      elim (Bool-cases (not (is_away bitmaps segments laws m x) && is_live bitmaps segments x)) [
        | inl b ↦
            subst (In s) {x = x ∷ staying bitmaps segments laws m ss} (ground (arith, b)) (inr rest)
        | inr b ↦ subst (In s) {x = staying bitmaps segments laws m ss} (ground (arith, b)) rest
      ]

  pub has_id-In :
      (s : SegmentSnapshot G B) (ss : List (SegmentSnapshot G B))
      → In s ss
      → has_id bitmaps segments laws s.id ss ≡ true
  has_id-In s [] i = absurd i
  has_id-In s (x ∷ ss) (inl e) =
      let same : x.id ≡ s.id = ap (λ y. y.id) (sym e) in ground (arith, same)
  has_id-In s (x ∷ ss) (inr i) = ground (arith, has_id-In s ss i)

  pub In-has_id :
      (id : ℕ) (ss : List (SegmentSnapshot G B))
      → has_id bitmaps segments laws id ss ≡ true
      → (s : SegmentSnapshot G B) × In s ss × (s.id ≡ id)
  In-has_id id [] h = absurd (ground (arith, h))
  In-has_id id (x ∷ ss) h = elim (Bool-cases (x.id == id)) [
    | inl b ↦ (x, inl refl, ground (arith, b))
    | inr b ↦ let (s, i, e) = In-has_id id ss (ground (arith, h, b)) in (s, inr i, e)
  ]

  fresh_In :
      (s : SegmentSnapshot G B) (id : ℕ) (ss : List (SegmentSnapshot G B))
      → IsFresh bitmaps segments laws id ss
      → In s ss
      → s.id ≡ id
      → ⊥
  fresh_In s id [] f i e = i
  fresh_In s id (x ∷ ss) f (inl k) e =
      let same : s.id ≡ x.id = ap (λ y. y.id) k in ground (arith, f.0, same, e)
  fresh_In s id (x ∷ ss) f (inr i) e = fresh_In s id ss f.1 i e

  pub same_segment :
      (s t : SegmentSnapshot G B) (ss : List (SegmentSnapshot G B))
      → AreUnique bitmaps segments laws ss
      → In s ss
      → In t ss
      → s.id ≡ t.id
      → s ≡ t
  same_segment s t [] u i k e = absurd i
  same_segment s t (x ∷ ss) u (inl i) (inl k) e = i ∙ sym k
  same_segment s t (x ∷ ss) u (inl i) (inr k) e =
      absurd (fresh_In t x.id ss u.0 k (sym e ∙ ap (λ y. y.id) i))
  same_segment s t (x ∷ ss) u (inr i) (inl k) e =
      absurd (fresh_In s x.id ss u.0 i (e ∙ ap (λ y. y.id) k))
  same_segment s t (x ∷ ss) u (inr i) (inr k) e = same_segment s t ss u.1 i k e

  -- A reason comes from a segment of the root.
  pub Reason-segment :
      (m : Merge G B) (ss : List (SegmentSnapshot G B)) (n : ℕ)
      → Reason bitmaps segments laws m ss n
      → (s : SegmentSnapshot G B) × In s ss × Dead bitmaps segments laws m s n
  Reason-segment m [] n r = absurd r
  Reason-segment m (s ∷ ss) n (inl d) = (s, inl refl, d)
  Reason-segment m (s ∷ ss) n (inr r) = let (t, i, d) = Reason-segment m ss n r in (t, inr i, d)

  pub segment-Reason :
      (m : Merge G B) (ss : List (SegmentSnapshot G B)) (s : SegmentSnapshot G B) (n : ℕ)
      → In s ss
      → Dead bitmaps segments laws m s n
      → Reason bitmaps segments laws m ss n
  segment-Reason m [] s n i d = absurd i
  segment-Reason m (x ∷ ss) s n (inl e) d = inl (subst (λ y. Dead bitmaps segments laws m y n) e d)
  segment-Reason m (x ∷ ss) s n (inr i) d = inr (segment-Reason m ss s n i d)
