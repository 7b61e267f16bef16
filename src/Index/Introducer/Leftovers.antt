-- ===== src/Index/Introducer/Leftovers.antt =====
-- The loop of introduceMerge over what the merge knows and the root has not.
use bluge.Base.{
  ℕ, ◌<◌, ◌≡◌, refl, ap, ◌∙◌, sym, subst, Bool, true, false, not, ◌&&◌, ◌||◌, ◌⊎◌, List, [], ◌∷◌,
  Option, none, some, ltb, if◌then◌else◌, arith, Bool-cases, Option-cases, inl, inr, All, ◌==◌,
}
use bluge.Index.Segments.{
  Bitmaps, BitmapLaws, Segments, SegmentSnapshot, is_deleted, doc_numbers_live,
}
use bluge.Index.Introducer.{Merge, lookup, remove}
use bluge.Index.Introducer.Unchecked.{add_numbers, cleared_old}
use bluge.Index.Introducer.Merges.{
  new_number, add_numbers_sound, add_numbers-grows, add_numbers-adds, lookup-remove,
}
use bluge.Index.Introducer.Loops.{remaining}

module _ {G B T E : Type 0} (bitmaps : Bitmaps B) (segments : Segments G B T E)
    (laws : BitmapLaws bitmaps) where
  pub contains-doc_numbers_live :
      (t : SegmentSnapshot G B) (j : ℕ)
      → bitmaps.contains (doc_numbers_live bitmaps segments t) j
        ≡ (ltb j (segments.count t.segment) && not (is_deleted bitmaps t.deleted j))
  contains-doc_numbers_live t j =
      let n = segments.count t.segment in
      let all = bitmaps.add_range bitmaps.new_bitmap 0 n in
      let in_all = laws.contains_add_range bitmaps.new_bitmap 0 n j in
      let empty = laws.contains_new j in
      elim (Option-cases t.deleted) [
        | inl e ↦ ground (arith, e, in_all, empty)
        | inr (d, e) ↦ ground (arith, e, in_all, empty, laws.contains_and_not all d j)
      ]

  -- A document that was live when the merge saw its segment.
  abbrev pub Seen : List (ℕ × Option (SegmentSnapshot G B)) → ℕ → ℕ → Type 0
  Seen old id j =
      (t : SegmentSnapshot G B) × (lookup id old ≡ some (some t))
      × ((j < segments.count t.segment) × (is_deleted bitmaps t.deleted j ≡ false))

  abbrev pub IsFreshKey : ℕ → List (ℕ × Option (SegmentSnapshot G B)) → Type 0
  IsFreshKey id old = All (λ x. (x.0 == id) ≡ false) old

  -- A map has every key once.
  abbrev pub AreKeysUnique : List (ℕ × Option (SegmentSnapshot G B)) → Type 0
  AreKeysUnique [] = Unit
  AreKeysUnique (x ∷ rest) = IsFreshKey x.0 rest × AreKeysUnique rest

  -- No segment snapshot is nil.
  abbrev pub AllSome : List (ℕ × Option (SegmentSnapshot G B)) → Type 0
  AllSome [] = Unit
  AllSome (x ∷ rest) = ((t : SegmentSnapshot G B) × (x.1 ≡ some t)) × AllSome rest

  -- A document that the merge saw has the new number `n`.
  abbrev pub Left : Merge G B → List (ℕ × Option (SegmentSnapshot G B)) → ℕ → Type 0
  Left m old n =
      (id : ℕ) × (j : ℕ) × (Seen old id j) × (n ≡ new_number bitmaps segments laws m id j)

  pub record Cleared (m : Merge G B) (old : List (ℕ × Option (SegmentSnapshot G B))) (b : B)
      (r : Option B) : Type 0 where
    pub bits : B
    pub result : r ≡ some bits
    pub grows : (n : ℕ) → bitmaps.contains b n ≡ true → bitmaps.contains bits n ≡ true
    pub adds : (n : ℕ) → Left m old n → bitmaps.contains bits n ≡ true
    pub sound :
        (n : ℕ) → bitmaps.contains bits n ≡ true → (bitmaps.contains b n ≡ true) ⊎ Left m old n

  fresh_lookup :
      (id : ℕ) (old : List (ℕ × Option (SegmentSnapshot G B)))
      → IsFreshKey id old
      → lookup id old ≡ none
  fresh_lookup id [] h = refl
  fresh_lookup id (x ∷ old) h = ground (arith, h.0, fresh_lookup id old h.1)

  pub Seen-behind :
      (x : ℕ × Option (SegmentSnapshot G B)) (rest : List (ℕ × Option (SegmentSnapshot G B)))
      (id j : ℕ)
      → IsFreshKey x.0 rest
      → Seen rest id j
      → Seen (x ∷ rest) id j
  Seen-behind x rest id j h (t, e, s) = (
    t,
    elim (Bool-cases (x.0 == id)) [
      | inl b ↦
          let same : x.0 ≡ id = ground (arith, b) in
          absurd (ground (arith, e, fresh_lookup id rest (subst (λ i. IsFreshKey i rest) same h)))
      | inr b ↦ ground (arith, b, e)
    ],
    s,
  )

  module _ (m : Merge G B) where
    behind :
        (x : ℕ × Option (SegmentSnapshot G B)) (rest : List (ℕ × Option (SegmentSnapshot G B)))
        (n : ℕ)
        → IsFreshKey x.0 rest
        → Left m rest n
        → Left m (x ∷ rest) n
    behind x rest n h (id, j, s, z) = (id, j, Seen-behind x rest id j h s, z)

    pub cleared_old-Cleared :
        (old : List (ℕ × Option (SegmentSnapshot G B))) (b : B)
        → AllSome old
        → AreKeysUnique old
        → Cleared m old b (cleared_old bitmaps segments m old b)
    unfolding cleared_old
    cleared_old-Cleared [] b h u = record {
      bits = b;
      result = refl;
      grows = λ n k. k;
      adds = λ n (id, j, (t, e, s), z). absurd (ground (arith, e));
      sound = λ n k. inl k;
    }
    cleared_old-Cleared (x ∷ rest) b h u =
        let (t, e) = h.0 in
        let js = bitmaps.numbers (doc_numbers_live bitmaps segments t) in
        let b' = add_numbers bitmaps segments m x.0 js b in
        let ih = cleared_old-Cleared rest b' h.1 u.1 in
        let in_js = λ (j : ℕ).
          laws.member-numbers (doc_numbers_live bitmaps segments t) j
          ∙ contains-doc_numbers_live t j in
        record {
          bits = ih.bits;
          result = ground (arith, e, ih.result);
          grows = λ n k. ih.grows n (add_numbers-grows bitmaps segments laws m x.0 js b n k);
          adds = λ n (id, j, (t', e', (l, d)), z). elim (Bool-cases (x.0 == id)) [
            | inl k ↦
                let same : x.0 ≡ id = ground (arith, k) in
                let same_t : t ≡ t' = ground (arith, e, e', k) in
                let l' : j < segments.count t.segment =
                  subst (λ y. j < segments.count y.segment) (sym same_t) l in
                let d' : is_deleted bitmaps t.deleted j ≡ false =
                  subst (λ y. is_deleted bitmaps y.deleted j ≡ false) (sym same_t) d in
                let in_new =
                  add_numbers-adds bitmaps segments laws m x.0 js b j
                    (in_js j ∙ ground (arith, l', d')) in
                let z' : new_number bitmaps segments laws m x.0 j ≡ n =
                  ap (λ i. new_number bitmaps segments laws m i j) same ∙ sym z in
                subst (λ i. bitmaps.contains ih.bits i ≡ true) z'
                  (ih.grows (new_number bitmaps segments laws m x.0 j) in_new)
            | inr k ↦ ih.adds n (id, j, (t', ground (arith, e', k), (l, d)), z)
          ];
          sound = λ n k. elim (ih.sound n k) [
            | inr l ↦ inr (behind x rest n u.0 l)
            | inl c ↦ elim (add_numbers_sound bitmaps segments laws m x.0 js b n c) [
              | inl o ↦ inl o
              | inr (j, i, z) ↦
                  let i' = in_js j in
                  inr (
                    x.0,
                    j,
                    (t, ground (arith, e), (ground (arith, i, i'), ground (arith, i, i'))),
                    z,
                  )
            ]
          ];
        }

  -- What the root has is no longer in the map, the rest is.
  abbrev pub has_id : ℕ → List (SegmentSnapshot G B) → Bool
  has_id id [] = false
  has_id id (s ∷ ss) = s.id == id || has_id id ss

  pub lookup-removed :
      (id : ℕ) (old : List (ℕ × Option (SegmentSnapshot G B))) → lookup id (remove id old) ≡ none
  lookup-removed id [] = refl
  lookup-removed id (x ∷ old) = ground (arith, lookup-removed id old)

  pub lookup-remaining :
      (id : ℕ) (ss : List (SegmentSnapshot G B)) (old : List (ℕ × Option (SegmentSnapshot G B)))
      → lookup id (remaining bitmaps segments laws ss old)
        ≡ (if has_id id ss then none else lookup id old)
  lookup-remaining id [] old = refl
  lookup-remaining id (s ∷ ss) old =
      let ih = lookup-remaining id ss (remove s.id old) in
      elim (Bool-cases (s.id == id)) [
        | inl b ↦
            let same : s.id ≡ id = ground (arith, b) in
            let gone : lookup id (remove s.id old) ≡ none =
              subst (λ i. lookup id (remove i old) ≡ none) (sym same) (lookup-removed id old) in
            ground (arith, b, ih, gone)
        | inr b ↦
            let kept : lookup id (remove s.id old) ≡ lookup id old =
              lookup-remove bitmaps segments laws id s.id old (ground (arith, b)) in
            ground (arith, b, ih, kept)
      ]

  IsFreshKey-remove :
      (k id : ℕ) (old : List (ℕ × Option (SegmentSnapshot G B)))
      → IsFreshKey k old
      → IsFreshKey k (remove id old)
  IsFreshKey-remove k id [] h = tt
  IsFreshKey-remove k id (x ∷ old) h = elim (Bool-cases (x.0 == id)) [
    | inl b ↦ ground (arith, b, IsFreshKey-remove k id old h.1)
    | inr b ↦ ground (arith, b, h.0, IsFreshKey-remove k id old h.1)
  ]

  AreKeysUnique-remove :
      (id : ℕ) (old : List (ℕ × Option (SegmentSnapshot G B)))
      → AreKeysUnique old
      → AreKeysUnique (remove id old)
  AreKeysUnique-remove id [] u = tt
  AreKeysUnique-remove id (x ∷ old) u = elim (Bool-cases (x.0 == id)) [
    | inl b ↦ ground (arith, b, AreKeysUnique-remove id old u.1)
    | inr b ↦ ground (arith, b, IsFreshKey-remove x.0 id old u.0, AreKeysUnique-remove id old u.1)
  ]

  pub AreKeysUnique-remaining :
      (ss : List (SegmentSnapshot G B)) (old : List (ℕ × Option (SegmentSnapshot G B)))
      → AreKeysUnique old
      → AreKeysUnique (remaining bitmaps segments laws ss old)
  AreKeysUnique-remaining [] old u = u
  AreKeysUnique-remaining (s ∷ ss) old u =
      AreKeysUnique-remaining ss (remove s.id old) (AreKeysUnique-remove s.id old u)
