-- ===== src/Index/Introducer/Merges.antt =====
-- What introduceMerge marks as deleted in the new segment: a reason for every number.
use bluge.Base.{
  ℕ, ◌≡◌, refl, ◌∙◌, sym, subst, Bool, true, false, not, ◌&&◌, ◌⊎◌, List, [], ◌∷◌, none, some,
  if◌then◌else◌, arith, Bool-cases, Option-cases, inl, inr, All, ◌==◌,
}
use bluge.Index.Segments.{Bitmaps, BitmapLaws, Segments, SegmentSnapshot, is_deleted, member}
use bluge.Index.Introducer.{Merge, lookup, remove}
use bluge.Index.Introducer.Unchecked.{number_in_new, add_numbers, processed_now}

module _ {G B T E : Type 0} (bitmaps : Bitmaps B) (segments : Segments G B T E)
    (laws : BitmapLaws bitmaps) where
  abbrev pub new_number : Merge G B → ℕ → ℕ → ℕ
  new_number = number_in_new bitmaps segments

  -- A document among `js` has the new number `n`.
  abbrev pub Moved : Merge G B → ℕ → List ℕ → ℕ → Type 0
  Moved m id js n = (j : ℕ) × (member j js ≡ true) × (n ≡ new_number m id j)

  pub add_numbers_sound :
      (m : Merge G B) (id : ℕ) (js : List ℕ) (b : B) (n : ℕ)
      → bitmaps.contains (add_numbers bitmaps segments m id js b) n ≡ true
      → (bitmaps.contains b n ≡ true) ⊎ Moved m id js n
  unfolding add_numbers
  add_numbers_sound m id [] b n h = inl h
  add_numbers_sound m id (j ∷ rest) b n h =
      elim (add_numbers_sound m id rest (bitmaps.add b (new_number m id j)) n h) [
        | inr (i, e, z) ↦ inr (i, ground (arith, e), z)
        | inl k ↦ elim (Bool-cases (n == new_number m id j)) [
          | inl e ↦ inr (j, ground arith, ground (arith, e))
          | inr e ↦ inl (ground (arith, k, e, laws.contains_add b (new_number m id j) n))
        ]
      ]

  pub add_numbers-grows :
      (m : Merge G B) (id : ℕ) (js : List ℕ) (b : B) (n : ℕ)
      → bitmaps.contains b n ≡ true
      → bitmaps.contains (add_numbers bitmaps segments m id js b) n ≡ true
  unfolding add_numbers
  add_numbers-grows m id [] b n h = h
  add_numbers-grows m id (j ∷ rest) b n h =
      add_numbers-grows m id rest (bitmaps.add b (new_number m id j)) n
        (ground (arith, h, laws.contains_add b (new_number m id j) n))

  pub add_numbers-adds :
      (m : Merge G B) (id : ℕ) (js : List ℕ) (b : B) (j : ℕ)
      → member j js ≡ true
      → bitmaps.contains (add_numbers bitmaps segments m id js b) (new_number m id j) ≡ true
  unfolding add_numbers
  add_numbers-adds m id [] b j h = absurd (ground (arith, h))
  add_numbers-adds m id (i ∷ rest) b j h = elim (Bool-cases (j == i)) [
    | inl e ↦
        let same : i ≡ j = ground (arith, e) in
        add_numbers-grows m id rest (bitmaps.add b (new_number m id i)) (new_number m id j) (
          subst
            (λ k. bitmaps.contains (bitmaps.add b (new_number m id i)) (new_number m id k) ≡ true)
            same (ground (arith, laws.contains_add b (new_number m id i) (new_number m id i))))
    | inr e ↦
        add_numbers-adds m id rest (bitmaps.add b (new_number m id i)) j (ground (arith, h, e))
  ]

  abbrev pub removed : ℕ → Merge G B → Merge G B
  removed id m = record m { old = remove id m.old }

  -- A document of the merge was deleted since, and has the new number `n`.
  abbrev pub Dead : Merge G B → SegmentSnapshot G B → ℕ → Type 0
  Dead m s n =
      (t : SegmentSnapshot G B) × (lookup s.id m.old ≡ some (some t))
      × ((j : ℕ) × (is_deleted bitmaps s.deleted j ≡ true)
          × (is_deleted bitmaps t.deleted j ≡ false)
          × (n ≡ new_number m s.id j))

  -- What ProcessSegmentNow does to the bitmap.
  pub record Processed (m : Merge G B) (s : SegmentSnapshot G B) (b b' : B) : Type 0 where
    pub grows : (n : ℕ) → bitmaps.contains b n ≡ true → bitmaps.contains b' n ≡ true
    pub adds : (n : ℕ) → Dead m s n → bitmaps.contains b' n ≡ true
    pub sound : (n : ℕ) → bitmaps.contains b' n ≡ true → (bitmaps.contains b n ≡ true) ⊎ Dead m s n

  unchanged :
      (m : Merge G B) (s : SegmentSnapshot G B) (b : B)
      → ((n : ℕ) → Dead m s n → ⊥)
      → Processed m s b b
  unchanged m s b h = record {
    grows = λ n k. k;
    adds = λ n d. absurd (h n d);
    sound = λ n k. inl k;
  }

  -- The deletions since the merge saw the segment are added.
  added :
      (m : Merge G B) (s t : SegmentSnapshot G B) (b since : B)
      → lookup s.id m.old ≡ some (some t)
      → ((j : ℕ)
          → bitmaps.contains since j
            ≡ (is_deleted bitmaps s.deleted j && not (is_deleted bitmaps t.deleted j)))
      → Processed m s b (add_numbers bitmaps segments m s.id (bitmaps.numbers since) b)
  added m s t b since e h = record {
    grows = add_numbers-grows m s.id (bitmaps.numbers since) b;
    adds = λ n (t', e', (j, d, k, z)).
        let same : t' ≡ t = ground (arith, e, e') in
        let k' : is_deleted bitmaps t.deleted j ≡ false =
          subst (λ x. is_deleted bitmaps x.deleted j ≡ false) same k in
        subst
          (λ i.
            bitmaps.contains (add_numbers bitmaps segments m s.id (bitmaps.numbers since) b) i
            ≡ true)
          (sym z)
          (add_numbers-adds m s.id (bitmaps.numbers since) b j
            (ground (arith, d, k', h j, laws.member-numbers since j)));
    sound = λ n k. elim (add_numbers_sound m s.id (bitmaps.numbers since) b n k) [
      | inl x ↦ inl x
      | inr (j, x, z) ↦
          let in_since : bitmaps.contains since j ≡ true =
            ground (arith, x, laws.member-numbers since j) in
          inr (t, e, (j, ground (arith, in_since, h j), ground (arith, in_since, h j), z))
    ];
  }

  -- Whether the segment goes away: the merge knows it.
  abbrev pub is_away : Merge G B → SegmentSnapshot G B → Bool
  is_away m s = elim (lookup s.id m.old) [ none ↦ false | some t ↦ true ]

  pub record Away (m : Merge G B) (s : SegmentSnapshot G B) (b : B) (r : Bool × Merge G B × B)
      : Type 0 where
    pub bits : B
    pub result : r ≡ (is_away m s, (if is_away m s then removed s.id m else m), bits)
    pub processed : Processed m s b bits

  pub processed_now-Away :
      (m : Merge G B) (s : SegmentSnapshot G B) (b : B)
      → Away m s b (processed_now bitmaps segments m s b)
  unfolding processed_now
  processed_now-Away m s b = elim (Option-cases (lookup s.id m.old)) [
    | inl e ↦ record {
      bits = b;
      result = ground (arith, e);
      processed = unchanged m s b (λ n (t, e', d). ground (arith, e, e'));
    }
    | inr (none, e) ↦ record {
      bits = b;
      result = ground (arith, e);
      processed = unchanged m s b (λ n (t, e', d). ground (arith, e, e'));
    }
    | inr (some t, e) ↦ elim (Option-cases s.deleted) [
      | inl f ↦ record {
        bits = b;
        result = ground (arith, e, f);
        processed = unchanged m s b (λ n (t', e', (j, d, k, z)). ground (arith, f, d));
      }
      | inr (d, f) ↦ elim (Option-cases t.deleted) [
        | inl k ↦ record {
          bits = add_numbers bitmaps segments m s.id (bitmaps.numbers d) b;
          result = ground (arith, e, f, k);
          processed = added m s t b d e (λ j. ground (arith, f, k));
        }
        | inr (x, k) ↦ record {
          bits = add_numbers bitmaps segments m s.id (bitmaps.numbers (bitmaps.and_not d x)) b;
          result = ground (arith, e, f, k);
          processed =
              added m s t b (bitmaps.and_not d x) e
                (λ j. ground (arith, f, k, laws.contains_and_not d x j));
        }
      ]
    ]
  ]

  pub lookup-remove :
      {A : Type 0} (x id : ℕ) (old : List (ℕ × A))
      → (x == id) ≡ false
      → lookup x (remove id old) ≡ lookup x old
  lookup-remove x id [] h = refl
  lookup-remove x id (o ∷ old) h = ground (arith, h, lookup-remove x id old h)

  -- No later segment has the identifier.
  abbrev pub IsFresh : ℕ → List (SegmentSnapshot G B) → Type 0
  IsFresh id ss = All (λ s. (s.id == id) ≡ false) ss

  abbrev pub AreUnique : List (SegmentSnapshot G B) → Type 0
  AreUnique [] = Unit
  AreUnique (s ∷ ss) = IsFresh s.id ss × AreUnique ss

  -- Some segment that goes away gives a reason.
  abbrev pub Reason : Merge G B → List (SegmentSnapshot G B) → ℕ → Type 0
  Reason m [] n = ⊥
  Reason m (s ∷ ss) n = Dead m s n ⊎ Reason m ss n

  pub Reason-removed :
      (m : Merge G B) (id : ℕ) (ss : List (SegmentSnapshot G B)) (n : ℕ)
      → IsFresh id ss
      → Reason (removed id m) ss n
      → Reason m ss n
  Reason-removed m id [] n h r = absurd r
  Reason-removed m id (s ∷ ss) n h (inl (t, e, d)) =
      inl (t, sym (lookup-remove s.id id m.old h.0) ∙ e, d)
  Reason-removed m id (s ∷ ss) n h (inr r) = inr (Reason-removed m id ss n h.1 r)

  pub removed-Reason :
      (m : Merge G B) (id : ℕ) (ss : List (SegmentSnapshot G B)) (n : ℕ)
      → IsFresh id ss
      → Reason m ss n
      → Reason (removed id m) ss n
  removed-Reason m id [] n h r = absurd r
  removed-Reason m id (s ∷ ss) n h (inl (t, e, d)) = inl (t, lookup-remove s.id id m.old h.0 ∙ e, d)
  removed-Reason m id (s ∷ ss) n h (inr r) = inr (removed-Reason m id ss n h.1 r)
