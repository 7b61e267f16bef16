-- ===== src/Index/Segments/Live.antt =====
-- The documents of a segment snapshot that are not deleted, in order.
use bluge.Base.{
  ℕ, zero, suc, ◌+◌, ◌<◌, ◌≡◌, refl, Bool, false, not, List, [], ◌∷◌, if◌then◌else◌, arith,
  Option-cases, inl, inr,
}
use bluge.Index.Segments.{
  Bitmaps, BitmapLaws, Segments, SegmentSnapshot, count_of, live_count, is_live, is_deleted,
  IsBounded,
}

-- The values at the numbers below `n` that satisfy the test.
abbrev pub select : {D : Type 0} → ℕ → (ℕ → Bool) → (ℕ → D) → List D
select zero p f = []
select (suc n) p f =
    let rest = select n (λ j. p (suc j)) (λ j. f (suc j)) in if p 0 then f 0 ∷ rest else rest

pub count_of-not : (n : ℕ) (p : ℕ → Bool) → count_of n p + count_of n (λ j. not (p j)) ≡ n
count_of-not zero p = omega arith
count_of-not (suc n) p = ground (arith, count_of-not n (λ j. p (suc j)))

pub count_of_none : (n : ℕ) (p : ℕ → Bool) → count_of n p ≡ 0 → (j : ℕ) → j < n → p j ≡ false
count_of_none zero p h j l = absurd (omega (arith, l))
count_of_none (suc n) p h zero l = ground (arith, h)
count_of_none (suc n) p h (suc j) l =
    count_of_none n (λ i. p (suc i)) (ground (arith, h)) j (omega (arith, l))

select_none : {D : Type 0} (n : ℕ) (p : ℕ → Bool) (f : ℕ → D) → count_of n p ≡ 0 → select n p f ≡ []
select_none zero p f h = refl
select_none (suc n) p f h = ground (arith, h, select_none n (λ j. p (suc j)) (λ j. f (suc j)))

-- Equal tests select the same.
pub select_same :
    {D : Type 0} (n : ℕ) (p q : ℕ → Bool) (f : ℕ → D)
    → ((j : ℕ) → j < n → p j ≡ q j)
    → select n p f ≡ select n q f
select_same zero p q f h = refl
select_same (suc n) p q f h = ground (
  arith,
  h 0 (omega arith),
  select_same n (λ j. p (suc j)) (λ j. q (suc j)) (λ j. f (suc j))
      (λ j l. h (suc j) (omega (arith, l))),
)

module _ {G B T E : Type 0} (bitmaps : Bitmaps B) (segments : Segments G B T E)
    (laws : BitmapLaws bitmaps) where
  abbrev pub lives : SegmentSnapshot G B → ℕ → Bool
  lives s j = not (is_deleted bitmaps s.deleted j)

  -- The live count is the number of documents that are not deleted.
  pub live_count_lem :
      (s : SegmentSnapshot G B)
      → IsBounded bitmaps segments s
      → live_count bitmaps segments s ≡ count_of (segments.count s.segment) (lives s)
  live_count_lem s b =
      let n = segments.count s.segment in
      elim (Option-cases s.deleted) [
        | inl e ↦ ground (arith, e, count_of-not n (λ j. false), count_false n)
        | inr (d, e) ↦
            let c = laws.cardinality_lem d n (λ j h. b.deleted j (ground (arith, e, h))) in
            let parts = count_of-not n (bitmaps.contains d) in ground (arith, e, c, parts, b.size)
      ]
    where
      count_false : (n : ℕ) → count_of n (λ j. false) ≡ 0
      count_false zero = refl
      count_false (suc n) = count_false n

  -- The documents that are not deleted.
  abbrev pub view : {D : Type 0} → (G → ℕ → D) → SegmentSnapshot G B → List D
  view doc s = select (segments.count s.segment) (lives s) (doc s.segment)

  -- A segment that is dropped has no live document.
  pub view_dropped :
      {D : Type 0} (doc : G → ℕ → D) (s : SegmentSnapshot G B)
      → IsBounded bitmaps segments s
      → is_live bitmaps segments s ≡ false
      → view doc s ≡ []
  view_dropped doc s b h =
      let n = segments.count s.segment in
      let c = live_count_lem s b in
      let parts = count_of-not n (lives s) in
      select_none n (lives s) (doc s.segment) (ground (arith, h, c, parts, b.size))

  -- Nor has it a document at all that is not deleted.
  pub lives_dropped :
      (s : SegmentSnapshot G B) (j : ℕ)
      → IsBounded bitmaps segments s
      → is_live bitmaps segments s ≡ false
      → j < segments.count s.segment
      → lives s j ≡ false
  lives_dropped s j b h l =
      let n = segments.count s.segment in
      let c = live_count_lem s b in
      let parts = count_of-not n (lives s) in
      count_of_none n (lives s) (ground (arith, h, c, parts, b.size)) j l
