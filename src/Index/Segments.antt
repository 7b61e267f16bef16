-- ===== src/Index/Segments.antt =====
-- index/segment.go: a segment with the documents of it that are deleted. A segment and a roaring
-- bitmap are parameters: a record of the functions that are called, with laws that say what the
-- functions promise. An int64 or uint64 wraps at 2 ^ 64.
pub mod Live
use bluge.Base.{
  ℕ, zero, suc, ◌+◌, ◌-◌, ◌%◌, ◌^◌, ◌<◌, ◌≤◌, ◌≡◌, refl, ap, ◌∙◌, sym, subst, Bool, true, false,
  not, ◌&&◌, ◌||◌, List, [], ◌∷◌, ◌++◌, Option, none, some, Result, ltb, leb, ◌==◌, if◌then◌else◌,
  arith, Bool-cases, Option-cases, inl, inr, length,
}

-- The numbers below `n` that satisfy the test.
abbrev pub count_of : ℕ → (ℕ → Bool) → ℕ
count_of zero p = 0
count_of (suc n) p = let rest = count_of n (λ j. p (suc j)) in if p 0 then suc rest else rest

-- The functions of roaring.Bitmap that the index calls; `numbers` is what an iterator yields.
pub record Bitmaps (B : Type 0) : Type 0 where
  pub new_bitmap : B
  pub contains : B → ℕ → Bool
  pub or : B → B → B
  pub and_not : B → B → B
  pub add : B → ℕ → B
  pub add_range : B → ℕ → ℕ → B
  pub is_empty : B → Bool
  pub cardinality : B → ℕ
  pub numbers : B → List ℕ

abbrev pub member : ℕ → List ℕ → Bool
member j [] = false
member j (x ∷ xs) = j == x || member j xs

pub record BitmapLaws {B : Type 0} (bitmaps : Bitmaps B) : Type 0 where
  pub contains_new : (j : ℕ) → bitmaps.contains bitmaps.new_bitmap j ≡ false
  pub contains_or :
      (a b : B) (j : ℕ)
      → bitmaps.contains (bitmaps.or a b) j ≡ (bitmaps.contains a j || bitmaps.contains b j)
  pub contains_and_not :
      (a b : B) (j : ℕ)
      → bitmaps.contains (bitmaps.and_not a b) j
        ≡ (bitmaps.contains a j && not (bitmaps.contains b j))
  pub contains_add :
      (b : B) (i j : ℕ) → bitmaps.contains (bitmaps.add b i) j ≡ (j == i || bitmaps.contains b j)
  pub contains_add_range :
      (b : B) (from end j : ℕ)
      → bitmaps.contains (bitmaps.add_range b from end) j
        ≡ ((leb from j && ltb j end) || bitmaps.contains b j)
  pub is_empty_lem : (b : B) (j : ℕ) → bitmaps.is_empty b ≡ true → bitmaps.contains b j ≡ false
  -- GetCardinality is the number of the numbers in the bitmap.
  pub cardinality_lem :
      (b : B) (n : ℕ)
      → ((j : ℕ) → bitmaps.contains b j ≡ true → j < n)
      → bitmaps.cardinality b ≡ count_of n (bitmaps.contains b)
  pub member-numbers : (b : B) (j : ℕ) → member j (bitmaps.numbers b) ≡ bitmaps.contains b j

-- A segment: the number of its documents, the search for terms, and whether it is in a file.
pub record Segments (G B T E : Type 0) : Type 0 where
  pub count : G → ℕ
  pub docs_matching_terms : G → List T → Result E B
  pub persisted : G → Bool

pub record SegmentSnapshot (G B : Type 0) : Type 0 where
  pub id : ℕ
  pub segment : G
  pub deleted : Option B

module _ {B : Type 0} (bitmaps : Bitmaps B) where
  abbrev pub is_deleted : Option B → ℕ → Bool
  is_deleted none j = false
  is_deleted (some d) j = bitmaps.contains d j

module _ {G B T E : Type 0} (bitmaps : Bitmaps B) (segments : Segments G B T E) where
  -- Count: uint64.
  abbrev pub live_count : SegmentSnapshot G B → ℕ
  live_count s = elim s.deleted [
    | none ↦ segments.count s.segment
    | some d ↦ (segments.count s.segment + 2 ^ 64 - bitmaps.cardinality d) % 2 ^ 64
  ]

  -- `LiveSize() > 0`, on int64.
  abbrev pub is_live : SegmentSnapshot G B → Bool
  is_live s = ltb 0 (live_count s) && ltb (live_count s) (2 ^ 63)

  -- DocNumbersLive
  abbrev pub doc_numbers_live : SegmentSnapshot G B → B
  doc_numbers_live s =
      let all = bitmaps.add_range bitmaps.new_bitmap 0 (segments.count s.segment) in
      elim s.deleted [ none ↦ all | some d ↦ bitmaps.and_not all d ]

  -- Deleted documents are documents, and a segment holds less than 2 ^ 63.
  pub record IsBounded (s : SegmentSnapshot G B) : Type 0 where
    pub deleted : (j : ℕ) → is_deleted bitmaps s.deleted j ≡ true → j < segments.count s.segment
    pub size : segments.count s.segment < 2 ^ 63
