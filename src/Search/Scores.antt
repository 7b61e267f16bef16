-- ===== src/Search/Scores.antt =====
-- The sort values of scores sort as the scores do.
use Prim.Native.Nat.{compare, Ordering}
use bluge.Base.{
  ℕ, zero, suc, ◌*◌, ◌/◌, ◌%◌, ◌^◌, ◌<◌, ◌≤◌, ◌≡◌, ◌≢◌, ◌∙◌, Bool, true, false, [], ◌∷◌, arith,
  Bytes, ltb, leb, if◌then◌else◌,
}
use bluge.Base.Floats.{FloatOps}
use bluge.Search.{
  bytes_compare, DocumentMatch, SortOrder, sort_compare, compare_score, compute,
  is_score_descending, score_value,
}
use bluge.Numeric.{
  chars_loop, flip_sign, float64_to_int64, new_prefix_coded_int64, new_prefix_coded_int64_prealloc,
}

-- A comparison that is decided by the first, or else by the second.
abbrev or_else : Ordering → Ordering → Ordering
or_else c d = elim c [ Ordering.lt ↦ Ordering.lt | Ordering.eq ↦ d | Ordering.gt ↦ Ordering.gt ]

compare-divided :
    (x y : ℕ) (d : Ordering)
    → or_else (compare (x / 128) (y / 128)) (or_else (compare (x % 128) (y % 128)) d)
      ≡ or_else (compare x y) d
compare-divided x y d = ground arith

compare-whole : (x y : ℕ) → or_else (compare (x / 2 ^ 0) (y / 2 ^ 0)) Ordering.eq ≡ compare x y
compare-whole x y = ground arith

-- Characters of seven bits sort as the numbers that they are made of.
bytes_compare-chars_loop :
    (n x y : ℕ) (r s : Bytes)
    → x < 128 ^ n
    → y < 128 ^ n
    → bytes_compare (chars_loop n x r) (chars_loop n y s)
      ≡ or_else (compare x y) (bytes_compare r s)
unfolding chars_loop
bytes_compare-chars_loop zero x y r s h k = ground arith
bytes_compare-chars_loop (suc n) x y r s h k =
    bytes_compare-chars_loop n (x / 128) (y / 128) (x % 128 ∷ r) (y % 128 ∷ s) (omega arith)
      (omega arith)
    ∙ compare-divided x y (bytes_compare r s)

module _ {F : Type 0} (float64_bits : F → ℕ) where
  -- A score that is neither NaN nor -0.0, by the format of IEEE 754: the highest bit is the sign,
  -- the next eleven the exponent.
  abbrev pub IsOrdinary : F → Type 0
  IsOrdinary a =
      (float64_bits a < 2 ^ 64)
      × (float64_bits a ≢ 2 ^ 63)
      × (float64_bits a % 2 ^ 63 ≤ 2047 * 2 ^ 52)

  abbrev pub is_negative : F → Bool
  is_negative a = leb (2 ^ 63) (float64_bits a)

  abbrev pub magnitude : F → ℕ
  magnitude a = float64_bits a % 2 ^ 63

  -- The order of IEEE 754 on such floats: by the sign and then by the magnitude.
  abbrev pub IsSignMagnitude : FloatOps F → Type 0
  IsSignMagnitude f =
      (a b : F)
      → IsOrdinary a
      → IsOrdinary b
      → f.lt a b ≡ (
          if is_negative a
          then (if is_negative b then ltb (magnitude b) (magnitude a) else true)
          else (if is_negative b then false else ltb (magnitude a) (magnitude b)))

  -- What the term of a score is made of.
  abbrev key : F → ℕ
  key a = flip_sign (float64_to_int64 (float64_bits a))

  key_below : (a : F) → key a / 2 ^ 0 < 128 ^ 10
  key_below a = omega arith

  bytes_compare-score_value :
      (a b : F)
      → bytes_compare (score_value float64_bits a) (score_value float64_bits b)
        ≡ compare (key a) (key b)
  unfolding score_value new_prefix_coded_int64 new_prefix_coded_int64_prealloc
  bytes_compare-score_value a b =
      bytes_compare-chars_loop 10 (key a / 2 ^ 0) (key b / 2 ^ 0) [] [] (key_below a) (key_below b)
      ∙ compare-whole (key a) (key b)

  lt-key :
      (f : FloatOps F) (a b : F)
      → IsSignMagnitude f
      → IsOrdinary a
      → IsOrdinary b
      → f.lt a b ≡ ltb (key a) (key b)
  unfolding float64_to_int64
  lt-key f a b law h k = ground (arith, law a b h k)

  -- If floats are ordered by sign and magnitude, then for an order that IsScoreDescending
  -- recognises and scores that are neither NaN nor -0.0, CompareScore on the bare scores gives
  -- what Compare gives on the computed sort values.
  pub compare_score-eq-sort_compare :
      (f : FloatOps F)
      → IsSignMagnitude f
      → (o : SortOrder F) (i j : DocumentMatch F) → IsOrdinary i.score
      → IsOrdinary j.score
      → is_score_descending o ≡ true
      → sort_compare o (compute float64_bits o i) (compute float64_bits o j) ≡ compare_score f i j
  unfolding sort_compare compute compare_score is_score_descending
  compare_score-eq-sort_compare f law [] i j p q h = ground arith
  compare_score-eq-sort_compare f law (s ∷ []) i j p q h = ground (
    arith,
    bytes_compare-score_value i.score j.score,
    lt-key f i.score j.score law p q,
    lt-key f j.score i.score law q p,
  )
  compare_score-eq-sort_compare f law (s ∷ t ∷ rest) i j p q h = ground arith
