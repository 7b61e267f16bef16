-- ===== src/Search/Values.antt =====
-- What SortOrder.Compute puts into a match: the score order, missing values, and reversed orders.
use Prim.Native.Nat.{Ordering}
use bluge.Base.{ℕ, ◌≡◌, refl, [], ◌∷◌, map, arith, if◌then◌else◌, none, some}
use bluge.Search.Order.{bytes_compare-flip}
use bluge.Search.{
  Bytes, bytes_compare, DocumentMatch, Sort, SortOrder, high_term, low_term, negate, compare_values,
  sort_compare, primary_value, compute, reverse_order,
}

module _ {F : Type 0} (float64_bits : F → ℕ) where
  -- Under the first sort of an order, a match without a value sorts behind a match whose value
  -- lies between lowTerm and highTerm, or in front of it if MissingFirst was asked for, in both
  -- directions.
  pub missing_value_order :
      (s : Sort F) (o : SortOrder F) (lacks has : DocumentMatch F) (v : Bytes)
      → primary_value float64_bits s.source lacks ≡ none
      → primary_value float64_bits s.source has ≡ some v
      → bytes_compare low_term v ≡ Ordering.lt
      → bytes_compare v high_term ≡ Ordering.lt
      → sort_compare (s ∷ o) (compute float64_bits (s ∷ o) lacks) (compute float64_bits (s ∷ o) has)
        ≡ (if s.missing_first then Ordering.lt else Ordering.gt)
  unfolding sort_compare compute
  missing_value_order s o lacks has v p q low high =
      ground (arith, bytes_compare-flip low_term v, bytes_compare-flip v high_term)

  -- The sign of a comparison by the values alone.
  abbrev pub compare_computed : SortOrder F → DocumentMatch F → DocumentMatch F → Ordering
  compare_computed o i j =
      compare_values (map (λ s. s.desc) o) (compute float64_bits o i).sort_value
        (compute float64_bits o j).sort_value

  -- SortOrder.Reverse turns every comparison by values round, missing values included.
  pub compare_computed-reverse_order :
      (o : SortOrder F) (i j : DocumentMatch F)
      → compare_computed (reverse_order o) i j ≡ negate (compare_computed o i j)
  unfolding reverse_order compute compare_values
  compare_computed-reverse_order [] i j = refl
  compare_computed-reverse_order (s ∷ o) i j = ground (arith, compare_computed-reverse_order o i j)
