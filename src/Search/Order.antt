-- ===== src/Search/Order.antt =====
-- The comparisons of search/sort.go are total orders, and the two that sort by score agree.
use Prim.Native.Nat.{Ordering}
use bluge.Base.{◌≡◌, refl, Bool, List, [], ◌∷◌, map, arith}
use bluge.Base.Floats.{FloatOps, FloatOrder}
use bluge.Search.{
  Bytes, first_value, other_values, bytes_compare, DocumentMatch, SortOrder, negate, compare_values,
  sort_compare, compare_score,
}

-- The laws of a three-way comparison: a total order whose ties behave alike.
pub record IsTotal {D : Type 0} (c : D → D → Ordering) : Type 0 where
  pub flip : (a b : D) → c b a ≡ negate (c a b)
  pub trans : (a b d : D) → c a b ≡ Ordering.lt → c b d ≡ Ordering.lt → c a d ≡ Ordering.lt
  pub tie : (a b d : D) → c a b ≡ Ordering.eq → c a d ≡ c b d

pub bytes_compare-flip : (a b : Bytes) → bytes_compare b a ≡ negate (bytes_compare a b)
bytes_compare-flip [] [] = refl
bytes_compare-flip [] (y ∷ b) = refl
bytes_compare-flip (x ∷ a) [] = refl
bytes_compare-flip (x ∷ a) (y ∷ b) = ground (arith, bytes_compare-flip a b)

pub bytes_compare-eq : (a b : Bytes) → bytes_compare a b ≡ Ordering.eq → a ≡ b
bytes_compare-eq [] [] h = refl
bytes_compare-eq [] (y ∷ b) h = ground arith
bytes_compare-eq (x ∷ a) [] h = ground arith
bytes_compare-eq (x ∷ a) (y ∷ b) h = ground (arith, bytes_compare-eq a b)

bytes_compare_trans :
    (a b d : Bytes)
    → bytes_compare a b ≡ Ordering.lt
    → bytes_compare b d ≡ Ordering.lt
    → bytes_compare a d ≡ Ordering.lt
bytes_compare_trans [] [] d h k = k
bytes_compare_trans [] (y ∷ b) [] h k = ground arith
bytes_compare_trans [] (y ∷ b) (z ∷ d) h k = refl
bytes_compare_trans (x ∷ a) [] d h k = ground arith
bytes_compare_trans (x ∷ a) (y ∷ b) [] h k = ground arith
bytes_compare_trans (x ∷ a) (y ∷ b) (z ∷ d) h k = ground (arith, bytes_compare_trans a b d)

compare_values-flip :
    (o : List Bool) (i j : List Bytes) → compare_values o j i ≡ negate (compare_values o i j)
unfolding compare_values
compare_values-flip [] i j = refl
compare_values-flip (desc ∷ o) i j = ground (
  arith,
  bytes_compare-flip (first_value i) (first_value j),
  compare_values-flip o (other_values i) (other_values j),
)

compare_values-tie :
    (o : List Bool) (i j k : List Bytes)
    → compare_values o i j ≡ Ordering.eq
    → compare_values o i k ≡ compare_values o j k
unfolding compare_values
compare_values-tie [] i j k h = refl
compare_values-tie (desc ∷ o) i j k h = ground (
  arith,
  bytes_compare-eq (first_value i) (first_value j),
  compare_values-tie o (other_values i) (other_values j) (other_values k),
)

compare_values_trans :
    (o : List Bool) (i j k : List Bytes)
    → compare_values o i j ≡ Ordering.lt
    → compare_values o j k ≡ Ordering.lt
    → compare_values o i k ≡ Ordering.lt
unfolding compare_values
compare_values_trans [] i j k h l = h
compare_values_trans (desc ∷ o) i j k h l = ground (
  arith,
  bytes_compare-eq (first_value i) (first_value j),
  bytes_compare-eq (first_value j) (first_value k),
  bytes_compare_trans (first_value i) (first_value j) (first_value k),
  bytes_compare_trans (first_value k) (first_value j) (first_value i),
  bytes_compare-flip (first_value i) (first_value j),
  bytes_compare-flip (first_value j) (first_value k),
  bytes_compare-flip (first_value i) (first_value k),
  compare_values_trans o (other_values i) (other_values j) (other_values k),
)

module _ {F : Type 0} where
  -- Compare is a total order on matches: by the values, each ascending or descending, then by the
  -- hit number.
  pub sort_compare-IsTotal : (o : SortOrder F) → IsTotal (sort_compare o)
  unfolding sort_compare
  sort_compare-IsTotal o = record {
    flip = λ i j. ground (arith, compare_values-flip (flags o) i.sort_value j.sort_value);
    trans = λ i j k h l. ground (
      arith,
      compare_values_trans (flags o) i.sort_value j.sort_value k.sort_value,
      compare_values-tie (flags o) i.sort_value j.sort_value k.sort_value,
      compare_values-tie (flags o) j.sort_value k.sort_value i.sort_value,
      compare_values-flip (flags o) i.sort_value j.sort_value,
      compare_values-flip (flags o) j.sort_value k.sort_value,
      compare_values-flip (flags o) i.sort_value k.sort_value,
    );
    tie = λ i j k h.
        ground (arith, compare_values-tie (flags o) i.sort_value j.sort_value k.sort_value);
  }
    where
      flags : SortOrder F → List Bool
      flags = map (λ s. s.desc)

  -- Two matches tie only if their hit numbers are equal.
  pub sort_compare-eq :
      (o : SortOrder F) (i j : DocumentMatch F)
      → sort_compare o i j ≡ Ordering.eq
      → i.hit_number ≡ j.hit_number
  unfolding sort_compare
  sort_compare-eq o i j h = ground arith

  -- CompareScore is a total order too: the higher score first, then the hit number.
  pub compare_score-IsTotal : (f : FloatOps F) → FloatOrder f → IsTotal (compare_score f)
  unfolding compare_score
  compare_score-IsTotal f order = record {
    flip = λ i j. ground (arith, order.asym i.score j.score);
    trans = λ i j k h l. ground (
      arith,
      order.asym i.score k.score,
      order.asym j.score i.score,
      order.asym k.score j.score,
      order.negtrans k.score i.score j.score,
      order.negtrans k.score j.score i.score,
      order.negtrans j.score k.score i.score,
      order.negtrans j.score i.score k.score,
      order.negtrans i.score j.score k.score,
      order.negtrans i.score k.score j.score,
    );
    tie = λ i j k h. ground (
      arith,
      order.negtrans k.score i.score j.score,
      order.negtrans k.score j.score i.score,
      order.negtrans j.score i.score k.score,
      order.negtrans i.score j.score k.score,
    );
  }
