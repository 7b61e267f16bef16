-- ===== src/Search.antt =====
-- search/search.go (DocumentMatch) and search/sort.go: the matches of a search and the orders that
-- they are sorted by. A comparison is the sign of the source's int. `bytes.Compare` is the
-- lexicographic order of bytes, and scores are floats of a parameter `F`.
pub mod Order
pub mod Scores
pub mod Values
use Prim.Native.Nat.{compare, Ordering}
use bluge.Base.{
  ℕ, Bool, true, false, not, ◌&&◌, List, [], ◌∷◌, ◌++◌, map, Option, none, some, if◌then◌else◌,
  length, ◌==◌, ok, err,
}
use bluge.Base.Floats.{FloatOps}
pub use bluge.Base.{Bytes}
use bluge.Numeric.{float64_to_int64, new_prefix_coded_int64}

pub record DocumentMatch (F : Type 0) : Type 0 where
  pub number : ℕ
  pub hit_number : ℕ
  pub score : F
  pub sort_value : List Bytes

-- bytes.Compare
abbrev pub bytes_compare : Bytes → Bytes → Ordering
bytes_compare [] [] = Ordering.eq
bytes_compare [] (b ∷ s) = Ordering.lt
bytes_compare (a ∷ r) [] = Ordering.gt
bytes_compare (a ∷ r) (b ∷ s) = elim (compare a b) [
  | Ordering.eq ↦ bytes_compare r s
  | other ↦ other
]

-- The primary source of a sort: the score, or a value that a match may lack.
pub data Source (F : Type 0) : Type 0 where
  score_source : Source F
  text_source : (DocumentMatch F → Option Bytes) → Source F

-- A Sort as SortBy builds it: its source is wrapped in a MissingTextValueSource whose replacement
-- is the sortFirstLast over the same two flags.
pub record Sort (F : Type 0) : Type 0 where
  pub source : Source F
  pub desc : Bool
  pub missing_first : Bool

abbrev pub SortOrder : Type 0 → Type 0
SortOrder F = List (Sort F)

-- highTerm and lowTerm
abbrev pub high_term : Bytes
high_term = 0xff ∷ 0xff ∷ 0xff ∷ 0xff ∷ 0xff ∷ 0xff ∷ 0xff ∷ 0xff ∷ 0xff ∷ 0xff ∷ []

abbrev pub low_term : Bytes
low_term = 0x00 ∷ []

-- sortFirstLast.Value
unfoldable pub sort_first_last : Bool → Bool → Bytes
sort_first_last desc first =
    if desc && first
    then high_term
    else if desc
    then low_term
    else if first
    then low_term
    else high_term

abbrev pub negate : Ordering → Ordering
negate Ordering.lt = Ordering.gt
negate Ordering.eq = Ordering.eq
negate Ordering.gt = Ordering.lt

-- The head of the values that are left. `Compute` gives a match one value for each entry of the
-- order, so the indices of the source are in range; past the end the model reads nil.
abbrev pub first_value : List Bytes → Bytes
first_value [] = []
first_value (v ∷ rest) = v

abbrev pub other_values : List Bytes → List Bytes
other_values [] = []
other_values (v ∷ rest) = rest

-- The loop of SortOrder.Compare, over the flags `desc` of the order.
unfoldable pub compare_values : List Bool → List Bytes → List Bytes → Ordering
compare_values [] i j = Ordering.eq
compare_values (desc ∷ o) i j = elim (bytes_compare (first_value i) (first_value j)) [
  | Ordering.eq ↦ compare_values o (other_values i) (other_values j)
  | c ↦ if desc then negate c else c
]

module _ {F : Type 0} where
  unfoldable pub compare_hit_number : DocumentMatch F → DocumentMatch F → Ordering
  compare_hit_number i j = compare i.hit_number j.hit_number

  -- SortOrder.Reverse
  unfoldable pub reverse_order : SortOrder F → SortOrder F
  reverse_order =
      map {A = Sort F} (λ s. record s { desc = not s.desc; missing_first = not s.missing_first })

  -- SortOrder.IsScoreDescending
  unfoldable pub is_score_descending : SortOrder F → Bool
  is_score_descending [] = false
  is_score_descending (s ∷ []) =
      if not s.desc then false else elim s.source [ score_source ↦ true | text_source v ↦ false ]
  is_score_descending (s ∷ t ∷ rest) = false

  unfoldable pub sort_compare : SortOrder F → DocumentMatch F → DocumentMatch F → Ordering
  unfolding compare_values compare_hit_number
  sort_compare o i j = elim (compare_values (map (λ s. s.desc) o) i.sort_value j.sort_value) [
    | Ordering.eq ↦ compare_hit_number i j
    | c ↦ c
  ]

  module _ (f : FloatOps F) where
    unfoldable pub compare_score : DocumentMatch F → DocumentMatch F → Ordering
    unfolding compare_hit_number
    compare_score i j =
        if f.lt j.score i.score
        then Ordering.lt
        else if f.lt i.score j.score
        then Ordering.gt
        else compare_hit_number i j

  -- `float64_bits` is math.Float64bits.
  module _ (float64_bits : F → ℕ) where
    -- ScoreSource.Value of a score. MustNewPrefixCodedInt64 panics on an error, and at the shift 0
    -- there is none.
    unfoldable pub score_value : F → Bytes
    unfolding float64_to_int64 new_prefix_coded_int64
    score_value score = elim (new_prefix_coded_int64 (float64_to_int64 (float64_bits score)) 0) [
      | ok term ↦ term
      | err e ↦ []
    ]

    unfoldable pub primary_value : Source F → DocumentMatch F → Option Bytes
    unfolding score_value
    primary_value score_source d = some (score_value d.score)
    primary_value (text_source v) d = v d

    -- Sort.Value: MissingTextValueSource.Value
    unfoldable pub sort_value_of : Sort F → DocumentMatch F → Bytes
    unfolding primary_value sort_first_last
    sort_value_of s d = elim (primary_value s.source d) [
      | none ↦ sort_first_last s.desc s.missing_first
      | some v ↦ v
    ]

    -- SortOrder.Compute
    unfoldable pub compute : SortOrder F → DocumentMatch F → DocumentMatch F
    unfolding sort_value_of
    compute o d = record d { sort_value = map (λ s. sort_value_of s d) o }
