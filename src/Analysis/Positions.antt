-- ===== src/Analysis/Positions.antt =====
-- The filters that drop tokens leave the others where they were.
use bluge.Base.{
  ℕ, ◌+◌, ◌≡◌, refl, Bool, true, false, not, ◌&&◌, ◌||◌, List, [], ◌∷◌, filterb, arith, length, leb,
  ◌==◌,
}
use bluge.Search.{Bytes}
use bluge.Analysis.{TokenStream, Utf8}
use bluge.Analysis.Filters.{
  is_wrong_length, length_loop, length_filter, stop_loop, stop_tokens_filter, encountered,
  unique_loop, unique_term_filter,
}

-- The terms with their positions, the increments summed from `p` on.
abbrev pub positions : ℕ → TokenStream → List (Bytes × ℕ)
positions p [] = []
positions p (token ∷ rest) =
    (token.term, p + token.position_incr) ∷ positions (p + token.position_incr) rest

module _ (drops : Bytes → Bool) where
  abbrev pub kept : Bytes × ℕ → Bool
  kept x = not (drops x.0)

stop_loop-positions :
    (drops : Bytes → Bool) (p skipped : ℕ) (xs : TokenStream)
    → positions p (stop_loop drops skipped xs) ≡ filterb (kept drops) (positions (p + skipped) xs)
unfolding stop_loop
stop_loop-positions drops p skipped [] = refl
stop_loop-positions drops p skipped (token ∷ rest) = ground (
  arith,
  stop_loop-positions drops p (skipped + token.position_incr) rest,
  stop_loop-positions drops (p + (token.position_incr + skipped)) 0 rest,
)

-- The stop filter drops the tokens whose term is a stop token and leaves every other token at its
-- position.
pub stop_tokens_filter-positions :
    (stop_tokens : Bytes → Bool) (input : TokenStream)
    → positions 0 (stop_tokens_filter stop_tokens input)
      ≡ filterb (kept stop_tokens) (positions 0 input)
unfolding stop_tokens_filter
stop_tokens_filter-positions stop_tokens input = stop_loop-positions stop_tokens 0 0 input

-- The term has at least `min` runes and at most `max`, where a limit of 0 is none.
abbrev pub is_within : Utf8 → ℕ → ℕ → Bytes × ℕ → Bool
is_within utf8 min max x =
    (min == 0 || leb min (length (utf8.runes x.0)))
    && (max == 0 || leb (length (utf8.runes x.0)) max)

length_loop-positions :
    (utf8 : Utf8) (min max p skipped : ℕ) (xs : TokenStream)
    → positions p (length_loop utf8 min max skipped xs)
      ≡ filterb (is_within utf8 min max) (positions (p + skipped) xs)
unfolding length_loop is_wrong_length
length_loop-positions utf8 min max p skipped [] = refl
length_loop-positions utf8 min max p skipped (token ∷ rest) = ground (
  arith,
  length_loop-positions utf8 min max p (skipped + token.position_incr) rest,
  length_loop-positions utf8 min max (p + token.position_incr) skipped rest,
  length_loop-positions utf8 min max (p + (token.position_incr + skipped)) 0 rest,
)

-- The length filter keeps exactly the tokens with at least `min` runes and at most `max`, where a
-- limit of 0 is none, each at its position.
pub length_filter-positions :
    (utf8 : Utf8) (min max : ℕ) (input : TokenStream)
    → positions 0 (length_filter utf8 min max input)
      ≡ filterb (is_within utf8 min max) (positions 0 input)
unfolding length_filter
length_filter-positions utf8 min max input = length_loop-positions utf8 min max 0 0 input

-- The first entry of each term, those of `terms` left out.
abbrev pub first_entries : List Bytes → List (Bytes × ℕ) → List (Bytes × ℕ)
first_entries terms [] = []
first_entries terms (x ∷ xs) = elim (encountered terms x.0) [
  | true ↦ first_entries terms xs
  | false ↦ x ∷ first_entries (x.0 ∷ terms) xs
]

unique_loop-positions :
    (terms : List Bytes) (p skipped : ℕ) (xs : TokenStream)
    → positions p (unique_loop terms skipped xs) ≡ first_entries terms (positions (p + skipped) xs)
unfolding unique_loop
unique_loop-positions terms p skipped [] = refl
unique_loop-positions terms p skipped (token ∷ rest) = ground (
  arith,
  unique_loop-positions terms p (skipped + token.position_incr) rest,
  unique_loop-positions (token.term ∷ terms) (p + (token.position_incr + skipped)) 0 rest,
)

-- No term is equal to a later one or to one of `terms`.
abbrev pub IsUnique : List Bytes → TokenStream → Type 0
IsUnique terms [] = Unit
IsUnique terms (token ∷ rest) =
    (encountered terms token.term ≡ false) × IsUnique (token.term ∷ terms) rest

unique_loop-IsUnique :
    (terms : List Bytes) (skipped : ℕ) (xs : TokenStream)
    → IsUnique terms (unique_loop terms skipped xs)
unfolding unique_loop
unique_loop-IsUnique terms skipped [] = tt
unique_loop-IsUnique terms skipped (token ∷ rest) = ground (
  arith,
  unique_loop-IsUnique terms (skipped + token.position_incr) rest,
  unique_loop-IsUnique (token.term ∷ terms) 0 rest,
)

-- The unique term filter keeps the first token of each term at its position, and no term occurs
-- twice in its output.
pub unique_term_filter-first :
    (input : TokenStream)
    → (positions 0 (unique_term_filter input) ≡ first_entries [] (positions 0 input))
      × IsUnique [] (unique_term_filter input)
unfolding unique_term_filter
unique_term_filter-first input =
    (unique_loop-positions [] 0 0 input, unique_loop-IsUnique [] 0 input)
