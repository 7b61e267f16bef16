-- ===== src/Searcher/Contract.antt =====
-- What a searcher promises: it yields an ascending list of matches, and Advance skips in it.
use bluge.Base.{
  ℕ, suc, ◌≤◌, ◌<◌, ◌≡◌, refl, Bool, true, false, ◌||◌, List, [], ◌∷◌, Option, none, some, ok,
  arith, ltb, ◌==◌, All, length,
}
use bluge.Searcher.{Match, Searcher}

module _ {F : Type 0} where
  abbrev pub head? : List (Match F) → Option (Match F)
  head? [] = none
  head? (m ∷ rest) = some m

  abbrev pub tail : List (Match F) → List (Match F)
  tail [] = []
  tail (m ∷ rest) = rest

  -- The matches from a document number on.
  abbrev pub from : ℕ → List (Match F) → List (Match F)
  from n [] = []
  from n (m ∷ rest) = elim (ltb m.number n) [ true ↦ from n rest | false ↦ m ∷ rest ]

  -- Whether a document is among the matches.
  abbrev pub has : ℕ → List (Match F) → Bool
  has n [] = false
  has n (m ∷ rest) = m.number == n || has n rest

  abbrev pub IsAscending : List (Match F) → Type 0
  IsAscending [] = Unit
  IsAscending (m ∷ rest) = All (λ x. m.number < x.number) rest × IsAscending rest

  -- Every match has a number of at least `n`.
  abbrev pub AllFrom : ℕ → List (Match F) → Type 0
  AllFrom n = All (λ x. n ≤ x.number)

  pub has-AllFrom : (n k : ℕ) (xs : List (Match F)) → AllFrom n xs → k < n → has k xs ≡ false
  has-AllFrom n k [] h l = refl
  has-AllFrom n k (m ∷ rest) h l = ground (arith, has-AllFrom n k rest h.1)

  pub AllFrom-le : (n k : ℕ) (xs : List (Match F)) → AllFrom n xs → k ≤ n → AllFrom k xs
  AllFrom-le n k [] h l = tt
  AllFrom-le n k (m ∷ rest) h l = (omega arith, AllFrom-le n k rest h.1 l)

  pub AllFrom-tail :
      (m : Match F) (rest : List (Match F))
      → All (λ x. m.number < x.number) rest
      → AllFrom (suc m.number) rest
  AllFrom-tail m rest h = h

  pub from-AllFrom : (n : ℕ) (xs : List (Match F)) → IsAscending xs → AllFrom n (from n xs)
  from-AllFrom n [] h = tt
  from-AllFrom n (m ∷ rest) h =
      ground (arith, from-AllFrom n rest h.1, AllFrom-le (suc m.number) n rest h.0)

  pub from-IsAscending : (n : ℕ) (xs : List (Match F)) → IsAscending xs → IsAscending (from n xs)
  from-IsAscending n [] h = tt
  from-IsAscending n (m ∷ rest) h = ground (arith, from-IsAscending n rest h.1)

  pub from-id : (n : ℕ) (xs : List (Match F)) → AllFrom n xs → from n xs ≡ xs
  from-id n [] h = refl
  from-id n (m ∷ rest) h = ground arith

  pub has-from : (n k : ℕ) (xs : List (Match F)) → n ≤ k → has k (from n xs) ≡ has k xs
  has-from n k [] l = refl
  has-from n k (m ∷ rest) l = ground (arith, has-from n k rest l)

  pub length-from : (n : ℕ) (xs : List (Match F)) → length (from n xs) ≤ length xs
  length-from n [] = omega arith
  length-from n (m ∷ rest) = ground (arith, length-from n rest)

module _ {F E S : Type 0} where
  -- A searcher that lists `view s`: its errors aside, Next takes the first match and Advance drops
  -- what lies before the number first.
  pub record Lists (searcher : Searcher F E S) : Type 0 where
    pub view : S → List (Match F)
    pub ascending : (s : S) → IsAscending (view s)
    pub next_to : S → S
    pub next_lem : (s : S) → searcher.next s ≡ ok (head? (view s), next_to s)
    pub next_view : (s : S) → view (next_to s) ≡ tail (view s)
    pub advance_to : S → ℕ → S
    pub advance_lem :
        (s : S) (n : ℕ) → searcher.advance s n ≡ ok (head? (from n (view s)), advance_to s n)
    pub advance_view : (s : S) (n : ℕ) → view (advance_to s n) ≡ tail (from n (view s))
