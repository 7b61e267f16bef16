-- ===== src/Searcher/First.antt =====
-- What Next of a searcher returns, told by the documents that its query matches: the first of those
-- that are left, and nil when none is.
use bluge.Base.{
  ℕ, ◌≡◌, ◌<◌, ap, sym, ◌∙◌, Bool, true, false, ◌&&◌, Option, none, some, ltb, ◌==◌, arith,
  Bool-cases, inl, inr,
}
use bluge.Searcher.{Match}

module _ {F : Type 0} where
  -- `wants` tells the documents that are left before the call, `after` those after it.
  abbrev pub IsFirst : (ℕ → Bool) → Option (Match F) → (ℕ → Bool) → Type 0
  IsFirst wants none after = (j : ℕ) → wants j ≡ false
  IsFirst wants (some m) after =
      (wants m.number ≡ true)
      × ((j : ℕ) → j < m.number → wants j ≡ false)
      × ((j : ℕ) → after j ≡ (ltb m.number j && wants j))

-- `later` is `wants` after `n`, where nothing is wanted up to `n`.
pub record IsPassed (n : ℕ) (wants later : ℕ → Bool) : Type 0 where
  pub before : (j : ℕ) → j < n → wants j ≡ false
  pub at : wants n ≡ false
  pub rest : (j : ℕ) → later j ≡ (ltb n j && wants j)

pub passed_same : (n j : ℕ) (wants later : ℕ → Bool) → IsPassed n wants later → later j ≡ wants j
passed_same n j wants later p = elim (Bool-cases (ltb n j)) [
  | inl b ↦ ground (arith, p.rest j, b)
  | inr b ↦ elim (Bool-cases (n == j)) [
    | inl e ↦
        let same : n ≡ j = ground (arith, e) in
        ground (arith, p.rest j, b, sym (ap wants same) ∙ p.at)
    | inr e ↦ ground (arith, p.rest j, b, p.before j (ground (arith, b, e)))
  ]
]

module _ {F : Type 0} where
  pub IsFirst_same :
      (wants wants' after : ℕ → Bool) (o : Option (Match F))
      → ((j : ℕ) → wants' j ≡ wants j)
      → IsFirst wants' o after
      → IsFirst wants o after
  IsFirst_same wants wants' after none same h = λ j. ground (arith, h j, same j)
  IsFirst_same wants wants' after (some m) same h = (
    ground (arith, same m.number, h.0),
    (λ j l. ground (arith, same j, h.1 j l)),
    λ j. ground (arith, same j, h.2 j),
  )

  -- What is first after a document that is not wanted is first.
  pub IsFirst-passed :
      (n : ℕ) (wants later after : ℕ → Bool) (o : Option (Match F))
      → IsPassed n wants later
      → IsFirst later o after
      → IsFirst wants o after
  IsFirst-passed n wants later after o p =
      IsFirst_same wants later after o (λ j. passed_same n j wants later p)
