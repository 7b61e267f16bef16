-- ===== src/Searcher/Boolean/Advance.antt =====
-- Advance of the boolean searcher, over searchers that list their matches.
use bluge.Base.{
  ℕ, ◌≤◌, ◌<◌, ◌≡◌, ◌∙◌, sym, subst, Bool, true, false, not, ◌&&◌, List, Option, none, some, Result,
  ok, ltb, length, arith, Option-cases, Bool-cases, inl, inr,
}
use bluge.Searcher.{Match, Searcher}
use bluge.Searcher.Contract.{Lists}
use bluge.Searcher.First.{IsFirst, IsFirst_same}
use bluge.Searcher.Boolean.{Boolean, boolean_next, boolean_advance}
use bluge.Searcher.Boolean.Turns.{base, wants, IsReady, base_before}
use bluge.Searcher.Boolean.Trailing.{
  IsBehind, IsSettledIf, trailing, advance_if_trailing_lem, trailing-IsReady, wants-trailing,
  length-trailing,
}
use bluge.Searcher.Boolean.Correct.{IsNext, boolean_next-IsNext}

module _ {F E S : Type 0} (searcher : Searcher F E S) (score : List (Match F) → F) (min : ℕ)
    (lists : Lists searcher) where
  -- The current match of the must searcher trails when the current match does.
  IsBehind-must :
      (n : ℕ) (b : Boolean F S)
      → IsReady searcher score min lists b
      → IsSettledIf searcher score min lists b.must
      → ((m : Match F) → b.current_match ≡ some m → m.number < n)
      → IsBehind searcher score min lists n b.must
  IsBehind-must n b r s l = elim (Option-cases b.must) [
    | inl d ↦ subst (IsBehind searcher score min lists n) (sym d) tt
    | inr (c, d) ↦ subst (IsBehind searcher score min lists n) (sym d) (elim (Option-cases c.curr) [
      | inl f ↦ inl (f, subst (IsSettledIf searcher score min lists) d s f)
      | inr (m, f) ↦ inr (m, f, l m (ground (arith, r.current, d, f)))
    ])
  ]

  -- Where the current match does not trail, nothing before `n` is wanted.
  wants_ahead :
      (n j : ℕ) (b : Boolean F S) (m : Match F)
      → IsReady searcher score min lists b
      → b.current_match ≡ some m
      → n ≤ m.number
      → wants searcher score min lists b j ≡ (not (ltb j n) && wants searcher score min lists b j)
  wants_ahead n j b m r e l = elim (Bool-cases (ltb j n)) [
    | inl p ↦ ground (
      arith,
      p,
      base_before searcher score min lists b m j r (sym r.current ∙ e) (ground (arith, p, l)),
    )
    | inr p ↦ ground (arith, p)
  ]

  pub record IsAdvanced (n : ℕ) (b : Boolean F S)
      (r : Option (Result E (Option (Match F) × Boolean F S))) : Type 0 where
    pub match : Option (Match F)
    pub after : Boolean F S
    pub returns : r ≡ some (ok (match, after))
    pub ready : IsReady searcher score min lists after
    pub first :
        IsFirst
          (λ j. not (ltb j n) && wants searcher score min lists b j)
          match
          (wants searcher score min lists after)

  from_next :
      (n : ℕ) (b b' : Boolean F S) (r r' : Option (Result E (Option (Match F) × Boolean F S)))
      → r' ≡ r
      → ((j : ℕ)
          → wants searcher score min lists b' j
            ≡ (not (ltb j n) && wants searcher score min lists b j))
      → IsNext searcher score min lists b' r'
      → IsAdvanced n b r
  from_next n b b' r r' e same next = record {
    match = next.match;
    after = next.after;
    returns = sym e ∙ next.returns;
    ready = next.ready;
    first =
        IsFirst_same (λ j. not (ltb j n) && wants searcher score min lists b j)
          (wants searcher score min lists b') (wants searcher score min lists next.after) next.match
          same next.first;
  }

  -- Under the conditions of Next, if a must or must-not searcher with a nil current match has
  -- nothing left, and the should searcher is nil, behind the number or at its end with nothing
  -- left, Advance returns the first document from the number on of those that Next would still
  -- return, leaves exactly the later ones, and returns nil if there is none.
  pub boolean_advance-IsAdvanced :
      (fuel n : ℕ) (b : Boolean F S)
      → IsReady searcher score min lists b
      → IsSettledIf searcher score min lists b.must
      → IsBehind searcher score min lists n b.should
      → IsSettledIf searcher score min lists b.must_not
      → b.initialized ≡ true
      → b.done ≡ false
      → length (base searcher score min lists b) < fuel
      → IsAdvanced n b (boolean_advance searcher score min fuel b n)
  unfolding boolean_advance trailing
  boolean_advance-IsAdvanced fuel n b r p q s i d l = elim (Option-cases b.current_match) [
    | inl e ↦ trails (λ m f. absurd (ground (arith, e, f))) (ground (arith, e))
    | inr (m, e) ↦ elim (Bool-cases (ltb m.number n)) [
      | inl a ↦ trails (λ x f. ground (arith, a, e, f)) (ground (arith, e, a))
      | inr a ↦
          from_next n b b (boolean_advance searcher score min fuel b n)
            (boolean_next searcher score min fuel b) (ground (arith, i, d, e, a))
            (λ j. wants_ahead n j b m r e (ground (arith, a)))
            (boolean_next-IsNext searcher score min lists fuel b r i d l)
    ]
  ]
    where
      trails :
          ((m : Match F) → b.current_match ≡ some m → m.number < n)
          → elim b.current_match as (λ x. Bool) [ none ↦ true | some m ↦ ltb m.number n ] ≡ true
          → IsAdvanced n b (boolean_advance searcher score min fuel b n)
      trails h t =
          let p' = IsBehind-must n b r p h in
          let b' = trailing searcher score min lists n b in
          from_next n b b' (boolean_advance searcher score min fuel b n)
            (boolean_next searcher score min fuel b')
            (ground (arith, i, d, t, advance_if_trailing_lem searcher score min lists n b))
            (wants-trailing searcher score min lists n b r p' q s)
            (boolean_next-IsNext searcher score min lists fuel b'
              (trailing-IsReady searcher score min lists n b r p' q s) i d
              (omega (arith, l, length-trailing searcher score min lists n b r p' q s)))
