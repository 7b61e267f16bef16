-- ===== src/Searcher/Boolean.antt =====
-- search/searcher/search_boolean.go: BooleanSearcher yields the documents of its must searcher that the
-- must-not searcher does not match, and that the should searcher matches if its Min is not 0. Without
-- a must searcher the should searcher takes its place. A searcher that is nil is `none`. The loop
-- takes fuel, and `none` means that it ran out.
pub mod Turns
pub mod Should
pub mod Candidates
pub mod Correct
pub mod Trailing
pub mod Advance
use bluge.Base.{
  ℕ, zero, suc, Bool, true, false, List, [], ◌∷◌, Option, none, some, Result, ok, err, ◌>>=◌, ltb,
  leb, ◌==◌, if◌then◌else◌,
}
use bluge.Searcher.{Match, Searcher, Child, next_child, advance_child, build_document_match}

pub record Boolean (F S : Type 0) : Type 0 where
  pub must : Option (Child F S)
  pub should : Option (Child F S)
  pub must_not : Option (Child F S)
  pub current_match : Option (Match F)
  pub initialized : Bool
  pub done : Bool

module _ {F S : Type 0} where
  -- `currMust`, `currShould` and `currMustNot`: nil for a nil searcher.
  abbrev pub curr_of : Option (Child F S) → Option (Match F)
  curr_of none = none
  curr_of (some c) = c.curr

  -- The match that the end of initSearchers, advanceNextMust and advanceIfTrailing takes.
  abbrev pub base_curr : Option (Child F S) → Option (Child F S) → Option (Match F)
  base_curr none should = curr_of should
  base_curr (some c) should = c.curr

  abbrev pub set_current : Boolean F S → Boolean F S
  set_current b = record b { current_match = base_curr b.must b.should }

  -- The constituents of a match of the should searcher too, and of one without it.
  abbrev pub build_constituents : Boolean F S → List (Match F)
  build_constituents b = elim (curr_of b.must) [
    | some m ↦ elim (curr_of b.should) [ some k ↦ m ∷ k ∷ [] | none ↦ m ∷ [] ]
    | none ↦ elim (curr_of b.should) [ some k ↦ k ∷ [] | none ↦ [] ]
  ]

  abbrev pub must_alone : Boolean F S → List (Match F)
  must_alone b = elim (curr_of b.must) [ some m ↦ m ∷ [] | none ↦ [] ]

module _ {F E S : Type 0} (searcher : Searcher F E S) (score : List (Match F) → F) (min : ℕ) where
  abbrev pub next_if : Option (Child F S) → Result E (Option (Child F S))
  next_if none = ok none
  next_if (some c) = next_child searcher c >>= λ c'. ok (some c')

  abbrev pub advance_if : ℕ → Option (Child F S) → Result E (Option (Child F S))
  advance_if n none = ok none
  advance_if n (some c) = advance_child searcher n c >>= λ c'. ok (some c')

  unfoldable pub init_boolean : Boolean F S → Result E (Boolean F S)
  unfolding next_child
  init_boolean b = next_if b.must >>= λ must. next_if b.should >>= λ should.
      next_if b.must_not >>= λ must_not. ok (
        set_current
          (record b { must = must; should = should; must_not = must_not; initialized = true }))

  -- advanceNextMust
  unfoldable pub advance_next_must : Boolean F S → Result E (Boolean F S)
  unfolding next_child
  advance_next_must b = elim b.must [
    | some c ↦ next_child searcher c >>= λ c'. ok (set_current (record b { must = some c' }))
    | none ↦ next_if b.should >>= λ should. ok (set_current (record b { should = should }))
  ]

  -- What a candidate ends with: a match, or nil for the next turn.
  abbrev pub Outcome : Type 0
  Outcome = Result E (Option (Match F) × Boolean F S)

  unfoldable pub take_match : Boolean F S → List (Match F) → Outcome
  unfolding advance_next_must build_document_match
  take_match b constituents =
      advance_next_must b >>= λ b'. ok (build_document_match score constituents, b')

  unfoldable pub skip_match : Boolean F S → Outcome
  unfolding advance_next_must
  skip_match b = advance_next_must b >>= λ b'. ok (none, b')

  -- The match is OK where the should searcher is nil or optional.
  unfoldable pub without_should : Boolean F S → Outcome
  unfolding take_match skip_match
  without_should b = elim b.should [
    | none ↦ take_match b (must_alone b)
    | some c ↦ elim (min == 0) [ true ↦ take_match b (must_alone b) | false ↦ skip_match b ]
  ]

  abbrev pub is_at : ℕ → Option (Match F) → Bool
  is_at n none = false
  is_at n (some m) = m.number == n

  -- The rest of a turn of nextInternal, for the candidate `n`.
  unfoldable pub match_should : Boolean F S → ℕ → Outcome
  unfolding without_should advance_child
  match_should b n = elim b.should [
    | none ↦ without_should b
    | some c ↦ elim c.curr [
      | none ↦ without_should b
      | some k ↦ elim (ltb k.number n) [
        | true ↦ advance_child searcher n c >>= λ c'.
            let b' = record b { should = some c' } in
            elim (is_at n c'.curr) as (λ x. Outcome) [
              | true ↦ take_match b' (build_constituents b')
              | false ↦ without_should b'
            ]
        | false ↦ elim (k.number == n) [
          | true ↦ take_match b (build_constituents b)
          | false ↦ without_should b
        ]
      ]
    ]
  ]

  -- A turn of nextInternal, doesMustNotExcludeCandidate first.
  unfoldable pub candidate : Boolean F S → ℕ → Outcome
  unfolding match_should
  candidate b n = elim b.must_not [
    | none ↦ match_should b n
    | some c ↦ elim c.curr [
      | none ↦ match_should b n
      | some k ↦ elim (ltb k.number n) [
        | true ↦ advance_child searcher n c >>= λ c'.
            let b' = record b { must_not = some c' } in
            elim (is_at n c'.curr) as (λ x. Outcome) [
              | true ↦ skip_match b'
              | false ↦ match_should b' n
            ]
        | false ↦ elim (k.number == n) [ true ↦ skip_match b | false ↦ match_should b n ]
      ]
    ]
  ]

  unfoldable pub next_internal : ℕ → Boolean F S → Option Outcome
  unfolding candidate
  next_internal zero b = none
  next_internal (suc fuel) b = elim b.current_match [
    | none ↦ some (ok (none, b))
    | some m ↦ elim (candidate b m.number) [
      | err e ↦ some (err e)
      | ok (some rv, b') ↦ some (ok (some rv, b'))
      | ok (none, b') ↦ next_internal fuel b'
    ]
  ]

  abbrev pub mark_done : Outcome → Outcome
  mark_done (err e) = err e
  mark_done (ok (some m, b)) = ok (some m, b)
  mark_done (ok (none, b)) = ok (none, record b { done = true })

  unfoldable pub boolean_next : ℕ → Boolean F S → Option Outcome
  unfolding next_internal init_boolean
  boolean_next fuel b = elim b.done [
    | true ↦ some (ok (none, b))
    | false ↦ elim (if b.initialized then ok b else init_boolean b) [
      | err e ↦ some (err e)
      | ok b' ↦ elim (next_internal fuel b') [ none ↦ none | some r ↦ some (mark_done r) ]
    ]
  ]

  -- advanceIfTrailing
  unfoldable pub advance_if_trailing : Boolean F S → ℕ → Result E (Boolean F S)
  unfolding advance_child
  advance_if_trailing b n =
      let behind : Bool = elim (curr_of b.must_not) [ none ↦ true | some k ↦ ltb k.number n ] in
      advance_if n b.must >>= λ must. advance_if n b.should >>= λ should.
      (if behind then advance_if n b.must_not else ok b.must_not) >>= λ must_not.
      ok (set_current (record b { must = must; should = should; must_not = must_not }))

  unfoldable pub boolean_advance : ℕ → Boolean F S → ℕ → Option Outcome
  unfolding boolean_next advance_if_trailing
  boolean_advance fuel b n = elim b.done [
    | true ↦ some (ok (none, b))
    | false ↦
        elim ((if b.initialized then ok b else init_boolean b) >>= λ b'.
        let trails : Bool = elim b'.current_match [ none ↦ true | some m ↦ ltb m.number n ] in
        if trails then advance_if_trailing b' n else ok b') [
          | err e ↦ some (err e)
          | ok b' ↦ boolean_next fuel b'
        ]
  ]
