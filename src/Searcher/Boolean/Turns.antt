-- ===== src/Searcher/Boolean/Turns.antt =====
-- What a turn of the boolean searcher does to the documents that it still has to yield.
use bluge.Base.{
  ℕ, ◌<◌, ◌≡◌, refl, sym, subst, Bool, true, false, not, ◌&&◌, ◌||◌, List, [], ◌∷◌, Option, none,
  some, Result, ok, ltb, ◌==◌, length, arith, Option-cases, Bool-cases, inl, inr,
}
use bluge.Searcher.{Match, Searcher, Child, build_document_match}
use bluge.Searcher.Contract.{Lists, has, IsAscending}
use bluge.Searcher.Moves.{
  pending, moved, next_child_lem, IsAscending-moved, has-pending_at, has-pending_before,
  has-pending-moved, length-pending-moved,
}
use bluge.Searcher.Boolean.{
  Boolean, base_curr, set_current, advance_next_must, take_match, skip_match, without_should,
}

module _ {F E S : Type 0} (searcher : Searcher F E S) (score : List (Match F) → F) (min : ℕ)
    (lists : Lists searcher) where
  -- What a searcher has left, nothing for a nil one.
  abbrev pub left : Option (Child F S) → List (Match F)
  left none = []
  left (some c) = pending searcher lists c

  -- What the searcher that the candidates come from has left.
  abbrev pub base : Boolean F S → List (Match F)
  base b = elim b.must [ some c ↦ pending searcher lists c | none ↦ left b.should ]

  abbrev pub is_optional : Option (Child F S) → Bool
  is_optional none = true
  is_optional (some c) = min == 0

  -- Whether the query matches the document, among those that are left.
  abbrev pub wants : Boolean F S → ℕ → Bool
  wants b j =
      has j (base b)
      && not (has j (left b.must_not))
      && (is_optional b.should || has j (left b.should))

  pub record IsReady (b : Boolean F S) : Type 0 where
    pub must : IsAscending (left b.must)
    pub should : IsAscending (left b.should)
    pub must_not : IsAscending (left b.must_not)
    pub current : b.current_match ≡ base_curr b.must b.should

  -- Everything up to `n` is consumed, the rest is wanted as before.
  pub record Passes (n : ℕ) (b b' : Boolean F S) : Type 0 where
    pub ready : IsReady b'
    pub later : (j : ℕ) → wants b' j ≡ (ltb n j && wants b j)
    pub shrinks : length (base b') < length (base b)

  passed : Boolean F S → Boolean F S
  passed b = elim b.must [
    | some c ↦ set_current (record b { must = some (moved searcher lists c) })
    | none ↦ elim b.should [
      | some c ↦ set_current (record b { should = some (moved searcher lists c) })
      | none ↦ b
    ]
  ]

  Passes-must :
      (c : Child F S) (b : Boolean F S) (m : Match F)
      → IsReady b
      → b.must ≡ some c
      → c.curr ≡ some m
      → Passes m.number b (set_current (record b { must = some (moved searcher lists c) }))
  Passes-must c b m r e f =
      let asc : IsAscending (pending searcher lists c) =
        subst (λ x. IsAscending (left x)) e r.must in
      record {
        ready = record {
          must = IsAscending-moved searcher lists c;
          should = r.should;
          must_not = r.must_not;
          current = refl;
        };
        later = λ j. ground (arith, e, has-pending-moved searcher lists c m f j asc);
        shrinks = ground (arith, e, length-pending-moved searcher lists c m f);
      }

  Passes-should :
      (c : Child F S) (b : Boolean F S) (m : Match F)
      → IsReady b
      → b.must ≡ none
      → b.should ≡ some c
      → c.curr ≡ some m
      → Passes m.number b (set_current (record b { should = some (moved searcher lists c) }))
  Passes-should c b m r d e f =
      let asc : IsAscending (pending searcher lists c) =
        subst (λ x. IsAscending (left x)) e r.should in
      record {
        ready = record {
          must = subst (λ x. IsAscending (left x)) (sym d) tt;
          should = IsAscending-moved searcher lists c;
          must_not = r.must_not;
          current = refl;
        };
        later = λ j. ground (arith, d, e, has-pending-moved searcher lists c m f j asc);
        shrinks = ground (arith, d, e, length-pending-moved searcher lists c m f);
      }

  -- advanceNextMust passes the candidate.
  pub advance_next_must-Passes :
      (b : Boolean F S) (m : Match F)
      → IsReady b
      → base_curr b.must b.should ≡ some m
      → (b' : Boolean F S) × (advance_next_must searcher score min b ≡ ok b') × Passes m.number b b'
  unfolding advance_next_must
  advance_next_must-Passes b m r h = elim (Option-cases b.must) [
    | inr (c, e) ↦ (
      _,
      ground (arith, e, next_child_lem searcher lists c),
      Passes-must c b m r e (ground (arith, e, h)),
    )
    | inl d ↦ elim (Option-cases b.should) [
      | inl e ↦ absurd (ground (arith, d, e, h))
      | inr (c, e) ↦ (
        _,
        ground (arith, d, e, next_child_lem searcher lists c),
        Passes-should c b m r d e (ground (arith, d, e, h)),
      )
    ]
  ]

  -- Whether the candidate is what a turn says it is.
  abbrev pub IsJudged : Boolean F S → ℕ → Option (Match F) → Type 0
  IsJudged b n none = wants b n ≡ false
  IsJudged b n (some m) = (m.number ≡ n) × (wants b n ≡ true)

  -- A turn judges the candidate and passes it.
  pub record Turned (n : ℕ) (b : Boolean F S) (r : Result E (Option (Match F) × Boolean F S))
      : Type 0 where
    pub found : Option (Match F)
    pub after : Boolean F S
    pub returns : r ≡ ok (found, after)
    pub judged : IsJudged b n found
    pub passes : Passes n b after

  pub skip_match-Turned :
      (b : Boolean F S) (m : Match F)
      → IsReady b
      → base_curr b.must b.should ≡ some m
      → wants b m.number ≡ false
      → Turned m.number b (skip_match searcher score min b)
  unfolding skip_match
  skip_match-Turned b m r h w =
      let (b', e, p) = advance_next_must-Passes b m r h in
      record { found = none; after = b'; returns = ground (arith, e); judged = w; passes = p }

  pub take_match-Turned :
      (b : Boolean F S) (m x : Match F) (xs : List (Match F))
      → IsReady b
      → base_curr b.must b.should ≡ some m
      → wants b m.number ≡ true
      → x.number ≡ m.number
      → Turned m.number b (take_match searcher score min b (x ∷ xs))
  unfolding take_match build_document_match
  take_match-Turned b m x xs r h w same =
      let (b', e, p) = advance_next_must-Passes b m r h in
      record {
        found = some (record x { score = score (x ∷ xs) });
        after = b';
        returns = ground (arith, e);
        judged = (same, w);
        passes = p;
      }

  -- The candidate is left in the base.
  pub base_at :
      (b : Boolean F S) (m : Match F)
      → base_curr b.must b.should ≡ some m
      → has m.number (base b) ≡ true
  base_at b m h = elim (Option-cases b.must) [
    | inr (c, e) ↦ ground (arith, e, h, has-pending_at searcher lists c m)
    | inl d ↦ elim (Option-cases b.should) [
      | inl e ↦ absurd (ground (arith, d, e, h))
      | inr (c, e) ↦ ground (arith, d, e, h, has-pending_at searcher lists c m)
    ]
  ]

  -- Nothing is left in the base before the candidate.
  pub base_before :
      (b : Boolean F S) (m : Match F) (j : ℕ)
      → IsReady b
      → base_curr b.must b.should ≡ some m
      → j < m.number
      → has j (base b) ≡ false
  base_before b m j r h l = elim (Option-cases b.must) [
    | inr (c, e) ↦
        let asc : IsAscending (pending searcher lists c) =
          subst (λ x. IsAscending (left x)) e r.must in
        ground (arith, e, h, has-pending_before searcher lists c m (ground (arith, e, h)) j asc l)
    | inl d ↦ elim (Option-cases b.should) [
      | inl e ↦ absurd (ground (arith, d, e, h))
      | inr (c, e) ↦
          let asc : IsAscending (pending searcher lists c) =
            subst (λ x. IsAscending (left x)) e r.should in
          ground (
            arith,
            d,
            e,
            h,
            has-pending_before searcher lists c m (ground (arith, d, e, h)) j asc l,
          )
    ]
  ]

  pub without_should-Turned :
      (b : Boolean F S) (m : Match F)
      → IsReady b
      → base_curr b.must b.should ≡ some m
      → has m.number (left b.must_not) ≡ false
      → has m.number (left b.should) ≡ false
      → Turned m.number b (without_should searcher score min b)
  unfolding without_should
  without_should-Turned b m r h n s = elim (Option-cases b.must) [
    | inl d ↦ elim (Option-cases b.should) [
      | inl e ↦ absurd (ground (arith, d, e, h))
      | inr (c, e) ↦ absurd (ground (arith, d, e, h, s, has-pending_at searcher lists c m))
    ]
    | inr (c, d) ↦
        let at = base_at b m h in
        let f : c.curr ≡ some m = ground (arith, d, h) in
        let taken = λ (w : wants b m.number ≡ true). take_match-Turned b m m [] r h w refl in
        elim (Option-cases b.should) [
          | inl e ↦
              subst (Turned m.number b) (ground (arith, d, e, f)) (taken (ground (arith, at, e, n)))
          | inr (k, e) ↦ elim (Bool-cases (min == 0)) [
            | inl z ↦
                subst (Turned m.number b) (ground (arith, d, e, f, z))
                  (taken (ground (arith, at, e, n, z)))
            | inr z ↦
                subst (Turned m.number b) (ground (arith, d, e, z))
                  (skip_match-Turned b m r h (ground (arith, at, e, n, s, z)))
          ]
        ]
  ]
