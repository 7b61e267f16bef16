-- ===== src/Searcher/Boolean/Should.antt =====
-- A candidate that is not excluded is judged by the should searcher.
use bluge.Base.{
  ℕ, ◌≤◌, ◌<◌, ◌≡◌, refl, ◌∙◌, sym, subst, true, false, List, [], ◌∷◌, Option, none, some, Result,
  ltb, ◌==◌, length, arith, Option-cases, Bool-cases, inl, inr,
}
use bluge.Searcher.{Match, Searcher, Child}
use bluge.Searcher.Contract.{Lists, has, IsAscending}
use bluge.Searcher.Moves.{
  pending, advanced, advance_child_lem, IsAscending-advanced, has-pending_at, has-pending_before,
  has-pending-advanced, has-pending-none,
}
use bluge.Searcher.Boolean.{Boolean, base_curr, take_match, without_should, is_at, match_should}
use bluge.Searcher.Boolean.Turns.{
  left, base, wants, IsReady, Turned, take_match-Turned, base_at, base_before,
  without_should-Turned,
}

module _ {F E S : Type 0} (searcher : Searcher F E S) (score : List (Match F) → F) (min : ℕ)
    (lists : Lists searcher) where
  -- After an Advance to `n`, the current match tells whether `n` is left.
  pub has-advanced_at :
      (c : Child F S) (k : Match F) (n : ℕ)
      → c.curr ≡ some k
      → k.number < n
      → has n (pending searcher lists (advanced searcher lists n c))
        ≡ is_at searcher score min n (advanced searcher lists n c).curr
  has-advanced_at c k n e l =
      let c' = advanced searcher lists n c in
      elim (Option-cases c'.curr) [
        | inl f ↦ ground (arith, f, has-pending-none searcher lists c' n f)
        | inr (x, f) ↦
            let at = has-pending_at searcher lists c' x f in
            let ge : n ≤ x.number =
              ground (arith, at, has-pending-advanced searcher lists c k e n x.number l) in
            elim (Bool-cases (x.number == n)) [
              | inl b ↦ ground (arith, f, b, at)
              | inr b ↦
                  let lt : n < x.number = ground (arith, ge, b) in
                  ground (
                    arith,
                    f,
                    b,
                    has-pending_before searcher lists c' x f n
                        (IsAscending-advanced searcher lists n c) lt,
                  )
            ]
      ]

  -- A turn may be counted from a state with the same documents.
  pub Turned-same :
      (n : ℕ) (b b' : Boolean F S) (r : Result E (Option (Match F) × Boolean F S))
      → ((j : ℕ) → wants searcher score min lists b' j ≡ wants searcher score min lists b j)
      → length (base searcher score min lists b') ≡ length (base searcher score min lists b)
      → Turned searcher score min lists n b' r
      → Turned searcher score min lists n b r
  Turned-same n b b' r same size t = record {
    found = t.found;
    after = t.after;
    returns = t.returns;
    judged = go t.found t.judged;
    passes = record {
      ready = t.passes.ready;
      later = λ j. ground (arith, t.passes.later j, same j);
      shrinks = omega (arith, t.passes.shrinks, size);
    };
  }
    where
      go :
          (o : Option (Match F))
          → (elim o as (λ x. Type 0) [
            | none ↦ wants searcher score min lists b' n ≡ false
            | some m ↦ (m.number ≡ n) × (wants searcher score min lists b' n ≡ true)
          ])
          → (elim o as (λ x. Type 0) [
            | none ↦ wants searcher score min lists b n ≡ false
            | some m ↦ (m.number ≡ n) × (wants searcher score min lists b n ≡ true)
          ])
      go none h = sym (same n) ∙ h
      go (some m) h = (h.0, sym (same n) ∙ h.1)

  module _ (b : Boolean F S) (m : Match F) (r : IsReady searcher score min lists b)
      (h : base_curr b.must b.should ≡ some m) where
    -- The should searcher after an Advance to the candidate.
    should_advanced : Child F S → Boolean F S
    should_advanced c = record b { should = some (advanced searcher lists m.number c) }

    module _ (c : Child F S) (k : Match F) (f : c.curr ≡ some k) where
      should_same :
          (p : Child F S)
          → b.must ≡ some p
          → b.should ≡ some c
          → k.number < m.number
          → (j : ℕ)
          → wants searcher score min lists (should_advanced c) j
            ≡ wants searcher score min lists b j
      unfolding should_advanced
      should_same p d e l j = ground (
        arith,
        d,
        e,
        base_before searcher score min lists b m j r h,
        has-pending-advanced searcher lists c k f m.number j l,
      )

    module _ (n : has m.number (left searcher score min lists b.must_not) ≡ false) where
      -- The should searcher is advanced to the candidate first.
      match_should_behind :
          (c p : Child F S) (k : Match F)
          → b.must ≡ some p
          → b.should ≡ some c
          → c.curr ≡ some k
          → k.number < m.number
          → Turned searcher score min lists m.number b (match_should searcher score min b m.number)
      unfolding match_should should_advanced
      match_should_behind c p k d e f l =
          let c' = advanced searcher lists m.number c in
          let b' = should_advanced c in
          let same = should_same c k f p d e l in
          let fp : p.curr ≡ some m = ground (arith, d, h) in
          let h' : base_curr b'.must b'.should ≡ some m = ground (arith, d, fp) in
          let r' : IsReady searcher score min lists b' = record {
            must = r.must;
            should = IsAscending-advanced searcher lists m.number c;
            must_not = r.must_not;
            current = ground (arith, r.current, d);
          } in
          let size : length (base searcher score min lists b')
              ≡ length (base searcher score min lists b) =
            ground (arith, d) in
          let at = has-advanced_at c k m.number f l in
          let judged =
            λ (t : Turned searcher score min lists m.number b'
                (match_should searcher score min b m.number)).
              Turned-same m.number b b' (match_should searcher score min b m.number) same size t in
          elim (Bool-cases (is_at searcher score min m.number c'.curr)) [
            | inl z ↦ elim (Option-cases c'.curr) [
              | inl g ↦ absurd (ground (arith, g, z))
              | inr (x, g) ↦
                  let eq : take_match searcher score min b' (m ∷ x ∷ [])
                      ≡ match_should searcher score min b m.number =
                    ground
                      (arith, d, e, f, fp, g, z, l, advance_child_lem searcher lists m.number c) in
                  let w : wants searcher score min lists b' m.number ≡ true =
                    ground (arith, base_at searcher score min lists b' m h', n, at, z) in
                  judged (
                    subst (Turned searcher score min lists m.number b') eq
                      (take_match-Turned searcher score min lists b' m m (x ∷ []) r' h' w refl))
            ]
            | inr z ↦
                let eq : without_should searcher score min b'
                    ≡ match_should searcher score min b m.number =
                  ground (arith, e, f, l, z, advance_child_lem searcher lists m.number c) in
                judged (
                  subst (Turned searcher score min lists m.number b') eq
                    (without_should-Turned searcher score min lists b' m r' h' n (at ∙ z)))
          ]

      pub match_should-Turned :
          Turned searcher score min lists m.number b (match_should searcher score min b m.number)
      unfolding match_should
      match_should-Turned = elim (Option-cases b.should) [
        | inl e ↦ direct (ground (arith, e)) (ground (arith, e))
        | inr (c, e) ↦ elim (Option-cases c.curr) [
          | inl f ↦
              direct (ground (arith, e, f))
                (ground (arith, e, has-pending-none searcher lists c m.number f))
          | inr (k, f) ↦
              let asc : IsAscending (pending searcher lists c) =
                subst (λ x. IsAscending (left searcher score min lists x)) e r.should in
              elim (Bool-cases (ltb k.number m.number)) [
                | inl l ↦ elim (Option-cases b.must) [
                  | inl d ↦ absurd (ground (arith, d, e, f, h, l))
                  | inr (p, d) ↦ match_should_behind c p k d e f (ground (arith, l))
                ]
                | inr l ↦ elim (Bool-cases (k.number == m.number)) [
                  | inl z ↦
                      let at = has-pending_at searcher lists c k f in
                      let w : wants searcher score min lists b m.number ≡ true =
                        ground (arith, base_at searcher score min lists b m h, n, e, at, z) in
                      elim (Option-cases b.must) [
                        | inl d ↦
                            subst (Turned searcher score min lists m.number b)
                              (ground (arith, d, e, f, l, z))
                              (take_match-Turned searcher score min lists b m k [] r h w
                                (ground (arith, z)))
                        | inr (p, d) ↦
                            let fp : p.curr ≡ some m = ground (arith, d, h) in
                            subst (Turned searcher score min lists m.number b)
                              (ground (arith, d, e, f, fp, l, z))
                              (take_match-Turned searcher score min lists b m m (k ∷ []) r h w refl)
                      ]
                  | inr z ↦
                      let lt : m.number < k.number = ground (arith, l, z) in
                      direct (ground (arith, e, f, l, z))
                        (ground (arith, e, has-pending_before searcher lists c k f m.number asc lt))
                ]
              ]
        ]
      ]
        where
          direct :
              without_should searcher score min b ≡ match_should searcher score min b m.number
              → has m.number (left searcher score min lists b.should) ≡ false
              → Turned searcher score min lists m.number b
                  (match_should searcher score min b m.number)
          direct eq s =
              subst (Turned searcher score min lists m.number b) eq
                (without_should-Turned searcher score min lists b m r h n s)
