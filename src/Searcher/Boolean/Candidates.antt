-- ===== src/Searcher/Boolean/Candidates.antt =====
-- A turn of the boolean searcher judges its candidate, whatever the other searchers point at.
use bluge.Base.{
  ℕ, ◌<◌, ◌≡◌, refl, ◌∙◌, subst, true, false, ◌⊎◌, List, some, ltb, ◌==◌, arith, Option-cases,
  Bool-cases, inl, inr,
}
use bluge.Searcher.{Match, Searcher, Child}
use bluge.Searcher.Contract.{Lists, has, IsAscending}
use bluge.Searcher.Moves.{
  pending, advanced, advance_child_lem, IsAscending-advanced, has-pending_at, has-pending_before,
  has-pending-advanced, has-pending-none,
}
use bluge.Searcher.Boolean.{Boolean, base_curr, is_at, match_should, candidate}
use bluge.Searcher.Boolean.Should.{has-advanced_at, Turned-same, match_should-Turned}
use bluge.Searcher.Boolean.Turns.{left, wants, IsReady, Turned, skip_match-Turned, base_before}

module _ {F E S : Type 0} (searcher : Searcher F E S) (score : List (Match F) → F) (min : ℕ)
    (lists : Lists searcher) where
  module _ (b : Boolean F S) (m : Match F) (r : IsReady searcher score min lists b)
      (h : base_curr b.must b.should ≡ some m) where
    must_not_advanced : Child F S → Boolean F S
    must_not_advanced c = record b { must_not = some (advanced searcher lists m.number c) }

    must_not_same :
        (c : Child F S) (k : Match F) (f : c.curr ≡ some k)
        → b.must_not ≡ some c
        → k.number < m.number
        → (j : ℕ)
        → wants searcher score min lists (must_not_advanced c) j
          ≡ wants searcher score min lists b j
    unfolding must_not_advanced
    must_not_same c k f e l j = ground (
      arith,
      e,
      base_before searcher score min lists b m j r h,
      has-pending-advanced searcher lists c k f m.number j l,
    )

    -- The must-not searcher is at the candidate, or not: every turn ends well.
    pub candidate-Turned :
        Turned searcher score min lists m.number b (candidate searcher score min b m.number)
    unfolding candidate must_not_advanced
    candidate-Turned = elim (Option-cases b.must_not) [
      | inl e ↦ direct (ground (arith, e)) (ground (arith, e))
      | inr (c, e) ↦ elim (Option-cases c.curr) [
        | inl f ↦
            direct (ground (arith, e, f))
              (ground (arith, e, has-pending-none searcher lists c m.number f))
        | inr (k, f) ↦ elim (Bool-cases (ltb k.number m.number)) [
          | inl l ↦ behind c k e f (ground (arith, l)) (
              Bool-cases
                (is_at searcher score min m.number (advanced searcher lists m.number c).curr))
          | inr l ↦ elim (Bool-cases (k.number == m.number)) [
            | inl z ↦
                subst (Turned searcher score min lists m.number b) (ground (arith, e, f, l, z)) (
                  skip_match-Turned searcher score min lists b m r h
                    (ground (arith, e, z, has-pending_at searcher lists c k f)))
            | inr z ↦
                let asc : IsAscending (pending searcher lists c) =
                  subst (λ x. IsAscending (left searcher score min lists x)) e r.must_not in
                let lt : m.number < k.number = ground (arith, l, z) in
                direct (ground (arith, e, f, l, z))
                  (ground (arith, e, has-pending_before searcher lists c k f m.number asc lt))
          ]
        ]
      ]
    ]
      where
        direct :
            match_should searcher score min b m.number ≡ candidate searcher score min b m.number
            → has m.number (left searcher score min lists b.must_not) ≡ false
            → Turned searcher score min lists m.number b (candidate searcher score min b m.number)
        direct eq n =
            subst (Turned searcher score min lists m.number b) eq
              (match_should-Turned searcher score min lists b m r h n)

        behind :
            (c : Child F S) (k : Match F)
            → b.must_not ≡ some c
            → c.curr ≡ some k
            → k.number < m.number
            → (is_at searcher score min m.number (advanced searcher lists m.number c).curr ≡ true)
              ⊎ (is_at searcher score min m.number (advanced searcher lists m.number c).curr
                  ≡ false)
            → Turned searcher score min lists m.number b (candidate searcher score min b m.number)
        behind c k e f l cases =
            let b' = must_not_advanced c in
            let same = must_not_same c k f e l in
            let r' : IsReady searcher score min lists b' = record {
              must = r.must;
              should = r.should;
              must_not = IsAscending-advanced searcher lists m.number c;
              current = r.current;
            } in
            let at = has-advanced_at searcher score min lists c k m.number f l in
            Turned-same searcher score min lists m.number b b'
              (candidate searcher score min b m.number) same refl
              (elim cases [
                | inl z ↦
                    subst (Turned searcher score min lists m.number b')
                      (ground (arith, e, f, l, z, advance_child_lem searcher lists m.number c))
                      (skip_match-Turned searcher score min lists b' m r' h (ground (arith, at, z)))
                | inr z ↦
                    subst (Turned searcher score min lists m.number b')
                      (ground (arith, e, f, l, z, advance_child_lem searcher lists m.number c))
                      (match_should-Turned searcher score min lists b' m r' h (at ∙ z))
              ])
