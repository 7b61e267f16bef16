-- ===== src/Searcher/Boolean/Correct.antt =====
-- Next of the boolean searcher, over searchers that list their matches.
use bluge.Base.{
  ℕ, zero, suc, ◌<◌, ◌≡◌, ◌∙◌, sym, subst, true, false, Option, none, some, Result, ok, List,
  length, arith, Option-cases, inl, inr,
}
use bluge.Searcher.{Match, Searcher}
use bluge.Searcher.Contract.{Lists}
use bluge.Searcher.Boolean.{Boolean, base_curr, candidate, next_internal, boolean_next}
use bluge.Searcher.Boolean.Turns.{base, wants, IsReady, IsJudged, Passes, base_before}
use bluge.Searcher.Boolean.Candidates.{candidate-Turned}
use bluge.Searcher.First.{IsFirst, IsFirst-passed}

module _ {F E S : Type 0} (searcher : Searcher F E S) (score : List (Match F) → F) (min : ℕ)
    (lists : Lists searcher) where
  pub record IsNext (b : Boolean F S) (r : Option (Result E (Option (Match F) × Boolean F S)))
      : Type 0 where
    pub match : Option (Match F)
    pub after : Boolean F S
    pub returns : r ≡ some (ok (match, after))
    pub ready : IsReady searcher score min lists after
    pub first :
        IsFirst (wants searcher score min lists b) match (wants searcher score min lists after)

  -- Nothing is wanted without a candidate.
  none_wanted :
      (b : Boolean F S) (j : ℕ)
      → base_curr b.must b.should ≡ none
      → wants searcher score min lists b j ≡ false
  none_wanted b j h = elim (Option-cases b.must) [
    | inr (c, e) ↦ ground (arith, e, h)
    | inl e ↦ elim (Option-cases b.should) [
      | inl d ↦ ground (arith, e, d)
      | inr (c, d) ↦ ground (arith, e, d, h)
    ]
  ]

  -- One turn, and what the turns after it return.
  next_internal_turn :
      (fuel : ℕ) (b b' : Boolean F S) (m : Match F) (o : Option (Match F))
      → IsReady searcher score min lists b
      → b.current_match ≡ some m
      → candidate searcher score min b m.number ≡ ok (o, b')
      → IsJudged searcher score min lists b m.number o
      → Passes searcher score min lists m.number b b'
      → IsNext b' (next_internal searcher score min fuel b')
      → IsNext b (next_internal searcher score min (suc fuel) b)
  unfolding next_internal
  next_internal_turn fuel b b' m none r e t judged p ih = record {
    match = ih.match;
    after = ih.after;
    returns = ground (arith, e, t, ih.returns);
    ready = ih.ready;
    first =
        IsFirst-passed m.number (wants searcher score min lists b)
          (wants searcher score min lists b') (wants searcher score min lists ih.after) ih.match
          (record {
            before = λ j l.
                ground (arith, base_before searcher score min lists b m j r (sym r.current ∙ e) l);
            at = judged;
            rest = p.later;
          })
          ih.first;
  }
  next_internal_turn fuel b b' m (some x) r e t judged p ih =
      let same = judged.0 in
      record {
        match = some x;
        after = b';
        returns = ground (arith, e, t);
        ready = p.ready;
        first = (
          subst (λ i. wants searcher score min lists b i ≡ true) (sym same) judged.1,
          (λ j l. ground (
            arith,
            same,
            base_before searcher score min lists b m j r (sym r.current ∙ e)
                (omega (arith, same, l)),
          )),
          λ j. ground (arith, same, p.later j),
        );
      }

  next_internal-IsNext :
      (fuel : ℕ) (b : Boolean F S)
      → IsReady searcher score min lists b
      → length (base searcher score min lists b) < fuel
      → IsNext b (next_internal searcher score min fuel b)
  unfolding next_internal
  next_internal-IsNext zero b r h = absurd (omega (arith, h))
  next_internal-IsNext (suc fuel) b r h = elim (Option-cases b.current_match) [
    | inl e ↦ record {
      match = none;
      after = b;
      returns = ground (arith, e);
      ready = r;
      first = λ j. none_wanted b j (sym r.current ∙ e);
    }
    | inr (m, e) ↦
        let t = candidate-Turned searcher score min lists b m r (sym r.current ∙ e) in
        next_internal_turn fuel b t.after m t.found r e t.returns t.judged t.passes
          (next_internal-IsNext fuel t.after t.passes.ready (omega (arith, h, t.passes.shrinks)))
  ]

  -- With searchers that list ascending matches, a current match as the searcher that candidates
  -- come from has it, the initialization done, the searcher not done and more fuel than this
  -- searcher has matches left, Next returns the first document that is left of those that the must
  -- searcher matches (the should searcher without one), the must-not searcher does not, and,
  -- unless it is nil or min is 0, the should searcher does, and leaves exactly the later ones; it
  -- returns nil if there is none.
  pub boolean_next-IsNext :
      (fuel : ℕ) (b : Boolean F S)
      → IsReady searcher score min lists b
      → b.initialized ≡ true
      → b.done ≡ false
      → length (base searcher score min lists b) < fuel
      → IsNext b (boolean_next searcher score min fuel b)
  unfolding boolean_next
  boolean_next-IsNext fuel b r i d l =
      let n = next_internal-IsNext fuel b r l in
      elim (Option-cases n.match) [
        | inl e ↦ record {
          match = none;
          after = record n.after { done = true };
          returns = ground (arith, i, d, n.returns, e);
          ready = record {
            must = n.ready.must;
            should = n.ready.should;
            must_not = n.ready.must_not;
            current = n.ready.current;
          };
          first =
              subst
                (λ o.
                  IsFirst (wants searcher score min lists b) o
                    (wants searcher score min lists n.after))
                e n.first;
        }
        | inr (m, e) ↦ record {
          match = some m;
          after = n.after;
          returns = ground (arith, i, d, n.returns, e);
          ready = n.ready;
          first =
              subst
                (λ o.
                  IsFirst (wants searcher score min lists b) o
                    (wants searcher score min lists n.after))
                e n.first;
        }
      ]
