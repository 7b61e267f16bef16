-- ===== src/Searcher/Conjunction/Take.antt =====
-- A document that all the searchers of the conjunction point at, and their bump.
use bluge.Base.{
  ℕ, zero, suc, ◌<◌, ◌≡◌, refl, ap, sym, subst, true, false, ◌&&◌, ◌⊎◌, List, [], ◌∷◌, Option, none,
  some, Result, ok, ltb, length, arith, Bool-cases, inl, inr, get_elem?,
}
use bluge.Searcher.{Match, Searcher, Child, init_searchers, build_document_match}
use bluge.Searcher.First.{IsFirst}
use bluge.Searcher.Contract.{Lists, has}
use bluge.Searcher.Moves.{
  pending, moved, next_child_lem, IsAscending-moved, has-pending_at, has-pending-moved,
}
use bluge.Searcher.Disjunction.Turn.{AllAscending}
use bluge.Searcher.Conjunction.{Conjunction, currs_of, curr_at, take_all}
use bluge.Searcher.Conjunction.Steps.{in_all, wants, in_all_before}

module _ {F E S : Type 0} (searcher : Searcher F E S) (score : List (Match F) → F)
    (lists : Lists searcher) where
  pub record IsReady (s : Conjunction F S) : Type 0 where
    pub ascending : AllAscending searcher lists s.children
    pub in_range : (s.max_id_idx ≡ 0) ⊎ (s.max_id_idx < length s.children)

  pub record IsNext (s : Conjunction F S)
      (r : Option (Result E (Option (Match F) × Conjunction F S))) : Type 0 where
    pub match : Option (Match F)
    pub after : Conjunction F S
    pub returns : r ≡ some (ok (match, after))
    pub ready : IsReady after
    pub first :
        IsFirst
          (wants searcher score lists s.children)
          match
          (wants searcher score lists after.children)

  all_moved : List (Child F S) → List (Child F S)
  all_moved [] = []
  all_moved (c ∷ cs) = moved searcher lists c ∷ all_moved cs

  init_searchers-all_moved :
      (cs : List (Child F S)) → init_searchers searcher cs ≡ ok (all_moved cs)
  unfolding init_searchers all_moved
  init_searchers-all_moved [] = refl
  init_searchers-all_moved (c ∷ cs) =
      ground (arith, next_child_lem searcher lists c, init_searchers-all_moved cs)

  all_moved-AllAscending : (cs : List (Child F S)) → AllAscending searcher lists (all_moved cs)
  unfolding all_moved
  all_moved-AllAscending [] = tt
  all_moved-AllAscending (c ∷ cs) = (IsAscending-moved searcher lists c, all_moved-AllAscending cs)

  length-all_moved : (cs : List (Child F S)) → length (all_moved cs) ≡ length cs
  unfolding all_moved
  length-all_moved [] = refl
  length-all_moved (c ∷ cs) = ap suc (length-all_moved cs)

  -- Every searcher points at the document `n`.
  abbrev pub AllAt : ℕ → List (Child F S) → Type 0
  AllAt n cs = (x : ℕ) → x < length cs → (k : Match F) × (curr_at cs x ≡ some k) × (k.number ≡ n)

  AllAt-tail : (n : ℕ) (c : Child F S) (cs : List (Child F S)) → AllAt n (c ∷ cs) → AllAt n cs
  AllAt-tail n c cs h x l = h (suc x) (omega (arith, l))

  in_all-AllAt :
      (n : ℕ) (cs : List (Child F S)) → AllAt n cs → in_all searcher score lists n cs ≡ true
  in_all-AllAt n [] h = refl
  in_all-AllAt n (c ∷ cs) h =
      let (k, e, z) = h 0 (omega arith) in
      let at =
        subst (λ i. has i (pending searcher lists c) ≡ true) z
          (has-pending_at searcher lists c k e) in
      ground (arith, at, in_all-AllAt n cs (AllAt-tail n c cs h))

  in_all-all_moved :
      (n j : ℕ) (cs : List (Child F S))
      → AllAscending searcher lists cs
      → AllAt n cs
      → n < j
      → in_all searcher score lists j (all_moved cs) ≡ in_all searcher score lists j cs
  unfolding all_moved
  in_all-all_moved n j [] a h l = refl
  in_all-all_moved n j (c ∷ cs) a h l =
      let (k, e, z) = h 0 (omega arith) in
      ground (
        arith,
        z,
        has-pending-moved searcher lists c k e j a.0,
        in_all-all_moved n j cs a.1 (AllAt-tail n c cs h) l,
      )

  wants-all_moved :
      (n j : ℕ) (cs : List (Child F S))
      → AllAscending searcher lists cs
      → AllAt n cs
      → wants searcher score lists (all_moved cs) j ≡ (ltb n j && wants searcher score lists cs j)
  unfolding all_moved
  wants-all_moved n j [] a h = ground arith
  wants-all_moved n j (c ∷ cs) a h =
      let (k, e, z) = h 0 (omega arith) in
      let moved_has = has-pending-moved searcher lists c k e j a.0 in
      elim (Bool-cases (ltb n j)) [
        | inl b ↦ ground (arith, b, in_all-all_moved n j (c ∷ cs) a h (ground (arith, b)))
        | inr b ↦ ground (arith, b, z, moved_has)
      ]

  wants_before :
      (i j : ℕ) (cs : List (Child F S)) (m : Match F)
      → AllAscending searcher lists cs
      → curr_at cs i ≡ some m
      → j < m.number
      → wants searcher score lists cs j ≡ false
  wants_before i j [] m a e l = refl
  wants_before i j (c ∷ cs) m a e l = in_all_before searcher score lists i j (c ∷ cs) m a e l

  -- A searcher at its end has nothing left for the conjunction.
  pub wants_ended :
      (i j : ℕ) (cs : List (Child F S)) (c : Child F S)
      → get_elem? cs i ≡ some c
      → c.curr ≡ none
      → wants searcher score lists cs j ≡ false
  wants_ended i j [] c g e = refl
  wants_ended i j (d ∷ cs) c g e = go i (d ∷ cs) g
    where
      go :
          (i : ℕ) (cs : List (Child F S))
          → get_elem? cs i ≡ some c
          → in_all searcher score lists j cs ≡ false
      go i [] g = absurd (ground (arith, g))
      go zero (d ∷ cs) g = ground (arith, g, e)
      go (suc i) (d ∷ cs) g = ground (arith, go i cs g)

  first_curr :
      (cs : List (Child F S)) (k : Match F)
      → curr_at cs 0 ≡ some k
      → (rest : List (Match F)) × (currs_of cs ≡ k ∷ rest)
  first_curr [] k e = absurd (ground (arith, e))
  first_curr (c ∷ cs) k e = (currs_of cs, ground (arith, e))

  wants_at :
      (n : ℕ) (cs : List (Child F S))
      → 0 < length cs
      → AllAt n cs
      → wants searcher score lists cs n ≡ true
  wants_at n [] l h = absurd (omega (arith, l))
  wants_at n (c ∷ cs) l h = in_all-AllAt n (c ∷ cs) h

  -- All searchers point at the same document, and they are bumped.
  pub take_all-IsNext :
      (s : Conjunction F S) (n : ℕ)
      → IsReady s
      → 0 < length s.children
      → AllAt n s.children
      → IsNext s (take_all searcher score s)
  unfolding take_all build_document_match
  take_all-IsNext s n r l h =
      let (k, e, z) = h 0 l in
      let (rest, f) = first_curr s.children k e in
      let same : k.number ≡ n = z in
      record {
        match = some (record k { score = score (k ∷ rest) });
        after = record s { children = all_moved s.children };
        returns = ground (arith, f, init_searchers-all_moved s.children);
        ready = record {
          ascending = all_moved-AllAscending s.children;
          in_range =
              subst (λ i. (s.max_id_idx ≡ 0) ⊎ (s.max_id_idx < i))
                (sym (length-all_moved s.children)) r.in_range;
        };
        first = (
          subst (λ i. wants searcher score lists s.children i ≡ true) (sym same)
              (wants_at n s.children l h),
          (λ j p. wants_before 0 j s.children k r.ascending e p),
          λ j. ground (arith, same, wants-all_moved n j s.children r.ascending h),
        );
      }
