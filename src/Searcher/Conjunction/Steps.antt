-- ===== src/Searcher/Conjunction/Steps.antt =====
-- What the advances of the conjunction do to the documents that its searchers have left.
use bluge.Base.{
  ℕ, zero, suc, ◌≤◌, ◌<◌, ◌≡◌, refl, ap, ◌∙◌, sym, subst, Bool, true, false, ◌&&◌, ◌⊎◌, List, [],
  ◌∷◌, some, Result, ok, ltb, ◌==◌, length, arith, Bool-cases, inl, inr, get_elem?,
}
use bluge.Searcher.{Match, Searcher, Child}
use bluge.Searcher.Contract.{Lists, has, IsAscending}
use bluge.Searcher.Moves.{
  pending, advanced, advance_child_lem, IsAscending-advanced, has-pending_before,
  has-pending-advanced, length-pending-advanced,
}
use bluge.Searcher.Disjunction.Turn.{total_pending, AllAscending}
use bluge.Searcher.Conjunction.{curr_at, advance_at, advance_below}

module _ {F E S : Type 0} (searcher : Searcher F E S) (score : List (Match F) → F)
    (lists : Lists searcher) where
  abbrev pub in_all : ℕ → List (Child F S) → Bool
  in_all j [] = true
  in_all j (c ∷ cs) = has j (pending searcher lists c) && in_all j cs

  -- The documents that all the searchers have left; there is none without a searcher.
  abbrev pub wants : List (Child F S) → ℕ → Bool
  wants [] j = false
  wants (c ∷ cs) j = in_all j (c ∷ cs)

  -- A searcher stays, or it is advanced to `n` from behind.
  abbrev pub IsStep : ℕ → Child F S → Child F S → Type 0
  IsStep n c c' =
      (c' ≡ c)
      ⊎ ((c' ≡ advanced searcher lists n c) × ((k : Match F) × (c.curr ≡ some k) × (k.number < n)))

  abbrev pub IsStepped : ℕ → List (Child F S) → List (Child F S) → Type 0
  IsStepped n [] [] = Unit
  IsStepped n [] (c' ∷ cs') = ⊥
  IsStepped n (c ∷ cs) [] = ⊥
  IsStepped n (c ∷ cs) (c' ∷ cs') = IsStep n c c' × IsStepped n cs cs'

  pub IsStepped-refl : (n : ℕ) (cs : List (Child F S)) → IsStepped n cs cs
  IsStepped-refl n [] = tt
  IsStepped-refl n (c ∷ cs) = (inl refl, IsStepped-refl n cs)

  pub length-IsStepped :
      (n : ℕ) (cs cs' : List (Child F S)) → IsStepped n cs cs' → length cs' ≡ length cs
  length-IsStepped n [] [] h = refl
  length-IsStepped n [] (c' ∷ cs') h = absurd h
  length-IsStepped n (c ∷ cs) [] h = absurd h
  length-IsStepped n (c ∷ cs) (c' ∷ cs') h = ap suc (length-IsStepped n cs cs' h.1)

  pub AllAscending-IsStepped :
      (n : ℕ) (cs cs' : List (Child F S))
      → IsStepped n cs cs'
      → AllAscending searcher lists cs
      → AllAscending searcher lists cs'
  AllAscending-IsStepped n [] [] h a = tt
  AllAscending-IsStepped n [] (c' ∷ cs') h a = absurd h
  AllAscending-IsStepped n (c ∷ cs) [] h a = absurd h
  AllAscending-IsStepped n (c ∷ cs) (c' ∷ cs') (inl e, h) a = (
    subst (λ x. IsAscending (pending searcher lists x)) (sym e) a.0,
    AllAscending-IsStepped n cs cs' h a.1,
  )
  AllAscending-IsStepped n (c ∷ cs) (c' ∷ cs') (inr (e, k), h) a = (
    subst (λ x. IsAscending (pending searcher lists x)) (sym e)
        (IsAscending-advanced searcher lists n c),
    AllAscending-IsStepped n cs cs' h a.1,
  )

  -- From `n` on, nothing is lost.
  pub in_all-IsStepped :
      (n j : ℕ) (cs cs' : List (Child F S))
      → n ≤ j
      → IsStepped n cs cs'
      → in_all j cs' ≡ in_all j cs
  in_all-IsStepped n j [] [] l h = refl
  in_all-IsStepped n j [] (c' ∷ cs') l h = absurd h
  in_all-IsStepped n j (c ∷ cs) [] l h = absurd h
  in_all-IsStepped n j (c ∷ cs) (c' ∷ cs') l (inl e, h) =
      ground (arith, ap (λ x. has j (pending searcher lists x)) e, in_all-IsStepped n j cs cs' l h)
  in_all-IsStepped n j (c ∷ cs) (c' ∷ cs') l (inr (e, (k, f, less)), h) = ground (
    arith,
    ap (λ x. has j (pending searcher lists x)) e,
    has-pending-advanced searcher lists c k f n j less,
    in_all-IsStepped n j cs cs' l h,
  )

  -- No document before one that a searcher points at is in all of them.
  pub in_all_before :
      (i j : ℕ) (cs : List (Child F S)) (m : Match F)
      → AllAscending searcher lists cs
      → curr_at cs i ≡ some m
      → j < m.number
      → in_all j cs ≡ false
  in_all_before i j [] m a e l = absurd (ground (arith, e))
  in_all_before zero j (c ∷ cs) m a e l =
      ground (arith, has-pending_before searcher lists c m e j a.0 l)
  in_all_before (suc i) j (c ∷ cs) m a e l = ground (arith, in_all_before i j cs m a.1 e l)

  -- An advance to where a searcher points that stays loses nothing.
  pub wants-IsStepped :
      (i j : ℕ) (cs cs' : List (Child F S)) (m : Match F)
      → AllAscending searcher lists cs
      → IsStepped m.number cs cs'
      → curr_at cs i ≡ some m
      → curr_at cs' i ≡ some m
      → wants cs' j ≡ wants cs j
  wants-IsStepped i j [] cs' m a h e e' = absurd (ground (arith, e))
  wants-IsStepped i j (c ∷ cs) [] m a h e e' = absurd h
  wants-IsStepped i j (c ∷ cs) (c' ∷ cs') m a h e e' = elim (Bool-cases (ltb j m.number)) [
    | inl l ↦
        let less : j < m.number = ground (arith, l) in
        in_all_before i j (c' ∷ cs') m (AllAscending-IsStepped m.number (c ∷ cs) (c' ∷ cs') h a) e'
          less
        ∙ sym (in_all_before i j (c ∷ cs) m a e less)
    | inr l ↦ in_all-IsStepped m.number j (c ∷ cs) (c' ∷ cs') (ground (arith, l)) h
  ]

  -- What an advance to `n` of some of the searchers does.
  pub record Advance (n : ℕ) (cs : List (Child F S)) (r : Result E (List (Child F S)))
      : Type 0 where
    pub after : List (Child F S)
    pub returns : r ≡ ok after
    pub stepped : IsStepped n cs after
    pub size : total_pending searcher lists after ≤ total_pending searcher lists cs

  module _ (n : ℕ) (c : Child F S) (k : Match F) (e : c.curr ≡ some k) (l : k.number < n) where
    shorter :
        length (pending searcher lists (advanced searcher lists n c))
        < length (pending searcher lists c)
    shorter = length-pending-advanced searcher lists c k e n l

    first_advanced : IsStep n c (advanced searcher lists n c)
    first_advanced = inr (refl, (k, e, l))

  -- The searcher `i` alone is advanced.
  pub advance_at-Advance :
      (i n : ℕ) (cs : List (Child F S)) (k : Match F)
      → curr_at cs i ≡ some k
      → k.number < n
      → (a : Advance n cs (advance_at searcher score i n cs)) × (total_pending searcher lists
            a.after
          < total_pending searcher lists cs)
        × ((x : ℕ) → (x == i) ≡ false → get_elem? a.after x ≡ get_elem? cs x)
  unfolding advance_at
  advance_at-Advance i n [] k e l = absurd (ground (arith, e))
  advance_at-Advance zero n (c ∷ cs) k e l =
      let less = shorter n c k e l in
      (
        record {
          after = advanced searcher lists n c ∷ cs;
          returns = ground (arith, advance_child_lem searcher lists n c);
          stepped = (first_advanced n c k e l, IsStepped-refl n cs);
          size = omega (arith, less);
        },
        omega (arith, less),
        λ x h. first x h,
      )
    where
      first :
          (x : ℕ)
          → (x == 0) ≡ false
          → get_elem? (advanced searcher lists n c ∷ cs) x ≡ get_elem? (c ∷ cs) x
      first zero h = absurd (ground (arith, h))
      first (suc x) h = refl
  advance_at-Advance (suc i) n (c ∷ cs) k e l =
      let (a, less, others) = advance_at-Advance i n cs k e l in
      (
        record {
          after = c ∷ a.after;
          returns = ground (arith, a.returns);
          stepped = (inl refl, a.stepped);
          size = omega (arith, a.size);
        },
        omega (arith, less),
        λ x h. later a.after others x h,
      )
    where
      later :
          (cs' : List (Child F S))
          → ((x : ℕ) → (x == i) ≡ false → get_elem? cs' x ≡ get_elem? cs x)
          → (x : ℕ) → (x == suc i) ≡ false
          → get_elem? (c ∷ cs') x ≡ get_elem? (c ∷ cs) x
      later cs' h zero z = refl
      later cs' h (suc x) z = h x (ground (arith, z))

  -- The searchers before `i` are advanced.
  pub advance_below-Advance :
      (i n : ℕ) (cs : List (Child F S))
      → ((x : ℕ) → x < i → (k : Match F) × (curr_at cs x ≡ some k) × (k.number < n))
      → (a : Advance n cs (advance_below searcher score i n cs)) × (0 < i
          → total_pending searcher lists a.after < total_pending searcher lists cs)
        × ((x : ℕ) → i ≤ x → get_elem? a.after x ≡ get_elem? cs x)
  unfolding advance_below
  advance_below-Advance zero n [] h = (
    record { after = []; returns = refl; stepped = tt; size = omega arith },
    (λ p. absurd (omega (arith, p))),
    λ x l. refl,
  )
  advance_below-Advance (suc i) n [] h = absurd (ground (arith, (h 0 (omega arith)).1))
  advance_below-Advance zero n (c ∷ cs) h = (
    record {
      after = c ∷ cs;
      returns = refl;
      stepped = IsStepped-refl n (c ∷ cs);
      size = omega arith;
    },
    (λ p. absurd (omega (arith, p))),
    λ x l. refl,
  )
  advance_below-Advance (suc i) n (c ∷ cs) h =
      let (k, e, l) = h 0 (omega arith) in
      let less = shorter n c k e l in
      let (a, _, others) = advance_below-Advance i n cs (λ x p. h (suc x) (omega (arith, p))) in
      (
        record {
          after = advanced searcher lists n c ∷ a.after;
          returns = ground (arith, advance_child_lem searcher lists n c, a.returns);
          stepped = (first_advanced n c k e l, a.stepped);
          size = omega (arith, less, a.size);
        },
        (λ p. omega (arith, less, a.size)),
        λ x p. later a.after others x p,
      )
    where
      later :
          (cs' : List (Child F S))
          → ((x : ℕ) → i ≤ x → get_elem? cs' x ≡ get_elem? cs x)
          → (x : ℕ) → suc i ≤ x
          → get_elem? (advanced searcher lists n c ∷ cs') x ≡ get_elem? (c ∷ cs) x
      later cs' h zero z = absurd (omega (arith, z))
      later cs' h (suc x) z = h x (omega (arith, z))
