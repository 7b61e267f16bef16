-- ===== src/Searcher/Conjunction/Scan.antt =====
-- The loops of Next of the conjunction, over searchers that list their matches.
use bluge.Base.{
  ℕ, zero, suc, ◌+◌, ◌*◌, ◌-◌, ◌≤◌, ◌<◌, ◌≡◌, refl, ap, ◌∙◌, sym, subst, false, List, [], ◌∷◌,
  Option, none, some, Result, ok, ltb, ◌==◌, length, arith, Option-cases, Bool-cases, inl, inr,
  get_elem?,
}
use bluge.Searcher.{Match, Searcher, Child}
use bluge.Searcher.First.{IsFirst_same}
use bluge.Searcher.Contract.{Lists}
use bluge.Searcher.Disjunction.Turn.{total_pending, AllAscending}
use bluge.Searcher.Conjunction.{Conjunction, curr_at, advance_at, advance_below, enter, scan}
use bluge.Searcher.Conjunction.Take.{IsReady, IsNext, wants_ended, take_all-IsNext}
use bluge.Searcher.Conjunction.Steps.{
  wants, IsStepped, length-IsStepped, AllAscending-IsStepped, wants-IsStepped, advance_at-Advance,
  advance_below-Advance,
}

module _ {F E S : Type 0} (searcher : Searcher F E S) (score : List (Match F) → F)
    (lists : Lists searcher) where
  -- What holds in the inner loop at `i`.
  pub record IsScanning (i n : ℕ) (s : Conjunction F S) : Type 0 where
    ready : IsReady searcher score lists s
    top : Match F
    top_at : curr_at s.children s.max_id_idx ≡ some top
    top_number : top.number ≡ n
    equal : (x : ℕ) → x < i → (k : Match F) × (curr_at s.children x ≡ some k) × (k.number ≡ n)
    bounded : i ≤ length s.children

  -- The number of turns that may be left: an advance takes one document, and no two changes of
  -- `maxIDIdx` follow each other without an advance.
  abbrev pub moves : Conjunction F S → ℕ
  moves s = 2 * total_pending searcher lists s.children + elim s.max_id_idx [ zero ↦ 0 | suc i ↦ 1 ]

  abbrev pub turns : ℕ → Conjunction F S → ℕ
  turns i s = suc (length s.children) * moves s + (length s.children - i)

  pub fewer : (l b b' i i' : ℕ) → b' < b → suc l * b' + (l - i') < suc l * b + (l - i)
  fewer l b b' i i' h = grind (arith, h)

  curr_below : (cs : List (Child F S)) (i : ℕ) (m : Match F) → curr_at cs i ≡ some m → i < length cs
  curr_below [] i m e = absurd (ground (arith, e))
  curr_below (c ∷ cs) zero m e = omega arith
  curr_below (c ∷ cs) (suc i) m e = omega (arith, curr_below cs i m e)

  turns_less :
      (s s' : Conjunction F S) (i i' : ℕ)
      → length s'.children ≡ length s.children
      → moves s' < moves s
      → turns i' s' < turns i s
  turns_less s s' i i' size l =
      subst (λ k. suc k * moves s' + (k - i') < turns i s) (sym size)
        (fewer (length s.children) (moves s) (moves s') i i' l)

  -- `maxIDIdx` changes to 0, or after an advance.
  changed :
      (i x : ℕ) {t t' : ℕ}
      → (i == x) ≡ false
      → (0 < i → t' < t)
      → t' ≤ t
      → 2 * t' + elim i as (λ k. ℕ) [ zero ↦ 0 | suc k ↦ 1 ]
        < 2 * t + elim x as (λ k. ℕ) [ zero ↦ 0 | suc k ↦ 1 ]
  changed zero zero ne less le = absurd (ground (arith, ne))
  changed zero (suc x) ne less le = omega (arith, le)
  changed (suc i) zero ne less le = omega (arith, less (omega arith))
  changed (suc i) (suc x) ne less le = omega (arith, less (omega arith))

  differ : (i x : ℕ) → (i == x) ≡ false → (x == i) ≡ false
  differ i x h = ground (arith, h)

  pub none_above : (cs : List (Child F S)) (i : ℕ) → get_elem? cs i ≡ none → length cs ≤ i
  none_above [] i e = omega arith
  none_above (c ∷ cs) zero e = absurd (ground (arith, e))
  none_above (c ∷ cs) (suc i) e = omega (arith, none_above cs i e)

  pub IsNext-same :
      (s s' : Conjunction F S) (r : Option (Result E (Option (Match F) × Conjunction F S)))
      → ((j : ℕ)
          → wants searcher score lists s'.children j ≡ wants searcher score lists s.children j)
      → IsNext searcher score lists s' r
      → IsNext searcher score lists s r
  IsNext-same s s' r same h = record {
    match = h.match;
    after = h.after;
    returns = h.returns;
    ready = h.ready;
    first =
        IsFirst_same (wants searcher score lists s.children)
          (wants searcher score lists s'.children) (wants searcher score lists h.after.children)
          h.match same h.first;
  }

  at_of :
      (cs : List (Child F S)) (i : ℕ) (c : Child F S) (m : Match F)
      → get_elem? cs i ≡ some c
      → c.curr ≡ some m
      → curr_at cs i ≡ some m
  at_of cs i c m g e = ground (arith, g, e)

  -- The searcher `i` is at the document, so the loop goes on with the next one.
  go_on :
      (i n : ℕ) (s : Conjunction F S) (m : Match F)
      → IsScanning i n s
      → curr_at s.children i ≡ some m
      → m.number ≡ n
      → IsScanning (suc i) n s
  go_on i n s m r e z = record {
    ready = r.ready;
    top = r.top;
    top_at = r.top_at;
    top_number = r.top_number;
    equal = λ x l. elim (Bool-cases (x == i)) [
      | inl b ↦ let same : x ≡ i = ground (arith, b) in (m, ap (curr_at s.children) same ∙ e, z)
      | inr b ↦ r.equal x (ground (arith, l, b))
    ];
    bounded = curr_below s.children i m e;
  }

  -- A later document becomes the one to reach.
  pub raised :
      (i : ℕ) (s : Conjunction F S) (m : Match F) (cs : List (Child F S))
      → AllAscending searcher lists cs
      → curr_at cs i ≡ some m
      → IsScanning 0 m.number (record s { children = cs; max_id_idx = i })
  raised i s m cs a e = record {
    ready = record { ascending = a; in_range = inr (curr_below cs i m e) };
    top = m;
    top_at = e;
    top_number = refl;
    equal = λ x l. absurd (omega (arith, l));
    bounded = omega arith;
  }

  -- A searcher behind the document is advanced to it.
  caught_up :
      (fuel i n : ℕ) (s : Conjunction F S) (m : Match F)
      → IsScanning i n s
      → curr_at s.children i ≡ some m
      → (i == s.max_id_idx) ≡ false
      → m.number < n
      → turns i s < suc fuel
      → ((s' : Conjunction F S)
          → IsScanning i n s'
          → turns i s' < fuel
          → IsNext searcher score lists s' (scan searcher score fuel i n s'))
      → (cs : List (Child F S)) × (advance_at searcher score i n s.children ≡ ok cs)
        × IsNext searcher score lists s (scan searcher score fuel i n (record s { children = cs }))
  caught_up fuel i n s m r e ne l h ih =
      let (a, less, others) = advance_at-Advance searcher score lists i n s.children m e l in
      let top_not = differ i s.max_id_idx ne in
      let top_at : curr_at a.after s.max_id_idx ≡ some r.top =
        ground (arith, others s.max_id_idx top_not, r.top_at) in
      let size = length-IsStepped searcher score lists n s.children a.after a.stepped in
      let s' = record s { children = a.after } in
      let r' : IsScanning i n s' = record {
        ready = record {
          ascending =
              AllAscending-IsStepped searcher score lists n s.children a.after a.stepped
                r.ready.ascending;
          in_range = inr (curr_below a.after s.max_id_idx r.top top_at);
        };
        top = r.top;
        top_at = top_at;
        top_number = r.top_number;
        equal = λ x p.
            let (k, f, z) = r.equal x p in (k, ground (arith, f, others x (ground (arith, p))), z);
        bounded = omega (arith, r.bounded, size);
      } in
      let stepped =
        subst (λ k. IsStepped searcher score lists k s.children a.after) (sym r.top_number)
          a.stepped in
      (
        a.after,
        a.returns,
        IsNext-same s s' (scan searcher score fuel i n s')
            (λ j.
              wants-IsStepped searcher score lists s.max_id_idx j s.children a.after r.top
                r.ready.ascending stepped r.top_at top_at)
            (ih s' r' (omega (arith, h, turns_less s s' i i size (omega (arith, less))))),
      )

  -- The searcher points past the document: those before it are advanced to its own.
  overtaken :
      (fuel i n : ℕ) (s : Conjunction F S) (m : Match F)
      → IsScanning i n s
      → curr_at s.children i ≡ some m
      → (i == s.max_id_idx) ≡ false
      → n < m.number
      → turns i s < suc fuel
      → ((s' : Conjunction F S)
          → IsScanning 0 m.number s'
          → turns 0 s' < fuel
          → IsNext searcher score lists s' (scan searcher score fuel 0 m.number s'))
      → (cs : List (Child F S)) × (advance_below searcher score i m.number s.children ≡ ok cs)
        × IsNext searcher score lists s (
            enter searcher score
              (scan searcher score fuel 0)
              (record s { children = cs; max_id_idx = i }))
  overtaken fuel i n s m r e ne l h ih =
      let (a, less, others) =
        advance_below-Advance searcher score lists i m.number s.children
          (λ x p. let (k, f, z) = r.equal x p in (k, f, omega (arith, z, l))) in
      let size = length-IsStepped searcher score lists m.number s.children a.after a.stepped in
      let at : curr_at a.after i ≡ some m = ground (arith, others i (omega arith), e) in
      let s' = record s { children = a.after; max_id_idx = i } in
      let r' =
        raised i s m a.after
          (AllAscending-IsStepped searcher score lists m.number s.children a.after a.stepped
            r.ready.ascending)
          at in
      let same = λ (j : ℕ).
        wants-IsStepped searcher score lists i j s.children a.after m r.ready.ascending a.stepped e
          at in
      let starts : scan searcher score fuel 0 m.number s'
          ≡ enter searcher score (scan searcher score fuel 0) s' =
        ground (arith, at) in
      (
        a.after,
        a.returns,
        subst (IsNext searcher score lists s) starts (
            IsNext-same s s' (scan searcher score fuel 0 m.number s') same (
              ih s' r' (
                omega
                  (arith, h, turns_less s s' i 0 size (changed i s.max_id_idx ne less a.size))))),
      )

  pub scan-IsNext :
      (fuel i n : ℕ) (s : Conjunction F S)
      → IsScanning i n s
      → turns i s < fuel
      → IsNext searcher score lists s (scan searcher score fuel i n s)
  unfolding scan
  scan-IsNext zero i n s r h = absurd (omega (arith, h))
  scan-IsNext (suc fuel) i n s r h = elim (Option-cases (get_elem? s.children i)) [
    | inl g ↦
        let above = none_above s.children i g in
        subst (IsNext searcher score lists s) (ground (arith, g)) (
          take_all-IsNext searcher score lists s n r.ready
            (omega (arith, curr_below s.children s.max_id_idx r.top r.top_at))
            (λ x l. r.equal x (omega (arith, l, above, r.bounded))))
    | inr (c, g) ↦ elim (Option-cases c.curr) [
      | inl e ↦ record {
        match = none;
        after = s;
        returns = ground (arith, g, e);
        ready = r.ready;
        first = λ j. wants_ended searcher score lists i j s.children c g e;
      }
      | inr (m, e) ↦
          let at = at_of s.children i c m g e in
          let on = λ (z : m.number ≡ n).
            scan-IsNext fuel (suc i) n s (go_on i n s m r at z)
              (omega (arith, h, curr_below s.children i m at)) in
          elim (Bool-cases (i == s.max_id_idx)) [
            | inl b ↦
                let same : i ≡ s.max_id_idx = ground (arith, b) in
                let z : m.number ≡ n = ground (arith, same, at, r.top_at, r.top_number) in
                subst (IsNext searcher score lists s) (ground (arith, g, e, b)) (on z)
            | inr b ↦ elim (Bool-cases (n == m.number)) [
              | inl q ↦
                  subst (IsNext searcher score lists s) (ground (arith, g, e, b, q))
                    (on (ground (arith, q)))
              | inr q ↦ elim (Bool-cases (ltb n m.number)) [
                | inl l ↦
                    let (cs, t, rest) =
                      overtaken fuel i n s m r at b (ground (arith, l)) h
                        (λ s' r' h'. scan-IsNext fuel 0 m.number s' r' h') in
                    subst (IsNext searcher score lists s) (ground (arith, g, e, b, q, l, t)) rest
                | inr l ↦
                    let (cs, t, rest) =
                      caught_up fuel i n s m r at b (ground (arith, l, q)) h
                        (λ s' r' h'. scan-IsNext fuel i n s' r' h') in
                    subst (IsNext searcher score lists s) (ground (arith, g, e, b, q, l, t)) rest
              ]
            ]
          ]
    ]
  ]
