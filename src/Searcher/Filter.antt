-- ===== src/Searcher/Filter.antt =====
-- search/searcher/search_filter.go: FilteringSearcher passes on the matches of its child that a
-- function accepts. Its loop takes fuel, and `none` means that it ran out.
use bluge.Base.{
  ℕ, zero, suc, ◌+◌, ◌<◌, ◌≡◌, refl, sym, ◌∙◌, ap, Bool, List-cases, true, false, List, [], ◌∷◌,
  Option, none, some, Result, ok, err, arith, length, filterb, Bool-cases, inl, inr, subst,
}
use bluge.Searcher.{Match, Searcher}
use bluge.Searcher.Contract.{Lists, head?, tail, from, length-from}

module _ {F E S : Type 0} (child : Searcher F E S) (accept : Match F → Bool) where
  -- The body of the loop of Next, after the child's Next. The result is a match or nil, or an error.
  unfoldable pub filter_loop :
      ℕ → Result E (Option (Match F) × S) → Option (Result E (Option (Match F) × S))
  filter_loop zero r = none
  filter_loop (suc fuel) (err e) = some (err e)
  filter_loop (suc fuel) (ok (none, s)) = some (ok (none, s))
  filter_loop (suc fuel) (ok (some m, s)) = elim (accept m) [
    | true ↦ some (ok (some m, s))
    | false ↦ filter_loop fuel (child.next s)
  ]

  unfoldable pub filter_next : ℕ → S → Option (Result E (Option (Match F) × S))
  unfolding filter_loop
  filter_next fuel s = filter_loop fuel (child.next s)

  unfoldable pub filter_advance : ℕ → S → ℕ → Option (Result E (Option (Match F) × S))
  unfolding filter_next
  filter_advance fuel s n = elim (child.advance s n) [
    | err e ↦ some (err e)
    | ok (none, s') ↦ some (ok (none, s'))
    | ok (some m, s') ↦ elim (accept m) [
      | true ↦ some (ok (some m, s'))
      | false ↦ filter_next fuel s'
    ]
  ]

  module _ (lists : Lists child) where
    -- The outcome of a call on the matches `xs`: the first that is accepted or nil, and a state that
    -- lists the other accepted ones.
    pub record Yields (xs : List (Match F)) (r : Option (Result E (Option (Match F) × S)))
        : Type 0 where
      pub state : S
      pub returns : r ≡ some (ok (head? (filterb accept xs), state))
      pub rest : filterb accept (lists.view state) ≡ tail (filterb accept xs)

    taken :
        (fuel : ℕ) (m : Match F) (xs : List (Match F)) (s : S)
        → lists.view s ≡ xs
        → accept m ≡ true
        → Yields (m ∷ xs) (filter_loop (suc fuel) (ok (some m, s)))
    unfolding filter_loop
    taken fuel m xs s v e = record {
      state = s;
      returns = ground arith;
      rest = ground (arith, ap (filterb accept) v);
    }

    skipped :
        (fuel : ℕ) (m : Match F) (xs : List (Match F)) (s : S)
        → accept m ≡ false
        → Yields xs (filter_loop fuel (child.next s))
        → Yields (m ∷ xs) (filter_loop (suc fuel) (ok (some m, s)))
    unfolding filter_loop
    skipped fuel m xs s e y = record {
      state = y.state;
      returns = ground (arith, y.returns);
      rest = ground (arith, y.rest);
    }

    filter_loop-Yields :
        (fuel : ℕ) (xs : List (Match F)) (s : S)
        → lists.view s ≡ tail xs
        → length xs < fuel
        → Yields xs (filter_loop fuel (ok (head? xs, s)))
    unfolding filter_loop
    filter_loop-Yields zero xs s v h = absurd (omega arith)
    filter_loop-Yields (suc fuel) [] s v h = record {
      state = s;
      returns = refl;
      rest = ap (filterb accept) v;
    }
    filter_loop-Yields (suc fuel) (m ∷ xs) s v h = elim (Bool-cases (accept m)) [
      | inl e ↦ taken fuel m xs s v e
      | inr e ↦ skipped fuel m xs s e (
          subst (Yields xs) (sym (ap (filter_loop fuel) (next_of s xs v))) (
            filter_loop-Yields fuel xs (lists.next_to s) (lists.next_view s ∙ ap tail v)
              (omega arith)))
    ]
      where
        next_of :
            (t : S) (ys : List (Match F))
            → lists.view t ≡ ys
            → child.next t ≡ ok (head? ys, lists.next_to t)
        next_of t ys e = rw e at (lists.next_lem t)

    -- With a child that lists its matches and more fuel than it has matches left, Next of the
    -- filtering searcher returns the first match left that is accepted, or nil, and leaves the
    -- accepted matches behind it.
    pub filter_next-Yields :
        (s : S) → Yields (lists.view s) (filter_next (length (lists.view s) + 1) s)
    unfolding filter_next
    filter_next-Yields s =
        subst (Yields (lists.view s)) (sym (ap (filter_loop _) (lists.next_lem s)))
          (filter_loop-Yields _ (lists.view s) (lists.next_to s) (lists.next_view s) (omega arith))

    -- With such a child, Advance returns the first accepted match from the number on, or nil, and
    -- leaves the accepted matches behind it.
    pub filter_advance-Yields :
        (s : S) (n fuel : ℕ)
        → length (lists.view s) < fuel
        → Yields (from n (lists.view s)) (filter_advance fuel s n)
    unfolding filter_advance filter_next
    filter_advance-Yields s n fuel h = elim (List-cases (from n (lists.view s))) [
      | inl e ↦ record {
        state = lists.advance_to s n;
        returns = rw (filter_advance, lists.advance_lem s n, e) refl;
        rest = rw (lists.advance_view s n, e) refl;
      }
      | inr (m, rest, e) ↦ elim (Bool-cases (accept m)) [
        | inl a ↦ record {
          state = lists.advance_to s n;
          returns = rw (filter_advance, lists.advance_lem s n, e, filterb, a) refl;
          rest = rw (lists.advance_view s n, e, filterb, a) refl;
        }
        | inr a ↦ after_skip m rest e a
      ]
    ]
      where
        after_skip :
            (m : Match F) (rest : List (Match F))
            → from n (lists.view s) ≡ m ∷ rest
            → accept m ≡ false
            → Yields (from n (lists.view s)) (filter_advance fuel s n)
        after_skip m rest e a =
            let s' = lists.advance_to s n in
            let v = lists.advance_view s n ∙ ap tail e in
            let y =
              filter_loop-Yields fuel rest (lists.next_to s') (lists.next_view s' ∙ ap tail v)
                (omega (arith, length-from n (lists.view s), ap length e)) in
            record {
              state = y.state;
              returns = ground (arith, lists.advance_lem s n, e, lists.next_lem s', v, y.returns);
              rest = ground (arith, e, y.rest);
            }
