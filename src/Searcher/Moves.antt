-- ===== src/Searcher/Moves.antt =====
-- What Next and Advance do to the documents that a searcher has left.
use bluge.Base.{
  ℕ, suc, ◌<◌, ◌≡◌, refl, ap, ◌∙◌, sym, subst, true, false, not, ◌&&◌, List, [], ◌∷◌, none, some,
  ok, ltb, length, arith, List-cases, inl, inr,
}
use bluge.Searcher.{Match, Searcher, Child, next_child, advance_child}
use bluge.Searcher.Contract.{
  Lists, head?, from, length-from, has, IsAscending, AllFrom, has-AllFrom, has-from, from-AllFrom,
  from-IsAscending,
}

module _ {F E S : Type 0} (searcher : Searcher F E S) (lists : Lists searcher) where
  -- The matches of a searcher that are not consumed.
  abbrev pub pending : Child F S → List (Match F)
  pending c = elim c.curr [ none ↦ [] | some m ↦ m ∷ lists.view c.searcher ]

  -- A searcher after its Next, and after an Advance.
  abbrev pub moved : Child F S → Child F S
  moved c = record { searcher = lists.next_to c.searcher; curr = head? (lists.view c.searcher) }

  abbrev pub advanced : ℕ → Child F S → Child F S
  advanced n c = record {
    searcher = lists.advance_to c.searcher n;
    curr = head? (from n (lists.view c.searcher));
  }

  pub next_child_lem : (c : Child F S) → next_child searcher c ≡ ok (moved c)
  unfolding next_child
  next_child_lem c = rw (lists.next_lem c.searcher) refl

  pub advance_child_lem : (n : ℕ) (c : Child F S) → advance_child searcher n c ≡ ok (advanced n c)
  unfolding advance_child
  advance_child_lem n c = rw (lists.advance_lem c.searcher n) refl

  pub pending-moved : (c : Child F S) → pending (moved c) ≡ lists.view c.searcher
  pending-moved c = elim (List-cases (lists.view c.searcher)) [
    | inl e ↦ rw (pending, moved, e) refl
    | inr (x, rest, e) ↦ ground (arith, e, lists.next_view c.searcher)
  ]

  pub pending-advanced :
      (n : ℕ) (c : Child F S) → pending (advanced n c) ≡ from n (lists.view c.searcher)
  pending-advanced n c = elim (List-cases (from n (lists.view c.searcher))) [
    | inl e ↦ rw (pending, advanced, e) refl
    | inr (x, rest, e) ↦ ground (arith, e, lists.advance_view c.searcher n)
  ]

  pub IsAscending-moved : (c : Child F S) → IsAscending (pending (moved c))
  IsAscending-moved c = subst IsAscending (sym (pending-moved c)) (lists.ascending c.searcher)

  pub IsAscending-advanced : (n : ℕ) (c : Child F S) → IsAscending (pending (advanced n c))
  IsAscending-advanced n c =
      subst IsAscending (sym (pending-advanced n c))
        (from-IsAscending n (lists.view c.searcher) (lists.ascending c.searcher))

  module _ (c : Child F S) (m : Match F) (e : c.curr ≡ some m) where
    pub pending_at : pending c ≡ m ∷ lists.view c.searcher
    pending_at = rw (pending, e) refl

    rest_from : IsAscending (pending c) → AllFrom (suc m.number) (lists.view c.searcher)
    rest_from h = (subst IsAscending pending_at h).0

    pub has-pending_at : has m.number (pending c) ≡ true
    has-pending_at = ground (arith, pending_at)

    -- Nothing is left before the current match.
    pub has-pending_before :
        (j : ℕ) → IsAscending (pending c) → j < m.number → has j (pending c) ≡ false
    has-pending_before j h l =
        ground
          (arith, pending_at, has-AllFrom (suc m.number) j (lists.view c.searcher) (rest_from h))

    pub has-pending-moved :
        (j : ℕ)
        → IsAscending (pending c)
        → has j (pending (moved c)) ≡ (ltb m.number j && has j (pending c))
    has-pending-moved j h = ground (
      arith,
      pending_at,
      pending-moved c,
      has-AllFrom (suc m.number) j (lists.view c.searcher) (rest_from h),
    )

    pub length-pending-moved : length (pending c) ≡ suc (length (pending (moved c)))
    length-pending-moved = ap length pending_at ∙ ap suc (ap length (sym (pending-moved c)))

    -- Advance from behind drops what lies before the number.
    pub has-pending-advanced :
        (n j : ℕ)
        → m.number < n
        → has j (pending (advanced n c)) ≡ (not (ltb j n) && has j (pending c))
    has-pending-advanced n j l = ground (
      arith,
      pending_at,
      pending-advanced n c,
      has-from n j (lists.view c.searcher),
      has-AllFrom n j (from n (lists.view c.searcher))
          (from-AllFrom n (lists.view c.searcher) (lists.ascending c.searcher)),
    )

    pub length-pending-advanced :
        (n : ℕ) → m.number < n → length (pending (advanced n c)) < length (pending c)
    length-pending-advanced n l = omega (
      arith,
      ap length (pending-advanced n c),
      ap length pending_at,
      length-from n (lists.view c.searcher),
    )

  pub has-pending-none : (c : Child F S) (j : ℕ) → c.curr ≡ none → has j (pending c) ≡ false
  has-pending-none c j e = rw (pending, e) refl
