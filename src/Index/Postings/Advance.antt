-- ===== src/Index/Postings/Advance.antt =====
-- Advance of the postings: what is left from a number on.
use bluge.Base.{
  ℕ, zero, suc, ◌+◌, ◌-◌, ◌<◌, ◌≤◌, ◌≡◌, refl, ap, ◌∙◌, sym, List, [], ◌∷◌, ◌++◌, some, Result, ok,
  All, arith, List-cases, inl, inr,
}
use bluge.Searcher.{Match, Searcher}
use bluge.Searcher.Contract.{Lists, head?, tail, from, from-id, AllFrom}
use bluge.Index.Postings.{Postings, first_above, advance_at, moved_to, restarted, postings_advance}
use bluge.Index.Postings.Next.{shifted, all, left, Yields, next_at-Yields}

module _ {F : Type 0} where
  from-shifted :
      (n offset : ℕ) (ms : List (Match F))
      → offset ≤ n
      → from n (shifted offset ms) ≡ shifted offset (from (n - offset) ms)
  from-shifted n offset [] l = refl
  from-shifted n offset (m ∷ ms) l = ground (arith, l, from-shifted n offset ms l)

  -- A list without numbers before `n` stays behind what is left of one before it.
  from-append :
      (n : ℕ) (xs ys : List (Match F)) → from n ys ≡ ys → from n (xs ++ ys) ≡ from n xs ++ ys
  from-append n [] ys e = e
  from-append n (x ∷ xs) ys e = ground (arith, from-append n xs ys e)

  from_below :
      (n : ℕ) (xs ys : List (Match F)) → All (λ m. m.number < n) xs → from n (xs ++ ys) ≡ from n ys
  from_below n [] ys h = refl
  from_below n (x ∷ xs) ys h = ground (arith, from_below n xs ys h.1)

  AllFrom-append :
      (n : ℕ) (xs ys : List (Match F)) → AllFrom n xs → AllFrom n ys → AllFrom n (xs ++ ys)
  AllFrom-append n [] ys h k = k
  AllFrom-append n (x ∷ xs) ys h k = (h.0, AllFrom-append n xs ys h.1 k)

  AllFrom-shifted :
      (n offset : ℕ) (ms : List (Match F)) → n ≤ offset → AllFrom n (shifted offset ms)
  AllFrom-shifted n offset [] l = tt
  AllFrom-shifted n offset (m ∷ ms) l = (omega (arith, l), AllFrom-shifted n offset ms l)

  -- All numbers of a segment, in the snapshot, are before `end`.
  abbrev pub Ends : ℕ → ℕ → List (Match F) → Type 0
  Ends offset end ms = All (λ m. m.number + offset < end) ms

  below-shifted :
      (n offset end : ℕ) (ms : List (Match F))
      → Ends offset end ms
      → end ≤ n
      → All (λ m. m.number < n) (shifted offset ms)
  below-shifted n offset end [] h l = tt
  below-shifted n offset end (m ∷ ms) h l =
      (omega (arith, h.0, l), below-shifted n offset end ms h.1 l)

module _ {F E S : Type 0} (iterator : Searcher F E S) (lists : Lists iterator) where
  -- Each segment ends before the offset of the next one.
  abbrev pub IsWithin : List (ℕ × S) → Type 0
  IsWithin [] = Unit
  IsWithin (x ∷ []) = Unit
  IsWithin (x ∷ y ∷ rest) = (x.0 ≤ y.0) × Ends x.0 y.0 (lists.view x.1) × IsWithin (y ∷ rest)

  all-AllFrom :
      (n : ℕ) (x : ℕ × S) (xs : List (ℕ × S))
      → IsWithin (x ∷ xs)
      → n ≤ x.0
      → AllFrom n (all iterator lists (x ∷ xs))
  all-AllFrom n x [] h l =
      AllFrom-append n (shifted x.0 (lists.view x.1)) [] (AllFrom-shifted n x.0 (lists.view x.1) l)
        tt
  all-AllFrom n x (y ∷ rest) h l =
      AllFrom-append n (shifted x.0 (lists.view x.1)) (all iterator lists (y ∷ rest))
        (AllFrom-shifted n x.0 (lists.view x.1) l)
        (all-AllFrom n y rest h.2 (omega (arith, l, h.0)))

  -- Where the number is in the first segment, nothing of the later ones is before it.
  later_from :
      (n : ℕ) (x : ℕ × S) (xs : List (ℕ × S))
      → IsWithin (x ∷ xs)
      → first_above n xs ≡ 0
      → from n (all iterator lists xs) ≡ all iterator lists xs
  later_from n x [] h e = refl
  later_from n x (y ∷ rest) h e =
      from-id n (all iterator lists (y ∷ rest)) (all-AllFrom n y rest h.2 (ground (arith, e)))

  advance_at-Yields :
      (k n : ℕ) (xs : List (ℕ × S))
      → IsWithin xs
      → first_above n xs ≡ suc k
      → Yields iterator lists (from n (all iterator lists xs)) (advance_at iterator k n xs)
  unfolding advance_at
  advance_at-Yields k n [] h e = absurd (ground (arith, e))
  advance_at-Yields zero n (x ∷ xs) h e =
      let l : x.0 ≤ n = ground (arith, e) in
      let later = later_from n x xs h (ground (arith, e)) in
      let a = lists.advance_lem x.1 (n - x.0) in
      let v = lists.advance_view x.1 (n - x.0) in
      let s = lists.advance_to x.1 (n - x.0) in
      let here : from n (all iterator lists (x ∷ xs))
          ≡ shifted x.0 (from (n - x.0) (lists.view x.1)) ++ all iterator lists xs =
        from-append n (shifted x.0 (lists.view x.1)) (all iterator lists xs) later
        ∙ ap (λ y. y ++ all iterator lists xs) (from-shifted n x.0 (lists.view x.1) l) in
      elim (List-cases (from (n - x.0) (lists.view x.1))) [
        | inl f ↦
            let next = next_at-Yields iterator lists 0 ((x.0, s) ∷ xs) in
            let same : all iterator lists ((x.0, s) ∷ xs) ≡ from n (all iterator lists (x ∷ xs)) =
              ground (arith, v, f, here) in
            record {
              index = next.index;
              after = next.after;
              returns =
                  ground (arith, a, f)
                  ∙ next.returns
                  ∙ ap (λ ms. ok (head? ms, next.index, next.after)) same;
              rest = next.rest ∙ ap tail same;
            }
        | inr (m, ms, f) ↦ record {
          index = 0;
          after = (x.0, s) ∷ xs;
          returns = ground (arith, a, f, here);
          rest = ground (arith, v, f, here);
        }
      ]
  advance_at-Yields (suc k) n (x ∷ []) h e = absurd (ground (arith, e))
  advance_at-Yields (suc k) n (x ∷ y ∷ rest) h e =
      let e' : first_above n (y ∷ rest) ≡ suc k = ground (arith, e) in
      let ih = advance_at-Yields k n (y ∷ rest) h.2 e' in
      let gone =
        from_below n (shifted x.0 (lists.view x.1)) (all iterator lists (y ∷ rest))
          (below-shifted n x.0 y.0 (lists.view x.1) h.1 (ground (arith, e'))) in
      record {
        index = suc ih.index;
        after = x ∷ ih.after;
        returns = ground (arith, ih.returns, gone);
        rest = ih.rest ∙ ap tail (sym gone);
      }

  first_above-suc :
      (n : ℕ) (s : S) (xs : List (ℕ × S)) → (k : ℕ) × (first_above n ((0, s) ∷ xs) ≡ suc k)
  first_above-suc n s xs = (first_above n xs, ground arith)

  -- If the segments list ascending postings that end before the offset of the next segment, and
  -- the first segment of the state that Advance works on, restarted if the number is not after the
  -- current one, has offset 0, then Advance does not panic, returns the first posting from the
  -- number on that any segment has left, by its number in the snapshot, or nil if there is none,
  -- and leaves exactly the later ones.
  pub postings_advance-left :
      (restart : Result E (Postings S)) (p p' : Postings S) (n : ℕ) (s : S) (xs : List (ℕ × S))
      → restarted iterator restart p n ≡ ok p'
      → p'.iterators ≡ (0, s) ∷ xs
      → IsWithin p'.iterators
      → (after : Postings S) × (postings_advance iterator restart p n
          ≡ some (ok (head? (from n (all iterator lists p'.iterators)), after)))
        × (left iterator lists after.segment_offset after.iterators
            ≡ tail (from n (all iterator lists p'.iterators)))
  unfolding postings_advance
  postings_advance-left restart p p' n s xs e i w =
      let (k, f) = first_above-suc n s xs in
      let f' : first_above n p'.iterators ≡ suc k = ap (first_above n) i ∙ f in
      let y = advance_at-Yields k n p'.iterators w f' in
      (
        (moved_to iterator p'.curr_id
            (head? (from n (all iterator lists p'.iterators)), y.index, y.after)).1,
        ground (arith, e, f', y.returns),
        y.rest,
      )
