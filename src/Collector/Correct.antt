-- ===== src/Collector/Correct.antt =====
-- Collect with a slice store, as one equation: the requested page of all hits in order.
use Prim.Native.Nat.{Ordering}
use mathlib.Core.List.{reverse, append-nil, perm_middle}
use mathlib.Core.List.Perm
use bluge.Base.{
  ℕ, zero, suc, ◌+◌, ◌≤◌, ◌≡◌, refl, sym, ◌∙◌, true, false, not, List, [], ◌∷◌, ◌++◌, map, none,
  Option, Result, ok, err, ◌>>=◌, arith, length, take, drop, ap, if◌then◌else◌, subst, filterb,
  Perm, Bool,
}
use bluge.Base.Floats.{FloatOrder}
use bluge.Search.{DocumentMatch, compute, sort_compare, compare_score}
use bluge.Search.Order.{IsTotal, sort_compare-IsTotal, compare_score-IsTotal}
use bluge.Collector.{
  Env, TopNCollector, State, Hits, hc_compare, before_page, finalize_results, collect_loop, collect,
}
use bluge.Collector.Store.{slice_store, final, fixup_all}
use bluge.Collector.Sorted.{insert, insert_all, IsSorted, IsSorted-insert, insert-perm}
use bluge.Collector.Top.{IsTop}
use bluge.Collector.Offer.{state, with_top, HoldsTop}
use bluge.Collector.Page.{seen, ranked, page, consume_all, Ends, loop-Ends}

module _ {D : Type 0} where
  pub take-append : (xs ys : List D) → take (length xs) (xs ++ ys) ≡ xs
  take-append [] ys = refl
  take-append (x ∷ xs) ys = ap (◌∷◌ x) (take-append xs ys)

  pub take-short : (n : ℕ) (xs : List D) → length xs ≤ n → take n xs ≡ xs
  take-short zero [] h = refl
  take-short zero (x ∷ xs) h = absurd (omega arith)
  take-short (suc n) [] h = refl
  take-short (suc n) (x ∷ xs) h = ap (◌∷◌ x) (take-short n xs (omega arith))

  module _ (c : D → D → Ordering) (total : IsTotal c) where
    -- The store is the front of the sorted hits.
    pub IsTop-take :
        (n : ℕ) (S T : List D) (low : Option D) → IsTop c total n S T low → take n S ≡ T
    IsTop-take n S T low top = go top.rest refl
      where
        go : (r : List D) → top.rest ≡ r → take n S ≡ T
        go [] e =
            let whole : S ≡ T = top.split ∙ ap (λ x. T ++ x) e ∙ append-nil T in
            rw whole (take-short n T top.bounded)
        go (x ∷ r) e =
            let size : length T ≡ n = top.full (omega (arith, ap length e)) in
            ap (λ k. take k S) (sym size) ∙ ap (take (length T)) top.split ∙ take-append T top.rest

    insert_all-IsSorted : (xs ds : List D) → IsSorted c xs → IsSorted c (insert_all c xs ds)
    unfolding insert_all
    insert_all-IsSorted xs [] h = h
    insert_all-IsSorted xs (d ∷ ds) h =
        insert_all-IsSorted (insert c d xs) ds (IsSorted-insert c total d xs h)

    insert_all-perm : (xs ds : List D) → Perm (insert_all c xs ds) (ds ++ xs)
    unfolding insert_all
    insert_all-perm xs [] = Perm.refl xs
    insert_all-perm xs (d ∷ ds) =
        Perm.trans (insert_all-perm (insert c d xs) ds)
          (Perm.trans (Perm.append_left ds (insert-perm c d xs)) (perm_middle ds xs))

module _ {F E B : Type 0} (env : Env F E B) (hc : TopNCollector F)
    (order : FloatOrder env.floats) where
  hc_compare-IsTotal : IsTotal (hc_compare env hc)
  unfolding hc_compare
  hc_compare-IsTotal = go hc.score_sort
    where
      go :
          (b : Bool)
          → IsTotal (λ i j. if b then compare_score env.floats i j else sort_compare hc.sort i j)
      go true = compare_score-IsTotal env.floats order
      go false = sort_compare-IsTotal hc.sort

  -- The hits that are ranked are those behind the key of the previous page, each once, in order.
  pub ranked-IsSorted :
      (ds : List (DocumentMatch F))
      → IsSorted (hc_compare env hc) (ranked env hc ds)
        × Perm (ranked env hc ds) (filterb (λ d. not (before_page env hc d)) ds)
  ranked-IsSorted ds = (
    insert_all-IsSorted _ hc_compare-IsTotal [] _ tt,
    subst (Perm (ranked env hc ds)) (append-nil _) (insert_all-perm _ hc_compare-IsTotal [] _),
  )

  abbrev completes : DocumentMatch F → Result E (DocumentMatch F)
  completes d = ok (env.complete d)

  fixup_all-complete :
      (xs : List (DocumentMatch F))
      → fixup_all (hc_compare env hc) env.heap completes xs ≡ ok (map env.complete xs)
  unfolding fixup_all
  fixup_all-complete [] = refl
  fixup_all-complete (x ∷ xs) = rw (fixup_all-complete xs)

  -- The end of finalizeResults, on the completed results.
  abbrev arrange : List (DocumentMatch F) → List (DocumentMatch F)
  arrange results =
      let ordered = if hc.reverse then reverse results else results in
      if hc.score_sort then map (compute env.float64_bits hc.sort) ordered else ordered

  -- finalizeResults on the slice of a page.
  finalize-page :
      (slice : List (DocumentMatch F)) (low : Option (DocumentMatch F))
      (ds : List (DocumentMatch F))
      → take (hc.size + hc.skip) (ranked env hc ds) ≡ slice
      → finalize_results env (with_top env hc hc_compare-IsTotal slice low) ≡ ok (page env hc ds)
  unfolding finalize_results final hc_compare
  finalize-page slice low ds e =
      ap (λ (r : Result E (List (DocumentMatch F))). r >>= λ results. ok (arrange results))
        (fixup_all-complete (drop hc.skip slice))
      ∙ ap (λ (t : List (DocumentMatch F)). ok (arrange (map env.complete (drop hc.skip t))))
          (sym e)

  collect-open :
      (done : ℕ → Bool) (hits : Hits F E) (s : State F B)
      → done 0 ≡ false
      → collect env done hits s ≡ (
          collect_loop env done hits 0 s >>= λ s'.
          finalize_results env s'.hc >>= λ results. ok (results, env.finish s'.bucket))
  unfolding collect
  collect-open done hits s h = rw h

  -- If the floats are ordered and the context is not done at the start, Collect on a fresh slice
  -- store returns the first error that it meets, or the requested page of the ranked hits and the
  -- bucket that consumed every hit.
  pub collect-page :
      (done : ℕ → Bool) (hits : Hits F E) (bucket : B) (pool : List (DocumentMatch F))
      → hc.store ≡ slice_store []
      → hc.lowest_match_outside_results ≡ none
      → done 0 ≡ false
      → collect env done hits (record { hc = hc; bucket = bucket; pool = pool }) ≡ (
          seen env hc done hits 0 >>= λ ds.
          ok (page env hc ds, env.finish (consume_all env hc bucket ds)))
  collect-page done hits bucket pool fresh outside open_ctx =
      collect-open done hits _ open_ctx
      ∙ ends (seen env hc done hits 0) refl
          (loop-Ends env hc hc_compare-IsTotal done hits 0 bucket [] _ start)
    where
      is_start :
          record { hc = hc; bucket = bucket; pool = pool }
          ≡ state env hc hc_compare-IsTotal [] none bucket pool
      is_start = λ i. record {
        hc = record hc { store = fresh i; lowest_match_outside_results = outside i };
        bucket = bucket;
        pool = pool;
      }

      start :
          HoldsTop env hc hc_compare-IsTotal bucket []
            (record { hc = hc; bucket = bucket; pool = pool })
      start = record {
        slice = [];
        low = none;
        pool = pool;
        is_state = is_start;
        top = record {
          rest = [];
          sorted = tt;
          split = refl;
          bounded = omega arith;
          full = λ h. absurd (omega arith);
          lowest = refl;
        };
      }

      finish_page : State F B → Result E (List (DocumentMatch F) × B)
      finish_page s = finalize_results env s.hc >>= λ results. ok (results, env.finish s.bucket)

      ends :
          (r : Result E (List (DocumentMatch F)))
          → seen env hc done hits 0 ≡ r
          → Ends env hc hc_compare-IsTotal bucket [] r
              (collect_loop env done hits 0 (record { hc = hc; bucket = bucket; pool = pool }))
          → (collect_loop env done hits 0 (record { hc = hc; bucket = bucket; pool = pool })
              >>= finish_page)
            ≡ (r >>= λ ds. ok (page env hc ds, env.finish (consume_all env hc bucket ds)))
      ends (err e) q failed = ap (λ (x : Result E (State F B)). x >>= finish_page) failed
      ends (ok ds) q (s, worked, h) =
          ap (λ (x : Result E (State F B)). x >>= finish_page) worked
          ∙ ap finish_page h.is_state
          ∙ ap
              (λ (x : Result E (List (DocumentMatch F))).
                x >>= λ results. ok (results, env.finish (consume_all env hc bucket ds)))
              (finalize-page h.slice h.low ds (
                IsTop-take (hc_compare env hc) hc_compare-IsTotal (hc.size + hc.skip)
                  (ranked env hc ds) h.slice h.low h.top))
