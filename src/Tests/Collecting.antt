-- ===== src/Tests/Collecting.antt =====
-- The collector and the sort orders on a few hits.
use Prim.Native.Nat.{Ordering}
use bluge.Base.{
  ℕ, ◌+◌, ◌^◌, ltb, arith, ◌≡◌, refl, Bool, true, false, List, [], ◌∷◌, none, some, Result, ok, err,
  ◌%◌, ◌==◌, ◌>>=◌, if◌then◌else◌,
}
use bluge.Search.{
  DocumentMatch, Sort, SortOrder, score_source, text_source, compute, sort_compare, compare_score,
  is_score_descending, reverse_order, primary_value, compare_values,
}
use bluge.Base.Floats.{FloatOps}
use bluge.Search.Scores.{IsOrdinary, is_negative, magnitude, compare_score-eq-sort_compare}
use bluge.Search.Values.{missing_value_order, compare_computed, compare_computed-reverse_order}
use bluge.Collector.{Env, TopNCollector, Hits, hit, stop, new_topn_collector, collect}
use bluge.Collector.Store.{add_not_exceeding_size, final}
use bluge.Collector.Page.{seen, page, consume_all}
use bluge.Collector.Correct.{collect-page}
use bluge.Tests.Numbers.{thousandths, thousandths-order}

abbrev doc : ℕ → ℕ → DocumentMatch ℕ
doc number score = record { number = number; hit_number = 0; score = score; sort_value = [] }

-- The bits of a score are its number; the aggregation counts the hits.
abbrev env : Env ℕ ℕ ℕ
env = record {
  floats = thousandths;
  heap = record { push = λ less xs d. d ∷ xs; pop = λ less xs. none };
  float64_bits = λ s. s;
  load = λ d. ok d;
  complete = λ d. d;
  consume = λ n d. n + 1;
  finish = λ n. n;
  ctx_err = 7;
}

-- By score, descending.
abbrev by_score : SortOrder ℕ
by_score = record { source = score_source; desc = true; missing_first = false } ∷ []

abbrev request : TopNCollector ℕ
unfolding new_topn_collector
request = new_topn_collector 2 1 by_score false false

abbrev hits : Hits ℕ ℕ
hits = hit (doc 3 50) (hit (doc 8 90) (hit (doc 9 50) (hit (doc 11 70) stop)))

abbrev never : ℕ → Bool
never n = false

abbrev numbers : List (DocumentMatch ℕ) → List ℕ
numbers [] = []
numbers (d ∷ rest) = d.number ∷ numbers rest

abbrev shown : Result ℕ (List (DocumentMatch ℕ) × ℕ) → Result ℕ (List ℕ × ℕ)
shown (ok (r, n)) = ok (numbers r, n)
shown (err e) = err e

-- The best hit is skipped, and the tie of 3 and 9 goes to the earlier hit.
collected :
    shown (collect env never hits (record { hc = request; bucket = 0; pool = [] }))
    ≡ ok (11 ∷ 3 ∷ [], 4)
unfolding collect new_topn_collector add_not_exceeding_size is_score_descending compare_score final
    compute
collected = refl

collect-page_example : collect env never hits (record { hc = request; bucket = 0; pool = [] }) ≡ (
    seen env request never hits 0 >>= λ ds. ok (page env request ds, consume_all env request 0 ds))
unfolding new_topn_collector
collect-page_example = collect-page env request thousandths-order never hits 0 [] refl refl refl

-- Floats that are their bits, in the order of IEEE 754.
abbrev bit_floats : FloatOps ℕ
bit_floats = record thousandths {
  lt = λ a b.
      if is_negative (λ x. x) a
      then (if is_negative (λ x. x) b
          then ltb (magnitude (λ x. x) b) (magnitude (λ x. x) a)
          else true)
      else (if is_negative (λ x. x) b
          then false
          else ltb (magnitude (λ x. x) a) (magnitude (λ x. x) b));
}

two-IsOrdinary : IsOrdinary (λ (x : ℕ). x) (2 ^ 62)
two-IsOrdinary = (omega arith, (λ e. omega (arith, e)), omega arith)

three-IsOrdinary : IsOrdinary (λ (x : ℕ). x) (2 ^ 62 + 2 ^ 51)
three-IsOrdinary = (omega arith, (λ e. omega (arith, e)), omega arith)

-- The scores 2 and 3.
compare_score-eq-sort_compare_example :
    sort_compare by_score
      (compute (λ s. s) by_score (doc 1 (2 ^ 62)))
      (compute (λ s. s) by_score (doc 2 (2 ^ 62 + 2 ^ 51)))
    ≡ compare_score bit_floats (doc 1 (2 ^ 62)) (doc 2 (2 ^ 62 + 2 ^ 51))
unfolding is_score_descending
compare_score-eq-sort_compare_example =
    compare_score-eq-sort_compare (λ s. s) bit_floats (λ a b h k. refl) by_score (doc 1 (2 ^ 62))
      (doc 2 (2 ^ 62 + 2 ^ 51)) two-IsOrdinary three-IsOrdinary refl

-- Matches with an even number have the value 7.
abbrev by_field : Sort ℕ
by_field = record {
  source = text_source (λ d. if (d.number % 2) == 0 then some (7 ∷ []) else none);
  desc = true;
  missing_first = false;
}

missing_value_order_example :
    sort_compare
      (by_field ∷ [])
      (compute (λ s. s) (by_field ∷ []) (doc 1 5))
      (compute (λ s. s) (by_field ∷ []) (doc 2 9))
    ≡ Ordering.gt
unfolding primary_value
missing_value_order_example =
    missing_value_order (λ s. s) by_field [] (doc 1 5) (doc 2 9) (7 ∷ []) refl refl refl refl

compare_computed-reverse_order_example :
    compare_computed (λ s. s) (reverse_order (by_field ∷ [])) (doc 1 5) (doc 2 9) ≡ Ordering.lt
unfolding reverse_order compute compare_values
compare_computed-reverse_order_example =
    compare_computed-reverse_order (λ s. s) (by_field ∷ []) (doc 1 5) (doc 2 9)
