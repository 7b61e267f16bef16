-- ===== src/Collector.antt =====
-- search/collector/slice.go, heap.go and topn.go: the collector of the best hits and its two
-- stores. container/heap, the loading of document values, the aggregations and the completion of a
-- match are parameters. A match in the model is the value behind the source's pointer.
pub mod Store
pub mod Sorted
pub mod Slice
pub mod Top
pub mod Offer
pub mod Page
pub mod Correct
use Prim.Native.Nat.{Ordering}
use bluge.Base.{
  ℕ, zero, suc, ◌+◌, ◌%◌, Bool, true, false, not, ◌&&◌, List, [], ◌∷◌, ◌++◌, map, Option, none,
  some, Result, ok, err, ◌>>=◌, ltb, leb, ◌==◌, if◌then◌else◌, length, take, drop,
}
use mathlib.Core.List.{reverse}
use bluge.Base.Floats.{FloatOps}
use bluge.Search.{
  Bytes, DocumentMatch, SortOrder, sort_compare, compare_score, compute, is_score_descending,
}
use bluge.Collector.Store.{
  HeapOps, CollectorStore, slice_store, heap_store, add_not_exceeding_size, final,
}

abbrev pub pre_alloc_size_skip_cap : ℕ
pre_alloc_size_skip_cap = 1000

abbrev pub check_done_every : ℕ
check_done_every = 1024

abbrev pub switch_from_slice_to_heap : ℕ
switch_from_slice_to_heap = 10

-- What the collector calls: container/heap, LoadDocumentValues, Complete, math.Float64bits, and
-- the aggregations on their bucket.
pub record Env (F E B : Type 0) : Type 0 where
  pub floats : FloatOps F
  pub heap : HeapOps (DocumentMatch F)
  pub float64_bits : F → ℕ
  pub load : DocumentMatch F → Result E (DocumentMatch F)
  pub complete : DocumentMatch F → DocumentMatch F
  pub consume : B → DocumentMatch F → B
  pub finish : B → B
  -- the error of a context that is done
  pub ctx_err : E

pub record TopNCollector (F : Type 0) : Type 0 where
  pub size : ℕ
  pub skip : ℕ
  pub sort : SortOrder F
  pub reverse : Bool
  pub backing_size : ℕ
  pub store : CollectorStore (DocumentMatch F)
  pub lowest_match_outside_results : Option (DocumentMatch F)
  pub search_after : Option (DocumentMatch F)
  pub score_sort : Bool
  -- whether `neededFields` has an entry
  pub needs_fields : Bool

-- The collector, the aggregations' bucket and the matches given back to the pool.
pub record State (F B : Type 0) : Type 0 where
  pub hc : TopNCollector F
  pub bucket : B
  pub pool : List (DocumentMatch F)

-- What Next of the searcher returns, call by call.
pub data Hits (F E : Type 0) : Type 0 where
  hit : DocumentMatch F → Hits F E → Hits F E
  stop : Hits F E
  fail : E → Hits F E

module _ {F : Type 0} where
  unfoldable pub new_topn_collector : ℕ → ℕ → SortOrder F → Bool → Bool → TopNCollector F
  new_topn_collector size skip sort reverse needs_fields = record {
    size = size;
    skip = skip;
    sort = sort;
    reverse = reverse;
    backing_size =
        if ltb pre_alloc_size_skip_cap (size + skip)
        then pre_alloc_size_skip_cap + 1
        else size + skip + 1;
    store = if ltb switch_from_slice_to_heap (size + skip) then heap_store [] else slice_store [];
    lowest_match_outside_results = none;
    search_after = none;
    score_sort = not reverse && is_score_descending sort;
    needs_fields = needs_fields;
  }

  -- NewTopNCollectorAfter; `after` is the match with these sort values.
  unfoldable pub new_topn_collector_after :
      ℕ → SortOrder F → DocumentMatch F → Bool → Bool → TopNCollector F
  unfolding new_topn_collector
  new_topn_collector_after size sort after reverse needs_fields =
      let rv = new_topn_collector size 0 sort reverse needs_fields in
      record rv { search_after = some after; score_sort = false }

  module _ {E B : Type 0} (env : Env F E B) where
    unfoldable pub hc_compare : TopNCollector F → DocumentMatch F → DocumentMatch F → Ordering
    hc_compare hc i j =
        if hc.score_sort then compare_score env.floats i j else sort_compare hc.sort i j

    -- The match that was pushed out of the store, at the end of collectSingle.
    unfoldable pub keep_lowest : State F B → Option (DocumentMatch F) → State F B
    unfolding hc_compare
    keep_lowest s none = s
    keep_lowest s (some removed) =
        let set =
          λ (d : DocumentMatch F). record (s.hc) { lowest_match_outside_results = some d } in
        elim s.hc.lowest_match_outside_results [
          | none ↦ record s { hc = set removed }
          | some tmp ↦ elim (hc_compare s.hc removed tmp) [
            | Ordering.lt ↦ record s { hc = set removed; pool = tmp ∷ s.pool }
            | _ ↦ s
          ]
        ]

    unfoldable pub add_to_store : State F B → DocumentMatch F → State F B
    unfolding keep_lowest
    add_to_store s d =
        let (removed, store) =
          add_not_exceeding_size (hc_compare s.hc) env.heap s.hc.store d (s.hc.size + s.hc.skip) in
        keep_lowest (record s { hc = record (s.hc) { store = store } }) removed

    -- collectSingle from the test against lowestMatchOutsideResults on.
    unfoldable pub offer : State F B → DocumentMatch F → State F B
    unfolding add_to_store
    offer s d = elim s.hc.lowest_match_outside_results [
      | none ↦ add_to_store s d
      | some lowest ↦ elim (hc_compare s.hc d lowest) [
        | Ordering.lt ↦ add_to_store s d
        | _ ↦ record s { pool = d ∷ s.pool }
      ]
    ]

    -- Whether the hit is at or before the key of the previous page.
    unfoldable pub before_page : TopNCollector F → DocumentMatch F → Bool
    before_page hc d = elim hc.search_after [
      | none ↦ false
      | some after ↦ elim (sort_compare hc.sort d (record after { hit_number = d.hit_number })) [
        | Ordering.gt ↦ false
        | _ ↦ true
      ]
    ]

    -- The match that collectSingle works on: with its document values and its sort value.
    unfoldable pub prepare : TopNCollector F → DocumentMatch F → Result E (DocumentMatch F)
    prepare hc d = do
      d' ← if hc.needs_fields then env.load d else ok d
      ok (if hc.score_sort then d' else compute env.float64_bits hc.sort d')

    unfoldable pub collect_single : State F B → DocumentMatch F → Result E (State F B)
    unfolding prepare before_page offer
    collect_single s d = prepare s.hc d >>= λ d'.
        let s' : State F B = record s { bucket = env.consume s.bucket d' } in
        ok (if before_page s.hc d' then s' else offer s' d')

    -- finalizeResults
    unfoldable pub finalize_results : TopNCollector F → Result E (List (DocumentMatch F))
    finalize_results hc =
        final (hc_compare hc) env.heap (λ d. ok (env.complete d)) hc.store hc.skip >>= λ results.
        let ordered = if hc.reverse then reverse results else results in
        ok (if hc.score_sort then map (compute env.float64_bits hc.sort) ordered else ordered)

    -- The loop of Collect. `done n` tells whether the context is done when `n` hits were seen.
    unfoldable pub collect_loop : (ℕ → Bool) → Hits F E → ℕ → State F B → Result E (State F B)
    unfolding collect_single
    collect_loop done stop hit_number s = ok s
    collect_loop done (fail e) hit_number s = err e
    collect_loop done (hit next rest) hit_number s =
        elim ((hit_number % check_done_every) == 0 && done hit_number) [
          | true ↦ err env.ctx_err
          | false ↦ collect_single s (record next { hit_number = suc hit_number }) >>= λ s'.
              collect_loop done rest (suc hit_number) s'
        ]

    -- Collect with a searcher that offers no RawTopN: the results and the finished bucket.
    unfoldable pub collect :
        (ℕ → Bool) → Hits F E → State F B → Result E (List (DocumentMatch F) × B)
    unfolding collect_loop finalize_results
    collect done hits start =
        if done 0
        then err env.ctx_err
        else collect_loop done hits 0 start >>= λ s.
            finalize_results s.hc >>= λ results. ok (results, env.finish s.bucket)
