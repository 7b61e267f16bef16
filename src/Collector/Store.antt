-- ===== src/Collector/Store.antt =====
-- search/collector/slice.go and heap.go: the stores of the collector, over any comparison.
use Prim.Native.Nat.{Ordering}
use bluge.Base.{
  ℕ, zero, suc, ◌-◌, Bool, true, false, List, [], ◌∷◌, ◌++◌, Option, none, some, Result, ok, ◌>>=◌,
  ltb, if◌then◌else◌, length, get_elem?, take, drop,
}

-- container/heap over a slice: Push and Pop under a Less on the elements. `none` is a panic.
pub record HeapOps (D : Type 0) : Type 0 where
  pub push : (D → D → Bool) → List D → D → List D
  pub pop : (D → D → Bool) → List D → Option (D × List D)

pub data CollectorStore (D : Type 0) : Type 0 where
  slice_store : List D → CollectorStore D
  heap_store : List D → CollectorStore D

-- `cmp > 0`
abbrev pub is_gt : Ordering → Bool
is_gt Ordering.gt = true
is_gt _ = false

module _ {D : Type 0} (c : D → D → Ordering) where
  -- The loop of collectStoreSlice.add: the index to insert at.
  unfoldable pub slice_add_loop : D → List D → ℕ → ℕ
  slice_add_loop doc slice zero = zero
  slice_add_loop doc slice (suc i) = elim (get_elem? slice i) [
    | none ↦ suc i
    | some e ↦ elim (c doc e) [ Ordering.lt ↦ slice_add_loop doc slice i | _ ↦ suc i ]
  ]

  unfoldable pub slice_add : D → List D → List D
  unfolding slice_add_loop
  slice_add doc slice =
      let i = slice_add_loop doc slice (length slice) in take i slice ++ doc ∷ drop i slice

  -- removeLast; `none` is a panic on the empty slice.
  unfoldable pub slice_remove_last : List D → Option (D × List D)
  slice_remove_last [] = none
  slice_remove_last (x ∷ xs) = elim (slice_remove_last xs) [
    | none ↦ some (x, [])
    | some (last, rest) ↦ some (last, x ∷ rest)
  ]

  -- collectStoreHeap.Less: `-so < 0`
  abbrev pub heap_less : D → D → Bool
  heap_less i j = is_gt (c i j)

  module _ (ops : HeapOps D) where
    unfoldable pub heap_add : D → List D → List D
    heap_add doc heap = ops.push heap_less heap doc

    unfoldable pub heap_remove_last : List D → Option (D × List D)
    heap_remove_last heap = ops.pop heap_less heap

    -- What AddNotExceedingSize returns and leaves, from the list after the add.
    abbrev pub trim_to :
        (List D → CollectorStore D)
        → List D
        → Option (D × List D)
        → Bool
        → Option D × CollectorStore D
    trim_to store added popped exceeds =
        if exceeds
        then elim popped [
          | none ↦ (none, store added)
          | some (last, rest) ↦ (some last, store rest)
        ]
        else (none, store added)

    unfoldable pub add_not_exceeding_size : CollectorStore D → D → ℕ → Option D × CollectorStore D
    unfolding slice_add slice_remove_last heap_add heap_remove_last
    add_not_exceeding_size (slice_store slice) doc size =
        let added = slice_add doc slice in
        trim_to slice_store added (slice_remove_last added) (ltb size (length added))
    add_not_exceeding_size (heap_store heap) doc size =
        let added = heap_add doc heap in
        trim_to heap_store added (heap_remove_last added) (ltb size (length added))

    module _ {E : Type 0} (fixup : D → Result E D) where
      unfoldable pub fixup_all : List D → Result E (List D)
      fixup_all [] = ok []
      fixup_all (d ∷ rest) = do d' ← fixup d; rest' ← fixup_all rest; ok (d' ∷ rest')

      -- The loop of collectStoreHeap.Final, which fills `rv` from its end.
      unfoldable pub heap_final_loop : ℕ → List D → List D → Result E (List D)
      unfolding heap_remove_last
      heap_final_loop zero heap rv = ok rv
      heap_final_loop (suc i) heap rv = elim (heap_remove_last heap) [
        | none ↦ ok rv
        | some (d, rest) ↦ fixup d >>= λ d'. heap_final_loop i rest (d' ∷ rv)
      ]

      unfoldable pub final : CollectorStore D → ℕ → Result E (List D)
      unfolding fixup_all heap_final_loop
      final (slice_store slice) skip = fixup_all (drop skip slice)
      final (heap_store heap) skip = heap_final_loop (length heap - skip) heap []
