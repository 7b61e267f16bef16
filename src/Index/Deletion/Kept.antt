-- ===== src/Index/Deletion/Kept.antt =====
-- The n latest snapshots and their segments are never removed.
use bluge.Base.{
  ℕ, ◌-◌, ◌≡◌, refl, ap, sym, subst, Bool, true, false, ◌||◌, ◌⊎◌, List, [], ◌∷◌, some, length, All,
  All-append, arith, Bool-cases, inl, inr, take-append-drop, ◌==◌,
}
use bluge.Index.Deletion.{
  Snapshot, Item, item_kind_snapshot, item_kind_segment, KeepNLatest, contains, insert, insert_all,
  remove, find, track_segment_files, in_use, cleanup_snapshots_loop, cleanup_segments_loop, cleanup,
}
use bluge.Index.Deletion.Histories.{
  History, start, committed, tracked, cleaned, IsKept, IsUnique, Holds, Holds-remove, has_epoch,
  latest, outdated, epochs, drop-nil, unique_parts,
}
use bluge.Index.Deletion.Committed.{commit-IsKept}

-- Whether one of the snapshots has the segment.
abbrev pub needs : List Snapshot → ℕ → Bool
needs [] id = false
needs (x ∷ rest) id = contains x.segment id || needs rest id

-- Whether the item is one of the snapshots or a segment of one.
abbrev pub is_needed : List Snapshot → Item → Bool
is_needed xs item = elim item.kind [
  | item_kind_snapshot ↦ has_epoch xs item.id
  | item_kind_segment ↦ needs xs item.id
]

module _ (fails : Item → Bool) (xs : List Snapshot) where
  cleanup_snapshots_loop_lem :
      (es : List ℕ) (live : List (ℕ × List ℕ)) (ys : List Snapshot)
      → All (λ e. has_epoch ys e ≡ true) es
      → ((e : ℕ) → has_epoch ys e ≡ true → has_epoch xs e ≡ false)
      → All (Holds live) xs
      → All (λ e. has_epoch ys e ≡ true) (cleanup_snapshots_loop fails es live).0
        × All (Holds (cleanup_snapshots_loop fails es live).1) xs
        × All (λ item. is_needed xs item ≡ false) (cleanup_snapshots_loop fails es live).2
  unfolding cleanup_snapshots_loop
  cleanup_snapshots_loop_lem [] live ys o f a = (tt, a, tt)
  cleanup_snapshots_loop_lem (e ∷ es) live ys o f a =
      elim (Bool-cases (fails (record { kind = item_kind_snapshot; id = e }))) [
        | inl b ↦
            let ih = cleanup_snapshots_loop_lem es live ys o.1 f a in
            rw (cleanup_snapshots_loop, b) ((o.0, ih.0), ih.1, (f e o.0, ih.2))
        | inr b ↦
            let ih =
              cleanup_snapshots_loop_lem es (remove e live) ys o.1 f
                (Holds-remove e live xs (f e o.0) a) in
            rw (cleanup_snapshots_loop, b) (ih.0, ih.1, (f e o.0, ih.2))
      ]

  contains-same : (set : List ℕ) (k id : ℕ) → (k == id) ≡ true → contains set k ≡ contains set id
  contains-same set k id h = ap (contains set) (ground (arith, h))

  inserted :
      (set : List ℕ) (k id : ℕ)
      → (contains set id ≡ true ⊎ (k == id) ≡ true)
      → contains (insert set k) id ≡ true
  inserted set k id h = elim (Bool-cases (contains set k)) [
    | inl a ↦ ground (arith, a, h, contains-same set k id)
    | inr a ↦ ground (arith, a, h)
  ]

  contains-insert_all :
      (set ks : List ℕ) (id : ℕ)
      → (contains set id ≡ true ⊎ contains ks id ≡ true)
      → contains (insert_all set ks) id ≡ true
  contains-insert_all set [] id (inl h) = h
  contains-insert_all set [] id (inr h) = absurd (ground (arith, h))
  contains-insert_all set (k ∷ ks) id h = contains-insert_all (insert set k) ks id (step h)
    where
      step :
          contains set id ≡ true ⊎ contains (k ∷ ks) id ≡ true
          → contains (insert set k) id ≡ true ⊎ contains ks id ≡ true
      step (inl a) = inl (inserted set k id (inl a))
      step (inr a) = elim (Bool-cases (k == id)) [
        | inl b ↦ inl (inserted set k id (inr b))
        | inr b ↦ inr (ground (arith, a, b))
      ]

  find-in_use :
      (live : List (ℕ × List ℕ)) (e : ℕ) (v : List ℕ) (id : ℕ)
      → find e live ≡ some v
      → contains v id ≡ true
      → in_use live id ≡ true
  find-in_use [] e v id h c = absurd (ground (arith, h))
  find-in_use (x ∷ rest) e v id h c = elim (Bool-cases (x.0 == e)) [
    | inl a ↦ ground (arith, h, a, c)
    | inr a ↦ ground (arith, find-in_use rest e v id (ground (arith, h, a)) c)
  ]

  unused-needs :
      (live : List (ℕ × List ℕ)) (id : ℕ) (ys : List Snapshot)
      → All (Holds live) ys
      → in_use live id ≡ false
      → needs ys id ≡ false
  unused-needs live id [] a u = refl
  unused-needs live id (y ∷ ys) a u = elim (Bool-cases (contains y.segment id)) [
    | inl c ↦ absurd (
        ground (
          arith,
          u,
          find-in_use live y.epoch (insert_all [] y.segment) id a.0
              (contains-insert_all [] y.segment id (inr c)),
        ))
    | inr c ↦ ground (arith, c, unused-needs live id ys a.1 u)
  ]

  cleanup_segments_loop_lem :
      (live : List (ℕ × List ℕ)) (ids : List ℕ)
      → All (Holds live) xs
      → All (λ item. is_needed xs item ≡ false) (cleanup_segments_loop fails live ids).1
  unfolding cleanup_segments_loop
  cleanup_segments_loop_lem live [] a = tt
  cleanup_segments_loop_lem live (id ∷ ids) a =
      let ih = cleanup_segments_loop_lem live ids a in
      elim (Bool-cases (in_use live id)) [
        | inl u ↦ rw (cleanup_segments_loop, u) ih
        | inr u ↦ elim (Bool-cases (fails (record { kind = item_kind_segment; id = id }))) [
          | inl b ↦ rw (cleanup_segments_loop, u, b) (unused-needs live id xs a u, ih)
          | inr b ↦ rw (cleanup_segments_loop, u, b) (unused-needs live id xs a u, ih)
        ]
      ]

cleanup-IsKept :
    (fails : Item → Bool) (n : ℕ) (h : List Snapshot) (p : KeepNLatest)
    → IsKept n h p
    → IsKept n h (cleanup fails p).0
      × All (λ item. is_needed (latest n h) item ≡ false) (cleanup fails p).1
unfolding cleanup
cleanup-IsKept fails n h p k =
    let apart : (e : ℕ) → has_epoch (outdated n h) e ≡ true → has_epoch (latest n h) e ≡ false =
      λ e o.
        unique_parts (outdated n h) (latest n h) e
          (subst IsUnique (sym (take-append-drop (length h - n) h)) k.unique) o in
    let out =
      cleanup_snapshots_loop_lem fails (latest n h) p.deletable_epochs p.live_segments
        (outdated n h) k.deletable apart k.segments in
    (
      record {
        size = k.size;
        unique = k.unique;
        live = k.live;
        segments = out.1;
        deletable = out.0;
      },
      All-append (λ item. is_needed (latest n h) item ≡ false) _ _ out.2
          (cleanup_segments_loop_lem fails (latest n h) _ p.known_segment_files out.1),
    )

pub History-IsKept : (n : ℕ) (h : List Snapshot) (p : KeepNLatest) → History n h p → IsKept n h p
unfolding track_segment_files
History-IsKept n _ _ start = record {
  size = refl;
  unique = tt;
  live = ap epochs (sym (drop-nil (0 - n)));
  segments = subst (All (Holds [])) (sym (drop-nil (0 - n))) tt;
  deletable = tt;
}
History-IsKept n _ _ (committed {h} {p} s fresh r) =
    commit-IsKept n h p s fresh (History-IsKept n h p r)
History-IsKept n _ _ (tracked {h} {p} ids r) =
    let k = History-IsKept n h p r in
    record {
      size = k.size;
      unique = k.unique;
      live = k.live;
      segments = k.segments;
      deletable = k.deletable;
    }
History-IsKept n _ _ (cleaned {h} {p} fails r) =
    (cleanup-IsKept fails n h p (History-IsKept n h p r)).0

-- After any sequence of commits of snapshots with epochs of their own, of tracked segment files
-- and of cleanups, whichever removals failed, Cleanup asks the directory to remove neither one of
-- the n latest snapshots nor a segment that one of them contains.
pub cleanup-is_needed :
    (n : ℕ) (h : List Snapshot) (p : KeepNLatest) (fails : Item → Bool)
    → History n h p
    → All (λ item. is_needed (latest n h) item ≡ false) (cleanup fails p).1
cleanup-is_needed n h p fails r = (cleanup-IsKept fails n h p (History-IsKept n h p r)).1
