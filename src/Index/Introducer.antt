-- ===== src/Index/Introducer.antt =====
-- index/introducer.go, and segmentMerge of index/merge.go: the introducer builds the next root of the
-- index from a batch, from persisted segments and from a merge. Statistics, reference counts, creators
-- and the channels are left out; `applied` of a batch is the result. A map that is only looked up is a
-- function, and `none` of introduce_merge is a panic on a nil segment snapshot or on an index out of
-- range.
pub mod Views
pub mod Batches
pub mod Persists
pub mod Unchecked
pub mod Merges
pub mod Numbers
pub mod Loops
pub mod Leftovers
pub mod Merged
pub mod Members
pub mod Keeps
pub mod Outcome
pub mod Merging
pub mod Steps
use bluge.Base.{
  ℕ, zero, suc, ◌+◌, ◌%◌, ◌^◌, Bool, true, false, not, ◌&&◌, List, [], ◌∷◌, ◌++◌, Option, none,
  some, Result, ok, err, ◌>>=◌, ltb, ◌==◌, if◌then◌else◌, get_elem?,
}
use bluge.Index.Segments.{Bitmaps, Segments, SegmentSnapshot, live_count, is_live, doc_numbers_live}

pub record Snapshot (G B : Type 0) : Type 0 where
  pub epoch : ℕ
  pub segments : List (SegmentSnapshot G B)
  pub offsets : List ℕ

-- segmentIntroduction
pub record Introduction (G B T : Type 0) : Type 0 where
  pub id : ℕ
  pub segment_data : Option G
  pub obsoletes : ℕ → Option B
  pub id_terms : List T

-- segmentMerge; a nil `new` is `none`, and a missing entry of oldNewDocNums a nil slice.
pub record Merge (G B : Type 0) : Type 0 where
  pub id : ℕ
  pub old : List (ℕ × Option (SegmentSnapshot G B))
  pub old_new_doc_nums : ℕ → List ℕ
  pub new : Option G

module _ {A : Type 0} where
  abbrev pub lookup : ℕ → List (ℕ × A) → Option A
  lookup id [] = none
  lookup id (x ∷ xs) = if x.0 == id then some x.1 else lookup id xs

  abbrev pub remove : ℕ → List (ℕ × A) → List (ℕ × A)
  remove id [] = []
  remove id (x ∷ xs) = let rest = remove id xs in if x.0 == id then rest else x ∷ rest

module _ {G B T E : Type 0} (bitmaps : Bitmaps B) (segments : Segments G B T E) where
  -- What a batch makes obsolete in a segment.
  unfoldable pub delta : Introduction G B T → SegmentSnapshot G B → Result E B
  delta next s = elim (next.obsoletes s.id) [
    | some d ↦ ok d
    | none ↦ segments.docs_matching_terms s.segment next.id_terms
  ]

  -- `newss` with the new obsoletions.
  abbrev pub obsoleted : SegmentSnapshot G B → B → SegmentSnapshot G B
  obsoleted s d =
      let deleted : B = elim s.deleted [ none ↦ d | some old ↦ bitmaps.or old d ] in
      record s { deleted = if bitmaps.is_empty deleted then none else some deleted }

  -- The loop of introduceSegment: the segments and offsets of the new snapshot, and `running`.
  unfoldable pub obsolete_loop :
      Introduction G B T
      → ℕ
      → List (SegmentSnapshot G B)
      → Result E (List (SegmentSnapshot G B) × List ℕ × ℕ)
  unfolding delta
  obsolete_loop next running [] = ok ([], [], running)
  obsolete_loop next running (s ∷ rest) = elim (delta next s) [
    | err e ↦ err e
    | ok d ↦
        let newss = obsoleted s d in
        elim (is_live bitmaps segments newss) [
          | false ↦ obsolete_loop next running rest
          | true ↦
              obsolete_loop next (running + segments.count s.segment) rest >>= λ (ss, os, total).
              ok (newss ∷ ss, running ∷ os, total)
        ]
  ]

  unfoldable pub introduce_segment : Introduction G B T → ℕ → Snapshot G B → Result E (Snapshot G B)
  unfolding obsolete_loop
  introduce_segment next epoch root = obsolete_loop next 0 root.segments >>= λ (ss, os, running).
      ok (elim next.segment_data [
        | none ↦ record { epoch = epoch; segments = ss; offsets = os }
        | some g ↦ record {
          epoch = epoch;
          segments = ss ++ record { id = next.id; segment = g; deleted = none } ∷ [];
          offsets = os ++ running ∷ [];
        }
      ])

  -- The loop of introducePersist over the segments.
  unfoldable pub persist_loop :
      (ℕ → Option G) → List (SegmentSnapshot G B) → List (SegmentSnapshot G B)
  persist_loop persisted [] = []
  persist_loop persisted (s ∷ rest) = elim (persisted s.id) [
    | none ↦ s ∷ persist_loop persisted rest
    | some g ↦
        record s { segment = g }
        ∷ persist_loop (λ id. if id == s.id then none else persisted id) rest
  ]

  unfoldable pub introduce_persist : (ℕ → Option G) → ℕ → Snapshot G B → Snapshot G B
  unfolding persist_loop
  introduce_persist persisted epoch root = record {
    epoch = epoch;
    segments = persist_loop persisted root.segments;
    offsets = root.offsets;
  }

  -- `newSegmentDeleted.Add(uint32(newDocNum))` for the numbers of an iterator. A missing entry of
  -- oldNewDocNums is a nil slice, and an index out of range panics.
  unfoldable pub add_new : Merge G B → ℕ → List ℕ → B → Option B
  add_new m id [] b = some b
  add_new m id (j ∷ rest) b = elim (get_elem? (m.old_new_doc_nums id) j) [
    | none ↦ none
    | some n ↦ add_new m id rest (bitmaps.add b (n % 2 ^ 32))
  ]

  -- ProcessSegmentNow: whether the segment goes away, the merge and newSegmentDeleted after it.
  unfoldable pub process_segment_now :
      Merge G B → SegmentSnapshot G B → B → Option (Bool × Merge G B × B)
  unfolding add_new
  process_segment_now m now b = elim (lookup now.id m.old) [
    | none ↦ some (false, m, b)
    | some at_merge ↦
        let marked : Option B = elim at_merge [
          | none ↦ some b
          | some s ↦ elim now.deleted [
            | none ↦ some b
            | some d ↦
                let since : B = elim s.deleted [ none ↦ d | some k ↦ bitmaps.and_not d k ] in
                add_new m now.id (bitmaps.numbers since) b
          ]
        ] in
        elim marked [
          | none ↦ none
          | some b' ↦ some (true, record m { old = remove now.id m.old }, b')
        ]
  ]

  -- The loop of introduceMerge over the segments of the root.
  unfoldable pub merge_loop :
      Merge G B
      → ℕ
      → B
      → List (SegmentSnapshot G B)
      → Option (List (SegmentSnapshot G B) × List ℕ × ℕ × Merge G B × B)
  unfolding process_segment_now
  merge_loop m running b [] = some ([], [], running, m, b)
  merge_loop m running b (s ∷ rest) = elim (process_segment_now m s b) [
    | none ↦ none
    | some (away, m', b') ↦ elim (not away && is_live bitmaps segments s) [
      | false ↦ merge_loop m' running b' rest
      | true ↦ elim (merge_loop m' (running + segments.count s.segment) b' rest) [
        | none ↦ none
        | some (ss, os, total, m2, b2) ↦ some (s ∷ ss, running ∷ os, total, m2, b2)
      ]
    ]
  ]

  -- The loop over what is left in `old`.
  unfoldable pub obsolete_old : Merge G B → List (ℕ × Option (SegmentSnapshot G B)) → B → Option B
  unfolding add_new
  obsolete_old m [] b = some b
  obsolete_old m (x ∷ rest) b = elim x.1 [
    | none ↦ none
    | some s ↦ elim (add_new m x.0 (bitmaps.numbers (doc_numbers_live bitmaps segments s)) b) [
      | none ↦ none
      | some b' ↦ obsolete_old m rest b'
    ]
  ]

  -- introduceMerge: the new root, and whether the new segment is skipped.
  unfoldable pub introduce_merge : Merge G B → ℕ → Snapshot G B → Option (Snapshot G B × Bool)
  unfolding merge_loop obsolete_old
  introduce_merge m epoch root = elim (merge_loop m 0 bitmaps.new_bitmap root.segments) [
    | none ↦ none
    | some (ss, os, running, m', b) ↦
        let skip : Snapshot G B = record { epoch = epoch; segments = ss; offsets = os } in
        elim (obsolete_old m' m'.old b) [
          | none ↦ none
          | some deleted ↦ some (elim m.new [
            | none ↦ (skip, true)
            | some g ↦ elim (ltb (bitmaps.cardinality deleted) (segments.count g)) [
              | false ↦ (skip, true)
              | true ↦ (
                record {
                  epoch = epoch;
                  segments = ss ++ record { id = m.id; segment = g; deleted = some deleted } ∷ [];
                  offsets = os ++ running ∷ [];
                },
                false,
              )
            ]
          ])
        ]
  ]

-- The root and the next snapshot epoch of introducerLoop.
pub record State (G B : Type 0) : Type 0 where
  pub root : Snapshot G B
  pub next_snapshot_epoch : ℕ

-- What introducerLoop receives and answers with a new root.
pub data Received (G B T : Type 0) : Type 0 where
  merge_received : Merge G B → Received G B T
  introduction_received : Introduction G B T → Received G B T
  persist_received : (ℕ → Option G) → Received G B T

module _ {G B T E : Type 0} (bitmaps : Bitmaps B) (segments : Segments G B T E) where
  -- One turn of introducerLoop: the state after it and the error of a batch, or a panic.
  unfoldable pub introducer_turn : Received G B T → State G B → Option (State G B × Option E)
  unfolding introduce_segment introduce_persist introduce_merge
  introducer_turn received s =
      let epoch = s.next_snapshot_epoch in
      elim received [
        | merge_received m ↦ elim (introduce_merge bitmaps segments m epoch s.root) [
          | none ↦ none
          | some (new, skipped) ↦
              some (record { root = new; next_snapshot_epoch = suc epoch }, none)
        ]
        | introduction_received next ↦ elim (introduce_segment bitmaps segments next epoch s.root) [
          | err e ↦ some (record s { next_snapshot_epoch = suc epoch }, some e)
          | ok new ↦ some (record { root = new; next_snapshot_epoch = suc epoch }, none)
        ]
        | persist_received persisted ↦
            let new = introduce_persist bitmaps segments persisted epoch s.root in
            some (record { root = new; next_snapshot_epoch = suc epoch }, none)
      ]
