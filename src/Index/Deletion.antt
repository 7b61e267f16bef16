-- ===== src/Index/Deletion.antt =====
-- index/deletion.go: KeepNLatestDeletionPolicy, which decides what may be removed from the directory.
-- Go's maps are association lists in the order of iteration, sets are lists without repetitions.
-- The directory is a parameter: whether Remove fails for an item during one cleanup. What Cleanup
-- asks it to remove is the log that it returns. `n` is not negative.
pub mod Histories
pub mod Committed
pub mod Kept
use bluge.Base.{
  ℕ, zero, suc, ◌+◌, ◌-◌, Bool, true, false, ◌||◌, List, [], ◌∷◌, ◌++◌, Option, none, some, ltb,
  ◌==◌, length, take, drop,
}

pub record Snapshot : Type 0 where
  pub epoch : ℕ
  pub segment : List ℕ

pub data ItemKind : Type 0 where
  item_kind_snapshot : ItemKind
  item_kind_segment : ItemKind

pub record Item : Type 0 where
  pub kind : ItemKind
  pub id : ℕ

pub record KeepNLatest : Type 0 where
  pub n : ℕ
  pub live_epochs : List ℕ
  pub deletable_epochs : List ℕ
  pub live_segments : List (ℕ × List ℕ)
  pub known_segment_files : List ℕ

abbrev pub contains : List ℕ → ℕ → Bool
contains [] k = false
contains (x ∷ xs) k = x == k || contains xs k

-- m[k] = struct{}{}
abbrev pub insert : List ℕ → ℕ → List ℕ
insert set k = elim (contains set k) [ true ↦ set | false ↦ k ∷ set ]

-- delete(m, k)
abbrev pub remove : ℕ → List (ℕ × List ℕ) → List (ℕ × List ℕ)
remove k [] = []
remove k (x ∷ xs) = elim (x.0 == k) [ true ↦ remove k xs | false ↦ x ∷ remove k xs ]

-- m[k]
abbrev pub find : ℕ → List (ℕ × List ℕ) → Option (List ℕ)
find k [] = none
find k (x ∷ xs) = elim (x.0 == k) [ true ↦ some x.1 | false ↦ find k xs ]

abbrev pub new_keep_n_latest : ℕ → KeepNLatest
new_keep_n_latest n = record {
  n = n;
  live_epochs = [];
  deletable_epochs = [];
  live_segments = [];
  known_segment_files = [];
}

abbrev pub insert_all : List ℕ → List ℕ → List ℕ
insert_all set [] = set
insert_all set (k ∷ ks) = insert_all (insert set k) ks

-- The last step of Commit.
unfoldable pub trim_epochs : KeepNLatest → KeepNLatest
trim_epochs p =
    let excess = length p.live_epochs - p.n in
    elim (ltb p.n (length p.live_epochs)) [
      | true ↦ record p {
        live_epochs = drop excess p.live_epochs;
        deletable_epochs = p.deletable_epochs ++ take excess p.live_epochs;
      }
      | false ↦ p
    ]

unfoldable pub commit : KeepNLatest → Snapshot → KeepNLatest
unfolding trim_epochs
commit p snapshot = trim_epochs (record p {
  known_segment_files = insert_all p.known_segment_files snapshot.segment;
  live_epochs = p.live_epochs ++ snapshot.epoch ∷ [];
  live_segments =
      (snapshot.epoch, insert_all [] snapshot.segment) ∷ remove snapshot.epoch p.live_segments;
})

unfoldable pub track_segment_files : KeepNLatest → List ℕ → KeepNLatest
track_segment_files p ids = record p { known_segment_files = insert_all p.known_segment_files ids }

-- Whether a snapshot that is still there needs the segment.
abbrev pub in_use : List (ℕ × List ℕ) → ℕ → Bool
in_use [] id = false
in_use (x ∷ xs) id = contains x.1 id || in_use xs id

module _ (fails : Item → Bool) where
  -- The loop of cleanupSnapshots: the epochs that remain, the segments of the snapshots that are
  -- left, and the log.
  unfoldable pub cleanup_snapshots_loop :
      List ℕ → List (ℕ × List ℕ) → List ℕ × List (ℕ × List ℕ) × List Item
  cleanup_snapshots_loop [] live_segments = ([], live_segments, [])
  cleanup_snapshots_loop (epoch ∷ rest) live_segments =
      let item : Item = record { kind = item_kind_snapshot; id = epoch } in
      elim (fails item) [
        | true ↦
            let out = cleanup_snapshots_loop rest live_segments in
            (epoch ∷ out.0, out.1, item ∷ out.2)
        | false ↦
            let out = cleanup_snapshots_loop rest (remove epoch live_segments) in
            (out.0, out.1, item ∷ out.2)
      ]

  -- The loop of cleanupSegments: the files that stay known, and the log.
  unfoldable pub cleanup_segments_loop : List (ℕ × List ℕ) → List ℕ → List ℕ × List Item
  cleanup_segments_loop live_segments [] = ([], [])
  cleanup_segments_loop live_segments (id ∷ rest) =
      let item : Item = record { kind = item_kind_segment; id = id } in
      let out = cleanup_segments_loop live_segments rest in
      elim (in_use live_segments id) [
        | true ↦ (id ∷ out.0, out.1)
        | false ↦ elim (fails item) [
          | true ↦ (id ∷ out.0, item ∷ out.1)
          | false ↦ (out.0, item ∷ out.1)
        ]
      ]

  unfoldable pub cleanup : KeepNLatest → KeepNLatest × List Item
  unfolding cleanup_snapshots_loop cleanup_segments_loop
  cleanup p =
      let snapshots = cleanup_snapshots_loop p.deletable_epochs p.live_segments in
      let segments = cleanup_segments_loop snapshots.1 p.known_segment_files in
      (
        record p {
          deletable_epochs = snapshots.0;
          live_segments = snapshots.1;
          known_segment_files = segments.0;
        },
        snapshots.2 ++ segments.1,
      )
