-- ===== src/Index/Deletion/Histories.antt =====
-- Histories of a policy, and lemmas on lists of snapshots with epochs of their own.
use bluge.Base.{
  ℕ, zero, suc, ◌+◌, ◌-◌, ◌≤◌, ◌≡◌, refl, ap, ◌∙◌, sym, subst, Bool, true, false, ◌||◌, List, [],
  ◌∷◌, ◌++◌, some, ltb, ◌==◌, length, take, drop, All, arith, Bool-cases, inl, inr, append-nil,
  All-imp,
}
use bluge.Index.Deletion.{
  Snapshot, Item, KeepNLatest, insert_all, remove, find, new_keep_n_latest, trim_epochs, commit,
  track_segment_files, cleanup,
}

-- Whether a snapshot has the epoch.
abbrev pub has_epoch : List Snapshot → ℕ → Bool
has_epoch [] e = false
has_epoch (s ∷ ss) e = s.epoch == e || has_epoch ss e

abbrev pub epochs : List Snapshot → List ℕ
epochs [] = []
epochs (s ∷ ss) = s.epoch ∷ epochs ss

-- The latest `n` of the snapshots committed, the oldest first, and the others.
abbrev pub latest : ℕ → List Snapshot → List Snapshot
latest n h = drop (length h - n) h

abbrev pub outdated : ℕ → List Snapshot → List Snapshot
outdated n h = take (length h - n) h

-- The history of a policy: the snapshots committed to it. Each has an epoch of its own.
pub data History (n : ℕ) : List Snapshot → KeepNLatest → Type 0 where
  start : History n [] (new_keep_n_latest n)
  committed :
      {h : List Snapshot} {p : KeepNLatest} (s : Snapshot)
      → has_epoch h s.epoch ≡ false
      → History n h p
      → History n (h ++ s ∷ []) (commit p s)
  tracked :
      {h : List Snapshot} {p : KeepNLatest} (ids : List ℕ)
      → History n h p
      → History n h (track_segment_files p ids)
  cleaned :
      {h : List Snapshot} {p : KeepNLatest} (fails : Item → Bool)
      → History n h p
      → History n h (cleanup fails p).0

abbrev pub IsUnique : List Snapshot → Type 0
IsUnique [] = Unit
IsUnique (s ∷ ss) = (has_epoch ss s.epoch ≡ false) × IsUnique ss

-- The segments of the snapshot are kept.
abbrev pub Holds : List (ℕ × List ℕ) → Snapshot → Type 0
Holds live s = find s.epoch live ≡ some (insert_all [] s.segment)

-- What holds of a policy after the history `h`.
pub record IsKept (n : ℕ) (h : List Snapshot) (p : KeepNLatest) : Type 0 where
  pub size : p.n ≡ n
  pub unique : IsUnique h
  pub live : p.live_epochs ≡ epochs (latest n h)
  pub segments : All (Holds p.live_segments) (latest n h)
  pub deletable : All (λ e. has_epoch (outdated n h) e ≡ true) p.deletable_epochs

has_epoch-append :
    (xs ys : List Snapshot) (e : ℕ) → has_epoch (xs ++ ys) e ≡ (has_epoch xs e || has_epoch ys e)
has_epoch-append [] ys e = refl
has_epoch-append (x ∷ xs) ys e = ground (arith, has_epoch-append xs ys e)

pub IsUnique-append :
    (xs : List Snapshot) (s : Snapshot)
    → IsUnique xs
    → has_epoch xs s.epoch ≡ false
    → IsUnique (xs ++ s ∷ [])
IsUnique-append [] s u h = (refl, tt)
IsUnique-append (x ∷ xs) s u h = (
  ground (arith, has_epoch-append xs (s ∷ []) x.epoch, u.0),
  IsUnique-append xs s u.1 (ground arith),
)

-- An epoch among the first is not among the rest.
pub unique_parts :
    (xs ys : List Snapshot) (e : ℕ)
    → IsUnique (xs ++ ys)
    → has_epoch xs e ≡ true
    → has_epoch ys e ≡ false
unique_parts [] ys e u h = absurd (ground (arith, h))
unique_parts (x ∷ xs) ys e u h = elim (Bool-cases (has_epoch xs e)) [
  | inl k ↦ unique_parts xs ys e u.1 k
  | inr k ↦ ground (arith, has_epoch-append xs ys x.epoch, u.0, k, h)
]

pub drop-append :
    (k : ℕ) (xs ys : List Snapshot) → k ≤ length xs → drop k (xs ++ ys) ≡ drop k xs ++ ys
drop-append zero xs ys h = refl
drop-append (suc k) [] ys h = absurd (omega arith)
drop-append (suc k) (x ∷ xs) ys h = drop-append k xs ys (omega arith)

pub take-append : (k : ℕ) (xs ys : List Snapshot) → k ≤ length xs → take k (xs ++ ys) ≡ take k xs
take-append zero xs ys h = refl
take-append (suc k) [] ys h = absurd (omega arith)
take-append (suc k) (x ∷ xs) ys h = ap (λ l. x ∷ l) (take-append k xs ys (omega arith))

pub drop-nil : (k : ℕ) → drop {A = Snapshot} k [] ≡ []
drop-nil zero = refl
drop-nil (suc k) = refl

suc_plus : (k j : ℕ) → suc (k + j) ≡ suc k + j
suc_plus k j = omega arith

pub drop-drop : (j k : ℕ) (xs : List Snapshot) → drop j (drop k xs) ≡ drop (k + j) xs
drop-drop j zero xs = ap (λ i. drop i xs) (omega arith)
drop-drop j (suc k) [] = drop-nil j ∙ sym (drop-nil (suc k + j))
drop-drop j (suc k) (x ∷ xs) = drop-drop j k xs ∙ ap (λ i. drop i (x ∷ xs)) (suc_plus k j)

pub epochs-append : (xs ys : List Snapshot) → epochs (xs ++ ys) ≡ epochs xs ++ epochs ys
epochs-append [] ys = refl
epochs-append (x ∷ xs) ys = ap (λ l. x.epoch ∷ l) (epochs-append xs ys)

pub drop-epochs : (k : ℕ) (xs : List Snapshot) → drop k (epochs xs) ≡ epochs (drop k xs)
drop-epochs zero xs = refl
drop-epochs (suc k) [] = refl
drop-epochs (suc k) (x ∷ xs) = drop-epochs k xs

pub take-epochs : (k : ℕ) (xs : List Snapshot) → take k (epochs xs) ≡ epochs (take k xs)
take-epochs zero xs = refl
take-epochs (suc k) [] = refl
take-epochs (suc k) (x ∷ xs) = ap (λ l. x.epoch ∷ l) (take-epochs k xs)

pub length-epochs : (xs : List Snapshot) → length (epochs xs) ≡ length xs
length-epochs [] = refl
length-epochs (x ∷ xs) = ap suc (length-epochs xs)

pub has_epoch-take-le :
    (j k : ℕ) (xs : List Snapshot) (e : ℕ)
    → j ≤ k
    → has_epoch (take j xs) e ≡ true
    → has_epoch (take k xs) e ≡ true
has_epoch-take-le zero k xs e l h = absurd (ground (arith, h))
has_epoch-take-le (suc j) zero xs e l h = absurd (omega arith)
has_epoch-take-le (suc j) (suc k) [] e l h = h
has_epoch-take-le (suc j) (suc k) (x ∷ xs) e l h = elim (Bool-cases (has_epoch (take j xs) e)) [
  | inl a ↦ ground (arith, has_epoch-take-le j k xs e (omega arith) a)
  | inr a ↦ ground (arith, a, h)
]

All-own : (xs : List Snapshot) → All (λ e. has_epoch xs e ≡ true) (epochs xs)
All-own [] = tt
All-own (x ∷ xs) = (
  ground arith,
  All-imp (λ e. has_epoch xs e ≡ true) (λ e. has_epoch (x ∷ xs) e ≡ true) (epochs xs)
      (λ e h. ground (arith, h)) (All-own xs),
)

-- The epochs of a middle part are among those of a longer beginning.
pub All-middle :
    (j k : ℕ) (xs : List Snapshot)
    → All (λ e. has_epoch (take (k + j) xs) e ≡ true) (epochs (take j (drop k xs)))
All-middle j zero xs =
    subst (λ i. All (λ e. has_epoch (take i xs) e ≡ true) (epochs (take j xs))) (omega arith)
      (All-own (take j xs))
All-middle zero (suc k) [] = tt
All-middle (suc j) (suc k) [] = tt
All-middle j (suc k) (x ∷ xs) =
    subst (λ i. All (λ e. has_epoch (take i (x ∷ xs)) e ≡ true) (epochs (take j (drop k xs))))
      (suc_plus k j)
      (All-imp (λ e. has_epoch (take (k + j) xs) e ≡ true)
        (λ e. has_epoch (x ∷ take (k + j) xs) e ≡ true) (epochs (take j (drop k xs)))
        (λ e h. ground (arith, h)) (All-middle j k xs))

pub has_epoch-drop :
    (k : ℕ) (xs : List Snapshot) (e : ℕ) → has_epoch xs e ≡ false → has_epoch (drop k xs) e ≡ false
has_epoch-drop zero xs e h = h
has_epoch-drop (suc k) [] e h = h
has_epoch-drop (suc k) (x ∷ xs) e h = has_epoch-drop k xs e (ground (arith, h))

pub All-drop : (P : Snapshot → Type 0) (k : ℕ) (xs : List Snapshot) → All P xs → All P (drop k xs)
All-drop P zero xs h = h
All-drop P (suc k) [] h = h
All-drop P (suc k) (x ∷ xs) h = All-drop P k xs h.1

find-remove :
    (e k : ℕ) (live : List (ℕ × List ℕ)) → (e == k) ≡ false → find e (remove k live) ≡ find e live
find-remove e k [] h = refl
find-remove e k (x ∷ xs) h = elim (Bool-cases (x.0 == k)) [
  | inl a ↦ ground (arith, find-remove e k xs h, a, h)
  | inr a ↦ ground (arith, find-remove e k xs h, a, h)
]

pub Holds-remove :
    (k : ℕ) (live : List (ℕ × List ℕ)) (xs : List Snapshot)
    → has_epoch xs k ≡ false
    → All (Holds live) xs
    → All (Holds (remove k live)) xs
Holds-remove k live [] h a = tt
Holds-remove k live (x ∷ xs) h a = (
  find-remove x.epoch k live (ground (arith, h)) ∙ a.0,
  Holds-remove k live xs (ground (arith, h)) a.1,
)

pub Holds-cons :
    (k : ℕ) (v : List ℕ) (live : List (ℕ × List ℕ)) (xs : List Snapshot)
    → has_epoch xs k ≡ false
    → All (Holds live) xs
    → All (Holds ((k, v) ∷ live)) xs
Holds-cons k v live [] h a = tt
Holds-cons k v live (x ∷ xs) h a =
    (ground (arith, h, a.0), Holds-cons k v live xs (ground (arith, h)) a.1)

-- What is trimmed, whether or not there is an excess.
pub trim_epochs_lem :
    (p : KeepNLatest)
    → ((trim_epochs p).live_epochs ≡ drop (length p.live_epochs - p.n) p.live_epochs)
      × ((trim_epochs p).deletable_epochs
          ≡ p.deletable_epochs ++ take (length p.live_epochs - p.n) p.live_epochs)
      × ((trim_epochs p).live_segments ≡ p.live_segments)
      × ((trim_epochs p).n ≡ p.n)
unfolding trim_epochs
trim_epochs_lem p = elim (Bool-cases (ltb p.n (length p.live_epochs))) [
  | inl a ↦ rw (trim_epochs, a) (refl, refl, refl, refl)
  | inr a ↦ no_excess (ground arith) a
]
  where
    no_excess :
        length p.live_epochs - p.n ≡ 0
        → ltb p.n (length p.live_epochs) ≡ false
        → ((trim_epochs p).live_epochs ≡ drop (length p.live_epochs - p.n) p.live_epochs)
          × ((trim_epochs p).deletable_epochs
              ≡ p.deletable_epochs ++ take (length p.live_epochs - p.n) p.live_epochs)
          × ((trim_epochs p).live_segments ≡ p.live_segments)
          × ((trim_epochs p).n ≡ p.n)
    no_excess z a = rw (trim_epochs, a, z) (refl, sym (append-nil p.deletable_epochs), refl, refl)
