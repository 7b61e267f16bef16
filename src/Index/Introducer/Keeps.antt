-- ===== src/Index/Introducer/Keeps.antt =====
-- What introduceMerge marks in the new segment: exactly the documents that are not live in the root.
use bluge.Base.{
  ℕ, ◌<◌, ◌≡◌, refl, ap, ◌∙◌, sym, subst, true, false, not, ◌⊎◌, List, Option, some, arith,
  Bool-cases, inl, inr, ◌==◌, All,
}
use bluge.Base.{In, In-All, All-In}
use bluge.Index.Segments.{Bitmaps, BitmapLaws, Segments, SegmentSnapshot, is_deleted, IsBounded}
use bluge.Index.Introducer.{Snapshot, Merge, lookup}
use bluge.Index.Segments.{count_of}
use bluge.Index.Segments.Live.{lives, count_of-not, count_of_none}
use bluge.Index.Introducer.Views.{IsWellFormed}
use bluge.Index.Introducer.Merges.{new_number, Dead, Reason}
use bluge.Index.Introducer.Loops.{remaining}
use bluge.Index.Introducer.Leftovers.{Seen, Left, has_id, lookup-remaining, AreKeysUnique-remaining}
use bluge.Index.Introducer.Numbers.{IsNumbered, IsOldNumbered, Seen-IsOldNumbered}
use bluge.Index.Introducer.Merged.{IsLiveIn, IsSeenAs, IsMergeOf}
use bluge.Index.Introducer.Members.{
  has_id-In, In-has_id, same_segment, Reason-segment, segment-Reason,
}

module _ {G B T E D : Type 0} (bitmaps : Bitmaps B) (segments : Segments G B T E)
    (laws : BitmapLaws bitmaps) (doc : G → ℕ → D) where
  module _ (m : Merge G B) (root : Snapshot G B) (g : G) (w : IsWellFormed bitmaps segments root)
      (h : IsMergeOf bitmaps segments laws doc m root g) where
    pub as_seen :
        (s : SegmentSnapshot G B) (o : Option (Option (SegmentSnapshot G B)))
        → In s root.segments
        → lookup s.id m.old ≡ o
        → IsSeenAs bitmaps segments laws doc o s
    as_seen s o i e =
        subst (λ o. IsSeenAs bitmaps segments laws doc o s) e
          (All-In (λ s. IsSeenAs bitmaps segments laws doc (lookup s.id m.old) s) s root.segments
            h.seen i)

    -- A document that is live in the root and that the merge knows is one that it saw.
    pub Seen-live :
        (s t : SegmentSnapshot G B) (j : ℕ)
        → In s root.segments
        → lookup s.id m.old ≡ some (some t)
        → j < segments.count s.segment
        → lives bitmaps segments laws s j ≡ true
        → Seen bitmaps segments laws m.old s.id j
    Seen-live s t j i e l v =
        let seen = as_seen s (some (some t)) i e in
        (
          t,
          e,
          (
            subst (λ x. j < segments.count x) seen.0 l,
            elim (Bool-cases (is_deleted bitmaps t.deleted j)) [
              | inl b ↦ absurd (ground (arith, v, seen.1 j b))
              | inr b ↦ b
            ],
          ),
        )

    -- So is one that was deleted since.
    Seen-Dead :
        (s : SegmentSnapshot G B) (n : ℕ)
        → In s root.segments
        → Dead bitmaps segments laws m s n
        → (j : ℕ) × Seen bitmaps segments laws m.old s.id j
          × (n ≡ new_number bitmaps segments laws m s.id j)
          × (is_deleted bitmaps s.deleted j ≡ true)
    Seen-Dead s n i (t, e, (j, d, k, z)) =
        let seen = as_seen s (some (some t)) i e in
        let bound = (All-In (IsBounded bitmaps segments) s root.segments w.bounded i).deleted j d in
        (j, (t, e, (subst (λ x. j < segments.count x) seen.0 bound, k)), z, d)

    abbrev pub left : List (ℕ × Option (SegmentSnapshot G B))
    left = remaining bitmaps segments laws root.segments m.old

    Seen-left :
        (id j : ℕ)
        → Seen bitmaps segments laws left id j
        → Seen bitmaps segments laws m.old id j
          × (has_id bitmaps segments laws id root.segments ≡ false)
    Seen-left id j (t, e, s) =
        let r = lookup-remaining bitmaps segments laws id root.segments m.old in
        elim (Bool-cases (has_id bitmaps segments laws id root.segments)) [
          | inl b ↦ absurd (ground (arith, e, r, b))
          | inr b ↦ ((t, ground (arith, e, r, b), s), b)
        ]

    left-Seen :
        (id j : ℕ)
        → Seen bitmaps segments laws m.old id j
        → has_id bitmaps segments laws id root.segments ≡ false
        → Seen bitmaps segments laws left id j
    left-Seen id j (t, e, s) b =
        (t, ground (arith, e, b, lookup-remaining bitmaps segments laws id root.segments m.old), s)

    -- What is marked in the new segment, and nothing else.
    pub record IsMarked (deleted : B) : Type 0 where
      pub dead :
          (n : ℕ)
          → Reason bitmaps segments laws m root.segments n
          → bitmaps.contains deleted n ≡ true
      pub old : (n : ℕ) → Left bitmaps segments laws m left n → bitmaps.contains deleted n ≡ true
      pub only :
          (n : ℕ)
          → bitmaps.contains deleted n ≡ true
          → Reason bitmaps segments laws m root.segments n ⊎ Left bitmaps segments laws m left n

    -- The new segment as the root gets it.
    abbrev pub merged : B → SegmentSnapshot G B
    merged deleted = record { id = m.id; segment = g; deleted = some deleted }

    pub merged-IsBounded :
        (deleted : B) → IsMarked deleted → IsBounded bitmaps segments (merged deleted)
    merged-IsBounded deleted k = record {
      deleted = λ n c. elim (k.only n c) [
        | inl r ↦
            let (s, i, d) = Reason-segment bitmaps segments laws doc m root.segments n r in
            let (j, seen, z, _) = Seen-Dead s n i d in
            subst (λ x. x < segments.count g) (sym z) (h.below s.id j seen)
        | inr (id, j, seen, z) ↦
            subst (λ x. x < segments.count g) (sym z) (h.below id j (Seen-left id j seen).0)
      ];
      size = h.size;
    }

    -- A document that the merge saw and that is unmarked in the new segment is live in the root, in
    -- the segment that it came from.
    pub live_at :
        (deleted : B) (id j : ℕ)
        → IsMarked deleted
        → (x : Seen bitmaps segments laws m.old id j)
        → bitmaps.contains deleted (new_number bitmaps segments laws m id j) ≡ false
        → (s : SegmentSnapshot G B) × In s root.segments
          × ((s.id ≡ id) × (s.segment ≡ x.0.segment) × (lives bitmaps segments laws s j ≡ true))
    live_at deleted id j k (t, e, (lt, nd)) c =
        let n = new_number bitmaps segments laws m id j in
        let seen : Seen bitmaps segments laws m.old id j = (t, e, (lt, nd)) in
        elim (Bool-cases (has_id bitmaps segments laws id root.segments)) [
          | inr b ↦ absurd (ground (arith, c, k.old n (id, j, left-Seen id j seen b, refl)))
          | inl b ↦
              let (s, i, same) = In-has_id bitmaps segments laws doc id root.segments b in
              let e' : lookup s.id m.old ≡ some (some t) = ap (λ x. lookup x m.old) same ∙ e in
              let z : n ≡ new_number bitmaps segments laws m s.id j =
                ap (λ x. new_number bitmaps segments laws m x j) (sym same) in
              let alive : lives bitmaps segments laws s j ≡ true =
                elim (Bool-cases (is_deleted bitmaps s.deleted j)) [
                  | inl d ↦
                      let r =
                        segment-Reason bitmaps segments laws doc m root.segments s n i
                          (t, e', (j, d, nd, z)) in
                      absurd (ground (arith, c, k.dead n r))
                  | inr d ↦ ground (arith, d)
                ] in
              (s, i, (same, (as_seen s (some (some t)) i e').0, alive))
        ]

    -- A live document of the new segment is one of the root.
    pub live_before :
        (deleted : B) (n : ℕ)
        → IsMarked deleted
        → n < segments.count g
        → bitmaps.contains deleted n ≡ false
        → IsLiveIn bitmaps segments laws doc root.segments (doc g n)
    live_before deleted n k l c =
        let (id, j, seen, z) = h.every n l in
        let (s, i, (_, same, alive)) =
          live_at deleted id j k seen (subst (λ i. bitmaps.contains deleted i ≡ false) z c) in
        (
          s,
          i,
          (
            j,
            subst (λ x. j < segments.count x) (sym same) seen.2.0,
            alive,
            ap (λ x. doc x j) same ∙ sym (h.copies id j seen) ∙ ap (doc g) (sym z),
          ),
        )

    -- The lookups of introduceMerge in oldNewDocNums find a number.
    pub root-IsNumbered : All (IsNumbered bitmaps segments laws m) root.segments
    root-IsNumbered = In-All (IsNumbered bitmaps segments laws m) root.segments (λ s i t e j d nd.
        let same = (as_seen s (some (some t)) i e).0 in
        let bound = (All-In (IsBounded bitmaps segments) s root.segments w.bounded i).deleted j d in
        h.numbered s.id j (t, e, (subst (λ x. j < segments.count x) same bound, nd)))

    pub left-IsOldNumbered : All (IsOldNumbered bitmaps segments laws m) left
    left-IsOldNumbered =
        Seen-IsOldNumbered bitmaps segments laws m left
          (AreKeysUnique-remaining bitmaps segments laws root.segments m.old h.keys)
          (λ id j s. h.numbered id j (Seen-left id j s).0)

    -- A document that is live in the root is not marked in the new segment.
    pub unmarked :
        (deleted : B) (s t : SegmentSnapshot G B) (j : ℕ)
        → IsMarked deleted
        → In s root.segments
        → lookup s.id m.old ≡ some (some t)
        → j < segments.count s.segment
        → lives bitmaps segments laws s j ≡ true
        → bitmaps.contains deleted (new_number bitmaps segments laws m s.id j) ≡ false
    unmarked deleted s t j k i e l v =
        let n = new_number bitmaps segments laws m s.id j in
        let seen = Seen-live s t j i e l v in
        elim (Bool-cases (bitmaps.contains deleted n)) [
          | inr c ↦ c
          | inl c ↦ elim (k.only n c) [
            | inl r ↦
                let (s', i', d) = Reason-segment bitmaps segments laws doc m root.segments n r in
                let (j', seen', z, gone) = Seen-Dead s' n i' d in
                let (same_id, same_j) = h.apart s.id j s'.id j' seen seen' z in
                let same : s ≡ s' =
                  same_segment bitmaps segments laws doc s s' root.segments h.unique i i' same_id in
                let v' : lives bitmaps segments laws s' j' ≡ true =
                  subst (λ x. lives bitmaps segments laws s' x ≡ true) same_j
                    (subst (λ x. lives bitmaps segments laws x j ≡ true) same v) in
                absurd (ground (arith, v', gone))
            | inr (id', j', seen', z) ↦
                let (in_old, none_has) = Seen-left id' j' seen' in
                let (same_id, _) = h.apart s.id j id' j' seen in_old z in
                let has : has_id bitmaps segments laws id' root.segments ≡ true =
                  subst (λ x. has_id bitmaps segments laws x root.segments ≡ true) same_id
                    (has_id-In bitmaps segments laws doc s root.segments i) in
                absurd (ground (arith, has, none_has))
          ]
        ]

    -- Where a document is left unmarked, the new segment is introduced.
    pub enough :
        (deleted : B) (n : ℕ)
        → IsMarked deleted
        → n < segments.count g
        → bitmaps.contains deleted n ≡ false
        → bitmaps.cardinality deleted < segments.count g
    enough deleted n k l c =
        let total = segments.count g in
        let card = laws.cardinality_lem deleted total (merged-IsBounded deleted k).deleted in
        let parts = count_of-not total (bitmaps.contains deleted) in
        elim (Bool-cases (count_of total (λ j. not (bitmaps.contains deleted j)) == 0)) [
          | inl z ↦ absurd (
              ground (
                arith,
                c,
                count_of_none total (λ j. not (bitmaps.contains deleted j)) (ground (arith, z)) n l,
              ))
          | inr z ↦ ground (arith, card, parts, z)
        ]
