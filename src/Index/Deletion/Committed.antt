-- ===== src/Index/Deletion/Committed.antt =====
-- Commit keeps the invariant of a history.
use bluge.Base.{
  ℕ, ◌+◌, ◌-◌, ◌≤◌, ◌≡◌, ap, ◌∙◌, sym, subst, true, false, List, [], ◌∷◌, ◌++◌, length, take, drop,
  All, All-append, All-imp, arith, length-append, length-drop,
}
use bluge.Index.Deletion.{Snapshot, KeepNLatest, insert_all, remove, commit}
use bluge.Index.Deletion.Histories.{
  IsKept, IsUnique-append, Holds, Holds-cons, Holds-remove, has_epoch, has_epoch-drop,
  has_epoch-take-le, latest, outdated, epochs, epochs-append, drop-append, drop-drop, drop-epochs,
  take-append, take-epochs, length-epochs, All-drop, All-middle, trim_epochs_lem,
}

untrimmed : KeepNLatest → Snapshot → KeepNLatest
untrimmed p s = record p {
  known_segment_files = insert_all p.known_segment_files s.segment;
  live_epochs = p.live_epochs ++ s.epoch ∷ [];
  live_segments = (s.epoch, insert_all [] s.segment) ∷ remove s.epoch p.live_segments;
}

untrimmed-Holds :
    (b : ℕ) (h : List Snapshot) (p : KeepNLatest) (s : Snapshot)
    → b ≤ length h
    → has_epoch h s.epoch ≡ false
    → All (Holds p.live_segments) (drop b h)
    → All (Holds (untrimmed p s).live_segments) (drop b (h ++ s ∷ []))
unfolding untrimmed
untrimmed-Holds b h p s l fresh a =
    let gone = has_epoch-drop b h s.epoch fresh in
    subst (All (Holds (untrimmed p s).live_segments)) (sym (drop-append b h (s ∷ []) l)) (
      All-append (Holds (untrimmed p s).live_segments) (drop b h) (s ∷ [])
        (Holds-cons s.epoch (insert_all [] s.segment) (remove s.epoch p.live_segments) (drop b h)
          gone (Holds-remove s.epoch p.live_segments (drop b h) gone a))
        (ground arith, tt))

pub commit-IsKept :
    (n : ℕ) (h : List Snapshot) (p : KeepNLatest) (s : Snapshot)
    → has_epoch h s.epoch ≡ false
    → IsKept n h p
    → IsKept n (h ++ s ∷ []) (commit p s)
unfolding commit untrimmed
commit-IsKept n h p s fresh k =
    let h' = h ++ s ∷ [] in
    let b = length h - n in
    let b_le : b ≤ length h = omega arith in
    let q = untrimmed p s in
    let t = trim_epochs_lem q in
    let live : q.live_epochs ≡ epochs (drop b h') =
      ap (λ l. l ++ s.epoch ∷ []) k.live
      ∙ sym (epochs-append (drop b h) (s ∷ []))
      ∙ ap epochs (sym (drop-append b h (s ∷ []) b_le)) in
    let size : length h' ≡ length h + 1 = length-append h (s ∷ []) in
    let excess : length q.live_epochs - q.n ≡ length h + 1 - b - n =
      omega (arith, ap length live, length-epochs (drop b h'), length-drop b h', size, k.size) in
    let all : b + (length q.live_epochs - q.n) ≡ length h' - n = omega (arith, excess, size) in
    record {
      size = t.3 ∙ k.size;
      unique = IsUnique-append h s k.unique fresh;
      live =
          t.0
          ∙ ap (drop _) live
          ∙ drop-epochs _ (drop b h')
          ∙ ap epochs (drop-drop _ b h' ∙ ap (λ i. drop i h') all);
      segments =
          subst (λ l. All (Holds l) (latest n h')) (sym t.2)
            (subst (All (Holds q.live_segments)) (drop-drop _ b h' ∙ ap (λ i. drop i h') all) (
              All-drop (Holds q.live_segments) _ (drop b h')
                (untrimmed-Holds b h p s b_le fresh k.segments)));
      deletable = subst (All (λ e. has_epoch (outdated n h') e ≡ true)) (sym t.1) (
          All-append (λ e. has_epoch (outdated n h') e ≡ true) p.deletable_epochs _
            (All-imp (λ e. has_epoch (outdated n h) e ≡ true)
              (λ e. has_epoch (outdated n h') e ≡ true) p.deletable_epochs
              (λ e o.
                has_epoch-take-le b (length h' - n) h' e (omega (arith, size))
                  (ap (λ l. has_epoch l e) (take-append b h (s ∷ []) b_le) ∙ o))
              k.deletable)
            (subst (All (λ e. has_epoch (outdated n h') e ≡ true))
              (sym (ap (take _) live ∙ take-epochs _ (drop b h')))
              (subst
                (λ i.
                  All (λ e. has_epoch (take i h') e ≡ true)
                    (epochs (take (length q.live_epochs - q.n) (drop b h'))))
                all (All-middle _ b h'))));
    }
