-- ===== src/Index/Introducer/Steps.antt =====
-- The turns of introducerLoop, in any order of what it receives.
use bluge.Base.{
  ℕ, suc, ◌<◌, ◌≤◌, ◌≡◌, refl, subst, Option, none, some, All, arith, Result-cases, inl, inr,
}
use bluge.Index.Segments.{Bitmaps, BitmapLaws, Segments}
use bluge.Index.Introducer.{
  State, Received, merge_received, introduction_received, persist_received, introduce_segment,
  introduce_persist, introducer_turn,
}
use bluge.Index.Introducer.Views.{IsWellFormed, IsInRange}
use bluge.Index.Introducer.Batches.{IsSized, IsIntroduced, introduce_segment-IsIntroduced}
use bluge.Index.Introducer.Persists.{IsReplacement, introduce_persist-keeps}
use bluge.Index.Introducer.Merged.{IsMergeOf}
use bluge.Index.Introducer.Merging.{introduce_merge-IsMerged}

module _ {G B T E D : Type 0} (bitmaps : Bitmaps B) (segments : Segments G B T E)
    (laws : BitmapLaws bitmaps) (doc : G → ℕ → D) where
  -- What the rest of the writer hands over fits the root.
  abbrev pub IsFitting : Received G B T → State G B → Type 0
  IsFitting (merge_received m) s = (g : G) × IsMergeOf bitmaps segments laws doc m s.root g
  IsFitting (introduction_received next) s =
      All (IsInRange bitmaps segments next) s.root.segments
      × IsSized bitmaps segments laws doc next.segment_data
  IsFitting (persist_received persisted) s =
      All (IsReplacement bitmaps segments laws doc persisted) s.root.segments

  -- The root is well-formed and older than the next snapshot.
  pub record IsSound (s : State G B) : Type 0 where
    pub well : IsWellFormed bitmaps segments s.root
    pub older : s.root.epoch < s.next_snapshot_epoch

  -- The states that the introducer goes through from `start`.
  pub data Reachable (start : State G B) : State G B → Type 0 where
    started : Reachable start start
    turned :
        (s : State G B) (received : Received G B T) (s' : State G B) (failure : Option E)
        → Reachable start s
        → IsFitting received s
        → introducer_turn bitmaps segments received s ≡ some (s', failure)
        → Reachable start s'

  -- A turn ends without a panic, in a sound state with a later epoch to give.
  pub record Turn (s : State G B) (r : Option (State G B × Option E)) : Type 0 where
    pub after : State G B
    pub failure : Option E
    pub returns : r ≡ some (after, failure)
    pub sound : IsSound after
    pub later : s.next_snapshot_epoch < after.next_snapshot_epoch
    pub not_earlier : s.root.epoch ≤ after.root.epoch

  pub introducer_turn-Turn :
      (received : Received G B T) (s : State G B)
      → IsSound s
      → IsFitting received s
      → Turn s (introducer_turn bitmaps segments received s)
  unfolding introducer_turn introduce_persist
  introducer_turn-Turn (merge_received m) s sound (g, h) =
      let k =
        introduce_merge-IsMerged bitmaps segments laws doc m s.next_snapshot_epoch s.root g
          sound.well h in
      record {
        after = record { root = k.new; next_snapshot_epoch = suc s.next_snapshot_epoch };
        failure = none;
        returns = ground (arith, k.returns);
        sound = record { well = k.well; older = omega (arith, k.dated) };
        later = omega arith;
        not_earlier = omega (arith, k.dated, sound.older);
      }
  introducer_turn-Turn (introduction_received next) s sound h =
      let result = introduce_segment bitmaps segments next s.next_snapshot_epoch s.root in
      let k =
        introduce_segment-IsIntroduced bitmaps segments laws doc next s.next_snapshot_epoch s.root
          sound.well h.0 h.1 in
      elim (Result-cases result) [
        | inl (e, f) ↦ record {
          after = record s { next_snapshot_epoch = suc s.next_snapshot_epoch };
          failure = some e;
          returns = ground (arith, f);
          sound = record { well = sound.well; older = omega (arith, sound.older) };
          later = omega arith;
          not_earlier = omega arith;
        }
        | inr (new, f) ↦
            let k' =
              subst (IsIntroduced bitmaps segments laws doc next s.next_snapshot_epoch s.root) f
                k in
            record {
              after = record { root = new; next_snapshot_epoch = suc s.next_snapshot_epoch };
              failure = none;
              returns = ground (arith, f);
              sound = record { well = k'.1; older = omega (arith, k'.0) };
              later = omega arith;
              not_earlier = omega (arith, k'.0, sound.older);
            }
      ]
  introducer_turn-Turn (persist_received persisted) s sound h =
      let k =
        introduce_persist-keeps bitmaps segments laws doc persisted s.next_snapshot_epoch s.root
          sound.well h in
      record {
        after = record {
          root = introduce_persist bitmaps segments persisted s.next_snapshot_epoch s.root;
          next_snapshot_epoch = suc s.next_snapshot_epoch;
        };
        failure = none;
        returns = refl;
        sound = record { well = k.0; older = omega arith };
        later = omega arith;
        not_earlier = omega (arith, sound.older);
      }

  Reachable-IsSound : (start s : State G B) → IsSound start → Reachable start s → IsSound s
  Reachable-IsSound start s sound started = sound
  Reachable-IsSound start s' sound (turned s received s2 failure path fits e) =
      let t = introducer_turn-Turn received s (Reachable-IsSound start s sound path) fits in
      subst IsSound (ground (arith, t.returns, e)) t.sound

  -- From a sound state, in every state that the introducer reaches by turns with merges, batches
  -- and persists that fit the root, the root is well-formed and older than the next snapshot
  -- epoch, and a further fitting turn ends without a panic in such a state, with a greater next
  -- epoch and a root that is not of an earlier epoch.
  pub Reachable-Turn :
      (start s : State G B) (received : Received G B T)
      → IsSound start
      → Reachable start s
      → IsFitting received s
      → IsSound s × Turn s (introducer_turn bitmaps segments received s)
  Reachable-Turn start s received sound path h =
      let here = Reachable-IsSound start s sound path in
      (here, introducer_turn-Turn received s here h)
