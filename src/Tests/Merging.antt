-- ===== src/Tests/Merging.antt =====
-- The introduction of a merge of two segments, in one of which a document was deleted since.
use bluge.Base.{
  ℕ, zero, suc, ◌<◌, ◌≡◌, refl, sym, ap, ◌∙◌, subst, Bool, true, false, ◌⊎◌, inl, inr, List, [],
  ◌∷◌, some, length, arith, ◌==◌, if◌then◌else◌, Bool-cases,
}
use bluge.Index.Segments.{SegmentSnapshot}
use bluge.Index.Introducer.{
  Snapshot, Merge, State, merge_received, introduce_merge, introducer_turn,
}
use bluge.Index.Introducer.Steps.{IsSound, Turn, started, Reachable-Turn}
use bluge.Index.Introducer.Views.{IsWellFormed, view_all}
use bluge.Index.Introducer.Merges.{new_number}
use bluge.Index.Introducer.Leftovers.{Seen}
use bluge.Index.Introducer.Merged.{IsMergeOf}
use bluge.Index.Introducer.Numbers.{HasNumber}
use bluge.Index.Introducer.Outcome.{IsMerged}
use bluge.Index.Introducer.Merging.{introduce_merge-IsMerged}
use bluge.Tests.Bitmaps.{bit_lists, bit_list_laws}
use bluge.Tests.Introducing.{list_segments, document, first_segment, second_segment}

-- The document 11 is deleted.
abbrev deleted_since : SegmentSnapshot (List ℕ) (List Bool)
deleted_since = record first_segment { deleted = some (false ∷ true ∷ []) }

abbrev current : Snapshot (List ℕ) (List Bool)
current = record { epoch = 4; segments = deleted_since ∷ second_segment ∷ []; offsets = 0 ∷ 3 ∷ [] }

abbrev new_segment : List ℕ
new_segment = 10 ∷ 11 ∷ 12 ∷ 20 ∷ []

abbrev two_merged : Merge (List ℕ) (List Bool)
two_merged = record {
  id = 3;
  old = (1, some first_segment) ∷ (2, some second_segment) ∷ [];
  old_new_doc_nums = λ id. if id == 1 then 0 ∷ 1 ∷ 2 ∷ [] else 3 ∷ [];
  new = some new_segment;
}

merged_two :
    (r : Snapshot (List ℕ) (List Bool)) × (introduce_merge bit_lists list_segments two_merged 5
        current
      ≡ some (r, false))
    × (view_all bit_lists list_segments bit_list_laws document r.segments ≡ 10 ∷ 12 ∷ 20 ∷ [])
unfolding introduce_merge
merged_two = (_, refl, refl)

current-IsWellFormed : IsWellFormed bit_lists list_segments current
current-IsWellFormed = record {
  bounded = (
    record { deleted = bound; size = omega arith },
    (record { deleted = λ j h. absurd (ground (arith, h)); size = omega arith }, tt),
  );
  offsets = (refl, (refl, tt));
}
  where
    bound : (j : ℕ) → bit_lists.contains (false ∷ true ∷ []) j ≡ true → j < 3
    bound zero h = omega arith
    bound (suc zero) h = omega arith
    bound (suc (suc j)) h = absurd (ground (arith, h))

abbrev IsSeen : ℕ → ℕ → Type 0
IsSeen = Seen bit_lists list_segments bit_list_laws two_merged.old

seen_cases : (id j : ℕ) → IsSeen id j → ((id ≡ 1) × (j < 3)) ⊎ ((id ≡ 2) × (j < 1))
seen_cases id j (t, e, (l, d)) = elim (Bool-cases (1 == id)) [
  | inl b ↦
      let same : first_segment ≡ t = ground (arith, e, b) in
      inl (ground (arith, b), subst (λ s. j < length s.segment) (sym same) l)
  | inr b ↦ elim (Bool-cases (2 == id)) [
    | inl c ↦
        let same : second_segment ≡ t = ground (arith, e, b, c) in
        inr (ground (arith, c), subst (λ s. j < length s.segment) (sym same) l)
    | inr c ↦ absurd (ground (arith, e, b, c))
  ]
]

number_of_first :
    (id j : ℕ) → id ≡ 1 → j < 3 → HasNumber bit_lists list_segments bit_list_laws two_merged id j
number_of_first id zero e l = (0, ground (arith, e))
number_of_first id (suc zero) e l = (1, ground (arith, e))
number_of_first id (suc (suc zero)) e l = (2, ground (arith, e))
number_of_first id (suc (suc (suc j))) e l = absurd (omega (arith, l))

number_of_second :
    (id j : ℕ) → id ≡ 2 → j < 1 → HasNumber bit_lists list_segments bit_list_laws two_merged id j
number_of_second id zero e l = (3, ground (arith, e))
number_of_second id (suc j) e l = absurd (omega (arith, l))

first_number :
    (id j : ℕ)
    → id ≡ 1
    → j < 3
    → new_number bit_lists list_segments bit_list_laws two_merged id j ≡ j
first_number id zero e l = ground (arith, e)
first_number id (suc zero) e l = ground (arith, e)
first_number id (suc (suc zero)) e l = ground (arith, e)
first_number id (suc (suc (suc j))) e l = absurd (omega (arith, l))

second_number :
    (id j : ℕ)
    → id ≡ 2
    → j < 1
    → new_number bit_lists list_segments bit_list_laws two_merged id j ≡ 3
second_number id zero e l = ground (arith, e)
second_number id (suc j) e l = absurd (omega (arith, l))

copies_of :
    (id j : ℕ) (x : IsSeen id j)
    → document new_segment (new_number bit_lists list_segments bit_list_laws two_merged id j)
      ≡ document x.0.segment j
copies_of id j x = elim (seen_cases id j x) [
  | inl (e, l) ↦
      let same : first_segment ≡ x.0 = ground (arith, e, x.1) in
      of_first j l (first_number id j e l) ∙ ap (λ s. document s.segment j) same
  | inr (e, l) ↦
      let same : second_segment ≡ x.0 = ground (arith, e, x.1) in
      of_second j l (second_number id j e l) ∙ ap (λ s. document s.segment j) same
]
  where
    of_first :
        (j : ℕ)
        → j < 3
        → new_number bit_lists list_segments bit_list_laws two_merged id j ≡ j
        → document new_segment (new_number bit_lists list_segments bit_list_laws two_merged id j)
          ≡ document first_segment.segment j
    of_first zero l e = ap (document new_segment) e
    of_first (suc zero) l e = ap (document new_segment) e
    of_first (suc (suc zero)) l e = ap (document new_segment) e
    of_first (suc (suc (suc j))) l e = absurd (omega (arith, l))

    of_second :
        (j : ℕ)
        → j < 1
        → new_number bit_lists list_segments bit_list_laws two_merged id j ≡ 3
        → document new_segment (new_number bit_lists list_segments bit_list_laws two_merged id j)
          ≡ document second_segment.segment j
    of_second zero l e = ap (document new_segment) e
    of_second (suc j) l e = absurd (omega (arith, l))

two_merged-IsMergeOf :
    IsMergeOf bit_lists list_segments bit_list_laws document two_merged current new_segment
two_merged-IsMergeOf = record {
  new = refl;
  size = omega arith;
  unique = ((refl, tt), (tt, tt));
  keys = ((refl, tt), (tt, tt));
  seen = ((refl, λ j h. absurd (ground (arith, h))), ((refl, λ j h. h), tt));
  known = tt;
  numbered = λ id j s. elim (seen_cases id j s) [
    | inl (e, l) ↦ number_of_first id j e l
    | inr (e, l) ↦ number_of_second id j e l
  ];
  below = λ id j s. elim (seen_cases id j s) [
    | inl (e, l) ↦ omega (arith, l, first_number id j e l)
    | inr (e, l) ↦ omega (arith, l, second_number id j e l)
  ];
  copies = copies_of;
  apart = λ id j id' j' s s' z. elim (seen_cases id j s) [
    | inl (e, l) ↦ elim (seen_cases id' j' s') [
      | inl (e', l') ↦
          omega (arith, e, l, e', l', z, first_number id j e l, first_number id' j' e' l')
      | inr (e', l') ↦
          omega (arith, e, l, e', l', z, first_number id j e l, second_number id' j' e' l')
    ]
    | inr (e, l) ↦ elim (seen_cases id' j' s') [
      | inl (e', l') ↦
          omega (arith, e, l, e', l', z, second_number id j e l, first_number id' j' e' l')
      | inr (e', l') ↦ omega (arith, e, l, e', l', z)
    ]
  ];
  every = λ n l. elim (Bool-cases (n == 3)) [
    | inl b ↦ (2, 0, (second_segment, refl, (omega arith, refl)), ground (arith, b))
    | inr b ↦
        let below : n < 3 = ground (arith, l, b) in
        (1, n, (first_segment, refl, (below, refl)), sym (first_number 1 n refl below))
  ];
}

introduce_merge-IsMerged_example :
    IsMerged bit_lists list_segments bit_list_laws document two_merged new_segment 5 current
      (introduce_merge bit_lists list_segments two_merged 5 current)
introduce_merge-IsMerged_example =
    introduce_merge-IsMerged bit_lists list_segments bit_list_laws document two_merged 5 current
      new_segment current-IsWellFormed two_merged-IsMergeOf

-- The introducer before the merge.
abbrev before_merge : State (List ℕ) (List Bool)
before_merge = record { root = current; next_snapshot_epoch = 5 }

Reachable-Turn_example :
    IsSound bit_lists list_segments bit_list_laws document before_merge
    × Turn bit_lists list_segments bit_list_laws document before_merge
        (introducer_turn bit_lists list_segments (merge_received two_merged) before_merge)
Reachable-Turn_example =
    Reachable-Turn bit_lists list_segments bit_list_laws document before_merge before_merge
      (merge_received two_merged) (record { well = current-IsWellFormed; older = omega arith })
      started (new_segment, two_merged-IsMergeOf)
