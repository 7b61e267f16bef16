-- ===== src/Tests/Introducing.antt =====
-- The introducer over segments that are lists of documents.
use bluge.Base.{
  ℕ, zero, suc, ◌<◌, ◌≡◌, refl, Bool, true, false, List, [], ◌∷◌, Option, none, some, ok, err,
  length, arith, ◌==◌, if◌then◌else◌,
}
use bluge.Index.Segments.{Segments, SegmentSnapshot, member}
use bluge.Index.Introducer.{Snapshot, Introduction, delta, introduce_segment, introduce_persist}
use bluge.Index.Introducer.Views.{IsWellFormed, view_all}
use bluge.Index.Introducer.Batches.{IsIntroduced, introduce_segment-IsIntroduced}
use bluge.Index.Introducer.Persists.{introduce_persist-keeps}
use bluge.Tests.Bitmaps.{bit_lists, bit_list_laws}

abbrev pub matching : List ℕ → List ℕ → List Bool
matching [] terms = []
matching (x ∷ xs) terms = member x terms ∷ matching xs terms

-- A search for the term 99 fails with the error 7.
abbrev pub list_segments : Segments (List ℕ) (List Bool) ℕ ℕ
list_segments = record {
  count = length;
  docs_matching_terms = λ g terms. if member 99 terms then err 7 else ok (matching g terms);
  persisted = λ g. true;
}

abbrev pub document : List ℕ → ℕ → ℕ
document [] j = 0
document (x ∷ xs) zero = x
document (x ∷ xs) (suc j) = document xs j

abbrev pub first_segment : SegmentSnapshot (List ℕ) (List Bool)
first_segment = record { id = 1; segment = 10 ∷ 11 ∷ 12 ∷ []; deleted = none }

abbrev pub second_segment : SegmentSnapshot (List ℕ) (List Bool)
second_segment = record { id = 2; segment = 20 ∷ []; deleted = none }

abbrev two_segments : Snapshot (List ℕ) (List Bool)
two_segments = record {
  epoch = 4;
  segments = first_segment ∷ second_segment ∷ [];
  offsets = 0 ∷ 3 ∷ [];
}

two_segments-IsWellFormed : IsWellFormed bit_lists list_segments two_segments
two_segments-IsWellFormed = record {
  bounded = (
    record { deleted = λ j h. absurd (ground (arith, h)); size = omega arith },
    (record { deleted = λ j h. absurd (ground (arith, h)); size = omega arith }, tt),
  );
  offsets = (refl, (refl, tt));
}

-- The documents 11 and 30; what has the terms 11 and 20 is replaced.
abbrev update : Introduction (List ℕ) (List Bool) ℕ
update = record {
  id = 3;
  segment_data = some (30 ∷ 11 ∷ []);
  obsoletes = λ id. none;
  id_terms = 11 ∷ 20 ∷ [];
}

updated :
    (r : Snapshot (List ℕ) (List Bool)) × (introduce_segment bit_lists list_segments update 5
        two_segments
      ≡ ok r)
    × (view_all bit_lists list_segments bit_list_laws document r.segments ≡ 10 ∷ 12 ∷ 30 ∷ 11 ∷ [])
    × (r.offsets ≡ 0 ∷ 3 ∷ [])
unfolding introduce_segment
updated = (_, refl, refl, refl)

introduce_segment-IsIntroduced_example :
    IsIntroduced bit_lists list_segments bit_list_laws document update 5 two_segments
      (introduce_segment bit_lists list_segments update 5 two_segments)
unfolding delta
introduce_segment-IsIntroduced_example =
    introduce_segment-IsIntroduced bit_lists list_segments bit_list_laws document update 5
      two_segments two_segments-IsWellFormed
      ((λ j h. first_range j h), ((λ j h. second_range j h), tt)) (omega arith)
  where
    first_range : (j : ℕ) → bit_lists.contains (false ∷ true ∷ false ∷ []) j ≡ true → j < 3
    first_range zero h = omega arith
    first_range (suc zero) h = omega arith
    first_range (suc (suc zero)) h = omega arith
    first_range (suc (suc (suc j))) h = absurd (ground (arith, h))

    second_range : (j : ℕ) → bit_lists.contains (true ∷ []) j ≡ true → j < 1
    second_range zero h = omega arith
    second_range (suc j) h = absurd (ground (arith, h))

abbrev files : ℕ → Option (List ℕ)
files id = if id == 2 then some (20 ∷ []) else none

introduce_persist-keeps_example :
    IsWellFormed bit_lists list_segments
      (introduce_persist bit_lists list_segments files 5 two_segments)
    × (view_all bit_lists list_segments bit_list_laws document
          (introduce_persist bit_lists list_segments files 5 two_segments).segments
        ≡ view_all bit_lists list_segments bit_list_laws document two_segments.segments)
introduce_persist-keeps_example =
    introduce_persist-keeps bit_lists list_segments bit_list_laws document files 5 two_segments
      two_segments-IsWellFormed ((λ g e. absurd (ground (arith, e))), ((λ g e. replaced g e), tt))
  where
    replaced :
        (g : List ℕ)
        → some (20 ∷ []) ≡ some g
        → (length g ≡ 1) × ((j : ℕ) → document g j ≡ document (20 ∷ []) j)
    replaced g e = (ground (arith, e), λ j. ground (arith, e))
