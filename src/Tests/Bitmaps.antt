-- ===== src/Tests/Bitmaps.antt =====
-- A bitmap that keeps a list of bits.
use bluge.Base.{
  ℕ, zero, suc, ◌-◌, ◌<◌, ◌≤◌, ◌≡◌, refl, ap, Bool, true, false, not, ◌&&◌, ◌||◌, List, [], ◌∷◌,
  ltb, leb, ◌==◌, if◌then◌else◌, arith, Bool-cases, inl, inr,
}
use bluge.Index.Segments.{Bitmaps, BitmapLaws, count_of, member}

abbrev pub contains : List Bool → ℕ → Bool
contains [] j = false
contains (x ∷ b) zero = x
contains (x ∷ b) (suc j) = contains b j

abbrev pub or : List Bool → List Bool → List Bool
or [] b = b
or (x ∷ a) [] = x ∷ a
or (x ∷ a) (y ∷ b) = (x || y) ∷ or a b

abbrev pub and_not : List Bool → List Bool → List Bool
and_not [] b = []
and_not (x ∷ a) [] = x ∷ a
and_not (x ∷ a) (y ∷ b) = (x && not y) ∷ and_not a b

abbrev pub single : ℕ → List Bool
single zero = true ∷ []
single (suc i) = false ∷ single i

abbrev pub range : ℕ → ℕ → List Bool
range from zero = []
range zero (suc end) = true ∷ range zero end
range (suc from) (suc end) = false ∷ range from end

abbrev pub is_empty : List Bool → Bool
is_empty [] = true
is_empty (x ∷ b) = not x && is_empty b

abbrev pub cardinality : List Bool → ℕ
cardinality [] = 0
cardinality (x ∷ b) = let rest = cardinality b in if x then suc rest else rest

abbrev pub numbers_from : ℕ → List Bool → List ℕ
numbers_from i [] = []
numbers_from i (x ∷ b) = let rest = numbers_from (suc i) b in if x then i ∷ rest else rest

abbrev pub bit_lists : Bitmaps (List Bool)
bit_lists = record {
  new_bitmap = [];
  contains = contains;
  or = or;
  and_not = and_not;
  add = λ b i. or b (single i);
  add_range = λ b from end. or b (range from end);
  is_empty = is_empty;
  cardinality = cardinality;
  numbers = numbers_from 0;
}

contains-or : (a b : List Bool) (j : ℕ) → contains (or a b) j ≡ (contains a j || contains b j)
contains-or [] b j = refl
contains-or (x ∷ a) [] j = ground arith
contains-or (x ∷ a) (y ∷ b) zero = refl
contains-or (x ∷ a) (y ∷ b) (suc j) = contains-or a b j

contains-and_not :
    (a b : List Bool) (j : ℕ) → contains (and_not a b) j ≡ (contains a j && not (contains b j))
contains-and_not [] b j = refl
contains-and_not (x ∷ a) [] j = ground arith
contains-and_not (x ∷ a) (y ∷ b) zero = refl
contains-and_not (x ∷ a) (y ∷ b) (suc j) = contains-and_not a b j

contains-single : (i j : ℕ) → contains (single i) j ≡ (j == i)
contains-single zero zero = refl
contains-single zero (suc j) = ground arith
contains-single (suc i) zero = ground arith
contains-single (suc i) (suc j) = ground (arith, contains-single i j)

contains-range : (from end j : ℕ) → contains (range from end) j ≡ (leb from j && ltb j end)
contains-range from zero j = ground arith
contains-range zero (suc end) zero = ground arith
contains-range zero (suc end) (suc j) = ground (arith, contains-range zero end j)
contains-range (suc from) (suc end) zero = ground arith
contains-range (suc from) (suc end) (suc j) = ground (arith, contains-range from end j)

contains-is_empty : (b : List Bool) (j : ℕ) → is_empty b ≡ true → contains b j ≡ false
contains-is_empty [] j e = refl
contains-is_empty (x ∷ b) zero e = ground (arith, e)
contains-is_empty (x ∷ b) (suc j) e = contains-is_empty b j (ground (arith, e))

cardinality_lem :
    (b : List Bool) (n : ℕ)
    → ((j : ℕ) → contains b j ≡ true → j < n)
    → cardinality b ≡ count_of n (contains b)
cardinality_lem [] zero h = refl
cardinality_lem [] (suc n) h = cardinality_lem [] n (λ j e. absurd (ground (arith, e)))
cardinality_lem (x ∷ b) zero h =
    ground (arith, h 0, cardinality_lem b zero (λ j e. absurd (omega (arith, h (suc j) e))))
cardinality_lem (x ∷ b) (suc n) h =
    ground (arith, cardinality_lem b n (λ j e. omega (arith, h (suc j) e)))

member-numbers_from :
    (i j : ℕ) (b : List Bool) → member j (numbers_from i b) ≡ (leb i j && contains b (j - i))
member-numbers_from i j [] = ground arith
member-numbers_from i j (x ∷ b) =
    let ih = member-numbers_from (suc i) j b in
    elim (Bool-cases (leb (suc i) j)) [
      | inl l ↦
          let next : j - i ≡ suc (j - suc i) = omega (arith, the_le l) in
          let at : contains (x ∷ b) (j - i) ≡ contains b (j - suc i) = ap (contains (x ∷ b)) next in
          ground (arith, l, ih, at)
      | inr l ↦ elim (Bool-cases (i == j)) [
        | inl e ↦
            let none_left : j - i ≡ 0 = ground (arith, e) in
            let at : contains (x ∷ b) (j - i) ≡ x = ap (contains (x ∷ b)) none_left in
            ground (arith, l, e, ih, at)
        | inr e ↦ ground (arith, l, e, ih)
      ]
    ]
  where
    the_le : leb (suc i) j ≡ true → suc i ≤ j
    the_le l = ground (arith, l)

pub bit_list_laws : BitmapLaws bit_lists
bit_list_laws = record {
  contains_new = λ j. refl;
  contains_or = contains-or;
  contains_and_not = contains-and_not;
  contains_add = λ b i j. ground (arith, contains-or b (single i) j, contains-single i j);
  contains_add_range =
      λ b from end j. ground (arith, contains-or b (range from end) j, contains-range from end j);
  is_empty_lem = contains-is_empty;
  cardinality_lem = cardinality_lem;
  member-numbers = λ b j. ground (arith, member-numbers_from 0 j b);
}
