-- ===== src/Base/Lists.antt =====
-- Lists measured and cut by native numbers, under the library's names, and predicates by recursion.
use Prim.Native.Nat.{ℕ, zero, suc, ◌+◌, ◌-◌, ◌≤◌, min}
use mathlib.Core.Path.{◌≡◌, refl, sym, ap, ◌∙◌, subst}
use mathlib.Core.Bool.{Bool, true, false, ◌&&◌}
use mathlib.Core.List.{List, [], ◌∷◌, ◌++◌, Perm, Permᴰ}
use mathlib.Core.Logic.{∥∥₁_elim}
use mathlib.Core.Option.{Option, none, some}
use mathlib.Core.Logic.{◌⊎◌, inl, inr}
use native.Mathlib.Nat.{ℕ_set}
use bluge.Base.Tests.{if◌then◌else◌, Bool-cases}
use native.Mathlib.Omega.{arith}

module _ {ℓ} {A : Type ℓ} where
  abbrev pub length : List A → ℕ
  length [] = 0
  length (x ∷ xs) = suc (length xs)

  abbrev pub get_elem? : List A → ℕ → Option A
  get_elem? [] i = none
  get_elem? (x ∷ xs) zero = some x
  get_elem? (x ∷ xs) (suc i) = get_elem? xs i

  abbrev pub take : ℕ → List A → List A
  take zero xs = []
  take (suc n) [] = []
  take (suc n) (x ∷ xs) = x ∷ take n xs

  abbrev pub drop : ℕ → List A → List A
  drop zero xs = xs
  drop (suc n) [] = []
  drop (suc n) (x ∷ xs) = drop n xs

  pub length-append : (xs ys : List A) → length (xs ++ ys) ≡ length xs + length ys
  length-append [] ys = omega arith
  length-append (x ∷ xs) ys = omega (arith, length-append xs ys)

  pub append_assoc : (xs ys zs : List A) → (xs ++ ys) ++ zs ≡ xs ++ (ys ++ zs)
  append_assoc [] ys zs = refl
  append_assoc (x ∷ xs) ys zs = ap (λ l. x ∷ l) (append_assoc xs ys zs)

  pub append-nil : (xs : List A) → xs ++ [] ≡ xs
  append-nil [] = refl
  append-nil (x ∷ xs) = ap (λ l. x ∷ l) (append-nil xs)

  pub length-take : (n : ℕ) (xs : List A) → length (take n xs) ≡ min n (length xs)
  length-take zero xs = omega arith
  length-take (suc n) [] = omega arith
  length-take (suc n) (x ∷ xs) = omega (arith, length-take n xs)

  pub length-drop : (n : ℕ) (xs : List A) → length (drop n xs) ≡ length xs - n
  length-drop zero xs = omega arith
  length-drop (suc n) [] = omega arith
  length-drop (suc n) (x ∷ xs) = omega (arith, length-drop n xs)

  pub take-append-drop : (n : ℕ) (xs : List A) → take n xs ++ drop n xs ≡ xs
  take-append-drop zero xs = refl
  take-append-drop (suc n) [] = refl
  take-append-drop (suc n) (x ∷ xs) = rw (take-append-drop n xs)

  -- The predicate holds of every entry, as a nested tuple that tactics read.
  abbrev pub All {κ} : (A → Type κ) → List A → Type κ
  All P [] = Unit
  All P (x ∷ xs) = P x × All P xs

  pub All-append {κ} : (P : A → Type κ) (xs ys : List A) → All P xs → All P ys → All P (xs ++ ys)
  All-append P [] ys h k = k
  All-append P (x ∷ xs) ys h k = (h.0, All-append P xs ys h.1 k)

  -- `filter` by a Boolean test, as the source's loops keep entries.
  abbrev pub filterb : (A → Bool) → List A → List A
  filterb p [] = []
  filterb p (x ∷ xs) = elim (p x) [ true ↦ x ∷ filterb p xs | false ↦ filterb p xs ]

  pub All-imp {κ μ} :
      (P : A → Type κ) (Q : A → Type μ) (xs : List A) → ((x : A) → P x → Q x) → All P xs → All Q xs
  All-imp P Q [] f h = tt
  All-imp P Q (x ∷ xs) f h = (f x h.0, All-imp P Q xs f h.1)

  -- The number of entries that pass a test.
  abbrev pub countb : (A → Bool) → List A → ℕ
  countb p [] = 0
  countb p (x ∷ xs) = if p x then suc (countb p xs) else countb p xs

  pub countb-append :
      (p : A → Bool) (xs ys : List A) → countb p (xs ++ ys) ≡ countb p xs + countb p ys
  countb-append p [] ys = omega arith
  countb-append p (x ∷ xs) ys = ground (arith, countb-append p xs ys)

  pub countb-filterb-le : (p q : A → Bool) (xs : List A) → countb p (filterb q xs) ≤ countb p xs
  countb-filterb-le p q [] = omega arith
  countb-filterb-le p q (x ∷ xs) = ground (arith, countb-filterb-le p q xs)

  countb-permᴰ : (p : A → Bool) {xs ys : List A} → Permᴰ xs ys → countb p xs ≡ countb p ys
  countb-permᴰ p Permᴰ.nil = refl
  countb-permᴰ p (Permᴰ.cons e q) = ground (arith, ap p e, countb-permᴰ p q)
  countb-permᴰ p (Permᴰ.swap e f) = ground (arith, ap p e, ap p f)
  countb-permᴰ p (Permᴰ.trans q r) = countb-permᴰ p q ∙ countb-permᴰ p r

  pub countb-perm : (p : A → Bool) {xs ys : List A} → Perm xs ys → countb p xs ≡ countb p ys
  countb-perm p q = ∥∥₁_elim q (ℕ_set _ _) (countb-permᴰ p)

  pub All-filterb : (p : A → Bool) (xs : List A) → All (λ x. p x ≡ true) (filterb p xs)
  All-filterb p [] = tt
  All-filterb p (x ∷ xs) = elim (Bool-cases (p x)) [
    | inl e ↦ rw (filterb, All, e) (e, All-filterb p xs)
    | inr e ↦ rw (filterb, All, e) (All-filterb p xs)
  ]

  pub filterb_ext :
      (p q : A → Bool) (xs : List A) → ((x : A) → p x ≡ q x) → filterb p xs ≡ filterb q xs
  filterb_ext p q [] h = refl
  filterb_ext p q (x ∷ xs) h = ground (arith, h x, filterb_ext p q xs h)

  pub filterb-filterb :
      (p q : A → Bool) (xs : List A) → filterb p (filterb q xs) ≡ filterb (λ x. q x && p x) xs
  filterb-filterb p q [] = refl
  filterb-filterb p q (x ∷ xs) = ground (arith, filterb-filterb p q xs)

  pub filterb_all : (p : A → Bool) (xs : List A) → ((x : A) → p x ≡ true) → filterb p xs ≡ xs
  filterb_all p [] h = refl
  filterb_all p (x ∷ xs) h = ground (arith, h x, filterb_all p xs h)

  -- What holds of all entries holds of all that a filter keeps.
  pub filterb-All {κ} :
      (P : A → Type κ) (p : A → Bool) (xs : List A) → All P xs → All P (filterb p xs)
  filterb-All P p [] h = tt
  filterb-All P p (x ∷ xs) h = elim (Bool-cases (p x)) [
    | inl e ↦ rw (filterb, All, e) (h.0, filterb-All P p xs h.1)
    | inr e ↦ rw (filterb, All, e) (filterb-All P p xs h.1)
  ]

  -- To split on a computed list and keep the equation.
  pub List-cases : (xs : List A) → (xs ≡ []) ⊎ ((x : A) × (rest : List A) × (xs ≡ x ∷ rest))
  List-cases [] = inl refl
  List-cases (x ∷ rest) = inr (x, rest, refl)

-- To be one of the entries.
abbrev pub In : {A : Type 0} → A → List A → Type 0
In a [] = ⊥
In a (x ∷ xs) = (a ≡ x) ⊎ In a xs

pub In-All : {A : Type 0} (p : A → Type 0) (xs : List A) → ((x : A) → In x xs → p x) → All p xs
In-All p [] h = tt
In-All p (x ∷ xs) h = (h x (inl refl), In-All p xs (λ y i. h y (inr i)))

pub All-In : {A : Type 0} (p : A → Type 0) (a : A) (xs : List A) → All p xs → In a xs → p a
All-In p a [] h i = absurd i
All-In p a (x ∷ xs) h (inl e) = subst p (sym e) h.0
All-In p a (x ∷ xs) h (inr i) = All-In p a xs h.1 i

pub In-append_left : {A : Type 0} (a : A) (xs ys : List A) → In a xs → In a (xs ++ ys)
In-append_left a [] ys i = absurd i
In-append_left a (x ∷ xs) ys (inl e) = inl e
In-append_left a (x ∷ xs) ys (inr i) = inr (In-append_left a xs ys i)

pub In-append_right : {A : Type 0} (a : A) (xs ys : List A) → In a ys → In a (xs ++ ys)
In-append_right a [] ys i = i
In-append_right a (x ∷ xs) ys i = inr (In-append_right a xs ys i)

pub In-append : {A : Type 0} (a : A) (xs ys : List A) → In a (xs ++ ys) → In a xs ⊎ In a ys
In-append a [] ys i = inr i
In-append a (x ∷ xs) ys (inl e) = inl (inl e)
In-append a (x ∷ xs) ys (inr i) = elim (In-append a xs ys i) [ inl k ↦ inl (inr k) | inr k ↦ inr k ]

-- What a filter keeps was there.
pub In-filterb : {A : Type 0} (a : A) (p : A → Bool) (xs : List A) → In a (filterb p xs) → In a xs
In-filterb a p xs i =
    All-In (λ y. In y xs) a (filterb p xs)
      (filterb-All (λ y. In y xs) p xs (In-All (λ y. In y xs) xs (λ y k. k))) i
