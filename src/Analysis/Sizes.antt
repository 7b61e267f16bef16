-- ===== src/Analysis/Sizes.antt =====
-- The sizes of n-grams: those that the loop of ngram.go and edgengram.go visits and those that are
-- wanted.
use bluge.Base.{
  ℕ, zero, suc, ◌+◌, ◌-◌, ◌≤◌, ◌<◌, ◌≡◌, refl, sym, subst, ◌∙◌, ap, Bool, true, false, ◌&&◌, List,
  [], ◌∷◌, arith, leb, filterb, inl, inr, ◌==◌, Bool-cases,
}

-- The `left` numbers from `n` on.
abbrev pub range : ℕ → ℕ → List ℕ
range zero n = []
range (suc left) n = n ∷ range left (suc n)

-- The sizes of the loop that fit behind the rune `i` of `n` runes: `left` of them, from `size` on.
abbrev pub fitting : ℕ → ℕ → ℕ → ℕ → List ℕ
fitting left size i n = filterb (λ s. leb (i + s) n) (range left size)

-- The sizes wanted at the rune `i` of `n` runes: at least `min`, at most `max`, and such that the
-- slice ends within the runes.
abbrev pub is_wanted : ℕ → ℕ → ℕ → ℕ → ℕ → Bool
is_wanted min max i n s = leb min s && (leb s max && leb (i + s) n)

-- In increasing order.
abbrev pub wanted : ℕ → ℕ → ℕ → ℕ → List ℕ
wanted min max i n = filterb (is_wanted min max i n) (range (suc n) 0)

module _ (p : ℕ → Bool) where
  -- A range loses the numbers below `m`, where the test is false.
  cut_front :
      (m k a : ℕ)
      → ((s : ℕ) → s < m → p s ≡ false)
      → a ≤ m
      → filterb p (range k a) ≡ filterb p (range (a + k - m) m)
  cut_front m zero a f h = subst (λ k. [] ≡ filterb p (range k m)) {x = 0} (omega arith) refl
  cut_front m (suc k) a f h = elim (Bool-cases (a == m)) [
    | inl q ↦
        let e : a ≡ m = ground arith in
        subst (λ b. filterb p (range (suc k) b) ≡ filterb p (range (b + suc k - m) m)) {x = m}
          (sym e) (ap (λ l. filterb p (range l m)) {x = suc k} {y = m + suc k - m} (omega arith))
    | inr ne ↦
        let out : p a ≡ false = f a (ground arith) in
        rw (filterb, out)
          (cut_front m k (suc a) f (ground arith)
            ∙ ap (λ l. filterb p (range l m)) {x = suc a + k - m} {y = a + suc k - m} (omega arith))
  ]

  filter-range_none : (k a : ℕ) → ((s : ℕ) → a ≤ s → p s ≡ false) → filterb p (range k a) ≡ []
  filter-range_none zero a f = refl
  filter-range_none (suc k) a f =
      rw (filterb, f a (omega arith)) (filter-range_none k (suc a) (λ s h. f s (omega arith)))

  -- A range loses its last `l` numbers, if the test is false there and above.
  cut_back :
      (l k a : ℕ)
      → ((s : ℕ) → a + k ≤ s → p s ≡ false)
      → filterb p (range (k + l) a) ≡ filterb p (range k a)
  cut_back l zero a f =
      ap (λ k. filterb p (range k a)) {x = 0 + l} {y = l} (omega arith)
      ∙ filter-range_none l a (λ s h. f s (omega arith))
  cut_back l (suc k) a f =
      let ih = cut_back l k (suc a) (λ s h. f s (omega arith)) in
      ap (λ i. filterb p (range i a)) {x = suc k + l} {y = suc (k + l)} (omega arith)
      ∙ ap (λ xs. elim (p a) [ true ↦ a ∷ xs | false ↦ xs ]) ih

filter-range_ext :
    (p q : ℕ → Bool) (k a : ℕ)
    → ((s : ℕ) → a ≤ s → s < a + k → p s ≡ q s)
    → filterb p (range k a) ≡ filterb q (range k a)
filter-range_ext p q zero a f = refl
filter-range_ext p q (suc k) a f = ground (
  arith,
  f a (omega arith) (omega arith),
  filter-range_ext p q k (suc a) (λ s h l. f s (omega arith) (omega arith)),
)

pub fitting-eq-wanted : (min max i n : ℕ) → fitting (suc max - min) min i n ≡ wanted min max i n
fitting-eq-wanted min max i n =
    let w = is_wanted min max i n in
    let above_n = cut_back w (suc max) (suc n) 0 (λ s h. ground arith) in
    let above_max = cut_back w (suc n) (suc max) 0 (λ s h. ground arith) in
    let below_min =
      cut_front w min (suc max) 0 (λ s h. ground arith) (omega arith)
      ∙ ap (λ k. filterb w (range k min)) {x = 0 + suc max - min} {y = suc max - min}
          (omega arith) in
    let same =
      filter-range_ext w (λ s. leb (i + s) n) (suc max - min) min (λ s h k. ground arith) in
    sym same
    ∙ sym below_min
    ∙ sym above_max
    ∙ ap (λ k. filterb w (range k 0)) {x = suc max + suc n} {y = suc n + suc max} (omega arith)
    ∙ above_n
