-- ===== src/Index/Retry.antt =====
-- index/retry.go: backgroundRetry, the exponential backoff of the background loops. A Duration is an
-- int64; the doubling wraps around at 64 bits, and a comparison of the truncated difference has the
-- outcome of the signed one. The timer is the duration it was started with, and errors are a
-- parameter.
use bluge.Base.{
  ℕ, zero, suc, ◌-◌, ◌*◌, ◌%◌, ◌^◌, ◌≤◌, ◌<◌, ◌≡◌, List, [], ◌∷◌, Option, none, some, leb, ◌==◌,
  length, ap, ◌∙◌, Bool-cases, inl, inr, true, false, arith,
}
use Prim.Native.Nat.{min}
use native.Mathlib.Nat.{mul_assoc, mul-le-mul_right}

-- The error that fail wraps: the operation, the delay and the cause.
pub record Failure (E : Type 0) : Type 0 where
  pub operation : List ℕ
  pub retry_in : ℕ
  pub cause : E

pub record BackgroundRetry (E : Type 0) : Type 0 where
  pub initial_delay : ℕ
  pub max_delay : ℕ
  pub delay : ℕ
  pub error : Option (Failure E)
  pub timer : Option ℕ

pow_positive : (n : ℕ) → 0 < 2 ^ n
pow_positive zero = omega arith
pow_positive (suc n) = omega (arith, pow_positive n)

le_times : (m q : ℕ) → 0 < q → m ≤ m * q
le_times m zero h = absurd (omega arith)
le_times m (suc q) h = omega arith

pow_suc : (n : ℕ) → 2 * 2 ^ n ≡ 2 ^ suc n
pow_suc n = omega arith

-- Once at the maximum, always at the maximum.
min_twice : (a m q : ℕ) → 0 < q → min (min a m * q) m ≡ min (a * q) m
min_twice a m q h = elim (Bool-cases (leb a m)) [
  | inl e ↦ let k : min a m ≡ a = ground arith in ap (λ x. min (x * q) m) k
  | inr e ↦
      let k : m < a = ground arith in
      let c : min a m ≡ m = omega arith in
      ap (λ x. min (x * q) m) c ∙ omega (arith, le_times m q h, larger k)
]
  where
    larger : m < a → m * q ≤ a * q
    larger k = mul-le-mul_right q (omega arith)

module _ {E : Type 0} where
  abbrev pub new_background_retry : ℕ → ℕ → BackgroundRetry E
  new_background_retry initial max = record {
    initial_delay = initial;
    max_delay = max;
    delay = 0;
    error = none;
    timer = none;
  }

  unfoldable pub stop : BackgroundRetry E → BackgroundRetry E
  stop r = record r { timer = none }

  unfoldable pub reset : BackgroundRetry E → BackgroundRetry E
  unfolding stop
  reset r = record (stop r) { delay = 0; error = none }

  -- The delay after a failure.
  unfoldable pub next_delay : BackgroundRetry E → ℕ
  next_delay r = elim (r.delay == 0) [
    | true ↦ r.initial_delay
    | false ↦ elim (leb (r.max_delay - r.delay) r.delay) [
      | true ↦ r.max_delay
      | false ↦ r.delay * 2 % 2 ^ 64
    ]
  ]

  unfoldable pub fail : BackgroundRetry E → List ℕ → E → BackgroundRetry E
  unfolding stop next_delay
  fail r operation cause =
      let delay = next_delay r in
      record (stop r) {
        delay = delay;
        timer = some delay;
        error = some (record { operation = operation; retry_in = delay; cause = cause });
      }

  -- The channel for work, nil during backoff, and the timer's.
  unfoldable pub notifications : {C : Type 0} → BackgroundRetry E → C → Option C × Option ℕ
  notifications r work = elim r.timer [ some t ↦ (none, some t) | none ↦ (some work, none) ]

  -- One failure after the other.
  unfoldable pub fail_all : BackgroundRetry E → List (List ℕ × E) → BackgroundRetry E
  unfolding fail
  fail_all r [] = r
  fail_all r (x ∷ xs) = fail_all (fail r x.0 x.1) xs

  next_delay-doubles :
      (r : BackgroundRetry E)
      → 0 < r.delay
      → r.max_delay < 2 ^ 63
      → next_delay r ≡ min (r.delay * 2) r.max_delay
  unfolding next_delay
  next_delay-doubles r h l = ground arith

  fail_all-doubles :
      (r : BackgroundRetry E) (xs : List (List ℕ × E))
      → 0 < r.delay
      → r.delay ≤ r.max_delay
      → r.max_delay < 2 ^ 63
      → (fail_all r xs).delay ≡ min (r.delay * 2 ^ length xs) r.max_delay
  unfolding fail_all fail stop
  fail_all-doubles r [] h k l = omega arith
  fail_all-doubles r (x ∷ xs) h k l =
      let d = next_delay-doubles r h l in
      let ih = fail_all-doubles (fail r x.0 x.1) xs (omega (arith, d)) (omega (arith, d)) l in
      ih
      ∙ ap (λ e. min (e * 2 ^ length xs) r.max_delay) d
      ∙ min_twice (r.delay * 2) r.max_delay (2 ^ length xs) (pow_positive (length xs))
      ∙ ap (λ e. min e r.max_delay)
          (mul_assoc r.delay 2 (2 ^ length xs) ∙ ap (λ e. r.delay * e) (pow_suc (length xs)))

  -- With a positive initial delay of at most the maximum and a maximum below 2 ^ 63, the delay
  -- after a reset and k + 1 failures is the lesser of the initial delay times 2 ^ k and the
  -- maximum: the doubling never overflows.
  pub fail_all-delay :
      (r : BackgroundRetry E) (x : List ℕ × E) (xs : List (List ℕ × E))
      → 0 < r.initial_delay
      → r.initial_delay ≤ r.max_delay
      → r.max_delay < 2 ^ 63
      → (fail_all (reset r) (x ∷ xs)).delay ≡ min (r.initial_delay * 2 ^ length xs) r.max_delay
  unfolding fail_all fail reset stop next_delay
  fail_all-delay r x xs h k l = fail_all-doubles (fail (reset r) x.0 x.1) xs h k l
