-- ===== src/Numeric/RoundTrip.antt =====
-- A prefix coded number is valid, and read back without the bits that its precision leaves out.
use bluge.Base.{
  ℕ, zero, suc, ◌+◌, ◌*◌, ◌/◌, ◌%◌, ◌^◌, ◌≤◌, ◌<◌, ◌≡◌, refl, ap, ◌∙◌, sym, true, [], ◌∷◌, ok,
  ◌>>=◌, length, arith,
}
use native.Mathlib.Nat.{
  mul_assoc, pow-le-pow_right, mul-le-mul_left, div-lt_iff_lt-mul, div-mul-le_self,
}
use bluge.Base.{Bytes}
use bluge.Numeric.{
  new_prefix_coded_int64, new_prefix_coded_int64_prealloc, chars_loop, n_chars, flip_sign, int64,
  shift_of, bits_loop, add_char, valid_prefix_coded_term_bytes, shift_start_int64,
}

pub pow_positive : (n : ℕ) → 0 < 2 ^ n
pow_positive zero = omega arith
pow_positive (suc n) = omega (arith, pow_positive n)

add_char-divided : (b : ℕ) → b < 2 ^ 64 → add_char (b / 128) (b % 128) ≡ b
add_char-divided b h = ground arith

bits_loop-chars_loop :
    (n b : ℕ) (rest : Bytes)
    → b < 128 ^ n
    → b < 2 ^ 64
    → bits_loop 0 (chars_loop n b rest) ≡ bits_loop b rest
unfolding bits_loop chars_loop
bits_loop-chars_loop zero b rest h l = ap (λ x. bits_loop x rest) (omega arith)
bits_loop-chars_loop (suc n) b rest h l =
    bits_loop-chars_loop n (b / 128) (b % 128 ∷ rest) (omega arith) (omega arith)
    ∙ ap (λ x. bits_loop x rest) (add_char-divided b l)

length-chars_loop : (n b : ℕ) (rest : Bytes) → length (chars_loop n b rest) ≡ n + length rest
unfolding chars_loop
length-chars_loop zero b rest = omega arith
length-chars_loop (suc n) b rest = omega (arith, length-chars_loop n (b / 128) (b % 128 ∷ rest))

pow_plus : (m n : ℕ) → 2 ^ (m + n) ≡ 2 ^ m * 2 ^ n
pow_plus zero n = let e : zero + n ≡ n = omega arith in ap (λ i. 2 ^ i) e ∙ omega arith
pow_plus (suc m) n =
    let ih = pow_plus m n in
    let e : suc m + n ≡ suc (m + n) = omega arith in
    let a = ap (λ i. 2 ^ i) e in
    let b : 2 ^ suc m ≡ 2 * 2 ^ m = omega arith in
    let c : 2 ^ suc (m + n) ≡ 2 * (2 ^ m * 2 ^ n) = omega (arith, ih) in
    a ∙ c ∙ sym (mul_assoc 2 (2 ^ m) (2 ^ n)) ∙ ap (λ x. x * 2 ^ n) (sym b)

pow_128 : (n : ℕ) → 128 ^ n ≡ 2 ^ (7 * n)
pow_128 zero = refl
pow_128 (suc n) =
    let ih = pow_128 n in
    let e : 7 * suc n ≡ 7 + 7 * n = omega arith in
    let k = ap (λ i. 2 ^ i) e ∙ pow_plus 7 (7 * n) in omega (arith, ih, k)

smaller : (a d : ℕ) → 0 < d → a < 2 ^ 64 → a / d < 2 ^ 64
smaller a d h l = (div-lt_iff_lt-mul h).1 (omega (arith, mul-le-mul_left (2 ^ 64) h))

-- The characters have room for the bits that are left.
enough_chars : (s shift : ℕ) → s < 2 ^ 64 → shift ≤ 63 → s / 2 ^ shift < 128 ^ n_chars shift
enough_chars s shift h l =
    let n = n_chars shift in
    let e : 64 ≤ 7 * n + shift = omega arith in
    let two : 0 < 2 = omega arith in
    let room : 2 ^ 64 ≤ 2 ^ (7 * n + shift) = pow-le-pow_right two e in
    let split = pow_plus (7 * n) shift ∙ ap (λ x. x * 2 ^ shift) (sym (pow_128 n)) in
    (div-lt_iff_lt-mul (pow_positive shift)).1 (omega (arith, room, split))

-- A number that is encoded with a shift below 63 is decoded without an error, to the number whose
-- sortable bits are the same but for the lowest ones, as many as the shift says, which are zero.
pub int64-new_prefix_coded_int64 :
    (n shift : ℕ)
    → shift < 63
    → (new_prefix_coded_int64 n shift >>= int64)
      ≡ ok (flip_sign (flip_sign n / 2 ^ shift * 2 ^ shift))
unfolding new_prefix_coded_int64 new_prefix_coded_int64_prealloc int64 shift_of
int64-new_prefix_coded_int64 n shift h =
    let few = enough_chars (flip_sign n) shift (omega arith) (omega arith) in
    let low : flip_sign n / 2 ^ shift * 2 ^ shift ≤ flip_sign n =
      div-mul-le_self (flip_sign n) (2 ^ shift) in
    let fits : flip_sign n / 2 ^ shift < 2 ^ 64 =
      smaller (flip_sign n) (2 ^ shift) (pow_positive shift) (omega arith) in
    let bits = bits_loop-chars_loop (n_chars shift) (flip_sign n / 2 ^ shift) [] few fits in
    let cs = chars_loop (n_chars shift) (flip_sign n / 2 ^ shift) [] in
    let made : new_prefix_coded_int64 n shift ≡ ok ((shift_start_int64 + shift) % 256 ∷ cs) =
      ground arith in
    let read : shift_of ((shift_start_int64 + shift) % 256 ∷ cs) ≡ ok shift = ground arith in
    let whole : flip_sign n / 2 ^ shift * 2 ^ shift % 2 ^ 64 ≡ flip_sign n / 2 ^ shift * 2 ^ shift =
      omega (arith, low) in
    ap (λ r. r >>= int64) made ∙ ground (arith, read, bits, whole)

-- A term made with a shift of at most 63 is valid, and validation returns that shift.
pub valid_prefix_coded_term_bytes-new_prefix_coded_int64 :
    (n shift : ℕ)
    → shift ≤ 63
    → (new_prefix_coded_int64 n shift >>= λ term. ok (valid_prefix_coded_term_bytes term))
      ≡ ok (true, shift)
unfolding new_prefix_coded_int64 new_prefix_coded_int64_prealloc valid_prefix_coded_term_bytes
valid_prefix_coded_term_bytes-new_prefix_coded_int64 n shift h =
    ground (arith, length-chars_loop (n_chars shift) (flip_sign n / 2 ^ shift) [])
