-- ===== src/Numeric.antt =====
-- numeric/prefix_coded.go and Float64ToInt64 of numeric/float.go: 64-bit numbers as terms that sort like them, at a precision. An int64 is
-- its bit pattern, a number below 2 ^ 64; bytes are numbers below 256, and byte arithmetic wraps.
pub mod RoundTrip
use bluge.Base.{
  ℕ, zero, suc, ◌+◌, ◌-◌, ◌*◌, ◌/◌, ◌%◌, ◌^◌, Bool, true, false, ◌&&◌, ◌||◌, List, [], ◌∷◌, Result,
  ok, err, ltb, leb, ◌==◌, length, drop, if◌then◌else◌,
}
use bluge.Base.{Bytes}

abbrev pub shift_start_int64 : ℕ
shift_start_int64 = 32

pub data NumericError : Type 0 where
  cannot_shift : ℕ → NumericError
  invalid_prefix_coded_value : NumericError

-- `uint64(in) ^ 0x8000000000000000`
abbrev pub flip_sign : ℕ → ℕ
flip_sign u = (u + 2 ^ 63) % 2 ^ 64

abbrev pub n_chars : ℕ → ℕ
n_chars shift = (63 - shift) / 7 + 1

-- The loop that fills the characters from the last to the first.
unfoldable pub chars_loop : ℕ → ℕ → Bytes → Bytes
chars_loop zero bits rest = rest
chars_loop (suc n) bits rest = chars_loop n (bits / 128) (bits % 128 ∷ rest)

-- NewPrefixCodedInt64Prealloc: the term, and what is left of the bytes allocated before.
unfoldable pub new_prefix_coded_int64_prealloc : ℕ → ℕ → Bytes → Result NumericError (Bytes × Bytes)
unfolding chars_loop
new_prefix_coded_int64_prealloc n shift prealloc =
    let size = n_chars shift + 1 in
    let rest : Bytes = elim (leb size (length prealloc)) [
      | true ↦ drop size prealloc
      | false ↦ []
    ] in
    elim (ltb 63 shift) [
      | true ↦ err (cannot_shift shift)
      | false ↦ ok (
        (shift_start_int64 + shift) % 256 ∷ chars_loop (n_chars shift) (flip_sign n / 2 ^ shift) [],
        rest,
      )
    ]

unfoldable pub new_prefix_coded_int64 : ℕ → ℕ → Result NumericError Bytes
unfolding new_prefix_coded_int64_prealloc
new_prefix_coded_int64 n shift = elim (new_prefix_coded_int64_prealloc n shift []) [
  | ok r ↦ ok r.0
  | err e ↦ err e
]

-- Float64ToInt64 on the bits of the float.
unfoldable pub float64_to_int64 : ℕ → ℕ
float64_to_int64 bits = if ltb bits (2 ^ 63) then bits else 2 ^ 63 + (2 ^ 64 - 1 - bits)

-- PrefixCoded.Shift
unfoldable pub shift_of : Bytes → Result NumericError ℕ
shift_of [] = err invalid_prefix_coded_value
shift_of (b ∷ rest) =
    let shift = (b + 256 - shift_start_int64) % 256 in
    if ltb shift 63 then ok shift else err invalid_prefix_coded_value

-- `sortableBits <<= 7; sortableBits |= int64(inbyte)`; a byte of 128 or more meets the lowest bit.
abbrev pub add_char : ℕ → ℕ → ℕ
add_char bits b = bits * 128 % 2 ^ 64 + b % 128 + (if leb 128 b && bits % 2 == 0 then 128 else 0)

unfoldable pub bits_loop : ℕ → Bytes → ℕ
bits_loop bits [] = bits
bits_loop bits (b ∷ rest) = bits_loop (add_char bits b) rest

-- PrefixCoded.Int64
unfoldable pub int64 : Bytes → Result NumericError ℕ
unfolding shift_of bits_loop
int64 [] = err invalid_prefix_coded_value
int64 (b ∷ rest) = elim (shift_of (b ∷ rest)) [
  | err e ↦ err e
  | ok shift ↦ ok (flip_sign (bits_loop 0 rest * 2 ^ shift % 2 ^ 64))
]

-- ValidPrefixCodedTermBytes
unfoldable pub valid_prefix_coded_term_bytes : Bytes → Bool × ℕ
valid_prefix_coded_term_bytes [] = (false, 0)
valid_prefix_coded_term_bytes (b ∷ rest) =
    if ltb b shift_start_int64 || ltb (shift_start_int64 + 63) b
    then (false, 0)
    else (if length (b ∷ rest) == n_chars (b - shift_start_int64) + 1
        then (true, b - shift_start_int64)
        else (false, 0))
