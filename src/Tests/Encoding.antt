-- ===== src/Tests/Encoding.antt =====
-- Prefix coded numbers.
use bluge.Base.{◌≡◌, refl, ◌*◌, ◌/◌, ◌^◌, ◌>>=◌, ok, err, true, [], ◌∷◌, arith}
use bluge.Numeric.{
  new_prefix_coded_int64, int64, flip_sign, valid_prefix_coded_term_bytes, shift_of,
  invalid_prefix_coded_value,
}
use bluge.Numeric.RoundTrip.{
  int64-new_prefix_coded_int64, valid_prefix_coded_term_bytes-new_prefix_coded_int64,
}

coded : new_prefix_coded_int64 1000 56 ≡ ok (88 ∷ 1 ∷ 0 ∷ [])
unfolding new_prefix_coded_int64
coded = refl

-- 1000 without its lowest four bits is 992.
int64-new_prefix_coded_int64_example :
    (new_prefix_coded_int64 1000 4 >>= int64) ≡ ok (flip_sign (flip_sign 1000 / 2 ^ 4 * 2 ^ 4))
int64-new_prefix_coded_int64_example = int64-new_prefix_coded_int64 1000 4 (omega arith)

rounded : flip_sign (flip_sign 1000 / 2 ^ 4 * 2 ^ 4) ≡ 992
rounded = refl

valid_prefix_coded_term_bytes-new_prefix_coded_int64_example :
    (new_prefix_coded_int64 1000 63 >>= λ term. ok (valid_prefix_coded_term_bytes term))
    ≡ ok (true, 63)
valid_prefix_coded_term_bytes-new_prefix_coded_int64_example =
    valid_prefix_coded_term_bytes-new_prefix_coded_int64 1000 63 (omega arith)

-- The greatest shift is refused when the term is read.
unread : (new_prefix_coded_int64 1000 63 >>= shift_of) ≡ err invalid_prefix_coded_value
unfolding new_prefix_coded_int64 shift_of
unread = refl
