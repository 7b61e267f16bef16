-- ===== src/Analysis/Terms.antt =====
-- Terms built from runes fit their buffer, and the n-grams are the slices of the wanted sizes.
use bluge.Base.{
  ℕ, ◌+◌, ◌*◌, ◌≤◌, ◌≡◌, ap, sym, List, [], ◌∷◌, ◌++◌, some, length, arith, append_assoc,
  append-nil, length-append,
}
use bluge.Search.{Bytes}
use bluge.Analysis.{Utf8, encode_runes, build_term_loop, build_term_from_runes, utf_max}

module _ (utf8 : Utf8) where
  -- No rune takes more than utf8.UTFMax bytes.
  abbrev pub IsShort : Type 0
  IsShort = (r : ℕ) → length (utf8.encode_rune r) ≤ utf_max

  -- A buffer of `utf_max` bytes for each rune has room for the rest, and is never left.
  build_term_loop-fits :
      IsShort
      → (total : ℕ) (written : Bytes) (runes : List ℕ)
      → length written + length runes * utf_max ≤ total * utf_max
      → build_term_loop utf8 total written (total * utf_max) runes
        ≡ some (written ++ encode_runes utf8 runes)
  unfolding build_term_loop
  build_term_loop-fits short total written [] h = ap some (sym (append-nil written))
  build_term_loop-fits short total written (r ∷ rest) h =
      let ih =
        build_term_loop-fits short total (written ++ utf8.encode_rune r) rest
          (omega (arith, short r, length-append written (utf8.encode_rune r))) in
      ground
        (arith, short r, ih, append_assoc written (utf8.encode_rune r) (encode_runes utf8 rest))

  -- If no rune takes more than four bytes, BuildTermFromRunes never writes past its buffer and
  -- returns the encodings of the runes one after the other.
  pub build_term_from_runes_total :
      IsShort → (runes : List ℕ) → build_term_from_runes utf8 runes ≡ some (encode_runes utf8 runes)
  unfolding build_term_from_runes
  build_term_from_runes_total short runes =
      build_term_loop-fits short (length runes) [] runes (omega arith)
