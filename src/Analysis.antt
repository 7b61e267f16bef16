-- ===== src/Analysis.antt =====
-- analysis/type.go and analysis/util.go: tokens, and terms built from runes. UTF-8 and the Unicode
-- classes are parameters. Byte offsets, positions and sizes are natural numbers: the filler tokens
-- of the shingle filter, whose offsets are -1, are not built here.
pub mod Filters
pub mod Ngrams
pub mod CamelCase
pub mod Positions
pub mod Terms
pub mod Runs
pub mod Sizes
pub mod Slices
use bluge.Base.{
  ℕ, zero, suc, ◌+◌, ◌-◌, ◌*◌, ◌≤◌, ◌≡◌, refl, Bool, true, false, ◌&&◌, List, [], ◌∷◌, ◌++◌, Option,
  none, some, ltb, ◌==◌, length, take, All, arith, length-append,
}
use bluge.Search.{Bytes}

pub data TokenType : Type 0 where
  alpha_numeric : TokenType
  ideographic : TokenType
  numeric : TokenType
  date_time : TokenType
  shingle : TokenType
  single : TokenType
  double : TokenType
  boolean : TokenType

pub record Token : Type 0 where
  pub start : ℕ
  pub end : ℕ
  pub term : Bytes
  pub position_incr : ℕ
  pub token_type : TokenType
  pub key_word : Bool

abbrev pub TokenStream : Type 0
TokenStream = List Token

-- An Analyzer; nil lists of filters are empty ones.
pub record Analyzer : Type 0 where
  pub char_filters : List (Bytes → Bytes)
  pub tokenizer : Bytes → TokenStream
  pub token_filters : List (TokenStream → TokenStream)

abbrev pub apply_all : {A : Type 0} → List (A → A) → A → A
apply_all [] x = x
apply_all (f ∷ fs) x = apply_all fs (f x)

unfoldable pub analyze : Analyzer → Bytes → TokenStream
analyze a input = apply_all a.token_filters (a.tokenizer (apply_all a.char_filters input))

-- Go strings as map keys.
abbrev pub bytes_eq : Bytes → Bytes → Bool
bytes_eq [] [] = true
bytes_eq [] (b ∷ s) = false
bytes_eq (a ∷ r) [] = false
bytes_eq (a ∷ r) (b ∷ s) = a == b && bytes_eq r s

-- unicode/utf8 and bytes.Runes. `rune_len` is none where RuneLen returns -1.
pub record Utf8 : Type 0 where
  pub runes : Bytes → List ℕ
  pub encode_rune : ℕ → Bytes
  pub rune_len : ℕ → Option ℕ

-- utf8.UTFMax
abbrev pub utf_max : ℕ
utf_max = 4

module _ (utf8 : Utf8) where
  -- The loop of BuildTermFromRunesOptimistic, on the bytes written so far and the size of the buffer.
  -- EncodeRune panics, `none`, where the buffer is too small; `total` is len(runes).
  unfoldable pub build_term_loop : ℕ → Bytes → ℕ → List ℕ → Option Bytes
  build_term_loop total written size [] = some written
  build_term_loop total written size (r ∷ rest) =
      let needed : ℕ = elim (utf8.rune_len r) [
        | some n ↦ length written + n
        | none ↦ length written - 1
      ] in
      let size' : ℕ = elim (ltb size needed) [ true ↦ total * utf_max | false ↦ size ] in
      elim (ltb size' (length written + length (utf8.encode_rune r))) [
        | true ↦ none
        | false ↦ build_term_loop total (written ++ utf8.encode_rune r) size' rest
      ]

  -- The size of the buffer passed in stands for the buffer.
  unfoldable pub build_term_from_runes_optimistic : ℕ → List ℕ → Option Bytes
  unfolding build_term_loop
  build_term_from_runes_optimistic size runes = build_term_loop (length runes) [] size runes

  unfoldable pub build_term_from_runes : List ℕ → Option Bytes
  unfolding build_term_from_runes_optimistic
  build_term_from_runes runes = build_term_from_runes_optimistic (length runes * utf_max) runes

  -- The encodings of the runes one after the other: what BuildTermFromRunes returns.
  abbrev pub encode_runes : List ℕ → Bytes
  encode_runes [] = []
  encode_runes (r ∷ rest) = utf8.encode_rune r ++ encode_runes rest

  -- TruncateRunes
  abbrev pub truncate_runes : Bytes → ℕ → Bytes
  truncate_runes input num =
      let runes = utf8.runes input in encode_runes (take (length runes - num) runes)
