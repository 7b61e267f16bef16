-- ===== src/Analysis/Filters.antt =====
-- analysis/token: the filters that drop or change single tokens (length.go, stop.go, unique.go,
-- truncate.go, keyword.go). A token map is a test on terms. A limit of 0 stands for every limit that
-- LengthFilter ignores, the negative ones too.
use bluge.Base.{ℕ, ◌+◌, ◌-◌, Bool, true, false, ◌&&◌, ◌||◌, List, [], ◌∷◌, ltb, length}
use bluge.Search.{Bytes}
use bluge.Analysis.{Token, TokenStream, Utf8, bytes_eq, truncate_runes}

module _ (utf8 : Utf8) (min max : ℕ) where
  -- The two tests of LengthFilter.Filter.
  unfoldable pub is_wrong_length : Bytes → Bool
  is_wrong_length term =
      let word_len = length (utf8.runes term) in
      (ltb 0 min && ltb word_len min) || (ltb 0 max && ltb max word_len)

  unfoldable pub length_loop : ℕ → TokenStream → TokenStream
  length_loop skipped [] = []
  length_loop skipped (token ∷ rest) = elim (is_wrong_length token.term) [
    | true ↦ length_loop (skipped + token.position_incr) rest
    | false ↦ elim (ltb 0 skipped) [
      | true ↦ record token { position_incr = token.position_incr + skipped } ∷ length_loop 0 rest
      | false ↦ token ∷ length_loop skipped rest
    ]
  ]

  unfoldable pub length_filter : TokenStream → TokenStream
  unfolding length_loop
  length_filter input = length_loop 0 input

module _ (stop_tokens : Bytes → Bool) where
  unfoldable pub stop_loop : ℕ → TokenStream → TokenStream
  stop_loop skipped [] = []
  stop_loop skipped (token ∷ rest) = elim (stop_tokens token.term) [
    | false ↦ record token { position_incr = token.position_incr + skipped } ∷ stop_loop 0 rest
    | true ↦ stop_loop (skipped + token.position_incr) rest
  ]

  unfoldable pub stop_tokens_filter : TokenStream → TokenStream
  unfolding stop_loop
  stop_tokens_filter input = stop_loop 0 input

-- Membership in encounteredTerms.
abbrev pub encountered : List Bytes → Bytes → Bool
encountered [] term = false
encountered (t ∷ ts) term = bytes_eq t term || encountered ts term

unfoldable pub unique_loop : List Bytes → ℕ → TokenStream → TokenStream
unique_loop terms skipped [] = []
unique_loop terms skipped (token ∷ rest) = elim (encountered terms token.term) [
  | true ↦ unique_loop terms (skipped + token.position_incr) rest
  | false ↦
      record token { position_incr = token.position_incr + skipped }
      ∷ unique_loop (token.term ∷ terms) 0 rest
]

unfoldable pub unique_term_filter : TokenStream → TokenStream
unfolding unique_loop
unique_term_filter input = unique_loop [] 0 input

-- TruncateTokenFilter.Filter
unfoldable pub truncate_filter : Utf8 → ℕ → TokenStream → TokenStream
truncate_filter utf8 limit [] = []
truncate_filter utf8 limit (token ∷ rest) =
    let word_len = length (utf8.runes token.term) in
    let token' : Token = elim (ltb limit word_len) [
      | true ↦ record token { term = truncate_runes utf8 token.term (word_len - limit) }
      | false ↦ token
    ] in
    token' ∷ truncate_filter utf8 limit rest

-- KeyWordMarkerFilter.Filter
unfoldable pub key_word_marker_filter : (Bytes → Bool) → TokenStream → TokenStream
key_word_marker_filter key_words [] = []
key_word_marker_filter key_words (token ∷ rest) =
    let token' : Token = elim (key_words token.term) [
      | true ↦ record token { key_word = true }
      | false ↦ token
    ] in
    token' ∷ key_word_marker_filter key_words rest
