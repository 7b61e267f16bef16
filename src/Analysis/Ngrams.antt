-- ===== src/Analysis/Ngrams.antt =====
-- analysis/token/ngram.go and edgengram.go: the n-grams of a token and those at an edge of it.
use bluge.Base.{
  ℕ, zero, suc, ◌+◌, ◌-◌, Bool, true, false, List, [], ◌∷◌, ◌++◌, leb, length, take, drop,
  if◌then◌else◌,
}
use bluge.Analysis.{Token, TokenStream, Utf8, encode_runes}
use bluge.Search.{Bytes}

-- The token for one n-gram: the first of a token is at offset 1, the others at 0.
abbrev pub ngram_token : Token → Bool → Bytes → Token
ngram_token token first term = record {
  start = token.start;
  end = token.end;
  term = term;
  position_incr = if first then 1 else 0;
  token_type = token.token_type;
  key_word = false;
}

module _ (utf8 : Utf8) (min_length max_length : ℕ) where
  abbrev pub sizes : ℕ
  sizes = suc max_length - min_length

  module _ (token : Token) (runes : List ℕ) where
    -- The loop over the sizes from `size` on, `left` of them, at the rune `i`. The result is the
    -- tokens and `first` afterwards.
    unfoldable pub size_loop : ℕ → ℕ → ℕ → Bool → TokenStream × Bool
    size_loop i zero size first = ([], first)
    size_loop i (suc left) size first = elim (leb (i + size) (length runes)) [
      | true ↦
          let rest = size_loop i left (suc size) false in
          (ngram_token token first (encode_runes utf8 (take size (drop i runes))) ∷ rest.0, rest.1)
      | false ↦ size_loop i left (suc size) first
    ]

    -- The loop over the starts from `i` on, `left` of them.
    unfoldable pub start_loop : ℕ → ℕ → Bool → TokenStream
    unfolding size_loop
    start_loop zero i first = []
    start_loop (suc left) i first =
        let here = size_loop i sizes min_length first in here.0 ++ start_loop left (suc i) here.1

    -- The loop of EdgeNgramFilter at the back, from the end of the runes.
    unfoldable pub back_loop : ℕ → ℕ → Bool → TokenStream
    back_loop zero size first = []
    back_loop (suc left) size first = elim (leb size (length runes)) [
      | true ↦
          ngram_token token first (encode_runes utf8 (drop (length runes - size) runes))
          ∷ back_loop left (suc size) false
      | false ↦ back_loop left (suc size) first
    ]

  unfoldable pub ngram_filter : TokenStream → TokenStream
  unfolding start_loop
  ngram_filter [] = []
  ngram_filter (token ∷ rest) =
      let runes = utf8.runes token.term in
      start_loop token runes (length runes) 0 true ++ ngram_filter rest

  -- `back` is the side; at the front the n-grams start at the rune 0.
  unfoldable pub edge_ngram_filter : Bool → TokenStream → TokenStream
  unfolding size_loop back_loop
  edge_ngram_filter back [] = []
  edge_ngram_filter back (token ∷ rest) =
      let runes = utf8.runes token.term in
      let here =
        if back
        then back_loop token runes sizes min_length true
        else (size_loop token runes 0 sizes min_length true).0 in
      here ++ edge_ngram_filter back rest
