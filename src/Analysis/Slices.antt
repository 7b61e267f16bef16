-- ===== src/Analysis/Slices.antt =====
-- The n-grams are the slices of the wanted sizes.
use bluge.Base.{
  ℕ, zero, suc, ◌-◌, ◌≡◌, refl, ap, ◌∙◌, Bool, true, false, ◌&&◌, List, [], ◌∷◌, ◌++◌, length, take,
  drop, arith, map, if◌then◌else◌,
}
use bluge.Search.{Bytes}
use bluge.Analysis.{Token, TokenStream, Utf8, encode_runes}
use bluge.Analysis.Sizes.{fitting, wanted, fitting-eq-wanted}
use bluge.Analysis.Ngrams.{
  ngram_token, sizes, size_loop, start_loop, back_loop, ngram_filter, edge_ngram_filter,
}

-- One token for each term, the first at offset 1.
abbrev pub numbered : Token → Bool → List Bytes → TokenStream
numbered token first [] = []
numbered token first (t ∷ ts) = ngram_token token first t ∷ numbered token false ts

abbrev pub is_empty : List Bytes → Bool
is_empty [] = true
is_empty (t ∷ ts) = false

numbered-append :
    (token : Token) (first : Bool) (xs ys : List Bytes)
    → numbered token first xs ++ numbered token (first && is_empty xs) ys
      ≡ numbered token first (xs ++ ys)
numbered-append token true [] ys = refl
numbered-append token false [] ys = refl
numbered-append token true (x ∷ xs) ys =
    ap (λ l. ngram_token token true x ∷ l) (numbered-append token false xs ys)
numbered-append token false (x ∷ xs) ys =
    ap (λ l. ngram_token token false x ∷ l) (numbered-append token false xs ys)

module _ (utf8 : Utf8) (min_length max_length : ℕ) where
  module _ (runes : List ℕ) where
    -- The slices at `i` of these sizes, encoded.
    abbrev pub slices_at : ℕ → List ℕ → List Bytes
    slices_at i = map (λ s. encode_runes utf8 (take s (drop i runes)))

    -- The slices of the wanted sizes at the `left` runes from `i` on.
    abbrev pub slices_from : ℕ → ℕ → List Bytes
    slices_from zero i = []
    slices_from (suc left) i =
        slices_at i (wanted min_length max_length i (length runes)) ++ slices_from left (suc i)

    abbrev pub end_slices : List ℕ → List Bytes
    end_slices = map (λ s. encode_runes utf8 (drop (length runes - s) runes))

    size_loop_lem :
        (token : Token) (i left size : ℕ) (first : Bool)
        → size_loop utf8 min_length max_length token runes i left size first ≡ (
          numbered token first (slices_at i (fitting left size i (length runes))),
          first && is_empty (slices_at i (fitting left size i (length runes))),
        )
    unfolding size_loop
    size_loop_lem token i zero size true = refl
    size_loop_lem token i zero size false = refl
    size_loop_lem token i (suc left) size first = ground (
      arith,
      size_loop_lem token i left (suc size) false,
      size_loop_lem token i left (suc size) first,
    )

    start_loop_lem :
        (token : Token) (left i : ℕ) (first : Bool)
        → start_loop utf8 min_length max_length token runes left i first
          ≡ numbered token first (slices_from left i)
    unfolding start_loop
    start_loop_lem token zero i first = refl
    start_loop_lem token (suc left) i first =
        let here = slices_at i (wanted min_length max_length i (length runes)) in
        rw (size_loop_lem token i (sizes utf8 min_length max_length) min_length first) (
          rw (fitting-eq-wanted min_length max_length i (length runes)) (
            ap (λ l. numbered token first here ++ l) (start_loop_lem token left (suc i) _)
            ∙ numbered-append token first here (slices_from left (suc i))))

    back_loop_lem :
        (token : Token) (left size : ℕ) (first : Bool)
        → back_loop utf8 min_length max_length token runes left size first
          ≡ numbered token first (end_slices (fitting left size 0 (length runes)))
    unfolding back_loop
    back_loop_lem token zero size first = refl
    back_loop_lem token (suc left) size first = ground (
      arith,
      back_loop_lem token left (suc size) false,
      back_loop_lem token left (suc size) first,
    )

  -- The output as a list comprehension over tokens.
  abbrev pub for_each : (Token → List Bytes) → TokenStream → TokenStream
  for_each terms [] = []
  for_each terms (token ∷ rest) = numbered token true (terms token) ++ for_each terms rest

  -- The n-gram filter yields for each token the encoded slices of its runes, by start and then by
  -- size, of every size from the least to the greatest length with which the slice ends within the
  -- token, the first of a token at offset 1 and the others at 0.
  pub ngram_filter_lem :
      (input : TokenStream)
      → ngram_filter utf8 min_length max_length input
        ≡ for_each
            (λ token. slices_from (utf8.runes token.term) (length (utf8.runes token.term)) 0)
            input
  unfolding ngram_filter
  ngram_filter_lem [] = refl
  ngram_filter_lem (token ∷ rest) =
      rw (start_loop_lem (utf8.runes token.term) token (length (utf8.runes token.term)) 0 true) (
        ap
          (λ l.
            numbered token true
              (slices_from (utf8.runes token.term) (length (utf8.runes token.term)) 0)
            ++ l)
          (ngram_filter_lem rest))

  -- The slices at the front of a token, or at its back, of the wanted sizes.
  abbrev pub edge_slices : Bool → List ℕ → List Bytes
  edge_slices back runes =
      let ss = wanted min_length max_length 0 (length runes) in
      if back then end_slices runes ss else slices_at runes 0 ss

  -- The edge n-gram filter yields for each token the encoded slices at its front, or at its back,
  -- of every size from the least to the greatest length that is at most that of the token, in
  -- increasing order.
  pub edge_ngram_filter_lem :
      (back : Bool) (input : TokenStream)
      → edge_ngram_filter utf8 min_length max_length back input
        ≡ for_each (λ token. edge_slices back (utf8.runes token.term)) input
  unfolding edge_ngram_filter
  edge_ngram_filter_lem back [] = refl
  edge_ngram_filter_lem true (token ∷ rest) =
      let runes = utf8.runes token.term in
      rw (back_loop_lem runes token (sizes utf8 min_length max_length) min_length true) (
        rw (fitting-eq-wanted min_length max_length 0 (length runes)) (
          ap (λ l. numbered token true (edge_slices true runes) ++ l)
            (edge_ngram_filter_lem true rest)))
  edge_ngram_filter_lem false (token ∷ rest) =
      let runes = utf8.runes token.term in
      rw (size_loop_lem runes token 0 (sizes utf8 min_length max_length) min_length true) (
        rw (fitting-eq-wanted min_length max_length 0 (length runes)) (
          ap (λ l. numbered token true (edge_slices false runes) ++ l)
            (edge_ngram_filter_lem false rest)))
