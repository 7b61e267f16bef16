-- ===== src/Analysis/Runs.antt =====
-- The camel case parser cuts a token without loss.
use bluge.Base.{
  ℕ, ◌+◌, ◌≡◌, refl, ap, ◌∙◌, sym, subst, List, [], ◌∷◌, ◌++◌, Option, length, append_assoc,
  append-nil, Option-cases, Bool-cases, inl, inr,
}
use bluge.Search.{Bytes}
use bluge.Analysis.{TokenStream, Utf8, encode_runes}
use bluge.Analysis.CamelCase.{
  Unicode, Parser, State, member, build_token_from_term, push, push_all, flush_tokens, new_parser,
  camel_case_filter, peek_of,
}

-- The terms one after the other.
abbrev pub concat_terms : TokenStream → Bytes
concat_terms [] = []
concat_terms (token ∷ rest) = token.term ++ concat_terms rest

-- Each token starts where the one before ended, the first at `i` and the last ends at `j`, and its
-- offsets are as far apart as its term is long.
abbrev pub Tiles : ℕ → ℕ → TokenStream → Type 0
Tiles i j [] = i ≡ j
Tiles i j (token ∷ rest) =
    (token.start ≡ i) × (token.end ≡ i + length token.term) × Tiles token.end j rest

concat_terms-append :
    (xs ys : TokenStream) → concat_terms (xs ++ ys) ≡ concat_terms xs ++ concat_terms ys
concat_terms-append [] ys = refl
concat_terms-append (x ∷ xs) ys =
    ap (λ l. x.term ++ l) (concat_terms-append xs ys)
    ∙ sym (append_assoc x.term (concat_terms xs) (concat_terms ys))

encode_runes-append :
    (utf8 : Utf8) (xs ys : List ℕ)
    → encode_runes utf8 (xs ++ ys) ≡ encode_runes utf8 xs ++ encode_runes utf8 ys
encode_runes-append utf8 [] ys = refl
encode_runes-append utf8 (x ∷ xs) ys =
    ap (λ l. utf8.encode_rune x ++ l) (encode_runes-append utf8 xs ys)
    ∙ sym (append_assoc (utf8.encode_rune x) (encode_runes utf8 xs) (encode_runes utf8 ys))

Tiles-append :
    (i j k : ℕ) (xs ys : TokenStream) → Tiles i j xs → Tiles j k ys → Tiles i k (xs ++ ys)
Tiles-append i j k [] ys h t = subst (λ x. Tiles x k ys) (sym h) t
Tiles-append i j k (x ∷ xs) ys h t = (h.0, h.1, Tiles-append x.end j k xs ys h.2 t)

module _ (unicode : Unicode) (utf8 : Utf8) where
  -- What is consumed so far is in the tokens and the buffer, and the tokens tile the input.
  record Consumed (i : ℕ) (seen : List ℕ) (p : Parser) : Type 0 where
    tiles : Tiles i p.index p.tokens
    bytes : concat_terms p.tokens ++ encode_runes utf8 p.buffer ≡ encode_runes utf8 seen

  build_token_from_term-Consumed :
      (i : ℕ) (seen : List ℕ) (p : Parser)
      → Consumed i seen p
      → Tiles i
          (build_token_from_term unicode utf8 p).index
          (build_token_from_term unicode utf8 p).tokens
        × (concat_terms (build_token_from_term unicode utf8 p).tokens ≡ encode_runes utf8 seen)
  unfolding build_token_from_term
  build_token_from_term-Consumed i seen p c = (
    Tiles-append i p.index _ p.tokens _ c.tiles (refl, refl, refl),
    concat_terms-append p.tokens _
        ∙ ap (λ l. concat_terms p.tokens ++ l) (append-nil (encode_runes utf8 p.buffer))
        ∙ c.bytes,
  )

  accumulated :
      (i : ℕ) (seen : List ℕ) (p : Parser) (current : Option State) (sym' : ℕ)
      → Consumed i seen p
      → Consumed i
          (seen ++ sym' ∷ [])
          (record p { current = current; buffer = p.buffer ++ sym' ∷ [] })
  accumulated i seen p current sym' c = record {
    tiles = c.tiles;
    bytes =
        ap (λ l. concat_terms p.tokens ++ l) (encode_runes-append utf8 p.buffer (sym' ∷ []))
        ∙ sym (append_assoc (concat_terms p.tokens) (encode_runes utf8 p.buffer) _)
        ∙ ap (λ l. l ++ encode_runes utf8 (sym' ∷ [])) c.bytes
        ∙ sym (encode_runes-append utf8 seen (sym' ∷ []));
  }

  switched :
      (i : ℕ) (seen : List ℕ) (p : Parser) (current : Option State) (sym' : ℕ)
      → Consumed i seen p
      → Consumed i
          (seen ++ sym' ∷ [])
          (record (build_token_from_term unicode utf8 p) { current = current; buffer = sym' ∷ [] })
  switched i seen p current sym' c =
      let built = build_token_from_term-Consumed i seen p c in
      record {
        tiles = built.0;
        bytes =
            ap (λ l. l ++ encode_runes utf8 (sym' ∷ [])) built.1
            ∙ sym (encode_runes-append utf8 seen (sym' ∷ []));
      }

  push-Consumed :
      (i : ℕ) (seen : List ℕ) (p : Parser) (sym' : ℕ) (peek : Option ℕ)
      → Consumed i seen p
      → Consumed i (seen ++ sym' ∷ []) (push unicode utf8 p sym' peek)
  unfolding push
  push-Consumed i seen p sym' peek c = elim (Option-cases p.current) [
    | inl e ↦ rw (push, e) (accumulated i seen p _ sym' c)
    | inr (state, e) ↦ elim (Bool-cases (member unicode state sym' peek).0) [
      | inl a ↦ rw (push, e, a) (accumulated i seen p _ sym' c)
      | inr a ↦ rw (push, e, a) (switched i seen p _ sym' c)
    ]
  ]

  push_all-Consumed :
      (i : ℕ) (seen : List ℕ) (p : Parser) (runes : List ℕ)
      → Consumed i seen p
      → Consumed i (seen ++ runes) (push_all unicode utf8 p runes)
  unfolding push_all
  push_all-Consumed i seen p [] c = subst (λ s. Consumed i s p) (sym (append-nil seen)) c
  push_all-Consumed i seen p (r ∷ rest) c =
      subst (λ s. Consumed i s (push_all unicode utf8 p (r ∷ rest)))
        (append_assoc seen (r ∷ []) rest)
        (push_all-Consumed i (seen ++ r ∷ []) (push unicode utf8 p r (peek_of unicode utf8 rest))
          rest (push-Consumed i seen p r _ c))

  -- The output is one group for each token of the input, in order. A group has the bytes of the
  -- token, and its offsets tile what they take up.
  abbrev pub IsSplit : TokenStream → TokenStream → Type 0
  IsSplit [] out = out ≡ []
  IsSplit (token ∷ rest) out =
      (here : TokenStream) × (others : TokenStream) × (out ≡ here ++ others)
      × (concat_terms here ≡ encode_runes utf8 (utf8.runes token.term))
      × ((j : ℕ) × Tiles token.start j here)
      × IsSplit rest others

  -- The camel case filter replaces each token by a group of tokens whose terms, one after the
  -- other, are the encoded runes of the token, and whose offsets follow each other without a gap
  -- from its start on, each as wide as its term.
  pub camel_case_filter-IsSplit :
      (input : TokenStream) → IsSplit input (camel_case_filter unicode utf8 input)
  unfolding camel_case_filter flush_tokens
  camel_case_filter-IsSplit [] = refl
  camel_case_filter-IsSplit (token ∷ rest) =
      let built = build_token_from_term-Consumed token.start (utf8.runes token.term) _ (
        push_all-Consumed token.start [] (new_parser unicode utf8 token.start)
          (utf8.runes token.term) (record { tiles = refl; bytes = refl })) in
      (_, _, refl, built.1, (_, built.0), camel_case_filter-IsSplit rest)
