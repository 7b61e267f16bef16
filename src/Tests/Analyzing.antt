-- ===== src/Tests/Analyzing.antt =====
-- Token filters, on text of one byte per rune.
use bluge.Base.{
  ℕ, ◌+◌, ◌≡◌, Bool, true, false, ◌&&◌, [], ◌∷◌, some, length, leb, ◌==◌, filterb, arith,
}
use bluge.Search.{Bytes}
use bluge.Analysis.{Token, TokenStream, Utf8, alpha_numeric, encode_runes, build_term_from_runes}
use bluge.Analysis.Filters.{length_filter, stop_tokens_filter, unique_term_filter}
use bluge.Analysis.Positions.{
  positions, kept, is_within, first_entries, IsUnique, stop_tokens_filter-positions,
  length_filter-positions, unique_term_filter-first,
}
use bluge.Analysis.Terms.{build_term_from_runes_total}
use bluge.Analysis.Ngrams.{ngram_filter, edge_ngram_filter}
use bluge.Analysis.Slices.{
  for_each, slices_from, edge_slices, ngram_filter_lem, edge_ngram_filter_lem,
}
use bluge.Analysis.CamelCase.{Unicode, camel_case_filter}
use bluge.Analysis.Runs.{IsSplit, camel_case_filter-IsSplit}

abbrev ascii : Utf8
ascii = record { runes = λ b. b; encode_rune = λ r. r ∷ []; rune_len = λ r. some 1 }

abbrev classes : Unicode
classes = record {
  is_lower = λ r. leb 97 r && leb r 122;
  is_upper = λ r. leb 65 r && leb r 90;
  is_number = λ r. leb 48 r && leb r 57;
}

abbrev token : ℕ → Bytes → Token
token start term = record {
  start = start;
  end = start + length term;
  term = term;
  position_incr = 1;
  token_type = alpha_numeric;
  key_word = false;
}

-- "aB1", "a", "bcd", "a"
abbrev stream : TokenStream
stream =
    token 0 (97 ∷ 66 ∷ 49 ∷ [])
    ∷ token 4 (97 ∷ [])
    ∷ token 6 (98 ∷ 99 ∷ 100 ∷ [])
    ∷ token 10 (97 ∷ [])
    ∷ []

abbrev is_short : Bytes → Bool
is_short term = length term == 1

stop_tokens_filter-positions_example :
    positions 0 (stop_tokens_filter is_short stream) ≡ filterb (kept is_short) (positions 0 stream)
stop_tokens_filter-positions_example = stop_tokens_filter-positions is_short stream

length_filter-positions_example :
    positions 0 (length_filter ascii 2 0 stream)
    ≡ filterb (is_within ascii 2 0) (positions 0 stream)
length_filter-positions_example = length_filter-positions ascii 2 0 stream

unique_term_filter-first_example :
    (positions 0 (unique_term_filter stream) ≡ first_entries [] (positions 0 stream))
    × IsUnique [] (unique_term_filter stream)
unique_term_filter-first_example = unique_term_filter-first stream

build_term_from_runes_total_example :
    build_term_from_runes ascii (97 ∷ 98 ∷ []) ≡ some (encode_runes ascii (97 ∷ 98 ∷ []))
build_term_from_runes_total_example =
    build_term_from_runes_total ascii (λ r. omega arith) (97 ∷ 98 ∷ [])

ngram_filter_lem_example :
    ngram_filter ascii 1 2 stream
    ≡ for_each ascii 1 2
        (λ t. slices_from ascii 1 2 (ascii.runes t.term) (length (ascii.runes t.term)) 0)
        stream
ngram_filter_lem_example = ngram_filter_lem ascii 1 2 stream

edge_ngram_filter_lem_example :
    edge_ngram_filter ascii 1 2 true stream
    ≡ for_each ascii 1 2 (λ t. edge_slices ascii 1 2 true (ascii.runes t.term)) stream
edge_ngram_filter_lem_example = edge_ngram_filter_lem ascii 1 2 true stream

camel_case_filter-IsSplit_example :
    IsSplit classes ascii stream (camel_case_filter classes ascii stream)
camel_case_filter-IsSplit_example = camel_case_filter-IsSplit classes ascii stream
