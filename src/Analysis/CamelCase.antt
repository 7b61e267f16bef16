-- ===== src/Analysis/CamelCase.antt =====
-- analysis/token/camelcase.go, camelcase_parser.go and camelcase_states.go: the parser that splits a
-- token into runs of runes of one class. The Unicode classes are parameters.
use bluge.Base.{
  ℕ, ◌+◌, Bool, true, false, not, ◌&&◌, ◌||◌, List, [], ◌∷◌, ◌++◌, Option, none, some, length,
}
use bluge.Analysis.{TokenStream, Utf8, encode_runes, alpha_numeric}

pub record Unicode : Type 0 where
  pub is_lower : ℕ → Bool
  pub is_upper : ℕ → Bool
  pub is_number : ℕ → Bool

-- The states; the fields of an upper case state are startedCollecting and collectingUpper.
pub data State : Type 0 where
  lower_case : State
  upper_case : Bool → Bool → State
  number_case : State
  non_alpha_numeric_case : State

pub record Parser : Type 0 where
  pub buffer : List ℕ
  pub current : Option State
  pub tokens : TokenStream
  pub index : ℕ

abbrev pub bool_eq : Bool → Bool → Bool
bool_eq true b = b
bool_eq false b = not b

module _ (unicode : Unicode) where
  -- peek != nil && unicode.IsLower(*peek)
  abbrev pub peeks_lower : Option ℕ → Bool
  peeks_lower none = false
  peeks_lower (some p) = unicode.is_lower p

  -- Member, with the state that it leaves.
  unfoldable pub member : State → ℕ → Option ℕ → Bool × State
  member lower_case sym peek = (unicode.is_lower sym, lower_case)
  member (upper_case started collecting) sym peek =
      elim (unicode.is_lower sym || unicode.is_upper sym) [
        | false ↦ (false, upper_case started collecting)
        | true ↦ elim (unicode.is_upper sym && peeks_lower peek) [
          | true ↦ (false, upper_case started collecting)
          | false ↦ elim started [
            | false ↦ (true, upper_case true (unicode.is_upper sym))
            | true ↦ (bool_eq collecting (unicode.is_upper sym), upper_case true collecting)
          ]
        ]
      ]
  member number_case sym peek = (unicode.is_number sym, number_case)
  member non_alpha_numeric_case sym peek = (
    not (unicode.is_lower sym) && not (unicode.is_upper sym) && not (unicode.is_number sym),
    non_alpha_numeric_case,
  )

  -- NewState, the StartSym of each state in turn.
  unfoldable pub new_state : ℕ → State
  new_state sym = elim (unicode.is_lower sym) [
    | true ↦ lower_case
    | false ↦ elim (unicode.is_upper sym) [
      | true ↦ upper_case false false
      | false ↦ elim (unicode.is_number sym) [ true ↦ number_case | false ↦ non_alpha_numeric_case ]
    ]
  ]

  module _ (utf8 : Utf8) where
    -- buildTokenFromTerm: the new token goes to the end of the tokens.
    unfoldable pub build_token_from_term : Parser → Parser
    build_token_from_term p =
        let term = encode_runes utf8 p.buffer in
        record p {
          index = p.index + length term;
          tokens =
              p.tokens
              ++ record {
                term = term;
                position_incr = 1;
                start = p.index;
                end = p.index + length term;
                token_type = alpha_numeric;
                key_word = false;
              }
                ∷ [];
        }

    unfoldable pub push : Parser → ℕ → Option ℕ → Parser
    unfolding member new_state build_token_from_term
    push p sym peek = elim p.current [
      | none ↦ record p { current = some (new_state sym); buffer = p.buffer ++ sym ∷ [] }
      | some state ↦
          let answer = member state sym peek in
          elim answer.0 [
            | true ↦ record p { current = some answer.1; buffer = p.buffer ++ sym ∷ [] }
            | false ↦ record (build_token_from_term p) {
              current = some (new_state sym);
              buffer = sym ∷ [];
            }
          ]
    ]

    abbrev pub peek_of : List ℕ → Option ℕ
    peek_of [] = none
    peek_of (r ∷ rest) = some r

    unfoldable pub push_all : Parser → List ℕ → Parser
    unfolding push
    push_all p [] = p
    push_all p (r ∷ rest) = push_all (push p r (peek_of rest)) rest

    unfoldable pub flush_tokens : Parser → TokenStream
    unfolding build_token_from_term
    flush_tokens p = (build_token_from_term p).tokens

    abbrev pub new_parser : ℕ → Parser
    new_parser index = record { buffer = []; current = none; tokens = []; index = index }

    unfoldable pub camel_case_filter : TokenStream → TokenStream
    unfolding push_all flush_tokens
    camel_case_filter [] = []
    camel_case_filter (token ∷ rest) =
        flush_tokens (push_all (new_parser token.start) (utf8.runes token.term))
        ++ camel_case_filter rest
