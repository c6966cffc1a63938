-- ===== src/KerberosAgent/Results.antt =====
-- The results of CreateContext and ContinueContext of infrastructure/auth/KerberosAgentProvider.cpp.
use tcp_redirector.Prelude.{
  ℕ, Bool, true, false, List, [], ◌∷◌, ◌++◌, Option, none, some, if◌then◌else◌,
}
use tcp_redirector.Relay.Entities.{CreateContextResult, ContinueContextResult}
use tcp_redirector.KerberosAgent.Entities.{Response}

-- "AuthAgent not available".
abbrev pub not_available : List ℕ
not_available =
    b'A' ∷ b'u' ∷ b't' ∷ b'h' ∷ b'A' ∷ b'g' ∷ b'e' ∷ b'n' ∷ b't' ∷ b' ' ∷ b'n' ∷ b'o' ∷ b't' ∷ b' '
    ∷ b'a' ∷ b'v' ∷ b'a' ∷ b'i' ∷ b'l' ∷ b'a' ∷ b'b' ∷ b'l' ∷ b'e' ∷ []

-- " failed: ".
abbrev pub failed : List ℕ
failed = b' ' ∷ b'f' ∷ b'a' ∷ b'i' ∷ b'l' ∷ b'e' ∷ b'd' ∷ b':' ∷ b' ' ∷ []

-- "create_context failed: " and "continue_context failed: ", with the text of the exception.
abbrev pub create_failed : List ℕ → List ℕ
create_failed what =
    (b'c' ∷ b'r' ∷ b'e' ∷ b'a' ∷ b't' ∷ b'e' ∷ b'_' ∷ b'c' ∷ b'o' ∷ b'n' ∷ b't' ∷ b'e' ∷ b'x' ∷ b't'
      ∷ [])
    ++ failed
    ++ what

abbrev pub continue_failed : List ℕ → List ℕ
continue_failed what =
    (b'c' ∷ b'o' ∷ b'n' ∷ b't' ∷ b'i' ∷ b'n' ∷ b'u' ∷ b'e' ∷ b'_' ∷ b'c' ∷ b'o' ∷ b'n' ∷ b't' ∷ b'e'
      ∷ b'x' ∷ b't' ∷ [])
    ++ failed
    ++ what

-- A result with these fields; a field that the code has not set yet is zero.
abbrev pub created : Bool → ℕ → List ℕ → Bool → List ℕ → CreateContextResult
created success id token needs_continue message = record {
  success = success;
  context_id = id;
  token = token;
  needs_continue = needs_continue;
  error_message = message;
}

abbrev pub continued : Bool → List ℕ → Bool → List ℕ → ContinueContextResult
continued success token needs_continue message = record {
  success = success;
  token = token;
  needs_continue = needs_continue;
  error_message = message;
}

-- The body of the try block of CreateContext and its handler. `success` is set before the other fields are read.
unfoldable pub create_result : List ℕ → Option Response → CreateContextResult
create_result what none = created false 0 [] false (create_failed what)
create_result what (some r) =
    if r.contains_error
    then elim r.error_message [
      | none ↦ created false 0 [] false (create_failed what)
      | some message ↦ created false 0 [] false message
    ]
    else if r.is_object_or_null
    then elim r.context_id [
      | none ↦ created true 0 [] false (create_failed what)
      | some id ↦ elim r.token [
        | none ↦ created true id [] false (create_failed what)
        | some token ↦ elim r.needs_continue [
          | none ↦ created true id token false (create_failed what)
          | some c ↦ created true id token c []
        ]
      ]
    ]
    else created false 0 [] false (create_failed what)

unfoldable pub continue_result : List ℕ → Option Response → ContinueContextResult
continue_result what none = continued false [] false (continue_failed what)
continue_result what (some r) =
    if r.contains_error
    then elim r.error_message [
      | none ↦ continued false [] false (continue_failed what)
      | some message ↦ continued false [] false message
    ]
    else if r.is_object_or_null
    then elim r.token [
      | none ↦ continued true [] false (continue_failed what)
      | some token ↦ elim r.needs_continue [
        | none ↦ continued true token false (continue_failed what)
        | some c ↦ continued true token c []
      ]
    ]
    else continued false [] false (continue_failed what)
