-- ===== src/Relay/Replies.antt =====
-- The texts of the CONNECT dialogue: what TcpRelayServer.h looks for in a proxy's reply, and
-- Parse407Challenge of infrastructure/auth/auth_sspi.cpp. A reply is the bytes of one `recv`.
use tcp_redirector.Prelude.{
  ℕ, zero, suc, ◌+◌, ◌/◌, ◌%◌, Bool, ◌&&◌, ◌||◌, List, [], ◌∷◌, ◌++◌, Option, none, some, take,
  drop, length, get_or, ltb, leb, ◌==◌, if◌then◌else◌, text_eq, starts_with, contains,
}

-- `"HTTP/1."`.
abbrev pub http_1 : List ℕ
http_1 = b'H' ∷ b'T' ∷ b'T' ∷ b'P' ∷ b'/' ∷ b'1' ∷ b'.' ∷ []

-- The test of the status line for 200.
unfoldable pub is_connected : List ℕ → Bool
unfolding text_eq
is_connected reply =
    leb 12 (length reply)
    && text_eq (take 7 reply) http_1
    && get_or reply 8 0 == b' '
    && get_or reply 9 0 == b'2'
    && get_or reply 10 0 == b'0'
    && get_or reply 11 0 == b'0'

-- What C reads of a buffer that is closed with a NUL.
unfoldable pub until_nul : List ℕ → List ℕ
until_nul [] = []
until_nul (c ∷ cs) = let rest = until_nul cs in if c == 0 then [] else c ∷ rest

-- `strstr(resp_buf, "407") != nullptr`.
unfoldable pub demands_auth : List ℕ → Bool
unfolding until_nul contains
demands_auth reply = contains (b'4' ∷ b'0' ∷ b'7' ∷ []) (until_nul reply)

unfoldable pub is_gateway_error : List ℕ → Bool
unfolding contains
is_gateway_error reply =
    contains (b'5' ∷ b'0' ∷ b'4' ∷ []) reply || contains (b'5' ∷ b'0' ∷ b'2' ∷ []) reply

abbrev pub markers : List (List ℕ)
markers =
    (b'P' ∷ b'r' ∷ b'o' ∷ b'x' ∷ b'y' ∷ b'-' ∷ b'A' ∷ b'u' ∷ b't' ∷ b'h' ∷ b'e' ∷ b'n' ∷ b't' ∷ b'i'
      ∷ b'c' ∷ b'a' ∷ b't' ∷ b'e' ∷ b':' ∷ b' ' ∷ b'N' ∷ b'e' ∷ b'g' ∷ b'o' ∷ b't' ∷ b'i' ∷ b'a'
      ∷ b't' ∷ b'e' ∷ b' ' ∷ [])
    ∷ (b'p' ∷ b'r' ∷ b'o' ∷ b'x' ∷ b'y' ∷ b'-' ∷ b'a' ∷ b'u' ∷ b't' ∷ b'h' ∷ b'e' ∷ b'n' ∷ b't'
        ∷ b'i' ∷ b'c' ∷ b'a' ∷ b't' ∷ b'e' ∷ b':' ∷ b' ' ∷ b'n' ∷ b'e' ∷ b'g' ∷ b'o' ∷ b't' ∷ b'i'
        ∷ b'a' ∷ b't' ∷ b'e' ∷ b' ' ∷ [])
    ∷ (b'P' ∷ b'r' ∷ b'o' ∷ b'x' ∷ b'y' ∷ b'-' ∷ b'A' ∷ b'u' ∷ b't' ∷ b'h' ∷ b'e' ∷ b'n' ∷ b't'
        ∷ b'i' ∷ b'c' ∷ b'a' ∷ b't' ∷ b'e' ∷ b':' ∷ b' ' ∷ b'n' ∷ b'e' ∷ b'g' ∷ b'o' ∷ b't' ∷ b'i'
        ∷ b'a' ∷ b't' ∷ b'e' ∷ b' ' ∷ [])
    ∷ (b'p' ∷ b'r' ∷ b'o' ∷ b'x' ∷ b'y' ∷ b'-' ∷ b'a' ∷ b'u' ∷ b't' ∷ b'h' ∷ b'e' ∷ b'n' ∷ b't'
        ∷ b'i' ∷ b'c' ∷ b'a' ∷ b't' ∷ b'e' ∷ b':' ∷ b' ' ∷ b'N' ∷ b'e' ∷ b'g' ∷ b'o' ∷ b't' ∷ b'i'
        ∷ b'a' ∷ b't' ∷ b'e' ∷ b' ' ∷ [])
    ∷ []

-- What follows the first place where a text stands in another.
unfoldable pub after? : List ℕ → List ℕ → Option (List ℕ)
unfolding starts_with
after? marker [] = if starts_with marker [] then some [] else none
after? marker (c ∷ cs) =
    let later = after? marker cs in
    if starts_with marker (c ∷ cs) then some (drop (length marker) (c ∷ cs)) else later

-- The text up to `find_first_of("\r\n")`.
unfoldable pub line_of : List ℕ → List ℕ
line_of [] = []
line_of (c ∷ cs) = let rest = line_of cs in if c == 13 || c == 10 then [] else c ∷ rest

-- Without the blanks and carriage returns at the end.
unfoldable pub trim_end : List ℕ → List ℕ
trim_end [] = []
trim_end (c ∷ cs) = elim (trim_end cs) [
  | [] ↦ if c == b' ' || c == 13 then [] else c ∷ []
  | d ∷ ds ↦ c ∷ d ∷ ds
]

unfoldable pub find_challenge : List (List ℕ) → List ℕ → List ℕ
unfolding after? line_of trim_end
find_challenge [] body = []
find_challenge (marker ∷ ms) body = elim (after? marker body) [
  | none ↦ find_challenge ms body
  | some rest ↦ trim_end (line_of rest)
]

unfoldable pub parse_407_challenge : List ℕ → List ℕ
unfolding find_challenge
parse_407_challenge body = find_challenge markers body

-- `std::to_string`; twenty digits hold a 64-bit word.
unfoldable pub digits : ℕ → ℕ → List ℕ
digits zero n = []
digits (suc f) n =
    let high = digits f (n / 10) in if ltb n 10 then (48 + n) ∷ [] else high ++ (48 + n % 10) ∷ []

unfoldable pub to_string : ℕ → List ℕ
unfolding digits
to_string n = digits 20 n
