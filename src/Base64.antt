-- ===== src/Base64.antt =====
-- The two Base64 encoders of the service: of the relay (infrastructure/relay/TcpRelayServer.h) and of the
-- Basic authentication (infrastructure/auth/BasicAuthenticationProvider.cpp). Texts are lists of bytes.
pub mod Agreement
pub mod Decoding
pub mod Decoders
pub mod Inverse
pub mod Stored
mod Tests
use tcp_redirector.Prelude.{ℕ, ◌+◌, ◌*◌, ◌/◌, ◌%◌, List, [], ◌∷◌, get_or}

-- The characters of both tables.
abbrev pub alphabet : List ℕ
alphabet =
    65 ∷ 66 ∷ 67 ∷ 68 ∷ 69 ∷ 70 ∷ 71 ∷ 72 ∷ 73 ∷ 74 ∷ 75 ∷ 76 ∷ 77 ∷ 78 ∷ 79 ∷ 80 ∷ 81 ∷ 82 ∷ 83
    ∷ 84 ∷ 85 ∷ 86 ∷ 87 ∷ 88 ∷ 89 ∷ 90 ∷ 97 ∷ 98 ∷ 99 ∷ 100 ∷ 101 ∷ 102 ∷ 103 ∷ 104 ∷ 105 ∷ 106
    ∷ 107 ∷ 108 ∷ 109 ∷ 110 ∷ 111 ∷ 112 ∷ 113 ∷ 114 ∷ 115 ∷ 116 ∷ 117 ∷ 118 ∷ 119 ∷ 120 ∷ 121 ∷ 122
    ∷ 48 ∷ 49 ∷ 50 ∷ 51 ∷ 52 ∷ 53 ∷ 54 ∷ 55 ∷ 56 ∷ 57 ∷ 43 ∷ 47 ∷ []

unfoldable pub char_at : ℕ → ℕ
char_at i = get_or alphabet i 0

-- `'='`.
abbrev pub pad : ℕ
pad = 61

-- `(b >> 18) & 0x3F` and so on of the 24 bits of three bytes, which the relay puts together by shifts.
abbrev pub bits : ℕ → ℕ → ℕ → ℕ
bits x y z = x * 65536 + y * 256 + z

-- `Base64Encode` of the relay, three bytes at a time.
unfoldable pub relay_encode : List ℕ → List ℕ
unfolding char_at
relay_encode [] = []
relay_encode (x ∷ []) =
    let b = bits x 0 0 in char_at (b / 262144 % 64) ∷ char_at (b / 4096 % 64) ∷ pad ∷ pad ∷ []
relay_encode (x ∷ y ∷ []) =
    let b = bits x y 0 in
    char_at (b / 262144 % 64) ∷ char_at (b / 4096 % 64) ∷ char_at (b / 64 % 64) ∷ pad ∷ []
relay_encode (x ∷ y ∷ z ∷ rest) =
    let b = bits x y z in
    char_at (b / 262144 % 64)
    ∷ char_at (b / 4096 % 64)
    ∷ char_at (b / 64 % 64)
    ∷ char_at (b % 64)
    ∷ relay_encode rest

-- The indices that the Basic provider takes of its array `a3`.
abbrev pub first_index : ℕ → ℕ
first_index a = a / 4 % 64

abbrev pub second_index : ℕ → ℕ → ℕ
second_index a b = a % 4 * 16 + b / 16 % 16

abbrev pub third_index : ℕ → ℕ → ℕ
third_index b c = b % 16 * 4 + c / 64 % 4

-- The bytes after the last full group, filled up with zeros.
unfoldable pub finish : List ℕ → List ℕ
unfolding char_at
finish [] = []
finish (a ∷ []) = char_at (first_index a) ∷ char_at (second_index a 0) ∷ pad ∷ pad ∷ []
finish (a ∷ b ∷ more) =
    char_at (first_index a) ∷ char_at (second_index a b) ∷ char_at (third_index b 0) ∷ pad ∷ []

-- The loop over the bytes, with the ones that stand in `a3`.
unfoldable pub gather : List ℕ → List ℕ → List ℕ
unfolding finish char_at
gather held [] = finish held
gather [] (c ∷ cs) = gather (c ∷ []) cs
gather (a ∷ []) (c ∷ cs) = gather (a ∷ c ∷ []) cs
gather (a ∷ b ∷ more) (c ∷ cs) =
    char_at (first_index a)
    ∷ char_at (second_index a b)
    ∷ char_at (third_index b c)
    ∷ char_at (c % 64)
    ∷ gather [] cs

unfoldable pub basic_encode : List ℕ → List ℕ
unfolding gather
basic_encode input = gather [] input
