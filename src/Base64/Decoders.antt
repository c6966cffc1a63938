-- ===== src/Base64/Decoders.antt =====
-- The three Base64 decoders: of the stored password (infrastructure/config/ConfigManager.cpp), of the SSPI
-- code of the service (infrastructure/auth/auth_sspi.cpp) and of the authentication agent
-- (auth-agent/.../SspiEngine.cpp). The accumulator `val` is a 32-bit word that wraps around; `bits` is the
-- source's `valb + 8`.
use tcp_redirector.Base64.{pad}
use tcp_redirector.Prelude.{
  ℕ, ◌+◌, ◌-◌, ◌*◌, ◌/◌, ◌%◌, ◌^◌, Bool, false, ◌&&◌, List, [], ◌∷◌, ◌++◌, Option, none, some,
  get_or, leb, ◌==◌, replicate, if◌then◌else◌, u32_mod,
}

-- What one character adds: the new accumulator and number of bits, and a byte if there are eight.
abbrev pub pushed : ℕ → ℕ → ℕ
pushed val v = (val * 64 + v) % u32_mod

abbrev pub byte_of : ℕ → ℕ → ℕ
byte_of val bits = val / 2 ^ (bits - 8) % 256

-- The loop; `table` gives a character's value, or none if it is skipped, and `stop` ends the loop.
unfoldable pub decode_from : (ℕ → Option ℕ) → (ℕ → Bool) → ℕ → ℕ → List ℕ → List ℕ
decode_from table stop val bits [] = []
decode_from table stop val bits (c ∷ cs) = if stop c then [] else elim (table c) [
  | none ↦ decode_from table stop val bits cs
  | some v ↦
      let next = pushed val v in
      if leb 8 (bits + 6)
      then byte_of next (bits + 6) ∷ decode_from table stop next (bits + 6 - 8) cs
      else decode_from table stop next (bits + 6) cs
]

-- The table of ConfigManager, which is filled by ranges.
unfoldable pub config_value : ℕ → Option ℕ
config_value c =
    if leb 65 c && leb c 90
    then some (c - 65)
    else if leb 97 c && leb c 122
    then some (c - 97 + 26)
    else if leb 48 c && leb c 57
    then some (c - 48 + 52)
    else if c == 43
    then some 62
    else if c == 47
    then some 63
    else none

unfoldable pub config_decode : List ℕ → List ℕ
config_decode text = decode_from config_value (λ c. false) 0 0 text

-- The letters and digits as they stand in the other two tables, from the blank to the last entry.
abbrev pub rows : ℕ → List ℕ
rows bad =
    replicate 43 bad
    ++ (62 ∷ bad ∷ bad ∷ bad ∷ 63 ∷ 52 ∷ 53 ∷ 54 ∷ 55 ∷ 56 ∷ 57 ∷ 58 ∷ 59 ∷ 60 ∷ 61 ∷ bad ∷ bad
        ∷ bad ∷ bad ∷ bad ∷ bad ∷ bad ∷ 0 ∷ 1 ∷ 2 ∷ 3 ∷ 4 ∷ 5 ∷ 6 ∷ 7 ∷ 8 ∷ 9 ∷ 10 ∷ 11 ∷ 12 ∷ 13
        ∷ 14 ∷ 15 ∷ 16 ∷ 17 ∷ 18 ∷ 19 ∷ 20 ∷ 21 ∷ 22 ∷ 23 ∷ 24 ∷ 25 ∷ bad ∷ bad ∷ bad ∷ bad ∷ bad
        ∷ bad ∷ 26 ∷ 27 ∷ 28 ∷ 29 ∷ 30 ∷ 31 ∷ 32 ∷ 33 ∷ 34 ∷ 35 ∷ 36 ∷ 37 ∷ 38 ∷ 39 ∷ 40 ∷ 41 ∷ 42
        ∷ 43 ∷ 44 ∷ 45 ∷ 46 ∷ 47 ∷ 48 ∷ 49 ∷ 50 ∷ 51 ∷ bad ∷ bad ∷ bad ∷ bad ∷ bad ∷ [])

-- The table `D` of SspiBase64Decode: of its 256 entries the first 128 are given, and the others are 0.
unfoldable pub sspi_value : ℕ → Option ℕ
sspi_value c = let v = get_or (rows 255) c 0 in if v == 255 then none else some v

unfoldable pub sspi_decode : List ℕ → List ℕ
sspi_decode text = decode_from sspi_value (λ c. c == pad) 0 0 text

-- The table `kDecode` of the agent, of 128 entries.
unfoldable pub agent_value : ℕ → Option ℕ
agent_value c =
    let v = get_or (rows 64) c 64 in if leb 128 c then none else if v == 64 then none else some v

unfoldable pub agent_decode : List ℕ → List ℕ
agent_decode text = decode_from agent_value (λ c. false) 0 0 text
