-- ===== src/Base64/Decoding.antt =====
-- TcpRelayServer.h: a decoder, as RFC 4648 describes it, gives back what `Base64Encode` was given.
use tcp_redirector.Prelude.{
  ℕ, zero, suc, ◌+◌, ◌-◌, ◌*◌, ◌/◌, ◌%◌, ◌<◌, ◌∙◌, ◌≡◌, ◌≢◌, refl, ap, Bool, true, false, not, ◌&&◌,
  List, [], ◌∷◌, All, leb, ◌==◌, ==_iff, if◌then◌else◌, arith, Bool-cases, inl, inr,
}
use tcp_redirector.Base64.{char_at, relay_encode, pad, bits}

-- The index of a character of the alphabet.
unfoldable pub value : ℕ → ℕ
value c =
    if leb 97 c
    then c - 71
    else if leb 65 c
    then c - 65
    else if leb 48 c
    then c + 4
    else if c == 43
    then 62
    else 63

-- Four characters to three bytes; the padding says how many of them there are.
unfoldable pub decode : List ℕ → List ℕ
unfolding value
decode [] = []
decode (a ∷ []) = []
decode (a ∷ b ∷ []) = []
decode (a ∷ b ∷ c ∷ []) = []
decode (a ∷ b ∷ c ∷ d ∷ rest) =
    let later = decode rest in
    let x = value a * 4 + value b / 16 in
    let y = value b % 16 * 16 + value c / 4 in
    let z = value c % 4 * 64 + value d in
    if c == pad then x ∷ [] else if d == pad then x ∷ y ∷ [] else x ∷ y ∷ z ∷ later

-- Every index below a bound is that of its character, which is not the padding.
agrees : ℕ → Bool
agrees zero = true
agrees (suc n) = ((value (char_at n) == n) && not (char_at n == pad)) && agrees n

agrees-64 : agrees 64 ≡ true
unfolding agrees char_at value
agrees-64 = refl

parts : (a b c : Bool) → ((a && not b) && c) ≡ true → (a ≡ true) × (b ≡ false) × (c ≡ true)
parts a b c h = (ground arith, ground arith, ground arith)

agrees-below :
    (n i : ℕ) → agrees n ≡ true → i < n → (value (char_at i) ≡ i) × ((char_at i == pad) ≡ false)
unfolding agrees
agrees-below zero i h lt = absurd (omega arith)
agrees-below (suc n) i h lt =
    let (own, no_pad, below) = parts (value (char_at n) == n) (char_at n == pad) (agrees n) h in
    elim (Bool-cases (i == n)) [
      | inl e ↦
          let same : i ≡ n = (==_iff i n).0 e in
          rw same ((==_iff (value (char_at n)) n).0 own, no_pad)
      | inr e ↦ agrees-below n i below (omega (arith, apart e, lt))
    ]
  where
    apart : (i == n) ≡ false → i ≢ n
    apart e = ground (arith, e)

char_at-Value : (i : ℕ) → i < 64 → (value (char_at i) ≡ i) × ((char_at i == pad) ≡ false)
char_at-Value i lt = agrees-below 64 i agrees-64 lt

-- One group of four, decoded.
decode-group :
    (i j k l : ℕ) (rest : List ℕ)
    → i < 64
    → j < 64
    → k < 64
    → l < 64
    → decode (char_at i ∷ char_at j ∷ char_at k ∷ char_at l ∷ rest)
      ≡ (i * 4 + j / 16) ∷ (j % 16 * 16 + k / 4) ∷ (k % 4 * 64 + l) ∷ decode rest
unfolding decode
decode-group i j k l rest a b c d =
    let (vi, _) = char_at-Value i a in
    let (vj, _) = char_at-Value j b in
    let (vk, pk) = char_at-Value k c in
    let (vl, pl) = char_at-Value l d in rw (pk, pl, vi, vj, vk, vl) refl

decode-one :
    (i j : ℕ)
    → i < 64
    → j < 64
    → decode (char_at i ∷ char_at j ∷ pad ∷ pad ∷ []) ≡ (i * 4 + j / 16) ∷ []
unfolding decode
decode-one i j a b = rw ((char_at-Value i a).0, (char_at-Value j b).0) refl

decode-two :
    (i j k : ℕ)
    → i < 64
    → j < 64
    → k < 64
    → decode (char_at i ∷ char_at j ∷ char_at k ∷ pad ∷ [])
      ≡ (i * 4 + j / 16) ∷ (j % 16 * 16 + k / 4) ∷ []
unfolding decode
decode-two i j k a b c =
    let (vk, pk) = char_at-Value k c in
    rw (pk, (char_at-Value i a).0, (char_at-Value j b).0, vk) refl

-- For bytes, the decoder gives back what the relay's encoder was given.
pub decode-relay_encode : (xs : List ℕ) → All (λ x. x < 256) xs → decode (relay_encode xs) ≡ xs
unfolding relay_encode
decode-relay_encode [] h = unfold decode in refl
decode-relay_encode (x ∷ []) h =
    let b = bits x 0 0 in
    let e : b / 262144 % 64 * 4 + b / 4096 % 64 / 16 ≡ x = omega (arith, h.0) in
    decode-one (b / 262144 % 64) (b / 4096 % 64) (omega arith) (omega arith) ∙ ap (λ t. t ∷ []) e
decode-relay_encode (x ∷ y ∷ []) h =
    let b = bits x y 0 in
    let e : b / 262144 % 64 * 4 + b / 4096 % 64 / 16 ≡ x = omega (arith, h.0, h.1.0) in
    let f : b / 4096 % 64 % 16 * 16 + b / 64 % 64 / 4 ≡ y = omega (arith, h.0, h.1.0) in
    decode-two (b / 262144 % 64) (b / 4096 % 64) (b / 64 % 64) (omega arith) (omega arith)
      (omega arith)
    ∙ rw (e, f) refl
decode-relay_encode (x ∷ y ∷ z ∷ rest) h =
    let b = bits x y z in
    let e : b / 262144 % 64 * 4 + b / 4096 % 64 / 16 ≡ x = omega (arith, h.0, h.1.0, h.1.1.0) in
    let f : b / 4096 % 64 % 16 * 16 + b / 64 % 64 / 4 ≡ y = omega (arith, h.0, h.1.0, h.1.1.0) in
    let g : b / 64 % 64 % 4 * 64 + b % 64 ≡ z = omega (arith, h.0, h.1.0, h.1.1.0) in
    decode-group (b / 262144 % 64) (b / 4096 % 64) (b / 64 % 64) (b % 64) (relay_encode rest)
      (omega arith) (omega arith) (omega arith) (omega arith)
    ∙ rw (e, f, g) (ap (λ t. x ∷ y ∷ z ∷ t) (decode-relay_encode rest h.1.1.1))
