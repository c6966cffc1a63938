-- ===== src/Base64/Inverse.antt =====
-- The Base64 decoders give back what the encoders were given.
use tcp_redirector.Base64.Decoders.{
  decode_from, pushed, byte_of, config_value, config_decode, sspi_value, sspi_decode, agent_value,
  agent_decode,
}
use tcp_redirector.Base64.{char_at, relay_encode, pad, bits}
use tcp_redirector.Prelude.{
  ℕ, zero, suc, ◌+◌, ◌-◌, ◌*◌, ◌/◌, ◌%◌, ◌<◌, ◌∙◌, ◌≡◌, ◌⊎◌, refl, ap, Bool, true, false, not, ◌&&◌,
  List, [], ◌∷◌, Option, none, some, All, leb, ◌==◌, ==_iff, if◌then◌else◌, arith, Bool-cases, inl,
  inr,
}

-- A table knows the alphabet below a bound, and the loop does not stop at it.
knows : (ℕ → Option ℕ) → (ℕ → Bool) → ℕ → Bool
knows table stop zero = true
knows table stop (suc n) =
    ((elim (table (char_at n)) [ none ↦ false | some v ↦ v == n ]) && not (stop (char_at n)))
    && knows table stop n

config-knows : knows config_value (λ c. false) 64 ≡ true
unfolding knows config_value char_at
config-knows = refl

sspi-knows : knows sspi_value (λ c. c == pad) 64 ≡ true
unfolding knows sspi_value char_at
sspi-knows = refl

agent-knows : knows agent_value (λ c. false) 64 ≡ true
unfolding knows agent_value char_at
agent-knows = refl

config_pad : config_value pad ≡ none
unfolding config_value
config_pad = refl

agent_pad : agent_value pad ≡ none
unfolding agent_value
agent_pad = refl

three_bytes :
    {a b c x y z : ℕ}
    → a ≡ x
    → b ≡ y
    → c ≡ z
    → (rest : List ℕ) → ◌≡◌ {A = List ℕ} (a ∷ b ∷ c ∷ rest) (x ∷ y ∷ z ∷ rest)
three_bytes e f g rest = rw (e, f, g) refl

two_bytes : {a b x y : ℕ} → a ≡ x → b ≡ y → ◌≡◌ {A = List ℕ} (a ∷ b ∷ []) (x ∷ y ∷ [])
two_bytes e f = rw (e, f) refl

module _ (table : ℕ → Option ℕ) (stop : ℕ → Bool) where
  parts : (a b c : Bool) → ((a && not b) && c) ≡ true → (a ≡ true) × (b ≡ false) × (c ≡ true)
  parts a b c h = (ground arith, ground arith, ground arith)

  known_value :
      (o : Option ℕ) (n : ℕ) → (elim o [ none ↦ false | some v ↦ v == n ]) ≡ true → o ≡ some n
  known_value none n h = cc
  known_value (some v) n h = ap (λ t. some t) ((==_iff v n).0 h)

  knows-below :
      (n i : ℕ)
      → knows table stop n ≡ true
      → i < n
      → (table (char_at i) ≡ some i) × (stop (char_at i) ≡ false)
  unfolding knows
  knows-below zero i h lt = absurd (omega arith)
  knows-below (suc n) i h lt =
      let (own, on, below) =
        parts (elim (table (char_at n)) [ none ↦ false | some v ↦ v == n ]) (stop (char_at n))
          (knows table stop n) h in
      elim (Bool-cases (i == n)) [
        | inl e ↦ rw ((==_iff i n).0 e) (known_value (table (char_at n)) n own, on)
        | inr e ↦ knows-below n i below (ground (arith, e, lt))
      ]

  module _ (all : knows table stop 64 ≡ true) where
    -- A character of the alphabet in the loop.
    character_lem :
        (val bits i : ℕ) (cs : List ℕ)
        → i < 64
        → decode_from table stop val bits (char_at i ∷ cs) ≡ (
            if leb 8 (bits + 6)
            then byte_of (pushed val i) (bits + 6)
              ∷ decode_from table stop (pushed val i) (bits + 6 - 8) cs
            else decode_from table stop (pushed val i) (bits + 6) cs)
    unfolding decode_from
    character_lem val bits i cs lt =
        let (t, s) = knows-below 64 i all lt in simp (t, s, decode_from) refl

    group_lem :
        (val i j k l : ℕ) (rest : List ℕ)
        → i < 64
        → j < 64
        → k < 64
        → l < 64
        → decode_from table stop val 0 (char_at i ∷ char_at j ∷ char_at k ∷ char_at l ∷ rest)
          ≡ (i * 4 + j / 16)
            ∷ (j % 16 * 16 + k / 4)
            ∷ (k % 4 * 64 + l)
            ∷ decode_from table stop (pushed (pushed (pushed (pushed val i) j) k) l) 0 rest
    group_lem val i j k l rest a b c d =
        let first : byte_of (pushed (pushed val i) j) 12 ≡ i * 4 + j / 16 = omega arith in
        let second : byte_of (pushed (pushed (pushed val i) j) k) 10 ≡ j % 16 * 16 + k / 4 =
          omega arith in
        let third : byte_of (pushed (pushed (pushed (pushed val i) j) k) l) 8 ≡ k % 4 * 64 + l =
          omega arith in
        let tail = decode_from table stop (pushed (pushed (pushed (pushed val i) j) k) l) 0 rest in
        character_lem val 0 i (char_at j ∷ char_at k ∷ char_at l ∷ rest) a
        ∙ character_lem (pushed val i) 6 j (char_at k ∷ char_at l ∷ rest) b
        ∙ ap (λ t. byte_of (pushed (pushed val i) j) 12 ∷ t)
            (character_lem (pushed (pushed val i) j) 4 k (char_at l ∷ rest) c
              ∙ ap (λ t. byte_of (pushed (pushed (pushed val i) j) k) 10 ∷ t)
                  (character_lem (pushed (pushed (pushed val i) j) k) 2 l rest d))
        ∙ three_bytes first second third tail

    module _ (pad_ends : (stop pad ≡ true) ⊎ ((stop pad ≡ false) × (table pad ≡ none))) where
      padding_lem : (val bits : ℕ) → decode_from table stop val bits (pad ∷ pad ∷ []) ≡ []
      unfolding decode_from
      padding_lem val bits = elim pad_ends [
        | inl s ↦ simp (s, decode_from) refl
        | inr (s, t) ↦ simp (s, t, decode_from) refl
      ]

      last_padding : (val bits : ℕ) → decode_from table stop val bits (pad ∷ []) ≡ []
      unfolding decode_from
      last_padding val bits = elim pad_ends [
        | inl s ↦ simp (s, decode_from) refl
        | inr (s, t) ↦ simp (s, t, decode_from) refl
      ]

      decode_from-relay_encode :
          (val : ℕ) (xs : List ℕ)
          → All (λ x. x < 256) xs
          → decode_from table stop val 0 (relay_encode xs) ≡ xs
      unfolding relay_encode
      decode_from-relay_encode val [] h = unfold decode_from in refl
      decode_from-relay_encode val (x ∷ []) h =
          let b = bits x 0 0 in
          let i = b / 262144 % 64 in
          let j = b / 4096 % 64 in
          let e : byte_of (pushed (pushed val i) j) 12 ≡ x = omega (arith, h.0) in
          character_lem val 0 i (char_at j ∷ pad ∷ pad ∷ []) (omega arith)
          ∙ character_lem (pushed val i) 6 j (pad ∷ pad ∷ []) (omega arith)
          ∙ ap (λ t. byte_of (pushed (pushed val i) j) 12 ∷ t)
              (padding_lem (pushed (pushed val i) j) 4)
          ∙ ap (λ t. t ∷ []) e
      decode_from-relay_encode val (x ∷ y ∷ []) h =
          let b = bits x y 0 in
          let i = b / 262144 % 64 in
          let j = b / 4096 % 64 in
          let k = b / 64 % 64 in
          let e : byte_of (pushed (pushed val i) j) 12 ≡ x = omega (arith, h.0, h.1.0) in
          let f : byte_of (pushed (pushed (pushed val i) j) k) 10 ≡ y = omega (arith, h.0, h.1.0) in
          character_lem val 0 i (char_at j ∷ char_at k ∷ pad ∷ []) (omega arith)
          ∙ character_lem (pushed val i) 6 j (char_at k ∷ pad ∷ []) (omega arith)
          ∙ ap (λ t. byte_of (pushed (pushed val i) j) 12 ∷ t)
              (character_lem (pushed (pushed val i) j) 4 k (pad ∷ []) (omega arith)
                ∙ ap (λ t. byte_of (pushed (pushed (pushed val i) j) k) 10 ∷ t)
                    (last_padding (pushed (pushed (pushed val i) j) k) 2))
          ∙ two_bytes e f
      decode_from-relay_encode val (x ∷ y ∷ z ∷ rest) h =
          let b = bits x y z in
          let i = b / 262144 % 64 in
          let j = b / 4096 % 64 in
          let k = b / 64 % 64 in
          let l = b % 64 in
          let e : i * 4 + j / 16 ≡ x = omega (arith, h.0, h.1.0, h.1.1.0) in
          let f : j % 16 * 16 + k / 4 ≡ y = omega (arith, h.0, h.1.0, h.1.1.0) in
          let g : k % 4 * 64 + l ≡ z = omega (arith, h.0, h.1.0, h.1.1.0) in
          let next = pushed (pushed (pushed (pushed val i) j) k) l in
          group_lem val i j k l (relay_encode rest) (omega arith) (omega arith) (omega arith)
            (omega arith)
          ∙ three_bytes e f g (decode_from table stop next 0 (relay_encode rest))
          ∙ ap (λ t. x ∷ y ∷ z ∷ t) (decode_from-relay_encode next rest h.1.1.1)

-- Each of the three decoders gives back the bytes that the encoder was given, although the accumulator
-- wraps around and keeps bits of all earlier characters.
pub decoders-relay_encode :
    (xs : List ℕ)
    → All (λ x. x < 256) xs
    → (config_decode (relay_encode xs) ≡ xs)
      × (sspi_decode (relay_encode xs) ≡ xs)
      × (agent_decode (relay_encode xs) ≡ xs)
unfolding config_decode sspi_decode agent_decode
decoders-relay_encode xs h = (
  decode_from-relay_encode config_value (λ c. false) config-knows (inr (refl, config_pad)) 0 xs h,
  decode_from-relay_encode sspi_value (λ c. c == pad) sspi-knows (inl refl) 0 xs h,
  decode_from-relay_encode agent_value (λ c. false) agent-knows (inr (refl, agent_pad)) 0 xs h,
)
