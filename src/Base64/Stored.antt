-- ===== src/Base64/Stored.antt =====
-- `Base64Encode` of the stored password (infrastructure/config/ConfigManager.cpp), and how it agrees with the
-- other encoders and with its decoder.
use tcp_redirector.Base64.Agreement.{basic_encode-relay_encode}
use tcp_redirector.Base64.Decoders.{config_decode, sspi_value, agent_value, config_value, rows}
use tcp_redirector.Base64.Inverse.{decoders-relay_encode}
use tcp_redirector.Base64.{
  relay_encode, basic_encode, gather, finish, char_at, pad, first_index, second_index, third_index,
}
use tcp_redirector.Prelude.{
  ℕ, zero, suc, ◌+◌, ◌-◌, ◌%◌, ◌<◌, ◌≤◌, ◌≡◌, refl, ap, ◌∙◌, List, [], ◌∷◌, ◌++◌, map, take,
  replicate, length, get_or, none, some, All, arith,
}

-- The bytes left over, `c3` filled up with zeros: one character more than there are bytes, then the padding.
unfoldable pub stored_rest : List ℕ → List ℕ
stored_rest held =
    let a = get_or held 0 0 in
    let b = get_or held 1 0 in
    let c = get_or held 2 0 in
    take (length held + 1) (map char_at (first_index a ∷ second_index a b ∷ third_index b c ∷ []))
    ++ replicate (3 - length held) pad

-- The loop over the bytes, with the ones that stand in `c3`.
unfoldable pub stored_from : List ℕ → List ℕ → List ℕ
stored_from [] [] = []
stored_from (a ∷ more) [] = stored_rest (a ∷ more)
stored_from [] (x ∷ xs) = stored_from (x ∷ []) xs
stored_from (a ∷ []) (x ∷ xs) = stored_from (a ∷ x ∷ []) xs
stored_from (a ∷ b ∷ more) (x ∷ xs) =
    char_at (first_index a)
    ∷ char_at (second_index a b)
    ∷ char_at (third_index b x)
    ∷ char_at (x % 64)
    ∷ stored_from [] xs

unfoldable pub config_encode : List ℕ → List ℕ
config_encode input = stored_from [] input

stored_from-gather : (xs : List ℕ) → stored_from [] xs ≡ gather [] xs
unfolding stored_from stored_rest gather finish
stored_from-gather [] = refl
stored_from-gather (x ∷ []) = refl
stored_from-gather (x ∷ y ∷ []) = refl
stored_from-gather (x ∷ y ∷ z ∷ rest) = rw (stored_from-gather rest) refl

-- For bytes, the encoders of the relay, of the Basic provider and of the stored password give the same text.
pub encoders_agree :
    (xs : List ℕ)
    → All (λ x. x < 256) xs
    → (basic_encode xs ≡ relay_encode xs) × (config_encode xs ≡ relay_encode xs)
encoders_agree xs h =
    let basic = basic_encode-relay_encode xs h in
    (
      basic,
      unfold config_encode basic_encode in stored_from-gather xs ∙ (unfold basic_encode in basic),
    )

-- The bytes of a stored password are read back as they were written.
pub config_decode-config_encode :
    (xs : List ℕ) → All (λ x. x < 256) xs → config_decode (config_encode xs) ≡ xs
config_decode-config_encode xs h =
    ap config_decode (encoders_agree xs h).1 ∙ (decoders-relay_encode xs h).0

get_or-beyond : (xs : List ℕ) (i d : ℕ) → length xs ≤ i → get_or xs i d ≡ d
get_or-beyond [] i d l = refl
get_or-beyond (x ∷ xs) zero d l = absurd (omega arith)
get_or-beyond (x ∷ xs) (suc i) d l = get_or-beyond xs i d (omega arith)

-- A byte above 127 is skipped by the decoders of the stored password and of the agent; SspiBase64Decode
-- takes it for the letter A.
pub high_bytes :
    (c : ℕ) → 128 ≤ c → (config_value c ≡ none) × (agent_value c ≡ none) × (sspi_value c ≡ some 0)
unfolding config_value agent_value sspi_value
high_bytes c l = (ground arith, ground arith, rw (get_or-beyond (rows 255) c 0 l) refl)
