-- ===== src/Base64/Tests.antt =====
-- The encoders on the bytes of `user`.
use tcp_redirector.Base64.Decoders.{config_decode, sspi_decode, agent_decode}
use tcp_redirector.Base64.Inverse.{decoders-relay_encode}
use tcp_redirector.Base64.{relay_encode, char_at}
use tcp_redirector.Prelude.{ℕ, ◌≡◌, ◌<◌, refl, List, [], ◌∷◌, All, arith}

abbrev user : List ℕ
user = 117 ∷ 115 ∷ 101 ∷ 114 ∷ []

-- `dXNlcg==`.
encoded_user : relay_encode user ≡ 100 ∷ 88 ∷ 78 ∷ 108 ∷ 99 ∷ 103 ∷ 61 ∷ 61 ∷ []
unfolding relay_encode char_at
encoded_user = refl

user_bytes : All (λ x. x < 256) user
user_bytes = (omega arith, (omega arith, (omega arith, (omega arith, tt))))

decoders-relay_encode_example :
    (config_decode (relay_encode user) ≡ user)
    × (sspi_decode (relay_encode user) ≡ user)
    × (agent_decode (relay_encode user) ≡ user)
decoders-relay_encode_example = decoders-relay_encode user user_bytes
