-- ===== src/Base64/Agreement.antt =====
-- The encoders of TcpRelayServer.h and BasicAuthenticationProvider.cpp give the same text.
use tcp_redirector.Prelude.{
  ℕ, ◌+◌, ◌*◌, ◌/◌, ◌%◌, ◌<◌, ◌≡◌, refl, List, [], ◌∷◌, All, length, arith,
}
use tcp_redirector.Base64.{
  relay_encode, basic_encode, gather, finish, bits, first_index, second_index, third_index,
}

-- For bytes, the two encoders give the same text.
pub basic_encode-relay_encode :
    (xs : List ℕ) → All (λ x. x < 256) xs → basic_encode xs ≡ relay_encode xs
unfolding basic_encode gather finish relay_encode
basic_encode-relay_encode [] h = refl
basic_encode-relay_encode (x ∷ []) h =
    let e : first_index x ≡ bits x 0 0 / 262144 % 64 = omega (arith, h.0) in
    let f : second_index x 0 ≡ bits x 0 0 / 4096 % 64 = omega (arith, h.0) in rw (e, f) refl
basic_encode-relay_encode (x ∷ y ∷ []) h =
    let e : first_index x ≡ bits x y 0 / 262144 % 64 = omega (arith, h.0, h.1.0) in
    let f : second_index x y ≡ bits x y 0 / 4096 % 64 = omega (arith, h.0, h.1.0) in
    let g : third_index y 0 ≡ bits x y 0 / 64 % 64 = omega (arith, h.0, h.1.0) in rw (e, f, g) refl
basic_encode-relay_encode (x ∷ y ∷ z ∷ rest) h =
    let e : first_index x ≡ bits x y z / 262144 % 64 = omega (arith, h.0, h.1.0, h.1.1.0) in
    let f : second_index x y ≡ bits x y z / 4096 % 64 = omega (arith, h.0, h.1.0, h.1.1.0) in
    let g : third_index y z ≡ bits x y z / 64 % 64 = omega (arith, h.0, h.1.0, h.1.1.0) in
    let k : z % 64 ≡ bits x y z % 64 = omega (arith, h.0, h.1.0, h.1.1.0) in
    rw (e, f, g, k) (rw (basic_encode-relay_encode rest h.1.1.1) refl)

-- The text has four characters for every three bytes that are begun, as many as the encoders reserve.
pub length-relay_encode : (xs : List ℕ) → length (relay_encode xs) ≡ (length xs + 2) / 3 * 4
unfolding relay_encode
length-relay_encode [] = refl
length-relay_encode (x ∷ []) = refl
length-relay_encode (x ∷ y ∷ []) = refl
length-relay_encode (x ∷ y ∷ z ∷ rest) = omega (arith, length-relay_encode rest)
