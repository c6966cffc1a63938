-- ===== src/Relay/Bridge/Stream.antt =====
-- OneWayRelay: the bytes that come out are the bytes that went in.
use tcp_redirector.Prelude.{
  ℕ, zero, suc, ◌+◌, ◌≤◌, ◌<◌, ◌≡◌, ◌⊎◌, Bool, true, false, List, [], ◌∷◌, ◌++◌, none, some, length,
  take, drop, All, add64, u64_mod, arith, refl, inl, inr, Option-cases, ◌∙◌, sym, ap, append-nil,
  append_assoc, take-append-drop, length-drop, length-append,
}
use tcp_redirector.Relay.Bridge.{Send, send_all, relay_from, one_way_relay, Relayed, buffer_size}

-- `send` on a blocking socket takes at least one byte of a buffer that is not empty, and no more than it
-- holds.
abbrev pub Takes : Send → Type 0
Takes send =
    (before offered : List ℕ) (n : ℕ)
    → 0 < length offered
    → send before offered ≡ some n
    → (0 < n) × (n ≤ length offered)

unfoldable pub concat : List (List ℕ) → List ℕ
concat [] = []
concat (xs ∷ xss) = xs ++ concat xss

-- The bytes that a loop was to forward fall into those that it delivered and a rest, which is empty unless
-- `send` failed on it.
abbrev pub Part : Send → List ℕ → List ℕ → List ℕ → Bool → Type 0
Part send before bytes delivered ok =
    (sent : List ℕ) × (rest : List ℕ) × (delivered ≡ before ++ sent)
    × (bytes ≡ sent ++ rest)
    × (((ok ≡ true) × (rest ≡ []))
        ⊎ ((ok ≡ false)
            × ((last : List ℕ) × (more : List ℕ) × (rest ≡ last ++ more)
                × (0 < length last)
                × (send delivered last ≡ none))))

send_all-Part :
    (send : Send) (fuel : ℕ) (before chunk : List ℕ)
    → Takes send
    → length chunk < fuel
    → let r = send_all send fuel before chunk in Part send before chunk r.0 r.1
unfolding send_all
send_all-Part send zero before chunk law l = absurd (omega arith)
send_all-Part send (suc fuel) before [] law l =
    ([], [], sym (append-nil before), refl, inl (refl, refl))
send_all-Part send (suc fuel) before (c ∷ cs) law l = elim (Option-cases (send before (c ∷ cs))) [
  | inl e ↦
      rw (e, send_all)
        (
          [],
          c ∷ cs,
          sym (append-nil before),
          refl,
          inr (refl, (c ∷ cs, [], sym (append-nil (c ∷ cs)), omega arith, e)),
        )
  | inr (n, e) ↦
      let (some_taken, fits) = law before (c ∷ cs) n (omega arith) e in
      let head = take n (c ∷ cs) in
      let tail = drop n (c ∷ cs) in
      let (sent, rest, d, t, w) =
        send_all-Part send fuel (before ++ head) tail law (omega (arith, length-drop n (c ∷ cs))) in
      rw (e, send_all)
        (
          head ++ sent,
          rest,
          d ∙ append_assoc before head sent,
          sym (take-append-drop n (c ∷ cs))
              ∙ ap (λ xs. head ++ xs) t
              ∙ sym (append_assoc head sent rest),
          w,
        )
]

-- What counts and what was delivered: the counter misses at most the last buffer.
abbrev pub Counted : List ℕ → Relayed → Type 0
Counted bytes r =
    (r.total_bytes ≤ length r.delivered)
    × (length r.delivered ≤ r.total_bytes + buffer_size)
    × ((r.complete ≡ false) ⊎ (r.total_bytes ≡ length r.delivered))

abbrev pub Forwarded : Send → List ℕ → List ℕ → Relayed → Type 0
Forwarded send before bytes r = (Part send before bytes r.delivered r.complete) × (Counted bytes r)

unfoldable pub IsBuffer : List ℕ → Type 0
IsBuffer chunk = (0 < length chunk) × (length chunk ≤ buffer_size)

-- A buffer that was forwarded whole, and what came of the rest.
add_whole :
    (send : Send) (before chunk bytes delivered : List ℕ) (r : Relayed)
    → delivered ≡ before ++ chunk
    → Forwarded send delivered bytes r
    → Forwarded send before (chunk ++ bytes) r
add_whole send before chunk bytes delivered r d ((sent, rest, e, t, w), c) = (
  (
    chunk ++ sent,
    rest,
    e ∙ ap (λ xs. xs ++ sent) d ∙ append_assoc before chunk sent,
    ap (λ xs. chunk ++ xs) t ∙ sym (append_assoc chunk sent rest),
    w,
  ),
  c,
)

relay_from-Forwarded :
    (send : Send) (before : List ℕ) (total : ℕ) (chunks : List (List ℕ))
    → Takes send
    → All IsBuffer chunks
    → total ≡ length before
    → total + length (concat chunks) < u64_mod
    → Forwarded send before (concat chunks) (relay_from send before total chunks)
unfolding relay_from concat IsBuffer
relay_from-Forwarded send before total [] law h e l =
    (([], [], sym (append-nil before), refl, inl (refl, refl)), (omega arith, omega arith, inr e))
relay_from-Forwarded send before total (chunk ∷ chunks) law h e l =
    let r = send_all send (suc (length chunk)) before chunk in
    let (sent, rest, d, t, w) =
      send_all-Part send (suc (length chunk)) before chunk law (omega arith) in
    let both = length-append chunk (concat chunks) in
    let longer : length r.0 ≡ length before + length sent =
      ap length d ∙ length-append before sent in
    let split : length chunk ≡ length sent + length rest = ap length t ∙ length-append sent rest in
    elim w [
      | inl (ok, none_left) ↦
          let all : chunk ≡ sent = t ∙ ap (λ xs. sent ++ xs) none_left ∙ append-nil sent in
          let next : add64 total (length chunk) ≡ length r.0 =
            omega (arith, e, l, both, longer, split, ap length none_left) in
          let more =
            relay_from-Forwarded send r.0 (add64 total (length chunk)) chunks law h.1 next
              (omega (arith, next, longer, both, ap length all)) in
          rw (ok, relay_from)
            (add_whole send before chunk (concat chunks) r.0 _
              (d ∙ ap (λ xs. before ++ xs) (sym all)) more)
      | inr (failed, (last, more, left_over, pos, error)) ↦
          rw (failed, relay_from)
            (
              (
                sent,
                rest ++ concat chunks,
                d,
                ap (λ xs. xs ++ concat chunks) t ∙ append_assoc sent rest (concat chunks),
                inr (
                  refl,
                  (
                    last,
                    more ++ concat chunks,
                    ap (λ xs. xs ++ concat chunks) left_over
                        ∙ append_assoc last more (concat chunks),
                    pos,
                    error,
                  ),
                ),
              ),
              (omega arith, omega (arith, h.0, longer, split), inl refl),
            )
    ]

-- Let `send` take between one byte and all of what it is offered, or fail; let `recv` give buffers of 1 to
-- 131072 bytes, less than 2^64 in all. Then the bytes that one direction delivers are those that it
-- received, in order and without a gap, up to a rest that is empty unless `send` failed on it; the loop is
-- never left otherwise. Its counter adds no byte that was not delivered, and misses none unless `send`
-- failed, and then at most one buffer.
pub one_way_relay-Forwarded :
    (send : Send) (chunks : List (List ℕ))
    → Takes send
    → All IsBuffer chunks
    → length (concat chunks) < u64_mod
    → Forwarded send [] (concat chunks) (one_way_relay send chunks)
unfolding one_way_relay
one_way_relay-Forwarded send chunks law h l =
    relay_from-Forwarded send [] 0 chunks law h refl (omega arith)
