-- ===== src/Stats/Extreme.antt =====
-- StatsCollector.cpp: what the smallest and the largest size are when the loops of OnPacket are over.
use mathlib.Core.Path.{subst}
use tcp_redirector.Stats.Loop.{
  Worker, waiting, expecting, done, size_of, better, advance, advance_at, run, sizes, IsAmong,
  IsDone, NoneBetter, in_turn,
}
use tcp_redirector.Stats.{PacketInfo, StatsCollector, on_packet}
use tcp_redirector.Prelude.{
  ℕ, zero, suc, length, ◌≡◌, ◌⊎◌, Bool, true, false, not, ◌&&◌, List, [], ◌∷◌, All, All-map, ◌==◌,
  arith, refl, inl, inr, map, ap, ◌∙◌, sym, Bool-cases,
}

-- What a thread knows of the atomic: the value that it expects, or the size that it is done with, is not
-- better than the value.
unfoldable Knows : Bool → ℕ → Worker → Type 0
Knows lowest cell (waiting size) = Unit
Knows lowest cell (expecting size expected) = better lowest expected cell ≡ false
Knows lowest cell (done size) = better lowest size cell ≡ false

better_trans :
    (lowest : Bool) (x cell new : ℕ)
    → better lowest x cell ≡ false
    → better lowest new cell ≡ true
    → better lowest x new ≡ false
unfolding better
better_trans true x cell new h k = ground arith
better_trans false x cell new h k = ground arith

not_better_trans :
    (lowest : Bool) (x y z : ℕ)
    → better lowest x y ≡ false
    → better lowest y z ≡ false
    → better lowest x z ≡ false
unfolding better
not_better_trans true x y z h k = ground arith
not_better_trans false x y z h k = ground arith

better_refl : (lowest : Bool) (x : ℕ) → better lowest x x ≡ false
unfolding better
better_refl true x = ground arith
better_refl false x = ground arith

-- The atomic only gets better, and what the threads know stays true.
Improves : Bool → ℕ → ℕ → Type 0
Improves lowest cell new = (new ≡ cell) ⊎ (better lowest new cell ≡ true)

Knows-Improves :
    (lowest : Bool) (cell new : ℕ) (w : Worker)
    → Improves lowest cell new
    → Knows lowest cell w
    → Knows lowest new w
unfolding Knows Improves
Knows-Improves lowest cell new (waiting size) i k = tt
Knows-Improves lowest cell new (expecting size expected) (inl e) k = rw e k
Knows-Improves lowest cell new (expecting size expected) (inr b) k =
    better_trans lowest expected cell new k b
Knows-Improves lowest cell new (done size) (inl e) k = rw e k
Knows-Improves lowest cell new (done size) (inr b) k = better_trans lowest size cell new k b

advance-Knows :
    (lowest spurious : Bool) (cell : ℕ) (w : Worker)
    → Knows lowest cell w
    → let r = advance lowest spurious cell w in Improves lowest cell r.0 × Knows lowest r.0 r.1
unfolding advance Knows Improves
advance-Knows lowest spurious cell (waiting size) k = (inl refl, better_refl lowest cell)
advance-Knows lowest spurious cell (expecting size expected) k =
    elim (Bool-cases (better lowest size expected)) [
      | inr e ↦ rw e (inl refl, not_better_trans lowest size expected cell e k)
      | inl e ↦ rw e (elim (Bool-cases (not spurious && cell == expected)) [
        | inr f ↦ rw f (inl refl, better_refl lowest cell)
        | inl f ↦
            let same : expected ≡ cell = ground arith in
            rw f (inr (ap (better lowest size) (sym same) ∙ e), better_refl lowest size)
      ])
    ]
advance-Knows lowest spurious cell (done size) k = (inl refl, k)

advance_at-Knows :
    (lowest spurious : Bool) (cell i : ℕ) (ws : List Worker)
    → All (Knows lowest cell) ws
    → let r = advance_at lowest spurious cell i ws in
      Improves lowest cell r.0 × All (Knows lowest r.0) r.1
unfolding advance_at Improves
advance_at-Knows lowest spurious cell i [] h = (inl refl, tt)
advance_at-Knows lowest spurious cell zero (w ∷ ws) h =
    let (better_now, own) = advance-Knows lowest spurious cell w h.0 in
    let new = (advance lowest spurious cell w).0 in
    (
      better_now,
      (
        own,
        All-map (Knows lowest cell) (Knows lowest new)
            (λ x k. Knows-Improves lowest cell new x better_now k) ws h.1,
      ),
    )
advance_at-Knows lowest spurious cell (suc i) (w ∷ ws) h =
    let (better_now, others) = advance_at-Knows lowest spurious cell i ws h.1 in
    (
      better_now,
      (
        Knows-Improves lowest cell (advance_at lowest spurious cell i ws).0 w better_now h.0,
        others,
      ),
    )

run-Knows :
    (lowest : Bool) (turns : List (ℕ × Bool)) (cell : ℕ) (ws : List Worker)
    → All (Knows lowest cell) ws
    → let r = run lowest turns (cell, ws) in All (Knows lowest r.0) r.1
unfolding run
run-Knows lowest [] cell ws h = h
run-Knows lowest ((i, spurious) ∷ turns) cell ws h =
    run-Knows lowest turns (advance_at lowest spurious cell i ws).0
      (advance_at lowest spurious cell i ws).1 (advance_at-Knows lowest spurious cell i ws h).1

advance-size :
    (lowest spurious : Bool) (cell : ℕ) (w : Worker)
    → let r = advance lowest spurious cell w in
      (size_of r.1 ≡ size_of w) × ((r.0 ≡ cell) ⊎ (r.0 ≡ size_of w))
unfolding advance
advance-size lowest spurious cell (waiting size) = (refl, inl refl)
advance-size lowest spurious cell (expecting size expected) = ground arith
advance-size lowest spurious cell (done size) = (refl, inl refl)

advance_at-sizes :
    (lowest spurious : Bool) (cell i : ℕ) (ws : List Worker)
    → let r = advance_at lowest spurious cell i ws in
      (sizes r.1 ≡ sizes ws) × ((r.0 ≡ cell) ⊎ IsAmong r.0 (sizes ws))
unfolding advance_at IsAmong
advance_at-sizes lowest spurious cell i [] = (refl, inl refl)
advance_at-sizes lowest spurious cell zero (w ∷ ws) =
    let (same, from) = advance-size lowest spurious cell w in
    (ap (λ n. n ∷ sizes ws) same, elim from [ inl e ↦ inl e | inr e ↦ inr (inl e) ])
advance_at-sizes lowest spurious cell (suc i) (w ∷ ws) =
    let (same, from) = advance_at-sizes lowest spurious cell i ws in
    (ap (λ t. size_of w ∷ t) same, elim from [ inl e ↦ inl e | inr m ↦ inr (inr m) ])

run-sizes :
    (lowest : Bool) (turns : List (ℕ × Bool)) (cell : ℕ) (ws : List Worker)
    → let r = run lowest turns (cell, ws) in
      (sizes r.1 ≡ sizes ws) × ((r.0 ≡ cell) ⊎ IsAmong r.0 (sizes ws))
unfolding run
run-sizes lowest [] cell ws = (refl, inl refl)
run-sizes lowest ((i, spurious) ∷ turns) cell ws =
    let new = (advance_at lowest spurious cell i ws).0 in
    let next = (advance_at lowest spurious cell i ws).1 in
    let (same, from) = advance_at-sizes lowest spurious cell i ws in
    let (later, last) = run-sizes lowest turns new next in
    (
      later ∙ same,
      elim last [
        | inl e ↦ elim from [
          | inl f ↦ inl (e ∙ f)
          | inr m ↦ inr (subst (λ n. IsAmong n (sizes ws)) (sym e) m)
        ]
        | inr m ↦ inr (subst (λ xs. IsAmong (run lowest turns (new, next)).0 xs) same m)
      ],
    )

fresh-Knows : (lowest : Bool) (cell : ℕ) (xs : List ℕ) → All (Knows lowest cell) (map waiting xs)
unfolding Knows
fresh-Knows lowest cell [] = tt
fresh-Knows lowest cell (x ∷ xs) = (tt, fresh-Knows lowest cell xs)

fresh-sizes : (xs : List ℕ) → sizes (map waiting xs) ≡ xs
fresh-sizes [] = refl
fresh-sizes (x ∷ xs) = ap (λ t. x ∷ t) (fresh-sizes xs)

done-NoneBetter :
    (lowest : Bool) (cell : ℕ) (ws : List Worker)
    → All (Knows lowest cell) ws
    → All IsDone ws
    → NoneBetter lowest cell (sizes ws)
unfolding Knows IsDone NoneBetter
done-NoneBetter lowest cell [] k d = tt
done-NoneBetter lowest cell (waiting size ∷ ws) k d = elim d.0 [ ]
done-NoneBetter lowest cell (expecting size expected ∷ ws) k d = elim d.0 [ ]
done-NoneBetter lowest cell (done size ∷ ws) k d = (k.0, done-NoneBetter lowest cell ws k.1 d.1)

-- Whatever the order of the steps of the threads and whichever exchanges fail spuriously: when every thread is
-- done, the atomic holds its first value or one of their sizes, and none of their sizes is better than it.
-- `lowest` chooses the loop of the smallest size or that of the largest.
pub run_best :
    (lowest : Bool) (turns : List (ℕ × Bool)) (cell : ℕ) (xs : List ℕ)
    → All IsDone (run lowest turns (cell, map waiting xs)).1
    → let last = (run lowest turns (cell, map waiting xs)).0 in
      ((last ≡ cell) ⊎ IsAmong last xs) × NoneBetter lowest last xs
run_best lowest turns cell xs d =
    let r = run lowest turns (cell, map waiting xs) in
    let (same, from) = run-sizes lowest turns cell (map waiting xs) in
    let fresh = fresh-sizes xs in
    (
      elim from [ inl e ↦ inl e | inr m ↦ inr (subst (λ ys. IsAmong r.0 ys) fresh m) ],
      subst (λ ys. NoneBetter lowest r.0 ys) (same ∙ fresh)
          (done-NoneBetter lowest r.0 r.1
            (run-Knows lowest turns cell (map waiting xs) (fresh-Knows lowest cell xs)) d),
    )

fresh_turn :
    (lowest : Bool) (cell size : ℕ) → IsDone (advance lowest false cell (expecting size cell)).1
unfolding advance IsDone
fresh_turn lowest cell size = elim (Bool-cases (better lowest size cell)) [
  | inr e ↦ rw e tt
  | inl e ↦ rw e (ground arith)
]

two_turns :
    (lowest : Bool) (cell : ℕ) (w : Worker)
    → let r = advance lowest false cell w in IsDone (advance lowest false r.0 r.1).1
unfolding advance IsDone
two_turns lowest cell (done size) = tt
two_turns lowest cell (waiting size) = fresh_turn lowest cell size
two_turns lowest cell (expecting size expected) = elim (Bool-cases (better lowest size expected)) [
  | inr e ↦ rw e tt
  | inl e ↦ rw e (elim (Bool-cases (cell == expected)) [
    | inr f ↦ rw f (fresh_turn lowest cell size)
    | inl f ↦ rw f tt
  ])
]

run_shift :
    (lowest : Bool) (turns : List (ℕ × Bool)) (cell : ℕ) (w : Worker) (ws : List Worker)
    → let r = run lowest turns (cell, ws) in
      run lowest (map (λ turn. (suc turn.0, turn.1)) turns) (cell, w ∷ ws) ≡ (r.0, w ∷ r.1)
unfolding run advance_at
run_shift lowest [] cell w ws = refl
run_shift lowest ((i, spurious) ∷ turns) cell w ws =
    let r = advance_at lowest spurious cell i ws in run_shift lowest turns r.0 w r.1

-- From whatever state the threads are in, two turns in a row for each, without a spurious failure, end the
-- loops of all of them.
pub run_finishes :
    (lowest : Bool) (cell : ℕ) (ws : List Worker)
    → All IsDone (run lowest (in_turn (length ws)) (cell, ws)).1
unfolding run in_turn advance_at
run_finishes lowest cell [] = tt
run_finishes lowest cell (w ∷ ws) =
    let r = advance lowest false cell w in
    let s = advance lowest false r.0 r.1 in
    rw (run_shift lowest (in_turn (length ws)) s.0 s.1 ws)
      (two_turns lowest cell w, run_finishes lowest s.0 ws)

-- OnPacket leaves the smallest and the largest size as its loops do when no other thread comes in between.
on_packet-alone :
    (p : PacketInfo) (s : StatsCollector)
    → let t = on_packet p s in
      (t.min_packet_size ≡ (run true (in_turn 1) (s.min_packet_size, waiting p.packet_size ∷ [])).0)
      × (t.max_packet_size
          ≡ (run false (in_turn 1) (s.max_packet_size, waiting p.packet_size ∷ [])).0)
unfolding on_packet run in_turn advance_at advance better
on_packet-alone p s = (ground arith, ground arith)
