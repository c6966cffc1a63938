-- ===== src/Stats/Loop.antt =====
-- StatsCollector.cpp: the loops of OnPacket that lower the smallest and raise the largest size by
-- compare_exchange_weak, with any number of threads whose steps come in any order.
use tcp_redirector.Prelude.{
  ℕ, zero, suc, ◌≡◌, ◌⊎◌, Bool, true, false, not, ◌&&◌, List, [], ◌∷◌, All, ltb, ◌==◌,
  if◌then◌else◌, map,
}

-- A thread before its load, with the value that it expects, and after its loop.
pub data Worker : Type 0 where
  waiting : (size : ℕ) → Worker
  expecting : (size expected : ℕ) → Worker
  done : (size : ℕ) → Worker

abbrev pub size_of : Worker → ℕ
size_of (waiting size) = size
size_of (expecting size expected) = size
size_of (done size) = size

-- The test of the loop, for the smallest size and for the largest.
unfoldable pub better : Bool → ℕ → ℕ → Bool
better true size expected = ltb size expected
better false size expected = ltb expected size

-- One step of a thread: the new value of the atomic, and the thread. `spurious`: the exchange fails although
-- the value is the expected one.
unfoldable pub advance : Bool → Bool → ℕ → Worker → ℕ × Worker
advance lowest spurious cell (waiting size) = (cell, expecting size cell)
advance lowest spurious cell (expecting size expected) =
    if better lowest size expected
    then if not spurious && cell == expected then (size, done size) else (cell, expecting size cell)
    else (cell, done size)
advance lowest spurious cell (done size) = (cell, done size)

-- A step of the thread at a place of the list.
unfoldable pub advance_at : Bool → Bool → ℕ → ℕ → List Worker → ℕ × List Worker
advance_at lowest spurious cell i [] = (cell, [])
advance_at lowest spurious cell zero (w ∷ ws) =
    let r = advance lowest spurious cell w in (r.0, r.1 ∷ ws)
advance_at lowest spurious cell (suc i) (w ∷ ws) =
    let r = advance_at lowest spurious cell i ws in (r.0, w ∷ r.1)

-- The schedule says which thread is next, and whether its exchange fails spuriously.
unfoldable pub run : Bool → List (ℕ × Bool) → ℕ × List Worker → ℕ × List Worker
run lowest [] state = state
run lowest ((i, spurious) ∷ turns) (cell, ws) =
    run lowest turns (advance_at lowest spurious cell i ws)

abbrev pub sizes : List Worker → List ℕ
sizes ws = map size_of ws

unfoldable pub IsAmong : ℕ → List ℕ → Type 0
IsAmong x [] = ⊥
IsAmong x (y ∷ ys) = (x ≡ y) ⊎ IsAmong x ys

unfoldable pub IsDone : Worker → Type 0
IsDone (waiting size) = ⊥
IsDone (expecting size expected) = ⊥
IsDone (done size) = Unit

-- No size of the list is better than the value.
unfoldable pub NoneBetter : Bool → ℕ → List ℕ → Type 0
NoneBetter lowest cell xs = All (λ x. better lowest x cell ≡ false) xs

-- Two turns in a row for each of so many threads, without a spurious failure.
unfoldable pub in_turn : ℕ → List (ℕ × Bool)
in_turn zero = []
in_turn (suc n) = (0, false) ∷ (0, false) ∷ map (λ turn. (suc turn.0, turn.1)) (in_turn n)
