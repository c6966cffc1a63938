-- ===== src/LogRotator/Schedule.antt =====
-- LogRotator.cpp: the scheduler rotates at the wakes that are due.
use tcp_redirector.Prelude.{ℕ, ◌+◌, ◌*◌, ◌/◌, Bool, List, [], ◌∷◌, ◌&&◌}
use tcp_redirector.LogRotator.{Settings, LocalTime, second, is_due, Round}

-- The times at which the thread wakes.
unfoldable pub wakes : ℕ → List Round → List ℕ
wakes begin [] = []
wakes begin (r ∷ rounds) =
    let now = begin + 60 * second + r.delay in now ∷ wakes (now + r.busy) rounds

module _ (localtime : ℕ → LocalTime) (s : Settings) where
  -- The schedule asks for a rotation then.
  abbrev pub is_scheduled : ℕ → Bool
  is_scheduled now = s.enabled && is_due s (localtime (now / second))
