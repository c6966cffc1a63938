-- ===== src/ConnectionTracker/Records.antt =====
-- ConnectionTracker.h: the map of connections over any history of calls.
use mathlib.Core.Path.{subst}
use tcp_redirector.ConnectionTracker.{
  ConnectionRecord, ConnectionTracker, Connections, lookup, put, delete, add_connection,
  update_connection, remove_connection, increment_proxy_errors,
}
use tcp_redirector.Prelude.{
  ℕ, ◌-◌, ◌≡◌, List, [], ◌∷◌, Option, none, some, ◌==◌, if◌then◌else◌, ap, sym, ◌∙◌, arith, refl,
  inl, inr, Option-cases,
}

-- No key stands twice.
abbrev pub IsDistinct : Connections → Type 0
IsDistinct [] = Unit
IsDistinct ((i, r) ∷ m) = (lookup i m ≡ none) × IsDistinct m

pub lookup-put :
    (k j : ℕ) (r : ConnectionRecord) (m : Connections)
    → lookup k (put j r m) ≡ (if k == j then some r else lookup k m)
unfolding lookup put
lookup-put k j r [] = ground arith
lookup-put k j r ((i, x) ∷ m) = ground (arith, lookup-put k j r m)

pub lookup-delete :
    (k j : ℕ) (m : Connections)
    → IsDistinct m
    → lookup k (delete j m) ≡ (if k == j then none else lookup k m)
unfolding lookup delete
lookup-delete k j [] h = ground arith
lookup-delete k j ((i, x) ∷ m) h = ground (arith, lookup-delete k j m h.1, h.0)

pub put-IsDistinct :
    (j : ℕ) (r : ConnectionRecord) (m : Connections) → IsDistinct m → IsDistinct (put j r m)
unfolding put lookup
put-IsDistinct j r [] h = (refl, tt)
put-IsDistinct j r ((i, x) ∷ m) h =
    ground (arith, put-IsDistinct j r m h.1, h.0, h.1, lookup-put i j r m)

pub delete-IsDistinct : (j : ℕ) (m : Connections) → IsDistinct m → IsDistinct (delete j m)
unfolding delete lookup
delete-IsDistinct j [] h = tt
delete-IsDistinct j ((i, x) ∷ m) h =
    ground (arith, delete-IsDistinct j m h.1, h.0, h.1, lookup-delete i j m h.1)

-- The calls that change the tracker; for an update, the time at which it comes.
pub data Call : Type 0 where
  add_call : (r : ConnectionRecord) → Call
  update_call : (now key : ℕ) (updates : ConnectionRecord) → Call
  remove_call : (key : ℕ) → Call
  error_call : Call

unfoldable pub step : Call → ConnectionTracker → ConnectionTracker
step (add_call r) t = (add_connection r t).0
step (update_call now key updates) t = (update_connection now key updates t).0
step (remove_call key) t = (remove_connection key t).0
step error_call t = increment_proxy_errors t

unfoldable pub run : List Call → ConnectionTracker → ConnectionTracker
run [] t = t
run (c ∷ cs) t = run cs (step c t)

-- What a key should stand for after a call, given what it stood for before.
unfoldable pub expected : Call → ℕ → Option ConnectionRecord → Option ConnectionRecord
expected (add_call r) k old = if k == r.id then some r else old
expected (update_call now key updates) k none = none
expected (update_call now key updates) k (some r) =
    if k == key then some (record updates { duration = now - updates.start_time }) else some r
expected (remove_call key) k old = if k == key then none else old
expected error_call k old = old

unfoldable pub expected_all : List Call → ℕ → Option ConnectionRecord → Option ConnectionRecord
expected_all [] k old = old
expected_all (c ∷ cs) k old = expected_all cs k (expected c k old)

update-lookup :
    (now key k : ℕ) (updates : ConnectionRecord) (t : ConnectionTracker)
    → lookup k (update_connection now key updates t).0.connections
      ≡ expected (update_call now key updates) k (lookup k t.connections)
unfolding expected update_connection
update-lookup now key k updates t = elim (Option-cases (lookup key t.connections)) [
  | inl n ↦ simp (n, update_connection) (ground arith)
  | inr (old, f) ↦
      let fresh : ConnectionRecord = record updates { duration = now - updates.start_time } in
      simp (f, update_connection) (ground (arith, lookup-put k key fresh t.connections))
]

step-lookup :
    (c : Call) (k : ℕ) (t : ConnectionTracker)
    → IsDistinct t.connections
    → lookup k (step c t).connections ≡ expected c k (lookup k t.connections)
unfolding step expected add_connection remove_connection increment_proxy_errors
step-lookup (add_call r) k t h = lookup-put k r.id r t.connections
step-lookup (update_call now key updates) k t h = update-lookup now key k updates t
step-lookup (remove_call key) k t h = lookup-delete k key t.connections h
step-lookup error_call k t h = refl

update-IsDistinct :
    (now key : ℕ) (updates : ConnectionRecord) (t : ConnectionTracker)
    → IsDistinct t.connections
    → IsDistinct (update_connection now key updates t).0.connections
unfolding update_connection
update-IsDistinct now key updates t h = elim (Option-cases (lookup key t.connections)) [
  | inl n ↦
      let same : (update_connection now key updates t).0.connections ≡ t.connections =
        simp (n, update_connection) refl in
      subst IsDistinct (sym same) h
  | inr (old, f) ↦
      let fresh : ConnectionRecord = record updates { duration = now - updates.start_time } in
      let stored : (update_connection now key updates t).0.connections
          ≡ put key fresh t.connections =
        simp (f, update_connection) refl in
      subst IsDistinct (sym stored) (put-IsDistinct key fresh t.connections h)
]

step-IsDistinct :
    (c : Call) (t : ConnectionTracker)
    → IsDistinct t.connections
    → IsDistinct (step c t).connections
unfolding step add_connection remove_connection increment_proxy_errors
step-IsDistinct (add_call r) t h = put-IsDistinct r.id r t.connections h
step-IsDistinct (update_call now key updates) t h = update-IsDistinct now key updates t h
step-IsDistinct (remove_call key) t h = delete-IsDistinct key t.connections h
step-IsDistinct error_call t h = h

pub run-IsDistinct :
    (cs : List Call) (t : ConnectionTracker)
    → IsDistinct t.connections
    → IsDistinct (run cs t).connections
unfolding run
run-IsDistinct [] t h = h
run-IsDistinct (c ∷ cs) t h = run-IsDistinct cs (step c t) (step-IsDistinct c t h)

-- From a tracker with distinct keys and over any history of additions, updates, removals and counted
-- errors, each key stands for what the calls say: the record last added under it, or the last update of it
-- with its duration, unless it was removed since; an update of a key that is not there does nothing. The keys
-- stay distinct, so each connection is shown once.
pub run-lookup :
    (cs : List Call) (k : ℕ) (t : ConnectionTracker)
    → IsDistinct t.connections
    → (lookup k (run cs t).connections ≡ expected_all cs k (lookup k t.connections))
      × IsDistinct (run cs t).connections
unfolding run expected_all
run-lookup [] k t h = (refl, h)
run-lookup (c ∷ cs) k t h =
    let (e, d) = run-lookup cs k (step c t) (step-IsDistinct c t h) in
    (e ∙ ap (expected_all cs k) (step-lookup c k t h), d)
