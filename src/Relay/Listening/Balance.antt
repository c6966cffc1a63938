-- ===== src/Relay/Listening/Balance.antt =====
-- TcpRelayServer.h: over any Starts and Stops the sockets that listen and Winsock are given back.
use tcp_redirector.Prelude.{
  ℕ, zero, suc, ◌+◌, ◌≡◌, Bool, true, false, List, [], ◌∷◌, Option, none, some, ◌==◌, if◌then◌else◌,
  refl, arith,
}
use tcp_redirector.Relay.Listening.{
  ListenEvent, winsock_started, winsock_cleaned, socket_opened, socket_closed, accept_started,
  accept_joined, drained, Listener, StartApi, close_socket, listen6, listen, start, drain, stop,
}

unfoldable pub tally : (ListenEvent → Bool) → List ListenEvent → ℕ
tally p [] = 0
tally p (e ∷ es) = if p e then suc (tally p es) else tally p es

abbrev pub is_started : ListenEvent → Bool
is_started winsock_started = true
is_started _ = false

abbrev pub is_cleaned : ListenEvent → Bool
is_cleaned winsock_cleaned = true
is_cleaned _ = false

abbrev pub is_opened : ℕ → ListenEvent → Bool
is_opened h (socket_opened k) = k == h
is_opened h _ = false

abbrev pub is_closed : ℕ → ListenEvent → Bool
is_closed h (socket_closed k) = k == h
is_closed h _ = false

abbrev pub is_accepting : ListenEvent → Bool
is_accepting accept_started = true
is_accepting _ = false

abbrev pub is_joined : ListenEvent → Bool
is_joined accept_joined = true
is_joined _ = false

abbrev pub holds : ℕ → Option ℕ → ℕ
holds h none = 0
holds h (some k) = if k == h then 1 else 0

abbrev pub one_if : Bool → ℕ
one_if b = if b then 1 else 0

-- While the server runs Winsock is started once more than cleaned up, and the thread of AcceptLoop once more than
-- joined; a socket that was opened is closed or held. A server that does not run holds none.
pub record Books (h : ℕ) (s : Listener) : Type 0 where
  pub winsock : tally is_started s.events ≡ tally is_cleaned s.events + one_if s.running
  pub thread : tally is_accepting s.events ≡ tally is_joined s.events + one_if s.running
  pub sockets :
      tally (is_opened h) s.events
      ≡ tally (is_closed h) s.events + holds h s.listen_sock + holds h s.listen_sock6
  pub idle : s.running ≡ false → (s.listen_sock ≡ none) × (s.listen_sock6 ≡ none)

pub data ListenCall : Type 0 where
  start_call : StartApi → ListenCall
  stop_call : (active : ℕ → ℕ) → ListenCall

unfoldable pub step : ListenCall → Listener → Listener
step (start_call a) s = (start a s).0
step (stop_call active) s = stop active s

unfoldable pub run_listener : List ListenCall → Listener → Listener
run_listener [] s = s
run_listener (c ∷ cs) s = run_listener cs (step c s)

abbrev pub new_listener : Listener
new_listener = record { running = false; listen_sock = none; listen_sock6 = none; events = [] }

module _ (h : ℕ) where
  drain-tally :
      (p : ListenEvent → Bool) (n : ℕ) (active : ℕ → ℕ) (es : List ListenEvent)
      → p drained ≡ false
      → tally p (drain n active es) ≡ tally p es
  unfolding drain tally
  drain-tally p zero active es no_drained = refl
  drain-tally p (suc n) active es no_drained =
      ground (arith, drain-tally p n active (drained ∷ es) no_drained, no_drained)

  start-Books : (a : StartApi) (s : Listener) → Books h s → Books h (start a s).0
  unfolding start listen listen6 tally
  start-Books a s b = ground arith

  stop-Books : (active : ℕ → ℕ) (s : Listener) → Books h s → Books h (stop active s)
  unfolding stop close_socket tally
  stop-Books active s b =
      let es = accept_joined ∷ close_socket s.listen_sock6 (close_socket s.listen_sock s.events) in
      ground (
        arith,
        drain-tally is_started 50 active es refl,
        drain-tally is_cleaned 50 active es refl,
        drain-tally is_accepting 50 active es refl,
        drain-tally is_joined 50 active es refl,
        drain-tally (is_opened h) 50 active es refl,
        drain-tally (is_closed h) 50 active es refl,
      )

  step-Books : (c : ListenCall) (s : Listener) → Books h s → Books h (step c s)
  unfolding step
  step-Books (start_call a) s b = start-Books a s b
  step-Books (stop_call active) s b = stop-Books active s b

  run-from : (cs : List ListenCall) (s : Listener) → Books h s → Books h (run_listener cs s)
  unfolding run_listener
  run-from [] s b = b
  run-from (c ∷ cs) s b = run-from cs (step c s) (step-Books c s b)

-- After any Starts and Stops of a new server, whatever Winsock answers: the server runs exactly when Winsock has
-- been started once more than cleaned up and the thread of AcceptLoop started once more than joined, every socket
-- that was opened is closed but the ones that are held, and a server that does not run holds none.
pub run_listener-Books : (h : ℕ) (cs : List ListenCall) → Books h (run_listener cs new_listener)
unfolding tally
run_listener-Books h cs =
    run-from h cs new_listener
      (record { winsock = refl; thread = refl; sockets = refl; idle = λ off. (refl, refl) })
