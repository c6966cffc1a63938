-- ===== src/Relay/Listening/Tests.antt =====
-- Start and Stop on small inputs.
use tcp_redirector.Prelude.{◌≡◌, true, false, [], ◌∷◌, none, some, refl}
use tcp_redirector.Relay.Listening.{StartApi, start, listen, listen6, accept_round, accepted}
use tcp_redirector.Relay.Listening.Balance.{
  start_call, stop_call, run_listener, new_listener, Books, run_listener-Books,
}

abbrev fine : StartApi
fine = record {
  startup = true;
  socket = some 3;
  binds = true;
  listens = true;
  socket6 = some 4;
  binds6 = false;
  listens6 = true;
}

abbrev taken : StartApi
taken = record fine { binds = false }

-- The IPv6 socket could not be bound: the server runs with the other.
runs_without_ipv6 : (start fine new_listener).0.listen_sock6 ≡ none
unfolding start listen listen6
runs_without_ipv6 = refl

two_accepted :
    accept_round
      (some (true, true))
      (some (8, 50000))
      (some (9, 50001))
      (record new_listener { listen_sock6 = some 4 })
    ≡ (8, 50000, false) ∷ (9, 50001, true) ∷ []
unfolding accept_round accepted
two_accepted = refl

run_listener-Books_example : Books 3 (
    run_listener
      (start_call taken ∷ start_call fine ∷ stop_call (λ n. 1) ∷ start_call fine ∷ [])
      new_listener)
run_listener-Books_example =
    run_listener-Books 3
      (start_call taken ∷ start_call fine ∷ stop_call (λ n. 1) ∷ start_call fine ∷ [])
