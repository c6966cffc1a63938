-- ===== src/KerberosAgent/Books.antt =====
-- What a KerberosAgentProvider has opened and closed, over any calls.
use tcp_redirector.Prelude.{
  ℕ, zero, suc, ◌+◌, ◌≡◌, Bool, false, List, [], ◌∷◌, Option, none, some, ◌==◌, if◌then◌else◌,
  arith, refl, inl, inr, Option-cases, if-cases,
}
use tcp_redirector.Relay.Entities.{CreateContextResult, ContinueContextResult}
use tcp_redirector.KerberosAgent.Entities.{
  Request, ping, create_request, continue_request, close_request, Event, waited, slept, pipe_opened,
  pipe_closed, token_taken, token_closed, environment_made, environment_destroyed, LaunchApi, World,
  Provider,
}
use tcp_redirector.KerberosAgent.Launch.{
  close_token, destroy_environment, clean, make_environment, attempt, launch_agent,
}
use tcp_redirector.KerberosAgent.{
  call, wait_for_pipe, negotiate, connect_to_agent, disconnect_from_agent, launch, poll, reconnect,
  ensure_connected, create_context, continue_context, close_context, ping_agent, keepalive,
  Operation, create_call, continue_call, close_call, keepalive_round, warm_up, reset_call, step,
  run, fresh,
}

-- The number of the events of a kind.
unfoldable pub tally : (Event → Bool) → List Event → ℕ
tally p [] = 0
tally p (e ∷ es) = if p e then suc (tally p es) else tally p es

abbrev pub is_opened : ℕ → Event → Bool
is_opened h (pipe_opened k) = k == h
is_opened h _ = false

abbrev pub is_closed : ℕ → Event → Bool
is_closed h (pipe_closed k) = k == h
is_closed h _ = false

abbrev pub is_taken : ℕ → Event → Bool
is_taken h (token_taken k) = k == h
is_taken h _ = false

abbrev pub is_token_closed : ℕ → Event → Bool
is_token_closed h (token_closed k) = k == h
is_token_closed h _ = false

abbrev pub is_made : ℕ → Event → Bool
is_made h (environment_made k) = k == h
is_made h _ = false

abbrev pub is_destroyed : ℕ → Event → Bool
is_destroyed h (environment_destroyed k) = k == h
is_destroyed h _ = false

abbrev pub holds : ℕ → Option ℕ → ℕ
holds h none = 0
holds h (some k) = if k == h then 1 else 0

-- The books of a list of events, for a value that may stand for a handle or a block: with this pipe held.
pub record Balanced (h : ℕ) (pipe : Option ℕ) (es : List Event) : Type 0 where
  pub pipes : tally (is_opened h) es ≡ tally (is_closed h) es + holds h pipe
  pub tokens : tally (is_taken h) es ≡ tally (is_token_closed h) es
  pub blocks : tally (is_made h) es ≡ tally (is_destroyed h) es

-- A provider that is connected has a pipe, and its books are right.
pub record Books (h : ℕ) (s : Provider) : Type 0 where
  pub idle : s.pipe ≡ none → s.connected ≡ false
  pub balanced : Balanced h s.pipe s.events

module _ (h : ℕ) where
  waited-Balanced :
      (pipe : Option ℕ) (es : List Event) → Balanced h pipe es → Balanced h pipe (waited ∷ es)
  unfolding tally
  waited-Balanced pipe es b = ground arith

  slept-Balanced :
      (ms : ℕ) (pipe : Option ℕ) (es : List Event)
      → Balanced h pipe es
      → Balanced h pipe (slept ms ∷ es)
  unfolding tally
  slept-Balanced ms pipe es b = ground arith

  wait_for_pipe-Balanced :
      (w : World) (n : ℕ) (pipe : Option ℕ) (es : List Event)
      → Balanced h pipe es
      → Balanced h pipe (wait_for_pipe w n es)
  unfolding wait_for_pipe
  wait_for_pipe-Balanced w zero pipe es b = b
  wait_for_pipe-Balanced w (suc n) pipe es b =
      let one = waited-Balanced pipe es b in
      ground (
        arith,
        one,
        wait_for_pipe-Balanced w n pipe (waited ∷ es) one,
        wait_for_pipe-Balanced w n pipe (slept 500 ∷ waited ∷ es)
            (slept-Balanced 500 pipe (waited ∷ es) one),
      )

  attempt-Balanced :
      (a : LaunchApi) (pipe : Option ℕ) (es : List Event)
      → Balanced h pipe es
      → Balanced h pipe (attempt a es).0
  unfolding attempt clean close_token destroy_environment make_environment tally
  attempt-Balanced a pipe es b = ground arith

  call-Books : (w : World) (r : Request) (s : Provider) → Books h s → Books h (call w r s).0
  unfolding call tally
  call-Books w r s b = ground arith

  negotiate-Books :
      (w : World) (k : ℕ) (s : Provider)
      → Books h s
      → s.pipe ≡ some k
      → s.connected ≡ false
      → Books h (negotiate w k s).0
  unfolding negotiate call tally
  negotiate-Books w k s b held off = ground arith

  refused-Balanced :
      (k : ℕ) (es : List Event)
      → Balanced h none es
      → Balanced h none (pipe_closed k ∷ pipe_opened k ∷ es)
  unfolding tally
  refused-Balanced k es b = ground arith

  opened-Balanced :
      (k : ℕ) (es : List Event) → Balanced h none es → Balanced h (some k) (pipe_opened k ∷ es)
  unfolding tally
  opened-Balanced k es b = ground arith

  connect_to_agent-Books : (w : World) (s : Provider) → Books h s → Books h (connect_to_agent w s).0
  unfolding connect_to_agent
  connect_to_agent-Books w s b = elim (Option-cases s.pipe) [
    | inr (k, e) ↦ rw (e, connect_to_agent) b
    | inl e ↦
        let es = wait_for_pipe w 10 s.events in
        let off = b.idle e in
        let waited_for : Balanced h none es =
          wait_for_pipe-Balanced w 10 none s.events (rw (← e) b.balanced) in
        rw (e, connect_to_agent)
          (elim (Option-cases (w.opens es)) [
            | inl f ↦ rw f (record { idle = λ n. off; balanced = rw e waited_for })
            | inr (k, f) ↦ rw f (
                if-cases (λ (r : Provider × Bool). Books h r.0) (w.sets_mode (pipe_opened k ∷ es))
                  (negotiate-Books w k (record s { pipe = some k; events = pipe_opened k ∷ es })
                    (record { idle = λ n. off; balanced = opened-Balanced k es waited_for }) refl
                    off)
                  (record { idle = λ n. off; balanced = rw e (refused-Balanced k es waited_for) }))
          ])
  ]

  disconnect-Books : (s : Provider) → Books h s → Books h (disconnect_from_agent s)
  unfolding disconnect_from_agent tally
  disconnect-Books s b = ground arith

  launch-Books : (w : World) (s : Provider) → Books h s → Books h (launch w s)
  unfolding launch launch_agent
  launch-Books w s b =
      ground (arith, attempt-Balanced (w.launches s.events) s.pipe s.events b.balanced)

  poll-Books : (w : World) (n : ℕ) (s : Provider) → Books h s → Books h (poll w n s)
  unfolding poll
  poll-Books w zero s b = b
  poll-Books w (suc n) s b =
      let t : Provider = record s { events = slept 500 ∷ s.events } in
      let ready : Books h t = record {
        idle = b.idle;
        balanced = slept-Balanced 500 s.pipe s.events b.balanced;
      } in
      let c = connect_to_agent-Books w t ready in
      if-cases (Books h) (connect_to_agent w t).1 c (poll-Books w n (connect_to_agent w t).0 c)

  reconnect-Books : (w : World) (s : Provider) → Books h s → Books h (reconnect w s)
  unfolding reconnect
  reconnect-Books w s b =
      let c = connect_to_agent-Books w s b in
      let t = (connect_to_agent w s).0 in
      if-cases (Books h) (connect_to_agent w s).1 c
        (poll-Books w 20 (launch w t) (launch-Books w t c))

  ensure_connected-Books : (w : World) (s : Provider) → Books h s → Books h (ensure_connected w s)
  unfolding ensure_connected
  ensure_connected-Books w s b = if-cases (Books h) s.connected b (reconnect-Books w s b)

  ping_agent-Books : (w : World) (s : Provider) → Books h s → Books h (ping_agent w s)
  unfolding ping_agent
  ping_agent-Books w s b =
      let c = call-Books w ping s b in ground (arith, c, disconnect-Books (call w ping s).0 c)

  step-Books : (w : World) (c : Operation) (s : Provider) → Books h s → Books h (step w c s)
  unfolding step create_context continue_context close_context keepalive
  step-Books w (create_call spn) s b =
      let t = ensure_connected w s in
      let c = ensure_connected-Books w s b in
      if-cases (λ (r : Provider × CreateContextResult). Books h r.0) t.connected
        (call-Books w (create_request spn) t c) c
  step-Books w (continue_call id challenge) s b =
      let t = ensure_connected w s in
      let c = ensure_connected-Books w s b in
      if-cases (λ (r : Provider × ContinueContextResult). Books h r.0) t.connected
        (call-Books w (continue_request id challenge) t c) c
  step-Books w (close_call id) s b =
      let t = ensure_connected w s in
      let c = ensure_connected-Books w s b in
      if-cases (Books h) t.connected (call-Books w (close_request id) t c) c
  step-Books w keepalive_round s b =
      if-cases (Books h) s.connected (ping_agent-Books w s b) (reconnect-Books w s b)
  step-Books w warm_up s b = ensure_connected-Books w s b
  step-Books w reset_call s b = disconnect-Books s b

  run-from : (w : World) (cs : List Operation) (s : Provider) → Books h s → Books h (run w cs s)
  unfolding run
  run-from w [] s b = b
  run-from w (c ∷ cs) s b = run-from w cs (step w c s) (step-Books w c s b)

-- Whatever Windows and the agent answer and whichever calls are made of a fresh provider: a provider without a
-- pipe is not connected, every pipe that was opened is closed but the one that is held, and every token and
-- every environment block of a launch is given back.
pub run-Books : (w : World) (cs : List Operation) (h : ℕ) → Books h (run w cs fresh)
unfolding tally
run-Books w cs h =
    run-from h w cs fresh (record {
      idle = λ n. refl;
      balanced = record { pipes = refl; tokens = refl; blocks = refl };
    })
