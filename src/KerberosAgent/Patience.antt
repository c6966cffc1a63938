-- ===== src/KerberosAgent/Patience.antt =====
-- KerberosAgentProvider.cpp: how long EnsureConnected may wait.
use tcp_redirector.Prelude.{
  ℕ, zero, suc, ◌+◌, ◌*◌, ◌≤◌, ◌≡◌, Bool, List, [], ◌∷◌, some, arith, Option-cases, if-cases, inl,
  inr,
}
use tcp_redirector.KerberosAgent.Entities.{World, Provider, Event, waited, slept, pipe_opened}
use tcp_redirector.KerberosAgent.Launch.{
  attempt, launch_agent, clean, close_token, destroy_environment, make_environment,
}
use tcp_redirector.KerberosAgent.{
  call, wait_for_pipe, negotiate, connect_to_agent, launch, poll, reconnect, ensure_connected,
}

-- The longest time of an event in milliseconds: WaitNamedPipeW waits for kPipeTimeout, 5000.
abbrev pub time_of : Event → ℕ
time_of waited = 5000
time_of (slept ms) = ms
time_of _ = 0

unfoldable pub time : List Event → ℕ
time [] = 0
time (e ∷ es) = time_of e + time es

wait_for_pipe-time :
    (w : World) (n : ℕ) (es : List Event) → time (wait_for_pipe w n es) ≤ time es + n * 5500
unfolding wait_for_pipe time
wait_for_pipe-time w zero es = omega arith
wait_for_pipe-time w (suc n) es =
    ground (
      arith,
      wait_for_pipe-time w n (waited ∷ es),
      wait_for_pipe-time w n (slept 500 ∷ waited ∷ es),
    )

negotiate-time :
    (w : World) (h : ℕ) (s : Provider) → time (negotiate w h s).0.events ≡ time s.events
unfolding negotiate call time
negotiate-time w h s = ground arith

connect_to_agent-time :
    (w : World) (s : Provider) → time (connect_to_agent w s).0.events ≤ time s.events + 55000
unfolding connect_to_agent time
connect_to_agent-time w s =
    let es = wait_for_pipe w 10 s.events in
    let bound = wait_for_pipe-time w 10 s.events in
    elim (Option-cases s.pipe) [
      | inr (k, e) ↦ simp (e, connect_to_agent) (omega arith)
      | inl e ↦ elim (Option-cases (w.opens es)) [
        | inl f ↦ simp (e, f, connect_to_agent) (omega arith)
        | inr (k, f) ↦
            let n = negotiate-time w k (record s { pipe = some k; events = pipe_opened k ∷ es }) in
            simp (e, f, connect_to_agent)
              (if-cases (λ (r : Provider × Bool). time r.0.events ≤ time s.events + 55000)
                (w.sets_mode (pipe_opened k ∷ es)) (omega arith) (omega arith))
      ]
    ]

pub launch-time : (w : World) (s : Provider) → time (launch w s).events ≡ time s.events
unfolding launch launch_agent attempt clean close_token destroy_environment make_environment time
launch-time w s = ground arith

poll-time :
    (w : World) (n : ℕ) (s : Provider) → time (poll w n s).events ≤ time s.events + n * 55500
unfolding poll time
poll-time w zero s = omega arith
poll-time w (suc n) s =
    let t : Provider = record s { events = slept 500 ∷ s.events } in
    let c = connect_to_agent-time w t in
    let next = (connect_to_agent w t).0 in
    if-cases (λ (r : Provider). time r.events ≤ time s.events + suc n * 55500)
      (connect_to_agent w t).1 (omega arith) (omega (arith, poll-time w n next, c))

-- EnsureConnected returns, and the sum of its waits is at most 55 seconds for the first attempt to connect and
-- 55.5 for each of the twenty that follow a launch.
pub ensure_connected-time :
    (w : World) (s : Provider)
    → time (ensure_connected w s).events ≤ time s.events + 55000 + 20 * 55500
unfolding ensure_connected reconnect
ensure_connected-time w s =
    let c = connect_to_agent-time w s in
    let next = (connect_to_agent w s).0 in
    let p = poll-time w 20 (launch w next) in
    let l = launch-time w next in
    let P : Provider → Type 0 = λ r. time r.events ≤ time s.events + 55000 + 20 * 55500 in
    if-cases P s.connected (omega arith)
      (if-cases P (connect_to_agent w s).1 (omega arith) (omega (arith, p, l, c)))
