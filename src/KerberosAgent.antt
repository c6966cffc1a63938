-- ===== src/KerberosAgent.antt =====
-- infrastructure/auth/KerberosAgentProvider.cpp and .h. Calls of the provider are taken one after another. A
-- request is Call with SendMessage and ReadMessage.
pub mod Entities
pub mod Launch
pub mod Results
pub mod Books
pub mod Stuck
pub mod Outcome
pub mod Cooldown
pub mod Patience
pub mod Busy
mod Tests
use tcp_redirector.Prelude.{
  ℕ, zero, suc, Bool, true, false, List, [], ◌∷◌, Option, none, some, add64, if◌then◌else◌,
}
use tcp_redirector.Relay.Entities.{CreateContextResult, ContinueContextResult}
use tcp_redirector.KerberosAgent.Entities.{
  Request, hello, ping, create_request, continue_request, close_request, Event, waited, slept,
  pipe_opened, pipe_closed, requested, Response, write_failed, unreadable, read_failed, answered,
  available, busy, missing, World, Provider,
}
use tcp_redirector.KerberosAgent.Launch.{launch_agent}
use tcp_redirector.KerberosAgent.Results.{
  not_available, created, continued, create_result, continue_result,
}

-- `Call`: the response, or `none` for an exception.
unfoldable pub call : World → Request → Provider → Provider × Option Response
call w request s =
    let t = record s {
      next_id = add64 s.next_id 1;
      events = requested s.next_id request ∷ s.events;
    } in
    elim (w.replies t.events) [
      | write_failed ↦ (t, none)
      | unreadable ↦ (t, none)
      | read_failed broken ↦ (record t { connected = if broken then false else t.connected }, none)
      | answered r ↦ (t, some r)
    ]

-- The loop of ConnectToAgent over WaitNamedPipeW.
unfoldable pub wait_for_pipe : World → ℕ → List Event → List Event
wait_for_pipe w zero es = es
wait_for_pipe w (suc n) es = elim (w.waits es) [
  | available ↦ waited ∷ es
  | busy ↦ wait_for_pipe w n (waited ∷ es)
  | missing ↦ wait_for_pipe w n (slept 500 ∷ waited ∷ es)
]

-- The version that the answer to hello settles, if any.
unfoldable pub negotiated : Option Response → Option ℕ
negotiated none = none
negotiated (some r) = if r.contains_version then r.version else none

unfoldable pub negotiate : World → ℕ → Provider → Provider × Bool
negotiate w handle s =
    let r = call w hello s in
    elim (negotiated r.1) [
      | some v ↦ (record r.0 { version = v; connected = true }, true)
      | none ↦ (record r.0 { pipe = none; events = pipe_closed handle ∷ r.0.events }, false)
    ]

unfoldable pub connect_to_agent : World → Provider → Provider × Bool
connect_to_agent w s = elim s.pipe [
  | some h ↦ (s, true)
  | none ↦
      let es = wait_for_pipe w 10 s.events in
      elim (w.opens es) [
        | none ↦ (record s { events = es }, false)
        | some h ↦
            if w.sets_mode (pipe_opened h ∷ es)
            then negotiate w h (record s { pipe = some h; events = pipe_opened h ∷ es })
            else (record s { events = pipe_closed h ∷ pipe_opened h ∷ es }, false)
      ]
]

unfoldable pub disconnect_from_agent : Provider → Provider
disconnect_from_agent s = elim s.pipe [
  | none ↦ record s { connected = false }
  | some h ↦ record s { connected = false; pipe = none; events = pipe_closed h ∷ s.events }
]

unfoldable pub launch : World → Provider → Provider
launch w s =
    let r = launch_agent (w.launches s.events) s.events s.launcher in
    record s { events = r.0; launcher = r.1 }

-- The loop over the attempts after a launch.
unfoldable pub poll : World → ℕ → Provider → Provider
poll w zero s = s
poll w (suc n) s =
    let r = connect_to_agent w (record s { events = slept 500 ∷ s.events }) in
    if r.1 then r.0 else poll w n r.0

-- Connect, and if that fails launch the agent and poll.
unfoldable pub reconnect : World → Provider → Provider
reconnect w s = let r = connect_to_agent w s in if r.1 then r.0 else poll w 20 (launch w r.0)

unfoldable pub ensure_connected : World → Provider → Provider
ensure_connected w s = if s.connected then s else reconnect w s

unfoldable pub create_context : World → List ℕ → Provider → Provider × CreateContextResult
create_context w spn s =
    let t = ensure_connected w s in
    let r = call w (create_request spn) t in
    if t.connected
    then (r.0, create_result (w.what r.0.events) r.1)
    else (t, created false 0 [] false not_available)

unfoldable pub continue_context : World → ℕ → List ℕ → Provider → Provider × ContinueContextResult
continue_context w id challenge s =
    let t = ensure_connected w s in
    let r = call w (continue_request id challenge) t in
    if t.connected
    then (r.0, continue_result (w.what r.0.events) r.1)
    else (t, continued false [] false not_available)

unfoldable pub close_context : World → ℕ → Provider → Provider
close_context w id s =
    let t = ensure_connected w s in if t.connected then (call w (close_request id) t).0 else t

-- The ping of KeepaliveLoop.
unfoldable pub ping_agent : World → Provider → Provider
ping_agent w s =
    let r = call w ping s in
    elim r.1 [
      | none ↦ disconnect_from_agent r.0
      | some response ↦ if response.contains_error then disconnect_from_agent r.0 else r.0
    ]

-- One round of KeepaliveLoop after its sleep.
unfoldable pub keepalive : World → Provider → Provider
keepalive w s = if s.connected then ping_agent w s else reconnect w s

-- The calls that others make, and the rounds of the keepalive thread.
pub data Operation : Type 0 where
  create_call : (spn : List ℕ) → Operation
  continue_call : (context_id : ℕ) (challenge : List ℕ) → Operation
  close_call : (context_id : ℕ) → Operation
  keepalive_round warm_up reset_call : Operation

unfoldable pub step : World → Operation → Provider → Provider
step w (create_call spn) s = (create_context w spn s).0
step w (continue_call id challenge) s = (continue_context w id challenge s).0
step w (close_call id) s = close_context w id s
step w keepalive_round s = keepalive w s
step w warm_up s = ensure_connected w s
step w reset_call s = disconnect_from_agent s

unfoldable pub run : World → List Operation → Provider → Provider
run w [] s = s
run w (c ∷ cs) s = run w cs (step w c s)

-- A provider as it is constructed.
abbrev pub fresh : Provider
fresh = record {
  pipe = none;
  connected = false;
  version = 0;
  next_id = 1;
  launcher = record { in_progress = false; last_launch_time = 0 };
  events = [];
}
