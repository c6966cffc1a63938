-- ===== src/KerberosAgent/Busy.antt =====
-- KerberosAgentProvider.cpp: EnsureConnected when the pipe of the agent stays busy.
use tcp_redirector.Prelude.{ℕ, zero, suc, ◌+◌, ◌*◌, ◌≡◌, false, List, ◌∷◌, none, refl, ◌∙◌, arith}
use tcp_redirector.KerberosAgent.Entities.{World, Provider, Event, waited, slept, busy}
use tcp_redirector.KerberosAgent.{
  wait_for_pipe, connect_to_agent, launch, poll, reconnect, ensure_connected,
}
use tcp_redirector.KerberosAgent.Patience.{time, launch-time}

-- Neither connected nor with a pipe, after so many milliseconds of waiting.
record IsAfter (ms : ℕ) (s : Provider) : Type 0 where
  pub no_pipe : s.pipe ≡ none
  pub off : s.connected ≡ false
  pub spent : time s.events ≡ ms

module _ (w : World) (always : (es : List Event) → w.waits es ≡ busy)
    (never : (es : List Event) → w.opens es ≡ none) where
  wait_for_pipe-busy : (n : ℕ) (es : List Event) → time (wait_for_pipe w n es) ≡ time es + n * 5000
  unfolding wait_for_pipe time
  wait_for_pipe-busy zero es = omega arith
  wait_for_pipe-busy (suc n) es = ground (arith, always es, wait_for_pipe-busy n (waited ∷ es))

  connect_to_agent-busy :
      (ms : ℕ) (s : Provider)
      → IsAfter ms s
      → connect_to_agent w s ≡ (record s { events = wait_for_pipe w 10 s.events }, false)
  unfolding connect_to_agent
  connect_to_agent-busy ms s a =
      simp (a.no_pipe, never (wait_for_pipe w 10 s.events), connect_to_agent) refl

  waited-IsAfter :
      (ms : ℕ) (s : Provider)
      → IsAfter ms s
      → IsAfter (ms + 50000) (record s { events = wait_for_pipe w 10 s.events })
  waited-IsAfter ms s a = record {
    no_pipe = a.no_pipe;
    off = a.off;
    spent = omega (arith, wait_for_pipe-busy 10 s.events, a.spent);
  }

  launch-IsAfter : (ms : ℕ) (s : Provider) → IsAfter ms s → IsAfter ms (launch w s)
  unfolding launch
  launch-IsAfter ms s a = record {
    no_pipe = a.no_pipe;
    off = a.off;
    spent = launch-time w s ∙ a.spent;
  }

  poll-IsAfter : (n ms : ℕ) (s : Provider) → IsAfter ms s → IsAfter (ms + n * 50500) (poll w n s)
  unfolding poll time
  poll-IsAfter zero ms s a = record {
    no_pipe = a.no_pipe;
    off = a.off;
    spent = omega (arith, a.spent);
  }
  poll-IsAfter (suc n) ms s a =
      let t : Provider = record s { events = slept 500 ∷ s.events } in
      let b : IsAfter (ms + 500) t = record {
        no_pipe = a.no_pipe;
        off = a.off;
        spent = omega (arith, a.spent);
      } in
      let c = waited-IsAfter (ms + 500) t b in
      let d =
        poll-IsAfter n (ms + 500 + 50000) (record t { events = wait_for_pipe w 10 t.events }) c in
      rw (connect_to_agent-busy (ms + 500) t b)
        (record { no_pipe = d.no_pipe; off = d.off; spent = omega (arith, d.spent) })

  ensure_connected-reconnect :
      (s : Provider) → s.connected ≡ false → ensure_connected w s ≡ reconnect w s
  unfolding ensure_connected
  ensure_connected-reconnect s off = simp off refl

  reconnect-busy :
      (ms : ℕ) (s : Provider)
      → IsAfter ms s
      → reconnect w s ≡ poll w 20 (launch w (record s { events = wait_for_pipe w 10 s.events }))
  unfolding reconnect
  reconnect-busy ms s a = rw (connect_to_agent-busy ms s a) refl

  -- If WaitNamedPipeW always finds the pipe busy and CreateFileW never opens it, then a provider that is not
  -- connected and has no pipe is so after EnsureConnected too, which has waited for 1060 seconds.
  pub ensure_connected-busy :
      (s : Provider)
      → s.pipe ≡ none
      → s.connected ≡ false
      → let t = ensure_connected w s in
        (t.connected ≡ false) × (time t.events ≡ time s.events + 1060000)
  ensure_connected-busy s no_pipe off =
      let ms = time s.events in
      let a : IsAfter ms s = record { no_pipe = no_pipe; off = off; spent = refl } in
      let b = waited-IsAfter ms s a in
      let u : Provider = record s { events = wait_for_pipe w 10 s.events } in
      let c = launch-IsAfter (ms + 50000) u b in
      let d = poll-IsAfter 20 (ms + 50000) (launch w u) c in
      rw (ensure_connected-reconnect s off, reconnect-busy ms s a) (d.off, omega (arith, d.spent))
