-- ===== src/KerberosAgent/Stuck.antt =====
-- KerberosAgentProvider.cpp: what follows a broken pipe that a call other than a ping has met.
use tcp_redirector.Prelude.{ℕ, ◌≡◌, true, false, List, [], ◌∷◌, All, some, refl, ap}
use tcp_redirector.KerberosAgent.Entities.{
  World, Provider, requested, Request, create_request, read_failed,
}
use tcp_redirector.KerberosAgent.Results.{not_available, created}
use tcp_redirector.KerberosAgent.{
  call, connect_to_agent, reconnect, ensure_connected, create_context, continue_context,
  close_context, keepalive, Operation, create_call, continue_call, close_call, keepalive_round,
  warm_up, reset_call, step, run,
}

unfoldable pub IsNotReset : Operation → Type 0
IsNotReset reset_call = ⊥
IsNotReset _ = Unit

-- Not connected, with a pipe.
record IsStuck (s : Provider) : Type 0 where
  handle : ℕ
  held : s.pipe ≡ some handle
  off : s.connected ≡ false

connect_to_agent-stuck : (w : World) (s : Provider) → IsStuck s → connect_to_agent w s ≡ (s, true)
unfolding connect_to_agent
connect_to_agent-stuck w s k = simp (k.held, connect_to_agent) refl

reconnect-stuck : (w : World) (s : Provider) → IsStuck s → reconnect w s ≡ s
unfolding reconnect
reconnect-stuck w s k = rw (connect_to_agent-stuck w s k) refl

ensure_connected-stuck : (w : World) (s : Provider) → IsStuck s → ensure_connected w s ≡ s
unfolding ensure_connected
ensure_connected-stuck w s k = simp (k.off, reconnect-stuck w s k) refl

create_context-stuck :
    (w : World) (spn : List ℕ) (s : Provider)
    → IsStuck s
    → create_context w spn s ≡ (s, created false 0 [] false not_available)
unfolding create_context
create_context-stuck w spn s k = simp (ensure_connected-stuck w s k, k.off) refl

continue_context-stuck :
    (w : World) (id : ℕ) (challenge : List ℕ) (s : Provider)
    → IsStuck s
    → (continue_context w id challenge s).0 ≡ s
unfolding continue_context
continue_context-stuck w id challenge s k = simp (ensure_connected-stuck w s k, k.off) refl

close_context-stuck : (w : World) (id : ℕ) (s : Provider) → IsStuck s → close_context w id s ≡ s
unfolding close_context
close_context-stuck w id s k = simp (ensure_connected-stuck w s k, k.off) refl

step-stuck : (w : World) (c : Operation) (s : Provider) → IsStuck s → IsNotReset c → step w c s ≡ s
unfolding step IsNotReset keepalive
step-stuck w (create_call spn) s k n = ap (λ r. r.0) (create_context-stuck w spn s k)
step-stuck w (continue_call id challenge) s k n = continue_context-stuck w id challenge s k
step-stuck w (close_call id) s k n = close_context-stuck w id s k
step-stuck w keepalive_round s k n = simp (k.off, reconnect-stuck w s k) refl
step-stuck w warm_up s k n = ensure_connected-stuck w s k
step-stuck w reset_call s k n = elim n [ ]

run-stuck :
    (w : World) (cs : List Operation) (s : Provider)
    → IsStuck s
    → All IsNotReset cs
    → run w cs s ≡ s
unfolding run
run-stuck w [] s k n = refl
run-stuck w (c ∷ cs) s k n = rw (step-stuck w c s k n.0) (run-stuck w cs s k n.1)

broken-IsStuck :
    (w : World) (r : Request) (s : Provider) (h : ℕ)
    → s.pipe ≡ some h
    → w.replies (requested s.next_id r ∷ s.events) ≡ read_failed true
    → IsStuck (call w r s).0
unfolding call
broken-IsStuck w r s h held broken =
    rw (broken, call) (record { handle = h; held = held; off = refl })

create_context-connected :
    (w : World) (spn : List ℕ) (s : Provider)
    → s.connected ≡ true
    → (create_context w spn s).0 ≡ (call w (create_request spn) s).0
unfolding create_context ensure_connected
create_context-connected w spn s on = simp on refl

-- If a connected provider finds its pipe broken when it reads the answer to CreateContext, then no further
-- calls, as long as Reset is not one of them, and no rounds of the keepalive thread, change it in any way, and
-- every CreateContext is refused.
pub create_context-sticks :
    (w : World) (spn : List ℕ) (s : Provider) (h : ℕ) (cs : List Operation) (next : List ℕ)
    → s.pipe ≡ some h
    → s.connected ≡ true
    → w.replies (requested s.next_id (create_request spn) ∷ s.events) ≡ read_failed true
    → All IsNotReset cs
    → let t = (create_context w spn s).0 in
      (run w cs t ≡ t)
      × ((create_context w next (run w cs t)).1 ≡ created false 0 [] false not_available)
create_context-sticks w spn s h cs next held on broken n =
    let t = (call w (create_request spn) s).0 in
    let k = broken-IsStuck w (create_request spn) s h held broken in
    let same = run-stuck w cs t k n in
    let left = create_context-connected w spn s on in
    (rw (left) same, rw (left, same) (ap (λ r. r.1) (create_context-stuck w next t k)))
