-- ===== src/Relay/Cases.antt =====
-- TcpRelayServer.h: the ways through one exchange with the proxy, as rules for any property of its end.
use tcp_redirector.Prelude.{ℕ, ◌≡◌, true, List, Bool-cases, Option-cases, inl, inr}
use tcp_redirector.Relay.{
  Server, World, Destination, Run, Point, AuthProviderType, thrown, is_empty, happen, sent,
  received, give_up, auth_of, authorize, connect_request, succeed, challenged, refused, answered,
  exchange,
}
use tcp_redirector.Relay.Replies.{is_connected, demands_auth}

module _ {κ} (P : Point × Run → Type κ) (s : Server) (w : World) where
  pub answered-cases :
      (r : Run) (reply : List ℕ)
      → (is_connected reply ≡ true → P (succeed s r))
      → P (refused s r reply)
      → ((kind : AuthProviderType) → P (challenged s w kind r.context r reply))
      → P (answered s w r reply)
  unfolding answered
  answered-cases r reply ok other auth = elim (Bool-cases (is_connected reply)) [
    | inl e ↦ rw e (ok e)
    | inr e ↦ rw e (elim (Bool-cases (demands_auth reply)) [
      | inl f ↦ rw f (elim (Option-cases (auth_of s)) [
        | inl n ↦ rw n other
        | inr (kind, k) ↦ rw k (auth kind)
      ])
      | inr f ↦ rw f other
    ])
  ]

  pub exchange-cases :
      (d : Destination) (r : Run)
      → let (ready, line) = authorize s w r in
        let asked = happen (sent (connect_request w d line)) ready in
        P (give_up s ready)
        → P (give_up s asked)
        → P (thrown, asked)
        → ((reply : List ℕ) → P (answered s w (happen (received reply) asked) reply))
        → P (exchange s w d r)
  unfolding exchange
  exchange-cases d r unsent lost error answer =
      let ready = (authorize s w r).0 in
      let asked = happen (sent (connect_request w d (authorize s w r).1)) ready in
      elim (Bool-cases (w.sends ready.events)) [
        | inl e ↦ rw e (elim (Option-cases (w.receives asked.events)) [
          | inl n ↦ rw n error
          | inr (reply, o) ↦ rw o (elim (Bool-cases (is_empty reply)) [
            | inl b ↦ rw b lost
            | inr b ↦ rw b (answer reply)
          ])
        ])
        | inr e ↦ rw e unsent
      ]
