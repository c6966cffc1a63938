-- ===== src/Relay/Tests.antt =====
-- TcpRelayServer.h: handlers at work, with a proxy that asks for Negotiate and then agrees, and one that
-- fails at first.
use tcp_redirector.ConnectionTable.Placement.{IsValid}
use tcp_redirector.ConnectionTable.{ConnectionTable, add}
use tcp_redirector.Prelude.{
  ℕ, ◌+◌, ◌≤◌, ◌≡◌, inl, Bool, true, false, List, [], ◌∷◌, ◌++◌, Option, none, some, All, arith,
  refl, leb, if◌then◌else◌, text_eq, starts_with, contains,
}
use tcp_redirector.Relay.Accept.{handle_new_connection, serve, serve-add}
use tcp_redirector.Relay.Bridged.{IsOk, last_reply, connection_handler_bridge}
use tcp_redirector.Relay.Gateway.{Serves, connection_handler_retries}
use tcp_redirector.Relay.Books.{
  tally, is_proxy_opened, is_proxy_closed, is_client_closed, is_bridge_started, is_resolved,
  is_freed, is_created, is_closed,
}
use tcp_redirector.Relay.Ledger.{connection_handler_closes, connection_handler_contexts}
use tcp_redirector.Relay.Replies.{
  is_connected, demands_auth, is_gateway_error, until_nul, parse_407_challenge, after?, line_of,
  trim_end, find_challenge, to_string, digits,
}
use tcp_redirector.Relay.Requests.{Names}
use tcp_redirector.Relay.Termination.{IsOver}
use tcp_redirector.Relay.Budget.{connections, requests, connection_handler-IsOver}
use tcp_redirector.Relay.{
  Server, World, Destination, Event, finished, sent, kerberos_agent, run, step, start, exchange,
  reach_proxy, authorize, auth_of, auth_line, answered, challenged, continue_context, try_again,
  succeed, close_context, is_empty, connection_handler,
}

abbrev ok_reply : List ℕ
ok_reply =
    b'H' ∷ b'T' ∷ b'T' ∷ b'P' ∷ b'/' ∷ b'1' ∷ b'.' ∷ b'1' ∷ b' ' ∷ b'2' ∷ b'0' ∷ b'0' ∷ b' ' ∷ b'O'
    ∷ b'K' ∷ []

abbrev gateway_reply : List ℕ
gateway_reply =
    b'H' ∷ b'T' ∷ b'T' ∷ b'P' ∷ b'/' ∷ b'1' ∷ b'.' ∷ b'1' ∷ b' ' ∷ b'5' ∷ b'0' ∷ b'2' ∷ b' ' ∷ b'B'
    ∷ b'a' ∷ b'd' ∷ []

abbrev auth_reply : List ℕ
auth_reply =
    b'H' ∷ b'T' ∷ b'T' ∷ b'P' ∷ b'/' ∷ b'1' ∷ b'.' ∷ b'1' ∷ b' ' ∷ b'4' ∷ b'0' ∷ b'7' ∷ []
    ++ 13
      ∷ 10
      ∷ (b'P' ∷ b'r' ∷ b'o' ∷ b'x' ∷ b'y' ∷ b'-' ∷ b'A' ∷ b'u' ∷ b't' ∷ b'h' ∷ b'e' ∷ b'n' ∷ b't'
          ∷ b'i' ∷ b'c' ∷ b'a' ∷ b't' ∷ b'e' ∷ b':' ∷ b' ' ∷ b'N' ∷ b'e' ∷ b'g' ∷ b'o' ∷ b't' ∷ b'i'
          ∷ b'a' ∷ b't' ∷ b'e' ∷ b' ' ∷ b'Y' ∷ b'I' ∷ b'I' ∷ b'=' ∷ [])
    ++ 13 ∷ 10 ∷ []

parse_407_challenge-auth_reply : parse_407_challenge auth_reply ≡ b'Y' ∷ b'I' ∷ b'I' ∷ b'=' ∷ []
unfolding parse_407_challenge find_challenge after? line_of trim_end starts_with
parse_407_challenge-auth_reply = refl

to_string-443 : to_string 443 ≡ b'4' ∷ b'4' ∷ b'3' ∷ []
unfolding to_string digits
to_string-443 = refl

abbrev is_sent : Event → Bool
is_sent (sent text) = true
is_sent _ = false

-- All calls succeed; the replies are given by the events.
abbrev world : (List Event → Option (List ℕ)) → World
world receives = record {
  resolves = true;
  opens = λ es. true;
  connects = λ es. true;
  sends = λ es. true;
  receives = receives;
  creates = λ es. record {
    success = true;
    context_id = 7;
    token = b'A' ∷ [];
    needs_continue = true;
    error_message = [];
  };
  continues = λ es challenge. record {
    success = true;
    token = b'B' ∷ [];
    needs_continue = false;
    error_message = [];
  };
  shared_token = λ es token. token;
  address_text = λ ip. b'1' ∷ [];
}

-- The first request is answered by 407, the others by 200.
abbrev negotiating : World
negotiating = world (λ es. some (if leb (tally is_sent es) 1 then auth_reply else ok_reply))

-- The first two connections fail at the gateway.
abbrev flaky : World
flaky = world (λ es. some (if leb (tally is_proxy_opened es) 2 then gateway_reply else ok_reply))

abbrev kerberos : Server
kerberos = record {
  proxy_host = b'p' ∷ [];
  proxy_auth_required = true;
  auth_provider = some kerberos_agent;
  monitored = true;
}

abbrev open_proxy : Server
open_proxy = record {
  proxy_host = b'p' ∷ [];
  proxy_auth_required = false;
  auth_provider = none;
  monitored = true;
}

abbrev target : Destination
target = record { dest_ip = 1; dest_port = 443 }

-- The handler sends two requests, with one context, and then starts the bridge.
negotiates :
    let events = (connection_handler kerberos negotiating target []).1.events in
    (tally is_sent events ≡ 2)
    × (tally (is_created 7) events ≡ 1)
    × (tally is_bridge_started events ≡ 1)
unfolding connection_handler run step start exchange reach_proxy authorize auth_of auth_line
    answered challenged continue_context try_again succeed close_context is_empty tally is_connected
    demands_auth until_nul text_eq contains starts_with parse_407_challenge find_challenge after?
    line_of trim_end
negotiates = (refl, refl, refl)

returns : (connection_handler kerberos negotiating target []).0 ≡ finished
unfolding connection_handler run step start exchange reach_proxy authorize auth_of auth_line
    answered challenged continue_context try_again succeed close_context is_empty tally is_connected
    demands_auth until_nul text_eq contains starts_with parse_407_challenge find_challenge after?
    line_of trim_end
returns = refl

connection_handler-IsOver_example :
    let e = connection_handler kerberos negotiating target [] in
    IsOver e.0 × (connections e.1.events ≤ 4) × (requests e.1.events ≤ 24)
connection_handler-IsOver_example = connection_handler-IsOver kerberos negotiating target []

connection_handler_closes_example :
    let events = (connection_handler kerberos negotiating target []).1.events in
    (tally is_client_closed events + tally is_bridge_started events ≡ 1)
    × (tally is_proxy_opened events ≡ tally is_proxy_closed events + tally is_bridge_started events)
    × (tally is_freed events ≡ tally is_resolved events)
connection_handler_closes_example = connection_handler_closes kerberos negotiating target [] returns

connection_handler_contexts_example :
    let events = (connection_handler kerberos negotiating target []).1.events in
    tally (is_created 7) events ≡ tally (is_closed 7) events
connection_handler_contexts_example =
    connection_handler_contexts kerberos negotiating target [] 7 returns

connection_handler_bridge_example :
    (reply : List ℕ) × (last_reply (connection_handler kerberos negotiating target []).1.events
      ≡ some reply)
    × IsOk reply
connection_handler_bridge_example =
    connection_handler_bridge kerberos negotiating target [] (omega (arith, negotiates.2))

flaky-Serves : Serves flaky 2 gateway_reply ok_reply
flaky-Serves = record {
  resolved = refl;
  opened = λ es. refl;
  connected = λ es. refl;
  sending = λ es. refl;
  answering = λ es. refl;
}

gateway_reply-fails : is_connected gateway_reply ≡ false
unfolding is_connected text_eq
gateway_reply-fails = refl

gateway_reply-is_gateway_error : is_gateway_error gateway_reply ≡ true
unfolding is_gateway_error contains starts_with
gateway_reply-is_gateway_error = refl

ok_reply-is_connected : is_connected ok_reply ≡ true
unfolding is_connected text_eq
ok_reply-is_connected = refl

open_proxy-plain : auth_of open_proxy ≡ none
unfolding auth_of
open_proxy-plain = refl

connection_handler_retries_example :
    tally is_bridge_started (connection_handler open_proxy flaky target []).1.events ≡ 1
connection_handler_retries_example =
    connection_handler_retries open_proxy flaky target [] 2 gateway_reply ok_reply open_proxy-plain
      flaky-Serves gateway_reply-fails gateway_reply-is_gateway_error ok_reply-is_connected

abbrev nothing : ConnectionTable
nothing = record { table = [] ∷ [] ∷ []; tracked_count = 0 }

nothing-IsValid : IsValid 2 nothing
nothing-IsValid = record {
  buckets = refl;
  placed = (tt, (tt, tt));
  counted = refl;
  bounded = omega arith;
}

serve-add_example :
    All
      (Names negotiating target)
      (serve kerberos negotiating [] (handle_new_connection 2 (add 2 nothing 5 10 1 443 0) true 5))
serve-add_example =
    serve-add 2 nothing 5 10 1 443 0 true kerberos negotiating [] (omega arith) nothing-IsValid
      (omega arith) (inl tt)
