-- ===== src/KerberosAgent/Tests.antt =====
-- KerberosAgentProvider.cpp on small inputs.
use tcp_redirector.Prelude.{◌≡◌, ◌↔◌, true, false, List, [], ◌∷◌, All, none, some, refl}
use tcp_redirector.KerberosAgent.Entities.{
  create_request, pipe_opened, Response, read_failed, answered, available, busy, LaunchApi, World,
  Provider,
}
use tcp_redirector.KerberosAgent.Results.{create_result, not_available, created}
use tcp_redirector.KerberosAgent.{
  call, wait_for_pipe, negotiated, negotiate, connect_to_agent, reconnect, ensure_connected,
  create_context, Operation, create_call, close_call, keepalive_round, warm_up, reset_call, run,
  fresh,
}
use tcp_redirector.KerberosAgent.Books.{Books, run-Books}
use tcp_redirector.KerberosAgent.Stuck.{IsNotReset, create_context-sticks}
use tcp_redirector.KerberosAgent.Outcome.{Grants, create_context-success}

abbrev fine : Response
fine = record {
  contains_error = false;
  error_message = none;
  is_object_or_null = true;
  context_id = some 3;
  token = some (b'T' ∷ []);
  needs_continue = some true;
  contains_version = true;
  version = some 1;
}

-- A launch that starts the agent at 20 seconds.
abbrev launched : LaunchApi
launched = record {
  now = 20000000000;
  session = 1;
  user_token = some 51;
  dup_token = some 52;
  environment = some 53;
  process = true;
  later = 20000000001;
}

-- An agent that answers every request.
abbrev helpful : World
helpful = record {
  waits = λ es. available;
  opens = λ es. some 8;
  sets_mode = λ es. true;
  replies = λ es. answered fine;
  launches = λ es. launched;
  what = λ es. [];
}

-- Its pipe breaks when an answer is read, is busy, and cannot be opened.
abbrev lost : World
lost = record {
  waits = λ es. busy;
  opens = λ es. none;
  sets_mode = λ es. true;
  replies = λ es. read_failed true;
  launches = λ es. launched;
  what = λ es. [];
}

abbrev linked : Provider
linked = record {
  pipe = some 8;
  connected = true;
  version = 1;
  next_id = 2;
  launcher = record { in_progress = false; last_launch_time = 0 };
  events = pipe_opened 8 ∷ [];
}

token-helpful : (create_context helpful (b'H' ∷ []) fresh).1.token ≡ b'T' ∷ []
unfolding create_context ensure_connected reconnect connect_to_agent wait_for_pipe negotiate
    negotiated call create_result
token-helpful = refl

abbrev some_calls : List Operation
some_calls = create_call (b'H' ∷ []) ∷ keepalive_round ∷ close_call 3 ∷ reset_call ∷ warm_up ∷ []

run-Books_example : Books 8 (run helpful some_calls fresh)
run-Books_example = run-Books helpful some_calls 8

later_calls-IsNotReset : All IsNotReset (keepalive_round ∷ create_call [] ∷ [])
unfolding IsNotReset
later_calls-IsNotReset = (tt, (tt, tt))

create_context-sticks_example :
    let t = (create_context lost (b'H' ∷ []) linked).0 in
    (run lost (keepalive_round ∷ create_call [] ∷ []) t ≡ t)
    × ((create_context lost [] (run lost (keepalive_round ∷ create_call [] ∷ []) t)).1
        ≡ created false 0 [] false not_available)
create_context-sticks_example =
    create_context-sticks lost (b'H' ∷ []) linked 8 (keepalive_round ∷ create_call [] ∷ []) [] refl
      refl refl later_calls-IsNotReset

create_context-success_example : ((create_context helpful (b'H' ∷ []) fresh).1.success ≡ true) ↔ (
    ((ensure_connected helpful fresh).connected ≡ true)
    × Grants (call helpful (create_request (b'H' ∷ [])) (ensure_connected helpful fresh)).1)
create_context-success_example = create_context-success helpful (b'H' ∷ []) fresh
