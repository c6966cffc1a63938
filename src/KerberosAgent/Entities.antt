-- ===== src/KerberosAgent/Entities.antt =====
-- What the provider of infrastructure/auth/KerberosAgentProvider.cpp keeps, and what Windows, the pipe and the
-- JSON library answer.
use tcp_redirector.Prelude.{ℕ, Bool, List, Option}

-- A message to the agent.
pub data Request : Type 0 where
  hello ping : Request
  create_request : (spn : List ℕ) → Request
  continue_request : (context_id : ℕ) (challenge : List ℕ) → Request
  close_request : (context_id : ℕ) → Request

-- What the provider does.
pub data Event : Type 0 where
  waited : Event
  slept : (ms : ℕ) → Event
  pipe_opened pipe_closed : (handle : ℕ) → Event
  requested : (id : ℕ) (request : Request) → Event
  token_taken token_closed : (handle : ℕ) → Event
  environment_made environment_destroyed : (block : ℕ) → Event
  agent_started : Event

-- The answers of nlohmann::json on a response; an access that throws gives `none`. `resp["result"]` throws
-- unless the response is an object or null; a member that is missing it makes, with the value null, which the
-- accesses to its fields find then. `contains_version` that both tests of the version negotiation hold.
pub record Response : Type 0 where
  pub contains_error : Bool
  pub error_message : Option (List ℕ)
  pub is_object_or_null : Bool
  pub context_id : Option ℕ
  pub token : Option (List ℕ)
  pub needs_continue : Option Bool
  pub contains_version : Bool
  pub version : Option ℕ

-- How a request ends: WriteFile or ReadFile fails, the answer is no JSON, or there is a response. `broken`: the
-- error of ReadFile is ERROR_BROKEN_PIPE or ERROR_PIPE_NOT_CONNECTED.
pub data Reply : Type 0 where
  write_failed unreadable : Reply
  read_failed : (broken : Bool) → Reply
  answered : Response → Reply

-- WaitNamedPipeW: the pipe is free, it is busy until the time is over, or it is not there.
pub data Waiting : Type 0 where
  available busy missing : Waiting

-- The calls of LaunchAuthAgentInUserSession, with the clock at its begin and at its end.
pub record LaunchApi : Type 0 where
  pub now : ℕ
  pub session : ℕ
  pub user_token : Option ℕ
  pub dup_token : Option ℕ
  pub environment : Option ℕ
  pub process : Bool
  pub later : ℕ

-- The answers, given the events so far, the latest first. `what` is the text of an exception.
pub record World : Type 0 where
  pub waits : List Event → Waiting
  pub opens : List Event → Option ℕ
  pub sets_mode : List Event → Bool
  pub replies : List Event → Reply
  pub launches : List Event → LaunchApi
  pub what : List Event → List ℕ

-- s_launchInProgress and s_lastLaunchTime.
pub record Launcher : Type 0 where
  pub in_progress : Bool
  pub last_launch_time : ℕ

pub record Provider : Type 0 where
  pub pipe : Option ℕ
  pub connected : Bool
  pub version : ℕ
  pub next_id : ℕ
  pub launcher : Launcher
  pub events : List Event
