-- ===== src/KerberosAgent/Launch.antt =====
-- LaunchAuthAgentInUserSession of infrastructure/auth/KerberosAgentProvider.cpp.
use tcp_redirector.Prelude.{
  ℕ, ◌-◌, Bool, false, ◌&&◌, List, ◌∷◌, Option, none, some, ltb, ◌==◌, if◌then◌else◌, u32_mod,
}
use tcp_redirector.KerberosAgent.Entities.{
  Event, token_taken, token_closed, environment_made, environment_destroyed, agent_started,
  LaunchApi, Launcher,
}

abbrev pub cooldown : ℕ
cooldown = 10000000000

unfoldable pub close_token : Option ℕ → List Event → List Event
close_token none es = es
close_token (some h) es = token_closed h ∷ es

unfoldable pub destroy_environment : Option ℕ → List Event → List Event
destroy_environment none es = es
destroy_environment (some b) es = environment_destroyed b ∷ es

-- What follows the label cleanup.
unfoldable pub clean : Option ℕ → Option ℕ → Option ℕ → List Event → List Event
unfolding close_token destroy_environment
clean environment dup user es =
    close_token user (close_token dup (destroy_environment environment es))

unfoldable pub make_environment : Option ℕ → List Event → List Event
make_environment none es = es
make_environment (some b) es = environment_made b ∷ es

-- From the session to cleanup: the events, and whether the agent was started.
unfoldable pub attempt : LaunchApi → List Event → List Event × Bool
unfolding clean make_environment
attempt a es =
    if a.session == u32_mod - 1 then (clean none none none es, false) else elim a.user_token [
      | none ↦ (clean none none none es, false)
      | some user ↦ elim a.dup_token [
        | none ↦ (clean none none (some user) (token_taken user ∷ es), false)
        | some dup ↦
            let made = make_environment a.environment (token_taken dup ∷ token_taken user ∷ es) in
            (
              clean a.environment (some dup) (some user)
                  (if a.process then agent_started ∷ made else made),
              a.process,
            )
      ]
    ]

unfoldable pub launch_agent : LaunchApi → List Event → Launcher → List Event × Launcher × Bool
unfolding attempt
launch_agent a es l =
    if ltb 0 l.last_launch_time && ltb (a.now - l.last_launch_time) cooldown
    then (es, l, false)
    else if l.in_progress
    then (es, l, false)
    else let r = attempt a es in
      (
        r.0,
        record {
          in_progress = false;
          last_launch_time = if r.1 then a.later else l.last_launch_time;
        },
        r.1,
      )
