-- ===== src/KerberosAgent/Cooldown.antt =====
-- LaunchAuthAgentInUserSession: after a start of the agent none follows for ten seconds.
use tcp_redirector.Prelude.{◌+◌, ◌<◌, ◌≡◌, true, false, List, [], ◌∷◌, All, arith, refl}
use tcp_redirector.KerberosAgent.Entities.{Event, LaunchApi, Launcher}
use tcp_redirector.KerberosAgent.Launch.{launch_agent, cooldown}

-- Calls one after another.
unfoldable pub launches : List LaunchApi → List Event → Launcher → List Event × Launcher
launches [] es l = (es, l)
launches (a ∷ bs) es l = let r = launch_agent a es l in launches bs r.0 r.1

launch_agent-waits :
    (a : LaunchApi) (es : List Event) (l : Launcher)
    → 0 < l.last_launch_time
    → a.now < l.last_launch_time + cooldown
    → launch_agent a es l ≡ (es, l, false)
unfolding launch_agent
launch_agent-waits a es l some_time soon = ground arith

launches-wait :
    (bs : List LaunchApi) (es : List Event) (l : Launcher)
    → 0 < l.last_launch_time
    → All (λ b. b.now < l.last_launch_time + cooldown) bs
    → launches bs es l ≡ (es, l)
unfolding launches
launches-wait [] es l some_time soon = refl
launches-wait (b ∷ bs) es l some_time soon =
    rw (launch_agent-waits b es l some_time soon.0) (launches-wait bs es l some_time soon.1)

launched-at :
    (a : LaunchApi) (es : List Event) (l : Launcher)
    → (launch_agent a es l).2 ≡ true
    → (launch_agent a es l).1.last_launch_time ≡ a.later
unfolding launch_agent
launched-at a es l h = ground arith

-- After a call that started the agent, at a time that is not zero, the calls that begin within ten seconds of
-- that time, one after another, do nothing.
pub launches-cooldown :
    (a : LaunchApi) (bs : List LaunchApi) (es : List Event) (l : Launcher)
    → (launch_agent a es l).2 ≡ true
    → 0 < a.later
    → All (λ b. b.now < a.later + cooldown) bs
    → let r = launch_agent a es l in launches bs r.0 r.1 ≡ (r.0, r.1)
launches-cooldown a bs es l started some_time soon =
    let at = launched-at a es l started in
    let r = launch_agent a es l in launches-wait bs r.0 r.1 (rw at some_time) (rw at soon)
