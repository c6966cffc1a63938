-- ===== src/Capture/Verdicts.antt =====
-- WinDivertCapture.cpp: when `CheckProcessRule` sends a connection to the proxy.
use mathlib.Core.Path.{subst}
use tcp_redirector.Prelude.{
  ℕ, zero, suc, [], ◌∷◌, ◌≡◌, ◌≢◌, ◌⊎◌, refl, sym, true, false, List, none, some, ◌==◌, ==_iff,
  ==_refl, arith, Bool-cases, Option-cases, inl, inr,
}
use tcp_redirector.RuleEngine.{Rule, RuleAction, match_rules}
use tcp_redirector.Capture.Process.{
  Action, Os, Settings, Verdict, PidCacheEntry, check_process_rule, judge, by_rules, proxied,
  in_tree, is_empty, find_process, short_name, descends, max_depth, ProcessEntry,
  find_pid_by_source_port,
}

-- A proxy is configured.
abbrev pub HasProxy : Settings → Type 0
HasProxy c = (is_empty c.proxy_host ≡ false) × (c.proxy_port ≢ 0)

-- The rules answer the action for the process.
abbrev pub Answers : Settings → List ℕ → RuleAction → Type 0
Answers c path action =
    (rules : List Rule) × (c.rules ≡ some rules)
    × (match_rules rules (short_name path) path ≡ action)

-- There are no rules, or they answer Direct.
abbrev pub IsOpen : Settings → List ℕ → Type 0
IsOpen c path = (c.rules ≡ none) ⊎ Answers c path RuleAction.direct

-- The process stands in the list.
unfoldable pub Has : ProcessEntry → List ProcessEntry → Type 0
Has p [] = ⊥
Has p (q ∷ ps) = (q ≡ p) ⊎ Has p ps

-- A process of the snapshot is the target or has a parent, by its parent's identifier, that descends from it.
pub data Descends (ps : List ProcessEntry) (target : ℕ) : ℕ → Type 0 where
  itself : (p : ProcessEntry) → Has p ps → p.process_id ≡ target → Descends ps target p.process_id
  below :
      (p : ProcessEntry)
      → Has p ps
      → Descends ps target p.parent_id
      → Descends ps target p.process_id

-- A target process is known, and the process descends from it in a snapshot.
abbrev pub IsBelow : Os → ℕ → ℕ → Type 0
IsBelow os target pid =
    (target ≢ 0) × ((ps : List ProcessEntry) × (os.snapshot ≡ some ps) × Descends ps target pid)

-- The rules answer Proxy, or they leave the decision open and the path is that of the target process or the
-- process descends from it.
abbrev pub Wanted : Settings → Os → ℕ → ℕ → List ℕ → Type 0
Wanted c os target pid path =
    Answers c path RuleAction.proxy
    ⊎ (IsOpen c path × (os.same_text path c.target_path ≡ true))
    ⊎ (IsOpen c path × IsBelow os target pid)

action_cases :
    (a : RuleAction) → (a ≡ RuleAction.proxy) ⊎ (a ≡ RuleAction.direct) ⊎ (a ≡ RuleAction.block)
action_cases RuleAction.proxy = inl refl
action_cases RuleAction.direct = inr (inl refl)
action_cases RuleAction.block = inr (inr refl)

by_rules-Answers :
    (c : Settings) (path : List ℕ)
    → by_rules c path ≡ some Action.proxy
    → Answers c path RuleAction.proxy
unfolding by_rules proxied
by_rules-Answers c path h = elim (Option-cases c.rules) [
  | inl e ↦ absurd (ground arith)
  | inr (rules, e) ↦ (
    rules,
    e,
    elim (action_cases (match_rules rules (short_name path) path)) [
      | inl m ↦ m
      | inr (inl m) ↦ absurd (ground arith)
      | inr (inr m) ↦ absurd (ground arith)
    ],
  )
]

by_rules-IsOpen : (c : Settings) (path : List ℕ) → by_rules c path ≡ none → IsOpen c path
unfolding by_rules
by_rules-IsOpen c path h = elim (Option-cases c.rules) [
  | inl e ↦ inl e
  | inr (rules, e) ↦ inr (
    rules,
    e,
    elim (action_cases (match_rules rules (short_name path) path)) [
      | inl m ↦ absurd (ground arith)
      | inr (inl m) ↦ m
      | inr (inr m) ↦ absurd (ground arith)
    ],
  )
]

find_process-Has :
    (ps : List ProcessEntry) (pid : ℕ) (p : ProcessEntry)
    → find_process ps pid ≡ some p
    → Has p ps × (p.process_id ≡ pid)
unfolding find_process Has
find_process-Has [] pid p h = absurd (cc h)
find_process-Has (q ∷ ps) pid p h = elim (Bool-cases (q.process_id == pid)) [
  | inl e ↦
      let same : q ≡ p = ground arith in
      (subst (λ x. Has x (q ∷ ps)) same (inl refl), ground (arith, same, ==_iff q.process_id pid))
  | inr e ↦ let (m, f) = find_process-Has ps pid p (ground arith) in (inr m, f)
]

descends-Descends :
    (fuel : ℕ) (ps : List ProcessEntry) (target pid : ℕ)
    → descends fuel ps target pid ≡ true
    → Descends ps target pid
unfolding descends
descends-Descends zero ps target pid h = absurd (cc h)
descends-Descends (suc fuel) ps target pid h = elim (Option-cases (find_process ps pid)) [
  | inl e ↦ absurd (ground arith)
  | inr (p, e) ↦
      let (m, f) = find_process-Has ps pid p e in
      subst (Descends ps target) f (elim (Bool-cases (p.process_id == target)) [
        | inl g ↦ itself p m ((==_iff p.process_id target).0 g)
        | inr g ↦ below p m (descends-Descends fuel ps target p.parent_id (ground arith))
      ])
]

in_tree-IsBelow : (os : Os) (target pid : ℕ) → in_tree os target pid ≡ true → IsBelow os target pid
unfolding in_tree
in_tree-IsBelow os target pid h =
    let nonzero : target ≢ 0 = ground (arith, ==_refl target) in
    elim (Option-cases os.snapshot) [
      | inl e ↦ absurd (ground arith)
      | inr (ps, e) ↦ (nonzero, (ps, e, descends-Descends max_depth ps target pid (ground arith)))
    ]

proxied-HasProxy : (c : Settings) → proxied c ≡ Action.proxy → HasProxy c
unfolding proxied
proxied-HasProxy c h = (ground arith, ground (arith, ==_iff c.proxy_port 0))

by_rules-HasProxy :
    (c : Settings) (path : List ℕ) → by_rules c path ≡ some Action.proxy → HasProxy c
unfolding by_rules
by_rules-HasProxy c path h = elim (Option-cases c.rules) [
  | inl e ↦ absurd (ground arith)
  | inr (rules, e) ↦ proxied-HasProxy c (ground arith)
]

judge-proxy :
    (c : Settings) (os : Os) (target pid : ℕ) (path : List ℕ)
    → (judge c os target pid path).0 ≡ Action.proxy
    → Wanted c os target pid path × HasProxy c
unfolding judge
judge-proxy c os target pid path h = elim (Option-cases (by_rules c path)) [
  | inr (a, e) ↦
      let r : by_rules c path ≡ some Action.proxy = ground arith in
      (inl (by_rules-Answers c path r), by_rules-HasProxy c path r)
  | inl e ↦ elim (Bool-cases (os.same_text path c.target_path)) [
    | inl f ↦ (inr (inl (by_rules-IsOpen c path e, f)), proxied-HasProxy c (ground arith))
    | inr f ↦ elim (Bool-cases (in_tree os target pid)) [
      | inl g ↦ (
        inr (inr (by_rules-IsOpen c path e, in_tree-IsBelow os target pid g)),
        proxied-HasProxy c (ground arith),
      )
      | inr g ↦ absurd (ground arith)
    ]
  ]
]

-- What a verdict for the proxy rests on.
abbrev pub Grounds : Settings → Os → ℕ → Verdict → Type 0
Grounds c os target v =
    (v.pid ≢ 0)
    × (v.pid ≢ os.own_id)
    × (os.image_path v.pid ≡ some v.path)
    × Wanted c os target v.pid v.path
    × HasProxy c

abbrev Justified : Settings → Os → ℕ → Verdict → Type 0
Justified c os target v = v.action ≡ Action.proxy → Grounds c os target v

-- The verdict on a process that was found, is another one, and has a path.
abbrev verdict_on : Settings → Os → ℕ → List PidCacheEntry → ℕ → List ℕ → Verdict
verdict_on c os target cache port path =
    let found = find_pid_by_source_port cache os port in
    record {
      action = (judge c os target found.0 path).0;
      pid = found.0;
      path = path;
      target_pid = (judge c os target found.0 path).1;
      pid_cache = found.1;
    }

known :
    (c : Settings) (os : Os) (target : ℕ) (cache : List PidCacheEntry) (port : ℕ) (path : List ℕ)
    → let found = find_pid_by_source_port cache os port in
      (found.0 == 0) ≡ false
      → (found.0 == os.own_id) ≡ false
      → os.image_path found.0 ≡ some path
      → check_process_rule c os target cache port ≡ verdict_on c os target cache port path
unfolding check_process_rule
known c os target cache port path e f g = simp (e, f, g, check_process_rule) refl

known_verdict :
    (c : Settings) (os : Os) (target : ℕ) (cache : List PidCacheEntry) (port : ℕ) (path : List ℕ)
    → let found = find_pid_by_source_port cache os port in
      (found.0 == 0) ≡ false
      → (found.0 == os.own_id) ≡ false
      → os.image_path found.0 ≡ some path
      → Justified c os target (verdict_on c os target cache port path)
known_verdict c os target cache port path e f g h =
    let pid = (find_pid_by_source_port cache os port).0 in
    let (wanted, proxy) = judge-proxy c os target pid path h in
    (ground (arith, ==_refl pid), ground (arith, ==_refl pid), g, wanted, proxy)

verdict-Justified :
    (c : Settings) (os : Os) (target : ℕ) (cache : List PidCacheEntry) (port : ℕ)
    → Justified c os target (check_process_rule c os target cache port)
unfolding check_process_rule
verdict-Justified c os target cache port =
    let found = find_pid_by_source_port cache os port in
    elim (Bool-cases (found.0 == 0)) [
      | inl e ↦ rw (e, check_process_rule) (λ h. cc)
      | inr e ↦ elim (Bool-cases (found.0 == os.own_id)) [
        | inl f ↦ rw (e, f, check_process_rule) (λ h. cc)
        | inr f ↦ elim (Option-cases (os.image_path found.0)) [
          | inl g ↦ rw (e, f, check_process_rule) (rw g (λ h. cc))
          | inr (path, g) ↦
              subst (Justified c os target) (sym (known c os target cache port path e f g))
                (known_verdict c os target cache port path e f g)
        ]
      ]
    ]

-- If the check sends a connection to the proxy, a proxy is configured, the process was found, is
-- not the service itself and has the path of the verdict, and the rules ask for the proxy, or they
-- leave the decision open and the path is that of the target process or the process descends from
-- it.
pub check_process_rule-proxy :
    (c : Settings) (os : Os) (target : ℕ) (cache : List PidCacheEntry) (port : ℕ)
    → (check_process_rule c os target cache port).action ≡ Action.proxy
    → Grounds c os target (check_process_rule c os target cache port)
check_process_rule-proxy c os target cache port = verdict-Justified c os target cache port
