-- ===== src/Driver/Service/Rules.antt =====
-- RedirectService.c: the rules cache and the process that a rule is matched against.
use tcp_redirector.Prelude.{
  ℕ, ◌≡◌, ◌⊎◌, refl, ap, List, [], ◌∷◌, ◌++◌, some, All, arith, inl, inr, true, false, Option-cases,
  Bool-cases, c_str, Occurs, contains-Occurs, Occurs-contains,
}
use tcp_redirector.Driver.Entities.{RuleEntry, RuleAction, permit, Block, ProcessIdentity}
use tcp_redirector.Driver.Service.{RedirectService, match_from, match_rule, wcsstr_found, rule_text}

-- The rule is the wildcard, or its pattern occurs in the name or path that it looks at.
abbrev pub Matches : RuleEntry → ProcessIdentity → Type 0
Matches rule process =
    (rule.is_wildcard ≡ true)
    ⊎ ((text : List ℕ) × (pattern : List ℕ) × (c_str (rule_text rule process) ≡ some text)
        × (c_str rule.pattern ≡ some pattern)
        × Occurs pattern text)

abbrev pub Misses : ProcessIdentity → Block RuleEntry → Type 0
Misses process b = ¬ Matches b.body process

-- The first rule of the list that matches has the action, or none matches and it is `permit`.
abbrev pub Decides : List (Block RuleEntry) → ProcessIdentity → RuleAction → Type 0
Decides rules process action =
    (All (Misses process) rules × (action ≡ permit))
    ⊎ ((before : List (Block RuleEntry)) × (rule : Block RuleEntry) × (later : List
          (Block RuleEntry))
        × (rules ≡ before ++ rule ∷ later)
        × All (Misses process) before
        × Matches rule.body process
        × (rule.body.action ≡ action))

wcsstr_found-true :
    (text pattern : List ℕ)
    → wcsstr_found text pattern ≡ some true
    → (t : List ℕ) × (p : List ℕ) × (c_str text ≡ some t) × (c_str pattern ≡ some p) × Occurs p t
unfolding wcsstr_found
wcsstr_found-true text pattern h = elim (Option-cases (c_str text)) [
  | inl e ↦ absurd (ground arith)
  | inr (t, e) ↦ elim (Option-cases (c_str pattern)) [
    | inl f ↦ absurd (ground arith)
    | inr (p, f) ↦ (t, p, e, f, contains-Occurs p t (ground arith))
  ]
]

wcsstr_found-Occurs :
    (text pattern t p : List ℕ)
    → c_str text ≡ some t
    → c_str pattern ≡ some p
    → Occurs p t
    → wcsstr_found text pattern ≡ some true
unfolding wcsstr_found
wcsstr_found-Occurs text pattern t p e f o = ground (arith, Occurs-contains p t o)

not_found :
    (b : Block RuleEntry) (process : ProcessIdentity)
    → b.body.is_wildcard ≡ false
    → wcsstr_found (rule_text b.body process) b.body.pattern ≡ some false
    → Misses process b
not_found b process tame e (inl wild) = cc
not_found b process tame e (inr (t, p, et, ep, o)) =
    cc (wcsstr_found-Occurs (rule_text b.body process) b.body.pattern t p et ep o)

skip :
    (b : Block RuleEntry) (rules : List (Block RuleEntry)) (process : ProcessIdentity)
    (a : RuleAction)
    → Misses process b
    → Decides rules process a
    → Decides (b ∷ rules) process a
skip b rules process a miss (inl (all, e)) = inl ((miss, all), e)
skip b rules process a miss (inr (before, rule, later, e, all, hit, act)) =
    inr (b ∷ before, rule, later, ap (λ t. b ∷ t) e, (miss, all), hit, act)

match_from-Decides :
    (rules : List (Block RuleEntry)) (process : ProcessIdentity) (a : RuleAction)
    → match_from rules process ≡ some a
    → Decides rules process a
unfolding match_from
match_from-Decides [] process a h = inl (tt, (ground arith))
match_from-Decides (b ∷ rules) process a h = elim (Bool-cases b.body.is_wildcard) [
  | inl wild ↦ inr ([], b, rules, refl, tt, inl wild, (ground arith))
  | inr tame ↦ elim (Option-cases (wcsstr_found (rule_text b.body process) b.body.pattern)) [
    | inl e ↦ absurd (ground arith)
    | inr (true, e) ↦ inr (
      [],
      b,
      rules,
      refl,
      tt,
      inr (wcsstr_found-true (rule_text b.body process) b.body.pattern e),
      (ground arith),
    )
    | inr (false, e) ↦
        skip b rules process a (not_found b process tame e)
          (match_from-Decides rules process a (ground arith))
  ]
]

-- If the match reads no array past its end, its action is that of the first rule, in list order,
-- that is a wildcard or whose pattern occurs in the name or path it looks at, and `permit` if none.
pub match_rule-Decides :
    (s : RedirectService) (process : ProcessIdentity) (a : RuleAction)
    → match_rule s process ≡ some a
    → Decides s.rules_list process a
unfolding match_rule
match_rule-Decides s process a h = match_from-Decides s.rules_list process a h
