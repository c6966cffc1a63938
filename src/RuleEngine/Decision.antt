-- ===== src/RuleEngine/Decision.antt =====
-- RuleEngine.h: the action that `Match` decides on.
use tcp_redirector.Prelude.{
  ℕ, ◌≡◌, ◌⊎◌, refl, sym, ◌∙◌, ap, inl, inr, true, false, List, [], ◌∷◌, ◌++◌, All, arith,
  Bool-cases, leb_signed32,
}
use mathlib.Core.Bool.{false≢true}
use tcp_redirector.RuleEngine.Wildcard.{Accepts, wildcard_match_iff}
use tcp_redirector.RuleEngine.{
  Rule, RuleType, RuleAction, direct, IsSorted, applies, covers, match_rules,
}

-- The rule is enabled, and is global or its pattern stands for the name or the path.
abbrev pub Covers : RuleType → List ℕ → List ℕ → List ℕ → Type 0
Covers RuleType.global pattern name path = Unit
Covers RuleType.process_name pattern name path = Accepts pattern name
Covers RuleType.process_path pattern name path = Accepts pattern path

abbrev pub Applies : List ℕ → List ℕ → Rule → Type 0
Applies name path rule = (rule.enabled ≡ true) × Covers rule.type rule.pattern name path

covers-Covers :
    (t : RuleType) (pattern name path : List ℕ)
    → covers t pattern name path ≡ true
    → Covers t pattern name path
unfolding covers
covers-Covers RuleType.global pattern name path h = tt
covers-Covers RuleType.process_name pattern name path h = (wildcard_match_iff pattern name).0 h
covers-Covers RuleType.process_path pattern name path h = (wildcard_match_iff pattern path).0 h

Covers-covers :
    (t : RuleType) (pattern name path : List ℕ)
    → Covers t pattern name path
    → covers t pattern name path ≡ true
unfolding covers
Covers-covers RuleType.global pattern name path h = refl
Covers-covers RuleType.process_name pattern name path h = (wildcard_match_iff pattern name).1 h
Covers-covers RuleType.process_path pattern name path h = (wildcard_match_iff pattern path).1 h

applies-Applies :
    (name path : List ℕ) (rule : Rule) → applies rule name path ≡ true → Applies name path rule
unfolding applies
applies-Applies name path rule h =
    (ground arith, covers-Covers rule.type rule.pattern name path (ground arith))

Applies-applies :
    (name path : List ℕ) (rule : Rule) → Applies name path rule → applies rule name path ≡ true
unfolding applies
Applies-applies name path rule h = rw (h.0, Covers-covers rule.type rule.pattern name path h.1) refl

misses-Applies :
    (name path : List ℕ) (rule : Rule) → applies rule name path ≡ false → ¬ Applies name path rule
misses-Applies name path rule e h = false≢true (sym e ∙ Applies-applies name path rule h)

-- No rule applies and the action is Direct, or it is that of a rule that applies, that stands below
-- only rules that do not apply, and whose priority is at most that of every later rule.
abbrev pub Decides : List Rule → List ℕ → List ℕ → RuleAction → Type 0
Decides rules name path action =
    (All (λ r. ¬ Applies name path r) rules × (action ≡ direct))
    ⊎ ((before : List Rule) × (rule : Rule) × (later : List Rule) × (rules ≡ before ++ rule ∷ later)
        × All (λ r. ¬ Applies name path r) before
        × Applies name path rule
        × (rule.action ≡ action)
        × All (λ q. leb_signed32 rule.priority q.priority ≡ true) later)

-- `Match` over rules in priority order, as the class keeps them, decides for Direct if no rule applies,
-- and else for the action of an applying rule such that no rule before it applies and none after it has
-- a smaller priority.
pub match_rules-Decides :
    (rules : List Rule) (name path : List ℕ)
    → IsSorted rules
    → Decides rules name path (match_rules rules name path)
unfolding match_rules
match_rules-Decides [] name path s = inl (tt, refl)
match_rules-Decides (rule ∷ rules) name path s = elim (Bool-cases (applies rule name path)) [
  | inl e ↦ rw e (inr ([], rule, rules, refl, tt, applies-Applies name path rule e, refl, s.0))
  | inr e ↦ rw e (below (match_rules-Decides rules name path s.1) e)
]
  where
    below :
        Decides rules name path (match_rules rules name path)
        → applies rule name path ≡ false
        → Decides (rule ∷ rules) name path (match_rules rules name path)
    below (inl (none_applies, d)) e = inl ((misses-Applies name path rule e, none_applies), d)
    below (inr (before, r, later, split, misses, hit, act, least)) e = inr (
      rule ∷ before,
      r,
      later,
      ap (λ t. rule ∷ t) split,
      (misses-Applies name path rule e, misses),
      hit,
      act,
      least,
    )
