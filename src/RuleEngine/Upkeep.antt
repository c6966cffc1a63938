-- ===== src/RuleEngine/Upkeep.antt =====
-- RuleEngine.h: how `AddRule`, `RemoveRule`, `UpdateRule` and `SetRules` change the rules.
use mathlib.Core.List.{Perm}
use mathlib.Core.List.Perm
use mathlib.Core.List.{perm_append_singleton}
use tcp_redirector.Prelude.{
  ℕ, ◌≡◌, ◌≢◌, refl, Bool, true, false, not, List, [], ◌∷◌, ◌++◌, All, if-cases, inl, inr, keep,
  leb_signed32, if◌then◌else◌, text_eq-eq, arith, sym, ◌∙◌, Bool-cases,
}
use tcp_redirector.RuleEngine.{
  Rule, Sorter, IsSorted, has_id, any_id, replace_first, add_rule, remove_rule, update_rule,
  set_rules, match_rules,
}
use tcp_redirector.RuleEngine.Decision.{Decides, match_rules-Decides}

All-keep : (P : Rule → Type 0) (p : Rule → Bool) (rs : List Rule) → All P rs → All P (keep p rs)
All-keep P p [] h = tt
All-keep P p (r ∷ rs) h = elim (Bool-cases (p r)) [
  | inl e ↦ rw e (h.0, All-keep P p rs h.1)
  | inr e ↦ rw e (All-keep P p rs h.1)
]

keep-IsSorted : (p : Rule → Bool) (rs : List Rule) → IsSorted rs → IsSorted (keep p rs)
keep-IsSorted p [] h = tt
keep-IsSorted p (r ∷ rs) h = elim (Bool-cases (p r)) [
  | inl e ↦
      rw e
        (All-keep (λ q. leb_signed32 r.priority q.priority ≡ true) p rs h.0, keep-IsSorted p rs h.1)
  | inr e ↦ rw e (keep-IsSorted p rs h.1)
]

-- The rules that bear an identifier.
abbrev pub with_id : List ℕ → List Rule → List Rule
with_id rule_id rules = keep (has_id rule_id) rules

has_id-eq : (i : List ℕ) (r : Rule) → has_id i r ≡ true → r.id ≡ i
unfolding has_id
has_id-eq i r h = text_eq-eq r.id i h

-- A rule with one identifier has no other.
has_id-other : (i j : List ℕ) (r : Rule) → i ≢ j → has_id i r ≡ true → has_id j r ≡ false
has_id-other i j r d h = elim (Bool-cases (has_id j r)) [
  | inl e ↦ absurd (d (sym (has_id-eq i r h) ∙ has_id-eq j r e))
  | inr e ↦ e
]

has_id-own : (j : List ℕ) (r : Rule) → r.id ≢ j → has_id j r ≡ false
has_id-own j r d = elim (Bool-cases (has_id j r)) [
  | inl e ↦ absurd (d (has_id-eq j r e))
  | inr e ↦ e
]

any_id-without : (i : List ℕ) (rs : List Rule) → any_id i (keep (λ r. not (has_id i r)) rs) ≡ false
unfolding any_id
any_id-without i [] = refl
any_id-without i (r ∷ rs) = ground (arith, any_id-without i rs)

with_id-without :
    (i j : List ℕ) (rs : List Rule)
    → i ≢ j
    → with_id j (keep (λ r. not (has_id i r)) rs) ≡ with_id j rs
with_id-without i j [] d = refl
with_id-without i j (r ∷ rs) d = ground (arith, with_id-without i j rs d, has_id-other i j r d)

with_id-replace :
    (rule : Rule) (j : List ℕ) (rs : List Rule)
    → rule.id ≢ j
    → with_id j (replace_first rule rs) ≡ with_id j rs
unfolding replace_first
with_id-replace rule j [] d = refl
with_id-replace rule j (r ∷ rs) d =
    ground (arith, with_id-replace rule j rs d, has_id-other rule.id j r d, has_id-own j rule d)

-- A call of a method that changes the rules.
pub data Change : Type 0 where
  adds updates : Rule → Change
  removes : List ℕ → Change
  loads : List Rule → Change

-- What it does.
abbrev pub changed : Sorter → List Rule → Change → List Rule
changed sorter rules (adds rule) = (add_rule sorter rules rule).0
changed sorter rules (updates rule) = (update_rule sorter rules rule).0
changed sorter rules (removes rule_id) = (remove_rule sorter rules rule_id).0
changed sorter rules (loads new) = set_rules sorter rules new

abbrev pub run : Sorter → List Rule → List Change → List Rule
run sorter rules [] = rules
run sorter rules (c ∷ cs) = run sorter (changed sorter rules c) cs

-- Every call keeps the rules in priority order.
pub changed-IsSorted :
    (sorter : Sorter) (rules : List Rule) (c : Change)
    → IsSorted rules
    → IsSorted (changed sorter rules c)
unfolding add_rule update_rule remove_rule set_rules
changed-IsSorted sorter rules (adds rule) h = sorter.sort-IsSorted (rules ++ rule ∷ [])
changed-IsSorted sorter rules (loads new) h = sorter.sort-IsSorted new
changed-IsSorted sorter rules (updates rule) h =
    if-cases (λ (p : List Rule × Bool). IsSorted p.0) (any_id rule.id rules)
      (sorter.sort-IsSorted (replace_first rule rules)) h
changed-IsSorted sorter rules (removes i) h =
    if-cases (λ (p : List Rule × Bool). IsSorted p.0) (any_id i rules)
      (keep-IsSorted (λ r. not (has_id i r)) rules h) h

run-IsSorted :
    (sorter : Sorter) (rules : List Rule) (cs : List Change)
    → IsSorted rules
    → IsSorted (run sorter rules cs)
run-IsSorted sorter rules [] h = h
run-IsSorted sorter rules (c ∷ cs) h =
    run-IsSorted sorter (changed sorter rules c) cs (changed-IsSorted sorter rules c h)

-- After any calls that change the rules of an engine that began empty, `Match` decides by priority: for
-- Direct if no rule applies, and else for the action of an applying rule such that no rule before it
-- applies and none after it has a smaller priority.
pub run-Decides :
    (sorter : Sorter) (cs : List Change) (name path : List ℕ)
    → Decides (run sorter [] cs) name path (match_rules (run sorter [] cs) name path)
run-Decides sorter cs name path =
    match_rules-Decides (run sorter [] cs) name path (run-IsSorted sorter [] cs tt)

-- `AddRule` succeeds, and the rules are the old ones and the new one, in some order.
pub add_rule-Perm :
    (sorter : Sorter) (rules : List Rule) (rule : Rule)
    → ((add_rule sorter rules rule).1 ≡ true) × Perm (add_rule sorter rules rule).0 (rule ∷ rules)
unfolding add_rule
add_rule-Perm sorter rules rule =
    (refl, Perm.trans (sorter.sort-perm (rules ++ rule ∷ [])) (perm_append_singleton rule rules))

-- `RemoveRule` reports whether a rule had the identifier; afterwards none has it, and those with
-- any one other identifier are the same, in the same order.
pub remove_rule_lem :
    (sorter : Sorter) (rules : List Rule) (i j : List ℕ)
    → i ≢ j
    → ((remove_rule sorter rules i).1 ≡ any_id i rules)
      × (any_id i (remove_rule sorter rules i).0 ≡ false)
      × (with_id j (remove_rule sorter rules i).0 ≡ with_id j rules)
unfolding remove_rule
remove_rule_lem sorter rules i j d = elim (Bool-cases (any_id i rules)) [
  | inl e ↦ rw e (refl, any_id-without i rules, with_id-without i j rules d)
  | inr e ↦ rw e (refl, e, refl)
]

-- `UpdateRule` reports whether a rule had the identifier; if so, the rules are, in some order, the
-- old ones with the first such rule replaced, and if not the old ones; and the replacement leaves
-- the rules with any one other identifier as they were, in the same order.
pub update_rule_lem :
    (sorter : Sorter) (rules : List Rule) (rule : Rule) (j : List ℕ)
    → rule.id ≢ j
    → ((update_rule sorter rules rule).1 ≡ any_id rule.id rules)
      × Perm
          (update_rule sorter rules rule).0
          (if any_id rule.id rules then replace_first rule rules else rules)
      × (with_id j (replace_first rule rules) ≡ with_id j rules)
unfolding update_rule
update_rule_lem sorter rules rule j d = elim (Bool-cases (any_id rule.id rules)) [
  | inl e ↦ rw e (refl, sorter.sort-perm (replace_first rule rules), with_id-replace rule j rules d)
  | inr e ↦ rw e (refl, Perm.refl rules, with_id-replace rule j rules d)
]
