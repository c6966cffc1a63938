-- ===== src/RuleEngine/Tests.antt =====
-- RuleEngine.h: small sets of rules.
use tcp_redirector.Prelude.{ℕ, ◌≡◌, ◌↔◌, true, List, [], ◌∷◌}
use tcp_redirector.RuleEngine.{Rule, RuleType, RuleAction, star, match_rules, wildcard_match}
use tcp_redirector.RuleEngine.Wildcard.{Accepts, wildcard_match_iff}
use tcp_redirector.RuleEngine.Decision.{Decides}
use tcp_redirector.RuleEngine.Sorting.{insertion_sorter}
use tcp_redirector.RuleEngine.Upkeep.{adds, run, run-Decides}

abbrev rule_of : ℕ → ℕ → List ℕ → RuleAction → Rule
rule_of id priority pattern action = record {
  id = id ∷ [];
  type = RuleType.process_name;
  action = action;
  pattern = pattern;
  description = [];
  priority = priority;
  enabled = true;
  created = 0;
  modified = 0;
}

-- `a*` to the proxy, below `ab` blocked.
abbrev wide : Rule
wide = rule_of 1 9 (97 ∷ star ∷ []) RuleAction.proxy

abbrev narrow : Rule
narrow = rule_of 2 3 (97 ∷ 98 ∷ []) RuleAction.block

run-Decides_example :
    Decides
      (run insertion_sorter [] (adds wide ∷ adds narrow ∷ []))
      (97 ∷ 98 ∷ [])
      []
      (match_rules (run insertion_sorter [] (adds wide ∷ adds narrow ∷ [])) (97 ∷ 98 ∷ []) [])
run-Decides_example = run-Decides insertion_sorter (adds wide ∷ adds narrow ∷ []) (97 ∷ 98 ∷ []) []

wildcard_match_iff_example :
    (wildcard_match (97 ∷ star ∷ []) (97 ∷ 98 ∷ []) ≡ true)
    ↔ Accepts (97 ∷ star ∷ []) (97 ∷ 98 ∷ [])
wildcard_match_iff_example = wildcard_match_iff (97 ∷ star ∷ []) (97 ∷ 98 ∷ [])
