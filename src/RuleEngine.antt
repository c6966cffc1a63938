-- ===== src/RuleEngine.antt =====
-- service/.../domain/services/RuleEngine.h, with the rules of domain/entities/ProxyConfig.h. Texts are
-- lists of code units; the locks make each method one step. `std::sort` leaves the order of equal
-- priorities open: the class takes it as a `Sorter`.
pub mod Wildcard
pub mod Decision
pub mod Upkeep
pub mod Sorting
mod Tests
use mathlib.Core.List.{Perm}
use tcp_redirector.Prelude.{
  ℕ, ◌≡◌, Bool, true, false, not, ◌&&◌, ◌||◌, List, [], ◌∷◌, ◌++◌, none, some, length, All, keep,
  leb, ◌==◌, leb_signed32, if◌then◌else◌, contains, starts_with, text_eq, last?, init,
  ends_with_text,
}

pub data RuleType : Type 0 where
  process_name process_path global : RuleType

pub data RuleAction : Type 0 where
  proxy direct block : RuleAction

-- `priority` is an int, given by its bit pattern.
pub record Rule : Type 0 where
  pub id : List ℕ
  pub type : RuleType
  pub action : RuleAction
  pub pattern : List ℕ
  pub description : List ℕ
  pub priority : ℕ
  pub enabled : Bool
  pub created : ℕ
  pub modified : ℕ

-- `L'*'`.
abbrev pub star : ℕ
star = b'*'

front_is_star : List ℕ → Bool
front_is_star [] = false
front_is_star (c ∷ cs) = c == star

back_is_star : List ℕ → Bool
unfolding last?
back_is_star text = elim (last? text) [ none ↦ false | some c ↦ c == star ]

-- `pattern.substr(1)`.
tail : List ℕ → List ℕ
tail [] = []
tail (c ∷ cs) = cs

-- The empty pattern occurs in every text, so `front` and `back` are read of a pattern with a unit.
unfoldable pub wildcard_match : List ℕ → List ℕ → Bool
unfolding front_is_star back_is_star tail text_eq contains starts_with init ends_with_text
wildcard_match pattern text =
    if text_eq pattern (star ∷ [])
    then true
    else if contains pattern text
    then true
    else if leb 2 (length pattern) && (front_is_star pattern && back_is_star pattern)
    then contains (init (tail pattern)) text
    else if back_is_star pattern
    then starts_with (init pattern) text
    else if front_is_star pattern && leb (length (tail pattern)) (length text)
    then ends_with_text (tail pattern) text
    else text_eq pattern text

-- The switch on the rule's type in the loop of `Match`.
unfoldable covers : RuleType → List ℕ → List ℕ → List ℕ → Bool
unfolding wildcard_match
covers global pattern name path = true
covers process_name pattern name path = wildcard_match pattern name
covers process_path pattern name path = wildcard_match pattern path

-- Whether the loop of `Match` returns at a rule.
unfoldable applies : Rule → List ℕ → List ℕ → Bool
unfolding covers
applies rule name path = rule.enabled && covers rule.type rule.pattern name path

unfoldable pub match_rules : List Rule → List ℕ → List ℕ → RuleAction
unfolding applies
match_rules [] name path = direct
match_rules (rule ∷ rules) name path =
    if applies rule name path then rule.action else match_rules rules name path

is_proxy : RuleAction → Bool
is_proxy proxy = true
is_proxy direct = false
is_proxy block = false

unfoldable pub should_redirect : List Rule → List ℕ → List ℕ → Bool
unfolding match_rules is_proxy
should_redirect rules name path = is_proxy (match_rules rules name path)

-- The rules stand in the order of their priorities.
abbrev pub IsSorted : List Rule → Type 0
IsSorted [] = Unit
IsSorted (r ∷ rs) = All (λ q. leb_signed32 r.priority q.priority ≡ true) rs × IsSorted rs

-- What the standard says of `std::sort` by `a.priority < b.priority`.
pub record Sorter : Type 0 where
  pub sort : List Rule → List Rule
  pub sort-perm : (rules : List Rule) → Perm (sort rules) rules
  pub sort-IsSorted : (rules : List Rule) → IsSorted (sort rules)

unfoldable has_id : List ℕ → Rule → Bool
unfolding text_eq
has_id rule_id r = text_eq r.id rule_id

unfoldable any_id : List ℕ → List Rule → Bool
unfolding has_id
any_id rule_id [] = false
any_id rule_id (r ∷ rs) = has_id rule_id r || any_id rule_id rs

-- The first rule with the identifier of `rule` becomes `rule`.
unfoldable replace_first : Rule → List Rule → List Rule
unfolding has_id
replace_first rule [] = []
replace_first rule (r ∷ rs) = if has_id rule.id r then rule ∷ rs else r ∷ replace_first rule rs

module _ (sorter : Sorter) where
  unfoldable pub add_rule : List Rule → Rule → List Rule × Bool
  add_rule rules rule = (sorter.sort (rules ++ rule ∷ []), true)

  unfoldable pub remove_rule : List Rule → List ℕ → List Rule × Bool
  unfolding has_id any_id
  remove_rule rules rule_id =
      if any_id rule_id rules
      then (keep (λ r. not (has_id rule_id r)) rules, true)
      else (rules, false)

  unfoldable pub update_rule : List Rule → Rule → List Rule × Bool
  unfolding any_id replace_first
  update_rule rules rule =
      if any_id rule.id rules
      then (sorter.sort (replace_first rule rules), true)
      else (rules, false)

  unfoldable pub set_rules : List Rule → List Rule → List Rule
  set_rules old rules = sorter.sort rules
