-- ===== src/Driver/Ioctl/Rules.antt =====
-- IoctlHandler.c: IOCTL_REDIRECTOR_SET_RULES.
use tcp_redirector.Prelude.{
  ℕ, zero, suc, ◌+◌, ◌/◌, ◌%◌, ◌<◌, ◌≡◌, inl, inr, refl, ap, sym, ◌∙◌, some, lt→ltb, List, [], ◌∷◌,
  ◌++◌, arith, Bool-cases, Bool, true, false, u32_mod, append_assoc, append-nil,
}
use tcp_redirector.Driver.Entities.{
  RuleEntry, Block, tag_lrrt, status_success, status_insufficient_resources,
}
use tcp_redirector.Driver.Service.{RedirectService, clear_rules, add_rule, free_all}
use tcp_redirector.Driver.Ioctl.{Irp, sizeof_rule_entry, add_rules, set_rules}

-- The rules at the places from `i` on, as the list holds them.
abbrev pub blocks : ℕ → ℕ → (ℕ → RuleEntry) → List (Block RuleEntry)
blocks zero i rules = []
blocks (suc n) i rules = record { tag = tag_lrrt; body = rules i } ∷ blocks n (i + 1) rules

-- `k` of `n` rules were added: all, with STATUS_SUCCESS, or those before the first refused
-- allocation, with STATUS_INSUFFICIENT_RESOURCES.
pub data Added (n i k : ℕ) (allocated : ℕ → Bool) (status : ℕ) : Type 0 where
  all : k ≡ n → status ≡ status_success → Added n i k allocated status
  stopped :
      k < n
      → allocated (i + k) ≡ false
      → status ≡ status_insufficient_resources
      → Added n i k allocated status

abbrev AddsRules :
    ℕ → ℕ → (ℕ → RuleEntry) → (ℕ → Bool) → RedirectService → RedirectService × ℕ → Type 0
AddsRules n i rules allocated s r =
    (k : ℕ) × Added n i k allocated r.1
    × (r.0.rules_list ≡ s.rules_list ++ blocks k i rules)
    × (r.0.rules_count % u32_mod ≡ (s.rules_count + k) % u32_mod)

Added-suc :
    (n i k : ℕ) (allocated : ℕ → Bool) (status : ℕ)
    → Added n (i + 1) k allocated status
    → Added (suc n) i (suc k) allocated status
Added-suc n i k allocated status (all e h) = all (ap suc e) h
Added-suc n i k allocated status (stopped lt refused h) =
    let e : i + suc k ≡ i + 1 + k = omega arith in stopped (omega arith) (rw e refused) h

add_rules_lem :
    (n i : ℕ) (rules : ℕ → RuleEntry) (allocated : ℕ → Bool) (s : RedirectService)
    → AddsRules n i rules allocated s (add_rules n i rules allocated s)
unfolding add_rules add_rule
add_rules_lem zero i rules allocated s =
    (0, all refl refl, ground (arith, append-nil s.rules_list), ground arith)
add_rules_lem (suc n) i rules allocated s = elim (Bool-cases (allocated i)) [
  | inl e ↦
      let s' = (add_rule s (some (rules i)) true).0 in
      let (k, added, list, count) = add_rules_lem n (i + 1) rules allocated s' in
      rw e (
        suc k,
        Added-suc n i k allocated (add_rules n (i + 1) rules allocated s').1 added,
        list ∙ append_assoc s.rules_list (record { tag = tag_lrrt; body = rules i } ∷ []) _,
        omega arith,
      )
  | inr e ↦
      let e' : i + 0 ≡ i = omega arith in
      rw e (0, stopped (omega arith) (rw e' e) refl, sym (append-nil s.rules_list), omega arith)
]

-- SET_RULES with at least one whole rule first drops the old rules. With every allocation granted the
-- new rules, in order, are then all the rules, and the status is STATUS_SUCCESS; at the first refusal
-- only the new rules before it are left, and the status is STATUS_INSUFFICIENT_RESOURCES. The old
-- rules' blocks are freed in both cases.
pub set_rules_lem :
    (s : RedirectService) (irp : Irp) (allocated : ℕ → Bool)
    → 0 < irp.input_length / sizeof_rule_entry
    → let r = set_rules s irp allocated in
      (k : ℕ) × Added (irp.input_length / sizeof_rule_entry) 0 k allocated r.1.status
      × (r.0.rules_list ≡ blocks k 0 irp.input_rules)
      × (r.0.rules_count % u32_mod ≡ k % u32_mod)
      × (r.1.freed_rules ≡ free_all tag_lrrt s.rules_list)
unfolding set_rules clear_rules
set_rules_lem s irp allocated h =
    let n = irp.input_length / sizeof_rule_entry in
    let cleared : RedirectService = record s { rules_list = []; rules_count = 0 } in
    let (k, added, list, count) = add_rules_lem n 0 irp.input_rules allocated cleared in
    rw (lt→ltb 0 n h) (k, added, list, omega arith, refl)
