-- ===== src/Driver/Ioctl/Requests.antt =====
-- IoctlHandler.c: every request keeps the service valid.
use tcp_redirector.Prelude.{
  ℕ, zero, suc, ◌+◌, refl, [], ◌∷◌, Bool, true, false, some, if-cases, arith, length-append,
}
use tcp_redirector.Driver.Entities.{RuleEntry, tag_lrrt, nt_success}
use tcp_redirector.Driver.Service.Queue.{IsValid, peek_batch-IsValid}
use tcp_redirector.Driver.Service.{RedirectService, ProcessApi, acknowledge, clear_rules, add_rule}
use tcp_redirector.Driver.Ioctl.{
  Irp, Completion, get_pending, ack_redirect, read_stats, add_rules, set_rules, drop_rules,
  query_process, device_control, device_control-cases, batch_limit,
}

add_rule-IsValid :
    (s : RedirectService) (rule : RuleEntry) (granted : Bool)
    → IsValid s
    → IsValid (add_rule s (some rule) granted).0
unfolding add_rule
add_rule-IsValid s rule false v = v
add_rule-IsValid s rule true v = record {
  counted = v.counted;
  capped = v.capped;
  bounded = v.bounded;
  rules_counted = omega (
    arith,
    v.rules_counted,
    length-append s.rules_list (record { tag = tag_lrrt; body = rule } ∷ []),
  );
  ids = v.ids;
}

add_rules-IsValid :
    (n i : ℕ) (rules : ℕ → RuleEntry) (allocated : ℕ → Bool) (s : RedirectService)
    → IsValid s
    → IsValid (add_rules n i rules allocated s).0
unfolding add_rules
add_rules-IsValid zero i rules allocated s v = v
add_rules-IsValid (suc n) i rules allocated s v =
    let r = add_rule s (some (rules i)) (allocated i) in
    let w = add_rule-IsValid s (rules i) (allocated i) v in
    if-cases (λ (p : RedirectService × ℕ). IsValid p.0) (nt_success r.1)
      (add_rules-IsValid n (i + 1) rules allocated r.0 w) w

clear_rules-IsValid : (s : RedirectService) → IsValid s → IsValid (clear_rules s).0
unfolding clear_rules
clear_rules-IsValid s v = record {
  counted = v.counted;
  capped = v.capped;
  bounded = v.bounded;
  rules_counted = refl;
  ids = v.ids;
}

-- Every request, whatever its code, its lengths and the allocations, leaves a valid service valid.
pub device_control-IsValid :
    (api : ProcessApi) (s : RedirectService) (irp : Irp) (allocated : ℕ → Bool)
    → IsValid s
    → IsValid (device_control api s irp allocated).0
device_control-IsValid api s irp allocated v =
    device_control-cases (λ r. IsValid r.0) api s irp allocated
      (unfold get_pending in peek_batch-IsValid s (batch_limit irp.output_length) v)
      (unfold ack_redirect acknowledge in
        if-cases (λ (r : RedirectService × Completion). IsValid r.0) _ v v)
      (unfold read_stats in v)
      (unfold set_rules in
        if-cases (λ (r : RedirectService × Completion). IsValid r.0) _
          (add_rules-IsValid _ 0 irp.input_rules allocated (clear_rules s).0
            (clear_rules-IsValid s v))
          v)
      (unfold drop_rules in clear_rules-IsValid s v) (unfold query_process in v) v
