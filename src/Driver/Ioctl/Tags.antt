-- ===== src/Driver/Ioctl/Tags.antt =====
-- IoctlHandler.c: every request frees its blocks with the tags of their allocations.
use tcp_redirector.Prelude.{
  ℕ, zero, suc, ◌+◌, ◌≡◌, refl, List, [], ◌∷◌, leb, ◌&&◌, Bool, true, false, some, All, take,
  length, ◌/◌, min, ltb, if-cases, All-append, All-take, All-drop,
}
use tcp_redirector.Driver.Entities.{RuleEntry, Block, Free, PoolTag, tag_ndrt, tag_lrrt, nt_success}
use tcp_redirector.Driver.Service.Queue.{IsValid}
use tcp_redirector.Driver.Service.{
  RedirectService, ProcessApi, acknowledge, clear_rules, add_rule, free_all,
}
use tcp_redirector.Driver.Ioctl.Pending.{peeked}
use tcp_redirector.Driver.Ioctl.{
  Irp, Completion, get_pending, ack_redirect, read_stats, add_rules, set_rules, drop_rules,
  query_process, device_control, device_control-cases, sizeof_packet, sizeof_stats, sizeof_handle,
  sizeof_process_identity, sizeof_rule_entry,
}

-- The blocks that wait carry the tag of TcpRedirectClassify, the rules that of AddRule.
pub record IsTagged (s : RedirectService) : Type 0 where
  pub infos : All (λ b. b.tag ≡ tag_ndrt) s.redirect_queue
  pub rules : All (λ b. b.tag ≡ tag_lrrt) s.rules_list

-- The tag that the free names is the tag of the allocation.
abbrev pub NamesTag : {A : Type 0} → Free A → Type 0
NamesTag f = f.freed.tag ≡ f.named

pub free_all-NamesTag :
    {A : Type 0} (tag : PoolTag) (bs : List (Block A))
    → All (λ b. b.tag ≡ tag) bs
    → All NamesTag (free_all tag bs)
unfolding free_all
free_all-NamesTag tag [] h = tt
free_all-NamesTag tag (b ∷ bs) h = (h.0, free_all-NamesTag tag bs h.1)

-- What the end of a request frees, it frees with the right tags.
abbrev FreesWell : RedirectService × Completion → Type 0
FreesWell r = All NamesTag r.1.freed_infos × All NamesTag r.1.freed_rules

get_pending-NamesTag :
    (s : RedirectService) (irp : Irp) → IsValid s → IsTagged s → FreesWell (get_pending s irp)
get_pending-NamesTag s irp v t =
    let n = min 64 (irp.output_length / sizeof_packet) in
    rw (peeked s irp v) (
      if-cases (λ (c : Completion). All NamesTag c.freed_infos × All NamesTag c.freed_rules)
        (ltb 0 (length (take n s.redirect_queue)))
        (
          free_all-NamesTag tag_ndrt (take n s.redirect_queue)
              (All-take (λ b. b.tag ≡ tag_ndrt) n s.redirect_queue t.infos),
          tt,
        )
        (tt, tt))

-- From a valid service whose blocks carry their tags, every block that a request frees is freed with
-- the tag of its allocation.
pub device_control-NamesTag :
    (api : ProcessApi) (s : RedirectService) (irp : Irp) (allocated : ℕ → Bool)
    → IsValid s
    → IsTagged s
    → let c = (device_control api s irp allocated).1 in
      All NamesTag c.freed_infos × All NamesTag c.freed_rules
device_control-NamesTag api s irp allocated v t =
    device_control-cases FreesWell api s irp allocated (get_pending-NamesTag s irp v t)
      (unfold ack_redirect in if-cases FreesWell (leb 8 irp.input_length) (tt, tt) (tt, tt))
      (unfold read_stats in
        if-cases (λ (c : Completion). FreesWell (s, c)) (leb sizeof_stats irp.output_length)
          (tt, tt) (tt, tt))
      (unfold set_rules clear_rules in
        if-cases FreesWell (ltb 0 (irp.input_length / sizeof_rule_entry))
          (tt, free_all-NamesTag tag_lrrt s.rules_list t.rules) (tt, tt))
      (unfold drop_rules clear_rules in (tt, free_all-NamesTag tag_lrrt s.rules_list t.rules))
      (unfold query_process in
        if-cases (λ (c : Completion). FreesWell (s, c))
          (leb sizeof_handle irp.input_length && leb sizeof_process_identity irp.output_length)
          (tt, tt) (tt, tt))
      (tt, tt)

add_rule-IsTagged :
    (s : RedirectService) (rule : RuleEntry) (granted : Bool)
    → IsTagged s
    → IsTagged (add_rule s (some rule) granted).0
unfolding add_rule
add_rule-IsTagged s rule false t = t
add_rule-IsTagged s rule true t = record {
  infos = t.infos;
  rules = All-append (λ b. b.tag ≡ tag_lrrt) s.rules_list _ t.rules (refl, tt);
}

add_rules-IsTagged :
    (n i : ℕ) (rules : ℕ → RuleEntry) (allocated : ℕ → Bool) (s : RedirectService)
    → IsTagged s
    → IsTagged (add_rules n i rules allocated s).0
unfolding add_rules
add_rules-IsTagged zero i rules allocated s t = t
add_rules-IsTagged (suc n) i rules allocated s t =
    let r = add_rule s (some (rules i)) (allocated i) in
    if-cases (λ (p : RedirectService × ℕ). IsTagged p.0) (nt_success r.1)
      (add_rules-IsTagged n (i + 1) rules allocated r.0
        (add_rule-IsTagged s (rules i) (allocated i) t))
      (add_rule-IsTagged s (rules i) (allocated i) t)

-- Every request leaves the tags as they should be.
pub device_control-IsTagged :
    (api : ProcessApi) (s : RedirectService) (irp : Irp) (allocated : ℕ → Bool)
    → IsValid s
    → IsTagged s
    → IsTagged (device_control api s irp allocated).0
device_control-IsTagged api s irp allocated v t =
    device_control-cases (λ r. IsTagged r.0) api s irp allocated
      (rw (peeked s irp v) (record {
        infos = All-drop (λ b. b.tag ≡ tag_ndrt) _ s.redirect_queue t.infos;
        rules = t.rules;
      }))
      (unfold ack_redirect acknowledge in
        if-cases (λ (r : RedirectService × Completion). IsTagged r.0) (leb 8 irp.input_length) t t)
      (unfold read_stats in t)
      (unfold set_rules clear_rules in
        if-cases (λ (r : RedirectService × Completion). IsTagged r.0)
          (ltb 0 (irp.input_length / sizeof_rule_entry))
          (add_rules-IsTagged (irp.input_length / sizeof_rule_entry) 0 irp.input_rules allocated
            (record s { rules_list = []; rules_count = 0 })
            (record { infos = t.infos; rules = tt }))
          t)
      (unfold drop_rules clear_rules in record { infos = t.infos; rules = tt })
      (unfold query_process in t) t
