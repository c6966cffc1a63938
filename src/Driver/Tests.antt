-- ===== src/Driver/Tests.antt =====
-- The kernel driver on small inputs: process 7 connects, and one rule redirects everything.
use tcp_redirector.Prelude.{
  ◌*◌, ◌≡◌, refl, true, false, [], ◌∷◌, ◌++◌, some, All, length, map, take, drop, ltb, arith, inl,
  replicate, if◌then◌else◌, add32, add64,
}
use tcp_redirector.Driver.Entities.{
  RedirectInfo, RuleAction, redirect, RuleEntry, Block, tag_ndrt, tag_lrrt, zero_info, nt_success,
  status_success, status_not_found,
}
use tcp_redirector.Driver.Service.{
  RedirectService, ProcessApi, initialize, cleanup, enqueue, free_all, match_rule, match_from,
  identify_process, add_rule, clear_rules,
}
use tcp_redirector.Driver.Service.Queue.{IsValid, initialize-IsValid, stamp, enqueue-IsValid}
use tcp_redirector.Driver.Service.History.{
  enqueues, batches, run, all_delivered, all_accepted, run-fifo,
}
use tcp_redirector.Driver.Service.Rules.{Decides, match_rule-Decides}
use tcp_redirector.Driver.Service.Terminated.{match_rule_total}
use tcp_redirector.Driver.Ioctl.{
  Irp, ioctl_get_pending, ioctl_set_rules, sizeof_packet, packet_of, ends_with, get_pending,
  set_rules, add_rules, device_control,
}
use tcp_redirector.Driver.Ioctl.Pending.{get_pending_lem}
use tcp_redirector.Driver.Ioctl.Tags.{IsTagged, NamesTag}
use tcp_redirector.Driver.Callout.{Connection, Replies, Classified, classify, info_of, permitted}
use tcp_redirector.Driver.Callout.Queued.{classify-queues}
use tcp_redirector.Driver.Reach.{
  Reach, loaded, next, request, connection, Reach-IsValid, cleanup-misnames,
}
use tcp_redirector.Driver.Lifecycle.{unloaded, LoadReplies, driver_entry}
use tcp_redirector.Driver.Lifecycle.Unwind.{driver_entry_unwinds}

abbrev api : ProcessApi
api = record {
  lookup_process_by_id = λ pid. 0;
  image_file_name = λ pid. some (97 ∷ 46 ∷ []);
  locate_image_name = λ pid. (0, 67 ∷ 58 ∷ []);
}

abbrev info : Block RedirectInfo
info = record { tag = tag_ndrt; body = zero_info }

abbrev everything : RuleEntry
everything = record {
  rule_id = 1;
  action = RuleAction.redirect;
  is_wildcard = true;
  is_path_rule = false;
  pattern = replicate 260 0;
  priority = 0;
}

abbrev redirecting : RedirectService
redirecting = record initialize {
  rules_list = record { tag = tag_lrrt; body = everything } ∷ [];
  rules_count = 1;
}

redirecting-IsValid : IsValid redirecting
unfolding initialize
redirecting-IsValid = record {
  counted = refl;
  capped = refl;
  bounded = omega arith;
  rules_counted = refl;
  ids = (1, omega arith, refl);
}

redirecting-IsTagged : IsTagged redirecting
unfolding initialize
redirecting-IsTagged = record { infos = tt; rules = (refl, tt) }

run-fifo_example :
    all_delivered initialize (enqueues info 5 ∷ enqueues info 6 ∷ batches 1 ∷ [])
      ++ (run initialize (enqueues info 5 ∷ enqueues info 6 ∷ batches 1 ∷ [])).redirect_queue
    ≡ initialize.redirect_queue
      ++ all_accepted initialize (enqueues info 5 ∷ enqueues info 6 ∷ batches 1 ∷ [])
run-fifo_example =
    run-fifo initialize (enqueues info 5 ∷ enqueues info 6 ∷ batches 1 ∷ []) initialize-IsValid

abbrev pending_irp : Irp
pending_irp = record {
  io_control_code = ioctl_get_pending;
  input_length = 0;
  output_length = 1200;
  input_word = 0;
  input_rules = λ i. everything;
}

abbrev rules_irp : Irp
rules_irp = record pending_irp { io_control_code = ioctl_set_rules; input_length = 1104 }

-- One connection waits.
abbrev waiting : RedirectService
waiting = (enqueue redirecting (some info) 5).0

waiting-IsValid : IsValid waiting
waiting-IsValid = enqueue-IsValid redirecting (some info) 5 redirecting-IsValid

matched : match_rule redirecting (identify_process api 7).0 ≡ some redirect
unfolding match_rule match_from
matched = refl

identified : nt_success (identify_process api 7).1 ≡ true
unfolding identify_process
identified = refl

match_rule-Decides_example : Decides redirecting.rules_list (identify_process api 7).0 redirect
match_rule-Decides_example =
    match_rule-Decides redirecting (identify_process api 7).0 redirect matched

match_rule_total_example :
    (a : RuleAction) × (match_rule redirecting (identify_process api 7).0 ≡ some a)
match_rule_total_example = match_rule_total redirecting api 7 (inl refl, tt)

abbrev peer : Connection
peer = record { remote_addr = 20; remote_port = 443; process_id = 7 }

abbrev granted : Replies
granted = record {
  classify_context = true;
  acquire_handle = 0;
  acquire_data = 0;
  connect_request = true;
  pool_block = true;
  tick_count = 5;
}

-- The service and the call after the connection of process 7.
abbrev queued : RedirectService × Classified
queued = (
  record redirecting {
    next_redirect_id = add32 redirecting.next_redirect_id 1;
    redirect_queue = stamp redirecting 5 (info_of peer (identify_process api 7).0) ∷ [];
    queue_count = 1;
    total_redirects = add64 redirecting.total_redirects 1;
    redirect_event = true;
  },
  record permitted { redirect_handle = some 3; acquired = true; released = true; applied = true },
)

classify-queues_example : classify api redirecting (some 3) peer granted ≡ some queued
unfolding initialize
classify-queues_example =
    classify-queues api redirecting 3 peer granted redirecting-IsValid identified matched refl refl
      refl

classified : classify api redirecting (some 3) peer granted ≡ some queued
unfolding initialize
classified =
    classify-queues api redirecting 3 peer granted redirecting-IsValid identified matched refl refl
      refl

get_pending_example :
    let batch = take 2 waiting.redirect_queue in
    get_pending waiting pending_irp ≡ (
      record waiting {
        redirect_queue = drop 2 waiting.redirect_queue;
        queue_count = length (drop 2 waiting.redirect_queue);
      },
      if ltb 0 (length batch)
          then record (ends_with status_success) {
            information = length batch * sizeof_packet;
            packets = map packet_of batch;
            freed_infos = free_all tag_ndrt batch;
            overrun = ltb pending_irp.input_length (length batch * sizeof_packet);
          }
          else ends_with status_not_found,
    )
get_pending_example = get_pending_lem waiting pending_irp waiting-IsValid refl

-- The driver after it took the rule, and then the connection.
abbrev one_rule_irp : Irp
one_rule_irp = record rules_irp { input_length = 552 }

takes_rule : redirecting ≡ (device_control api initialize one_rule_irp (λ i. true)).0
unfolding device_control set_rules add_rules add_rule clear_rules initialize
takes_rule = refl

queued-Reach : Reach queued.0
queued-Reach =
    next (next (loaded refl) (request api one_rule_irp (λ i. true) takes_rule))
      (connection api (some 3) peer granted queued classified refl)

Reach-IsValid_example : IsValid queued.0 × IsTagged queued.0
Reach-IsValid_example = Reach-IsValid queued-Reach

cleanup-misnames_example :
    (map (λ f. f.freed) (cleanup queued.0).1 ≡ queued.0.redirect_queue)
    × (map (λ f. f.freed) (cleanup queued.0).2 ≡ queued.0.rules_list)
    × All (λ f. ¬ NamesTag f) (cleanup queued.0).1
    × All NamesTag (cleanup queued.0).2
cleanup-misnames_example = cleanup-misnames queued.0 queued-Reach

-- A load whose fourth call fails.
abbrev failing : LoadReplies
failing = record {
  create_device = 0;
  create_symbolic_link = 0;
  engine_open = 0;
  redirect_handle_create = 0xC000009A;
  callout_register = 0;
  callout_id = 9;
  callout_add = 0;
  filter_add = 0;
}

abbrev working : LoadReplies
working = record failing { redirect_handle_create = 0 }

fails : nt_success (driver_entry (unloaded initialize) failing).1 ≡ false
unfolding driver_entry
fails = refl

driver_entry_unwinds_example : (driver_entry (unloaded initialize) failing).0 ≡ unloaded initialize
driver_entry_unwinds_example = driver_entry_unwinds initialize failing fails

loads : nt_success (driver_entry (unloaded initialize) working).1 ≡ true
unfolding driver_entry
loads = refl
