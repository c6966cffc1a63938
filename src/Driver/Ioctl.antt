-- ===== src/Driver/Ioctl.antt =====
-- driver/.../infrastructure/ioctl/IoctlHandler.c and .h: IRP_MJ_DEVICE_CONTROL. The sizes are those
-- of the 64-bit driver; `allocated` says which of a call's allocations succeed.
pub mod Pending
pub mod Rules
pub mod Requests
pub mod Tags
use tcp_redirector.Prelude.{
  ℕ, zero, suc, ◌+◌, ◌*◌, ◌/◌, ◌%◌, ◌^◌, ◌&&◌, Bool, false, List, [], Option, none, some, map,
  length, ltb, leb, ◌==◌, if◌then◌else◌, if-cases,
}
use tcp_redirector.Driver.Entities.{
  RedirectInfo, RuleEntry, ProcessIdentity, Block, Free, tag_ndrt, max_redirect_queue_size,
  status_success, status_not_found, status_buffer_too_small, status_invalid_device_request,
  nt_success,
}
use tcp_redirector.Driver.Service.{
  RedirectService, ProcessApi, peek_batch, acknowledge, get_stats, clear_rules, add_rule,
  identify_process, free_all,
}

-- CTL_CODE(0x8000, function, method, FILE_ANY_ACCESS).
abbrev pub ctl_code : ℕ → ℕ → ℕ
ctl_code function method = 0x8000 * 2 ^ 16 + function * 4 + method

abbrev pub ioctl_get_pending : ℕ
ioctl_get_pending = ctl_code 0x800 2

abbrev pub ioctl_ack_redirect : ℕ
ioctl_ack_redirect = ctl_code 0x801 1

abbrev pub ioctl_get_stats : ℕ
ioctl_get_stats = ctl_code 0x802 2

abbrev pub ioctl_set_rules : ℕ
ioctl_set_rules = ctl_code 0x803 1

abbrev pub ioctl_clear_rules : ℕ
ioctl_clear_rules = ctl_code 0x804 3

abbrev pub ioctl_query_process : ℕ
ioctl_query_process = ctl_code 0x805 1

abbrev pub sizeof_handle : ℕ
sizeof_handle = 8

abbrev pub sizeof_packet : ℕ
sizeof_packet = 568

abbrev pub sizeof_stats : ℕ
sizeof_stats = 32

abbrev pub sizeof_rule_entry : ℕ
sizeof_rule_entry = 552

abbrev pub sizeof_process_identity : ℕ
sizeof_process_identity = 656

-- The fields of a REDIRECT_DATA_PACKET that the handler writes.
pub record Packet : Type 0 where
  pub redirect_id : ℕ
  pub process_id : ℕ
  pub process_path : List ℕ
  pub original_address_v4 : ℕ
  pub original_port : ℕ
  pub redirect_local_port : ℕ
  pub is_ipv6 : Bool

pub record DriverStats : Type 0 where
  pub pending_redirects : ℕ
  pub total_redirects : ℕ
  pub failed_redirects : ℕ
  pub rules_count : ℕ
  pub queue_max_size : ℕ

-- A request: the lengths, and the input buffer read as an identifier or as an array of rules.
pub record Irp : Type 0 where
  pub io_control_code : ℕ
  pub input_length : ℕ
  pub output_length : ℕ
  pub input_word : ℕ
  pub input_rules : ℕ → RuleEntry

-- How a request ends: IoStatus, what was written to the system buffer, and the blocks freed. `overrun`: the write
-- went past the end of the system buffer.
pub record Completion : Type 0 where
  pub status : ℕ
  pub information : ℕ
  pub packets : List Packet
  pub stats : Option DriverStats
  pub process : Option ProcessIdentity
  pub freed_infos : List (Free RedirectInfo)
  pub freed_rules : List (Free RuleEntry)
  pub overrun : Bool

abbrev pub ends_with : ℕ → Completion
ends_with status = record {
  status = status;
  information = 0;
  packets = [];
  stats = none;
  process = none;
  freed_infos = [];
  freed_rules = [];
  overrun = false;
}

-- The bytes of AssociatedIrp.SystemBuffer by the method of a request: under METHOD_BUFFERED (0) it holds the input
-- and the output, under METHOD_IN_DIRECT (1) and METHOD_OUT_DIRECT (2) the input only, and under METHOD_NEITHER
-- there is none.
unfoldable pub system_buffer_length : Irp → ℕ
system_buffer_length irp =
    let method = irp.io_control_code % 4 in
    if method == 0
    then (if ltb irp.input_length irp.output_length then irp.output_length else irp.input_length)
    else if method == 3
    then 0
    else irp.input_length

abbrev pub packet_of : Block RedirectInfo → Packet
packet_of b = record {
  redirect_id = b.body.redirect_id;
  process_id = b.body.process_id;
  process_path = b.body.process_path;
  original_address_v4 = b.body.original_address_v4;
  original_port = b.body.original_port;
  redirect_local_port = b.body.redirect_local_port;
  is_ipv6 = b.body.is_ipv6;
}

unfoldable pub batch_limit : ℕ → ℕ
batch_limit output_length =
    let max_count = output_length / sizeof_packet in if ltb 64 max_count then 64 else max_count

unfoldable pub get_pending : RedirectService → Irp → RedirectService × Completion
unfolding free_all batch_limit
get_pending s irp =
    let (s', batch, dequeue_status) = peek_batch s (batch_limit irp.output_length) in
    (
      s',
      if nt_success dequeue_status
          then record (ends_with status_success) {
            information = length batch * sizeof_packet;
            packets = map packet_of batch;
            freed_infos = free_all tag_ndrt batch;
            overrun = ltb (system_buffer_length irp) (length batch * sizeof_packet);
          }
          else ends_with status_not_found,
    )

unfoldable pub ack_redirect : RedirectService → Irp → RedirectService × Completion
ack_redirect s irp =
    if leb 8 irp.input_length
    then (let (s', status) = acknowledge s irp.input_word in (s', ends_with status))
    else (s, ends_with status_buffer_too_small)

unfoldable pub read_stats : RedirectService → Irp → RedirectService × Completion
read_stats s irp =
    let (pending, total, failed) = get_stats s in
    (
      s,
      if leb sizeof_stats irp.output_length
          then record (ends_with status_success) {
            overrun = ltb (system_buffer_length irp) sizeof_stats;
            information = sizeof_stats;
            stats = some (record {
              pending_redirects = pending;
              total_redirects = total;
              failed_redirects = failed;
              rules_count = s.rules_count;
              queue_max_size = max_redirect_queue_size;
            });
          }
          else ends_with status_buffer_too_small,
    )

-- The loop over `&rules[i]`, with the rounds that are left; it stops at the first failure.
unfoldable pub add_rules :
    ℕ → ℕ → (ℕ → RuleEntry) → (ℕ → Bool) → RedirectService → RedirectService × ℕ
add_rules zero i rules allocated s = (s, status_success)
add_rules (suc n) i rules allocated s =
    let (s', status) = add_rule s (some (rules i)) (allocated i) in
    let rest = add_rules n (i + 1) rules allocated s' in
    if nt_success status then rest else (s', status)

unfoldable pub set_rules : RedirectService → Irp → (ℕ → Bool) → RedirectService × Completion
set_rules s irp allocated =
    let rule_count = irp.input_length / sizeof_rule_entry in
    let (cleared, freed, _) = clear_rules s in
    let (s', status) = add_rules rule_count 0 irp.input_rules allocated cleared in
    if ltb 0 rule_count
    then (s', record (ends_with status) { freed_rules = freed })
    else (s, ends_with status_success)

unfoldable pub drop_rules : RedirectService → RedirectService × Completion
drop_rules s =
    let (s', freed, status) = clear_rules s in
    (s', record (ends_with status) { freed_rules = freed })

unfoldable pub query_process : ProcessApi → RedirectService → Irp → RedirectService × Completion
query_process api s irp =
    let (identity, status) = identify_process api irp.input_word in
    (
      s,
      if leb sizeof_handle irp.input_length && leb sizeof_process_identity irp.output_length
          then record (ends_with status) {
            information = if nt_success status then sizeof_process_identity else 0;
            process = some identity;
            overrun = ltb (system_buffer_length irp) sizeof_process_identity;
          }
          else ends_with status_buffer_too_small,
    )

unfoldable pub device_control :
    ProcessApi → RedirectService → Irp → (ℕ → Bool) → RedirectService × Completion
device_control api s irp allocated =
    let code = irp.io_control_code in
    if code == ioctl_get_pending
    then get_pending s irp
    else if code == ioctl_ack_redirect
    then ack_redirect s irp
    else if code == ioctl_get_stats
    then read_stats s irp
    else if code == ioctl_set_rules
    then set_rules s irp allocated
    else if code == ioctl_clear_rules
    then drop_rules s
    else if code == ioctl_query_process
    then query_process api s irp
    else (s, ends_with status_invalid_device_request)

-- What holds of the end of each handler holds of the end of the request.
pub device_control-cases {ℓ} :
    (P : RedirectService × Completion → Type ℓ)
    → (api : ProcessApi) (s : RedirectService) (irp : Irp) (allocated : ℕ → Bool)
    → P (get_pending s irp)
    → P (ack_redirect s irp)
    → P (read_stats s irp)
    → P (set_rules s irp allocated)
    → P (drop_rules s)
    → P (query_process api s irp)
    → P (s, ends_with status_invalid_device_request)
    → P (device_control api s irp allocated)
unfolding device_control
device_control-cases P api s irp allocated pending ack stats rules clear query other =
    if-cases P (code == ioctl_get_pending) pending (
      if-cases P (code == ioctl_ack_redirect) ack (
        if-cases P (code == ioctl_get_stats) stats (
          if-cases P (code == ioctl_set_rules) rules (
            if-cases P (code == ioctl_clear_rules) clear
              (if-cases P (code == ioctl_query_process) query other)))))
  where
    code : ℕ
    code = irp.io_control_code
