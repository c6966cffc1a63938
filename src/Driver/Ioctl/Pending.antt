-- ===== src/Driver/Ioctl/Pending.antt =====
-- IoctlHandler.c: IOCTL_REDIRECTOR_GET_PENDING and the bytes that a request reports.
use mathlib.Core.Path.{subst}
use tcp_redirector.Prelude.{
  refl, ℕ, ◌*◌, ◌/◌, ◌≤◌, ◌≡◌, map, length, take, drop, min, ltb, if◌then◌else◌, arith, length-take,
  Bool-cases, inl, inr, Bool, if-cases,
}
use tcp_redirector.Driver.Entities.{tag_ndrt, status_success, status_not_found}
use tcp_redirector.Driver.Service.Queue.{IsValid, peek_batch_lem}
use tcp_redirector.Driver.Service.{RedirectService, ProcessApi, free_all}
use tcp_redirector.Driver.Ioctl.{
  Irp, Completion, ioctl_get_pending, system_buffer_length, ends_with, packet_of, batch_limit,
  sizeof_packet, get_pending, ack_redirect, read_stats, set_rules, drop_rules, query_process,
  device_control, device_control-cases,
}

batch_limit-min : (n : ℕ) → batch_limit n ≡ min 64 (n / sizeof_packet)
unfolding batch_limit
batch_limit-min n = ground arith

-- The outcome, the system buffer having m bytes.
abbrev pending_outcome : RedirectService → Irp → ℕ → RedirectService × Completion
pending_outcome s irp m =
    let n = min 64 (irp.output_length / sizeof_packet) in
    let batch = take n s.redirect_queue in
    (
      record s {
        redirect_queue = drop n s.redirect_queue;
        queue_count = length (drop n s.redirect_queue);
      },
      if ltb 0 (length batch)
          then record (ends_with status_success) {
            information = length batch * sizeof_packet;
            packets = map packet_of batch;
            freed_infos = free_all tag_ndrt batch;
            overrun = ltb m (length batch * sizeof_packet);
          }
          else ends_with status_not_found,
    )

pub peeked :
    (s : RedirectService) (irp : Irp)
    → IsValid s
    → get_pending s irp ≡ pending_outcome s irp (system_buffer_length irp)
unfolding get_pending
peeked s irp v =
    rw
      (
        batch_limit-min irp.output_length,
        peek_batch_lem s (min 64 (irp.output_length / sizeof_packet)) v,
      )
      (elim (Bool-cases
        (ltb 0 (length (take (min 64 (irp.output_length / sizeof_packet)) s.redirect_queue)))) [
          | inl some_left ↦ rw some_left
          | inr none_left ↦ rw none_left
        ])

out_direct :
    (irp : Irp)
    → irp.io_control_code ≡ ioctl_get_pending
    → system_buffer_length irp ≡ irp.input_length
unfolding system_buffer_length
out_direct irp e = rw e refl

-- In a valid service the request GET_PENDING copies the fields of a packet of the oldest blocks, as many as fit the length of the
-- output buffer and at most 64, to the system buffer, frees them with the tag 'nDrT', removes them and
-- reports their bytes. Since its method is METHOD_OUT_DIRECT, the system buffer has the bytes of the
-- input, and the copy goes past its end exactly if the input is shorter than the packets. With
-- none to hand out it reports STATUS_NOT_FOUND. The younger blocks stay, and the count is theirs.
pub get_pending_lem :
    (s : RedirectService) (irp : Irp)
    → IsValid s
    → irp.io_control_code ≡ ioctl_get_pending
    → let n = min 64 (irp.output_length / sizeof_packet) in
      let batch = take n s.redirect_queue in
      get_pending s irp ≡ (
        record s {
          redirect_queue = drop n s.redirect_queue;
          queue_count = length (drop n s.redirect_queue);
        },
        if ltb 0 (length batch)
            then record (ends_with status_success) {
              information = length batch * sizeof_packet;
              packets =
                  map
                    (λ b. record {
                      redirect_id = b.body.redirect_id;
                      process_id = b.body.process_id;
                      process_path = b.body.process_path;
                      original_address_v4 = b.body.original_address_v4;
                      original_port = b.body.original_port;
                      redirect_local_port = b.body.redirect_local_port;
                      is_ipv6 = b.body.is_ipv6;
                    })
                    batch;
              freed_infos = free_all tag_ndrt batch;
              overrun = ltb irp.input_length (length batch * sizeof_packet);
            }
            else ends_with status_not_found,
      )
get_pending_lem s irp v e =
    subst (λ m. get_pending s irp ≡ pending_outcome s irp m) (out_direct irp e) (peeked s irp v)

get_pending_information :
    (s : RedirectService) (irp : Irp)
    → IsValid s
    → (get_pending s irp).1.information ≤ irp.output_length
get_pending_information s irp v =
    let n = min 64 (irp.output_length / sizeof_packet) in
    rw (peeked s irp v) (
      if-cases (λ (c : Completion). c.information ≤ irp.output_length)
        (ltb 0 (length (take n s.redirect_queue))) (omega (arith, length-take n s.redirect_queue))
        (omega arith))

-- From a valid service, no request reports more bytes than its output buffer has.
pub information-le :
    (api : ProcessApi) (s : RedirectService) (irp : Irp) (allocated : ℕ → Bool)
    → IsValid s
    → (device_control api s irp allocated).1.information ≤ irp.output_length
information-le api s irp allocated v =
    device_control-cases (λ r. r.1.information ≤ irp.output_length) api s irp allocated
      (get_pending_information s irp v) (unfold ack_redirect in ground arith)
      (unfold read_stats in ground arith) (unfold set_rules in ground arith)
      (unfold drop_rules in ground arith) (unfold query_process in ground arith) (omega arith)
