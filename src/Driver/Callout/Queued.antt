-- ===== src/Driver/Callout/Queued.antt =====
-- WfpCallout.c: the queue and the blocks after a classified connection.
use tcp_redirector.Prelude.{
  ◌+◌, add32, add64, ℕ, ◌≡◌, refl, inl, inr, true, [], ◌∷◌, ◌++◌, ◌&&◌, Option, some, false,
  replicate, All, length, ltb, if◌then◌else◌, if-cases, Bool-cases, All-append,
}
use tcp_redirector.Driver.Entities.{
  RedirectInfo, RedirectStatus, redirect, Block, tag_ndrt, nt_success, max_redirect_queue_size,
  ProcessIdentity,
}
use tcp_redirector.Driver.Service.Queue.{IsValid, stamp, enqueue_lem, enqueue-IsValid}
use tcp_redirector.Driver.Service.{
  RedirectService, ProcessApi, identify_process, match_rule, enqueue,
}
use tcp_redirector.Driver.Ioctl.Tags.{IsTagged, NamesTag}
use tcp_redirector.Driver.Callout.{
  Connection, Replies, Classified, permitted, info_of, queue_info, redirect_connection, classify,
}
use tcp_redirector.Driver.Callout.Outcome.{redirect_connection-cases, classify-cases}

abbrev Keeps : RedirectService × Classified → Type 0
Keeps r = IsValid r.0 × IsTagged r.0 × All NamesTag r.1.freed

enqueue-IsTagged :
    (s : RedirectService) (b : Block RedirectInfo) (tick : ℕ)
    → IsValid s
    → IsTagged s
    → b.tag ≡ tag_ndrt
    → IsTagged (enqueue s (some b) tick).0
enqueue-IsTagged s b tick v t e = rw (enqueue_lem s b tick v) (
    if-cases (λ (r : RedirectService × ℕ). IsTagged r.0)
      (ltb (length s.redirect_queue) max_redirect_queue_size)
      (record {
        infos = All-append (λ x. x.tag ≡ tag_ndrt) s.redirect_queue _ t.infos (e, tt);
        rules = t.rules;
      })
      (record { infos = t.infos; rules = t.rules }))

queue_info-Keeps :
    (s : RedirectService) (h : ℕ) (c : Connection) (identity : ProcessIdentity) (w : Replies)
    → IsValid s
    → IsTagged s
    → Keeps (queue_info s h c identity w)
unfolding queue_info
queue_info-Keeps s h c identity w v t =
    let b = info_of c identity in
    if-cases Keeps w.pool_block
      (
        enqueue-IsValid s (some b) w.tick_count v,
        enqueue-IsTagged s b w.tick_count v t refl,
        if-cases (All NamesTag) (nt_success (enqueue s (some b) w.tick_count).1) tt (refl, tt),
      )
      (v, t, tt)

-- A connection that is classified, the match reading no array past its end, leaves a valid service
-- with the right tags so, and frees a block that the queue refused with the tag of its allocation.
pub classify-IsValid :
    (api : ProcessApi) (s : RedirectService) (handle : Option ℕ) (c : Connection) (w : Replies)
    (r : RedirectService × Classified)
    → IsValid s
    → IsTagged s
    → classify api s handle c w ≡ some r
    → IsValid r.0 × IsTagged r.0 × All NamesTag r.1.freed
classify-IsValid api s handle c w r v t e =
    classify-cases Keeps api s handle c w r e (v, t, tt)
      λ identity.
        redirect_connection-cases Keeps s handle c identity w (v, t, tt) (v, t, tt)
          λ h _. queue_info-Keeps s h c identity w v t

-- A redirect that nothing stands in the way of: a block with the address and port the connection goes
-- to, and the identifier and image path of its process, is queued under the next identifier if
-- fewer than 4096 blocks wait; otherwise the failure is counted and the block freed. In both cases the redirect handle is written to the connect request, the layer data applied
-- and the classify handle released.
pub classify-queues :
    (api : ProcessApi) (s : RedirectService) (h : ℕ) (c : Connection) (w : Replies)
    → IsValid s
    → nt_success (identify_process api c.process_id).1 ≡ true
    → match_rule s (identify_process api c.process_id).0 ≡ some redirect
    → w.classify_context && nt_success w.acquire_handle ≡ true
    → nt_success w.acquire_data && w.connect_request ≡ true
    → w.pool_block ≡ true
    → let b : Block RedirectInfo = record {
      tag = tag_ndrt;
      body = record {
        redirect_id = 0;
        process_id = (identify_process api c.process_id).0.process_id;
        process_path = (identify_process api c.process_id).0.process_path;
        original_address_v4 = c.remote_addr;
        original_address_v6 = replicate 8 0;
        original_port = c.remote_port;
        redirect_local_port = 0;
        is_ipv6 = false;
        status = RedirectStatus.pending;
        timestamp = 0;
        flow_handle = 0;
      };
    } in
      let done : Classified = record permitted {
        redirect_handle = some h;
        acquired = true;
        released = true;
        applied = true;
      } in
      classify api s (some h) c w
      ≡ some (
          if ltb (length s.redirect_queue) max_redirect_queue_size
          then (
            record s {
              next_redirect_id = add32 s.next_redirect_id 1;
              redirect_queue = s.redirect_queue ++ stamp s w.tick_count b ∷ [];
              queue_count = length s.redirect_queue + 1;
              total_redirects = add64 s.total_redirects 1;
              redirect_event = true;
            },
            done,
          )
          else (
            record s { failed_redirects = add64 s.failed_redirects 1 },
            record done { freed = record { freed = b; named = tag_ndrt } ∷ [] },
          ))
unfolding classify redirect_connection queue_info
classify-queues api s h c w v identified matched handle request pool =
    rw
      (
        identified,
        matched,
        handle,
        request,
        pool,
        enqueue_lem s (info_of c (identify_process api c.process_id).0) w.tick_count v,
      )
      (elim (Bool-cases (ltb (length s.redirect_queue) max_redirect_queue_size)) [
        | inl room ↦ rw room
        | inr full ↦ rw full
      ])
