-- ===== src/Driver/Callout.antt =====
-- driver/.../infrastructure/wfp/WfpCallout.c: TcpRedirectClassify. The callout is called for each
-- connection; what the filter engine answers is given by `Replies`.
pub mod Outcome
pub mod Queued
use tcp_redirector.Prelude.{
  ℕ, Bool, true, false, List, [], ◌∷◌, ◌&&◌, Option, none, some, if◌then◌else◌,
}
use tcp_redirector.Driver.Entities.{
  RedirectInfo, RuleAction, redirect, permit, block, ProcessIdentity, Block, Free, tag_ndrt,
  zero_info, nt_success,
}
use tcp_redirector.Driver.Service.{
  RedirectService, ProcessApi, identify_process, match_rule, enqueue,
}

-- The values of the layer and its metadata that the callout reads.
pub record Connection : Type 0 where
  pub remote_addr : ℕ
  pub remote_port : ℕ
  pub process_id : ℕ

-- Whether there is a classify context, the statuses of the two acquisitions, whether the connect
-- request is there, whether the pool has a block, and the tick count.
pub record Replies : Type 0 where
  pub classify_context : Bool
  pub acquire_handle : ℕ
  pub acquire_data : ℕ
  pub connect_request : Bool
  pub pool_block : Bool
  pub tick_count : ℕ

pub data FwpAction : Type 0 where
  action_permit action_block : FwpAction

-- What the call has done when it returns: the action, the redirect handle written to the connect
-- request, the classify handles acquired and released, whether the layer data was applied, and the
-- blocks freed.
pub record Classified : Type 0 where
  pub action_type : FwpAction
  pub redirect_handle : Option ℕ
  pub acquired : Bool
  pub released : Bool
  pub applied : Bool
  pub freed : List (Free RedirectInfo)

abbrev pub permitted : Classified
permitted = record {
  action_type = action_permit;
  redirect_handle = none;
  acquired = false;
  released = false;
  applied = false;
  freed = [];
}

abbrev pub info_of : Connection → ProcessIdentity → Block RedirectInfo
info_of c identity = record {
  tag = tag_ndrt;
  body = record zero_info {
    process_id = identity.process_id;
    original_address_v4 = c.remote_addr;
    original_port = c.remote_port;
    process_path = identity.process_path;
  };
}

abbrev pub is_redirect : RuleAction → Bool
is_redirect redirect = true
is_redirect permit = false
is_redirect block = false

-- With the connect request in hand: allocate and queue the info, then apply and release.
unfoldable pub queue_info :
    RedirectService → ℕ → Connection → ProcessIdentity → Replies → RedirectService × Classified
queue_info s handle c identity w =
    let (s', status) = enqueue s (some (info_of c identity)) w.tick_count in
    let done : Classified = record permitted { acquired = true; released = true; applied = true } in
    if w.pool_block
    then (
      s',
      record done {
        redirect_handle = some handle;
        freed =
            if nt_success status
            then []
            else record { freed = info_of c identity; named = tag_ndrt } ∷ [];
      },
    )
    else (s, done)

unfoldable pub redirect_connection :
    RedirectService
    → Option ℕ
    → Connection
    → ProcessIdentity
    → Replies
    → RedirectService × Classified
unfolding queue_info
redirect_connection s none c identity w = (s, permitted)
redirect_connection s (some handle) c identity w =
    if w.classify_context && nt_success w.acquire_handle
    then (if nt_success w.acquire_data && w.connect_request
        then queue_info s handle c identity w
        else (s, record permitted { acquired = true; released = true }))
    else (s, permitted)

-- `none` is a read past the end of an array, in the match of the rules.
unfoldable pub classify :
    ProcessApi
    → RedirectService
    → Option ℕ
    → Connection
    → Replies
    → Option (RedirectService × Classified)
unfolding redirect_connection
classify api s g_redirect_handle c w =
    let (identity, status) = identify_process api c.process_id in
    if nt_success status
    then (elim (match_rule s identity) [
      | none ↦ none
      | some action ↦ some (
          if is_redirect action
          then redirect_connection s g_redirect_handle c identity w
          else (s, permitted))
    ])
    else some (s, permitted)
