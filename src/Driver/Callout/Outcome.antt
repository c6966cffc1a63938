-- ===== src/Driver/Callout/Outcome.antt =====
-- WfpCallout.c: what a classified connection leaves behind.
use tcp_redirector.Prelude.{
  ℕ, ◌≡◌, refl, inl, inr, true, ◌&&◌, Option, none, some, if-cases, arith, Bool-cases, Option-cases,
}
use mathlib.Core.Path.{subst}
use tcp_redirector.Driver.Entities.{nt_success, ProcessIdentity}
use tcp_redirector.Driver.Service.{RedirectService, ProcessApi, identify_process, match_rule}
use tcp_redirector.Driver.Callout.{
  Connection, Replies, Classified, action_permit, permitted, is_redirect, queue_info,
  redirect_connection, classify,
}

-- What holds of the end of a call: P of the service and the outcome.
pub redirect_connection-cases {ℓ} :
    (P : RedirectService × Classified → Type ℓ)
    → (s : RedirectService) (handle : Option ℕ) (c : Connection) (identity : ProcessIdentity)
      (w : Replies)
    → P (s, permitted)
    → P (s, record permitted { acquired = true; released = true })
    → ((h : ℕ) → handle ≡ some h → P (queue_info s h c identity w))
    → P (redirect_connection s handle c identity w)
unfolding redirect_connection
redirect_connection-cases P s none c identity w p q r = p
redirect_connection-cases P s (some h) c identity w p q r =
    if-cases P (w.classify_context && nt_success w.acquire_handle)
      (if-cases P (nt_success w.acquire_data && w.connect_request) (r h refl) q) p

pub classify-cases {ℓ} :
    (P : RedirectService × Classified → Type ℓ)
    → (api : ProcessApi) (s : RedirectService) (handle : Option ℕ) (c : Connection) (w : Replies)
      (r : RedirectService × Classified)
    → classify api s handle c w ≡ some r
    → P (s, permitted)
    → ((identity : ProcessIdentity) → P (redirect_connection s handle c identity w))
    → P r
unfolding classify
classify-cases P api s handle c w r e p q =
    elim (Bool-cases (nt_success (identify_process api c.process_id).1)) [
      | inl ok ↦ elim (Option-cases (match_rule s (identify_process api c.process_id).0)) [
        | inl m ↦ absurd (ground arith)
        | inr (action, m) ↦
            subst P (ground arith)
              (if-cases P (is_redirect action) (q (identify_process api c.process_id).0) p)
      ]
      | inr bad ↦ subst P (ground arith) p
    ]

-- If the match of the rules reads no array past its end, the callout ends with FWP_ACTION_PERMIT,
-- whatever the rules say.
pub classify-permits :
    (api : ProcessApi) (s : RedirectService) (handle : Option ℕ) (c : Connection) (w : Replies)
    (r : RedirectService × Classified)
    → classify api s handle c w ≡ some r
    → r.1.action_type ≡ action_permit
classify-permits api s handle c w r e =
    classify-cases (λ r. r.1.action_type ≡ action_permit) api s handle c w r e refl
      λ identity.
        redirect_connection-cases (λ r. r.1.action_type ≡ action_permit) s handle c identity w refl
          refl
          (λ h _.
            unfold queue_info in
            if-cases (λ (r : RedirectService × Classified). r.1.action_type ≡ action_permit)
              w.pool_block refl refl)

-- If the match of the rules reads no array past its end, the call releases the classify handle
-- exactly if it acquired one.
pub classify-releases :
    (api : ProcessApi) (s : RedirectService) (handle : Option ℕ) (c : Connection) (w : Replies)
    (r : RedirectService × Classified)
    → classify api s handle c w ≡ some r
    → r.1.released ≡ r.1.acquired
classify-releases api s handle c w r e =
    classify-cases (λ r. r.1.released ≡ r.1.acquired) api s handle c w r e refl
      λ identity.
        redirect_connection-cases (λ r. r.1.released ≡ r.1.acquired) s handle c identity w refl refl
          (λ h _.
            unfold queue_info in
            if-cases (λ (r : RedirectService × Classified). r.1.released ≡ r.1.acquired)
              w.pool_block refl refl)
