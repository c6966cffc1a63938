-- ===== src/Ipc/Replies.antt =====
-- IpcHandler.h: what the answers to a set_config and to a get_stats mean.
use tcp_redirector.Prelude.{
  ℕ, ◌≡◌, Bool, true, false, not, ◌&&◌, List, [], ◌∷◌, Option, none, some, take, length, refl, ap,
  ◌∙◌, arith, inl, inr, Bool-cases, if◌then◌else◌,
}
use tcp_redirector.Config.Entities.{ProxyConfig, Store, Windows, FileApi, Flushes}
use tcp_redirector.Config.Json.{
  JsonApi, host_key, auth_required_key, kerberos_key, login_key, set_password_key,
}
use tcp_redirector.Config.Document.{document}
use tcp_redirector.Config.Load.{bind, value, required}
use tcp_redirector.Config.Stored.{save_impl-manager, save_impl-file, save_impl-fails}
use tcp_redirector.Config.Settings.{set_proxy_config-manager, set_proxy_config_fails}
use tcp_redirector.Config.{with_proxy, set_proxy_config, save_impl}
use tcp_redirector.ConnectionTracker.{ConnectionTracker, get_aggregated_stats, set_uptime_seconds}
use tcp_redirector.Ipc.{
  Outcome, success, not_saved, not_persisted, threw, required_port, new_password, parse_proxy,
  set_proxy, set_config, get_stats,
}

-- What is there has a property.
abbrev Sure {ℓ} : {A : Type ℓ} → (A → Type 0) → Option A → Type 0
Sure P none = Unit
Sure P (some a) = P a

bind-Sure {ℓ κ} :
    {A : Type ℓ} {B : Type κ} (P : B → Type 0) (o : Option A) (f : A → Option B)
    → ((a : A) → Sure P (f a))
    → Sure P (bind o f)
bind-Sure P none f h = tt
bind-Sure P (some a) f h = h a

implied : (k a : Bool) → k ≡ true → (if k && not a then true else a) ≡ true
implied k a h = ground arith

-- Kerberos implies authentication.
abbrev pub IsImplied : ProxyConfig → Type 0
IsImplied p = p.kerberos_auth ≡ true → p.auth_required ≡ true

parse_proxy-IsImplied :
    (Js : JsonApi) (w : Windows) (params : List ℕ) → Sure IsImplied (parse_proxy Js w params)
unfolding parse_proxy
parse_proxy-IsImplied Js w params = bind-Sure IsImplied (Js.parse params) _ (λ j.
    bind-Sure IsImplied (required Js w.to_wide j host_key) _ (λ host.
      bind-Sure IsImplied (required_port Js w j) _ (λ port.
        bind-Sure IsImplied (value Js w.to_wide Js.get_flag j auth_required_key false) _ (λ auth.
          bind-Sure IsImplied (value Js w.to_wide Js.get_flag j kerberos_key false) _ (λ kerberos.
            bind-Sure IsImplied (value Js w.to_wide Js.get_text j login_key []) _ (λ login.
              bind-Sure IsImplied (value Js w.to_wide Js.get_flag j set_password_key false) _
                (λ has.
                  bind-Sure IsImplied (new_password Js w has j) _
                    (λ password. implied kerberos auth))))))))

-- The file has the document of the manager.
abbrev pub IsHeld : JsonApi → Windows → Store → Type 0
IsHeld Js w s =
    (t : List ℕ) × (Js.dump (document Js w.to_utf8 s.manager) ≡ some t) × (s.file ≡ some t)

-- The manager has the proxy that the request describes.
abbrev pub IsTaken : JsonApi → Windows → List ℕ → Store → Store → Type 0
IsTaken Js w params s r =
    (p : ProxyConfig) × (parse_proxy Js w params ≡ some p)
    × IsImplied p
    × (r.manager.config ≡ with_proxy w p s.manager.config)

-- What the answer to a set_config says of the store before it and the store after it.
abbrev pub Answers : JsonApi → Windows → List ℕ → Store → Store → Outcome → Type 0
Answers Js w params s r threw = r ≡ s
Answers Js w params s r not_saved = IsTaken Js w params s r × (r.file ≡ s.file)
Answers Js w params s r not_persisted = IsTaken Js w params s r × IsHeld Js w r
Answers Js w params s r success = IsTaken Js w params s r × IsHeld Js w r

save_impl-IsHeld :
    (Js : JsonApi) (w : Windows) (f : FileApi) (s : Store)
    → Flushes f
    → (save_impl Js w f s).1 ≡ true
    → IsHeld Js w (save_impl Js w f s).0
save_impl-IsHeld Js w f s whole h =
    let (t, dumped, held) = save_impl-file Js w f s h in
    (
      t,
      ap (λ m. Js.dump (document Js w.to_utf8 m)) (save_impl-manager Js w f s) ∙ dumped,
      held ∙ ap some (whole t),
    )

set_proxy_config-IsHeld :
    (Js : JsonApi) (w : Windows) (f : FileApi) (p : ProxyConfig) (s : Store)
    → Flushes f
    → (set_proxy_config Js w f p s).1 ≡ true
    → IsHeld Js w (set_proxy_config Js w f p s).0
unfolding set_proxy_config
set_proxy_config-IsHeld Js w f p s whole h = save_impl-IsHeld Js w f _ whole h

proxy_config :
    (Js : JsonApi) (w : Windows) (f : FileApi) (p : ProxyConfig) (s : Store)
    → (set_proxy_config Js w f p s).0.manager.config ≡ with_proxy w p s.manager.config
proxy_config Js w f p s = ap (λ m. m.config) (set_proxy_config-manager Js w f p s)

-- A save that fails after one that did not leaves what that one wrote.
resaved-IsHeld :
    (Js : JsonApi) (w : Windows) (g : FileApi) (r : Store)
    → Flushes g
    → IsHeld Js w r
    → IsHeld Js w (save_impl Js w g r).0
resaved-IsHeld Js w g r whole h = elim (Bool-cases (save_impl Js w g r).1) [
  | inl e ↦ save_impl-IsHeld Js w g r whole e
  | inr e ↦ rw (save_impl-fails Js w g r e) h
]

set_proxy-Answers :
    (Js : JsonApi) (w : Windows) (f g : FileApi) (params : List ℕ) (s : Store)
    (o : Option ProxyConfig)
    → Flushes f
    → Flushes g
    → parse_proxy Js w params ≡ o
    → Sure IsImplied o
    → let r = set_proxy Js w f g o s in Answers Js w params s r.0 r.1
unfolding set_proxy
set_proxy-Answers Js w f g params s none whole kept e h = refl
set_proxy-Answers Js w f g params s (some p) whole kept e h =
    let r = set_proxy_config Js w f p s in
    let saved = save_impl Js w g r.0 in
    let same : saved.0.manager.config ≡ with_proxy w p s.manager.config =
      ap (λ m. m.config) (save_impl-manager Js w g r.0) ∙ proxy_config Js w f p s in
    elim (Bool-cases r.1) [
      | inr a ↦ simp a ((p, e, h, proxy_config Js w f p s), (set_proxy_config_fails Js w f p s a).0)
      | inl a ↦
          let held = resaved-IsHeld Js w g r.0 kept (set_proxy_config-IsHeld Js w f p s whole a) in
          elim (Bool-cases saved.1) [
            | inl b ↦ simp (a, b) ((p, e, h, same), held)
            | inr b ↦ simp (a, b) ((p, e, h, same), held)
          ]
    ]

-- If the closing of a stream loses nothing, the answer to a set_config is true. One that throws has changed nothing. After any other the manager has the
-- proxy of the request, in which Kerberos implies authentication; after the error of the first save the file
-- is as it was, and after a success or the error of the second save it has the new configuration.
pub set_config-Answers :
    (Js : JsonApi) (w : Windows) (f g : FileApi) (params : List ℕ) (s : Store)
    → Flushes f
    → Flushes g
    → let r = set_config Js w f g params s in Answers Js w params s r.0 r.1
unfolding set_config
set_config-Answers Js w f g params s whole kept =
    set_proxy-Answers Js w f g params s (parse_proxy Js w params) whole kept refl
      (parse_proxy-IsImplied Js w params)

-- The uptimes that a row of get_stats requests answers, when the callbacks give `uptimes`.
abbrev pub reports : List ℕ → ConnectionTracker → List ℕ
reports [] t = []
reports (u ∷ us) t =
    let r = get_stats (record { relay_bytes = none; active_count = none; uptime = some u }) t in
    r.1.uptime_seconds ∷ reports us r.0

-- A get_stats answers the uptime that the callback gave at the get_stats before it.
pub get_stats-lags :
    (us : List ℕ) (t : ConnectionTracker)
    → reports us t ≡ take (length us) (t.stats.uptime_seconds ∷ us)
unfolding get_stats get_aggregated_stats set_uptime_seconds
get_stats-lags [] t = refl
get_stats-lags (u ∷ us) t =
    ap (λ x. t.stats.uptime_seconds ∷ x) (get_stats-lags us (set_uptime_seconds u t))
