-- ===== src/Ipc/Synced.antt =====
-- IpcHandler.h: the rules of the engine and those of the configuration.
use mathlib.Core.List.{Perm}
use tcp_redirector.Prelude.{
  ℕ, ◌≡◌, Bool, true, false, List, [], ◌∷◌, Option, none, some, refl, sym, ap, ◌∙◌, arith, inl, inr,
  Bool-cases, Option-cases, length, ltb, if-cases,
}
use tcp_redirector.RuleEngine.{Rule, Sorter, match_rules, set_rules}
use tcp_redirector.RuleEngine.Decision.{Decides, match_rules-Decides}
use tcp_redirector.Config.Entities.{ConfigManager, Store, Windows, FileApi, LogLevel, ProxyConfig}
use tcp_redirector.Config.Json.{JsonApi}
use tcp_redirector.Config.Load.{load_document}
use tcp_redirector.Config.Stored.{save_impl-manager}
use tcp_redirector.Config.{
  save_impl, load_impl, set_log_level, save_and_notify, set_proxy_config, notify_listeners,
  with_config, level_number,
}
use tcp_redirector.Config
use tcp_redirector.Ipc.{Outcome, parse_proxy, set_proxy, set_config}
use tcp_redirector.Ipc.Requests.{
  Service, Casts, Request, set_config_request, set_rules_request, set_log_level_request,
  reload_config_request, reads, take_rules, parse_rules, take_level, parse_level, reload_config,
  dispatch, handle, max_ipc_message_size,
}

-- There is a file.
abbrev is_some : Option (List ℕ) → Bool
is_some none = false
is_some (some t) = true

abbrev pub HasFile : Store → Type 0
HasFile s = is_some s.file ≡ true

-- What a call leaves alone: the rules of the configuration, and that there is a file.
abbrev Leaves : Store → Store → Type 0
Leaves s r = (r.manager.rules ≡ s.manager.rules) × HasFile r

module _ (Js : JsonApi) (w : Windows) where
  save-HasFile : (f : FileApi) (s : Store) → HasFile s → HasFile (save_impl Js w f s).0
  unfolding save_impl
  save-HasFile f s h = ground arith

  save-Leaves : (f : FileApi) (s : Store) → HasFile s → Leaves s (save_impl Js w f s).0
  save-Leaves f s h = (ap (λ m. m.rules) (save_impl-manager Js w f s), save-HasFile f s h)

  set_proxy-Leaves :
      (f g : FileApi) (p : Option ProxyConfig) (s : Store)
      → HasFile s
      → Leaves s (set_proxy Js w f g p s).0
  unfolding set_proxy set_proxy_config notify_listeners
  set_proxy-Leaves f g none s h = (refl, h)
  set_proxy-Leaves f g (some p) s h =
      let r = set_proxy_config Js w f p s in
      let first : Leaves s r.0 = save-Leaves f _ h in
      let second : Leaves s (save_impl Js w g r.0).0 =
        (let l = save-Leaves g r.0 first.1 in (l.0 ∙ first.0, l.1)) in
      if-cases (λ (x : Store × Outcome). Leaves s x.0) r.1
        (if-cases (λ (x : Store × Outcome). Leaves s x.0) (save_impl Js w g r.0).1 second second)
        first

  set_log_level-Leaves :
      (f : FileApi) (level : LogLevel) (s : Store)
      → HasFile s
      → Leaves s (set_log_level Js w f level s).0
  unfolding set_log_level save_and_notify notify_listeners
  set_log_level-Leaves f level s h =
      let c = s.manager.config in
      let new = record c { log = record c.log { level = level_number level } } in
      let saved = save_impl Js w f (with_config new s) in
      let kept : Leaves s saved.0 = save-Leaves f (with_config new s) h in
      if-cases (λ (x : Store × Bool). Leaves s x.0) saved.1 kept kept

  document-rules :
      (j : Js.Json) (m : ConfigManager)
      → (load_document Js w.to_wide j m).1 ≡ false
      → (load_document Js w.to_wide j m).0.rules ≡ m.rules
  unfolding load_document
  document-rules j m failed = ground arith

  -- A file that is there is not made anew: unless it is loaded, the rules stay.
  load_impl-Leaves :
      (f : FileApi) (s : Store)
      → HasFile s
      → HasFile (load_impl Js w f s).0
        × ((load_impl Js w f s).1 ≡ false → (load_impl Js w f s).0.manager.rules ≡ s.manager.rules)
  unfolding load_impl
  load_impl-Leaves f s h = elim (Option-cases s.file) [
    | inl e ↦ absurd (ground arith)
    | inr (t, e) ↦ elim (Bool-cases f.reads) [
      | inr r ↦ simp (e, r, load_impl) (refl, λ failed. refl)
      | inl r ↦ elim (Option-cases (Js.parse t)) [
        | inl p ↦ simp (e, r, p, load_impl) (refl, λ failed. refl)
        | inr (j, p) ↦ simp (e, r, p, load_impl) (refl, document-rules j s.manager)
      ]
    ]
  ]

  -- The engine has the rules of the configuration, sorted.
  abbrev pub IsSynced : Sorter → Service → Type 0
  IsSynced sorter s = (s.engine ≡ sorter.sort s.store.manager.rules) × HasFile s.store

  kept-IsSynced :
      (sorter : Sorter) (s : Service) (r : Store)
      → IsSynced sorter s
      → Leaves s.store r
      → IsSynced sorter (record s { store = r })
  kept-IsSynced sorter s r h l = (h.0 ∙ ap sorter.sort (sym l.0), l.1)

  module _ (casts : Casts) (sorter : Sorter) where
    rules-IsSynced :
        (f : FileApi) (rules : Option (List Rule)) (s : Service)
        → IsSynced sorter s
        → IsSynced sorter (take_rules Js w casts sorter f rules s)
    unfolding take_rules set_rules Config.set_rules
    rules-IsSynced f none s h = h
    rules-IsSynced f (some rules) s h =
        let l = save-Leaves f (Config.set_rules rules s.store).0 h.1 in
        (ap sorter.sort (sym l.0), l.1)

    level-IsSynced :
        (f g : FileApi) (level : Option LogLevel) (s : Service)
        → IsSynced sorter s
        → IsSynced sorter (take_level Js w casts sorter f g level s)
    unfolding take_level
    level-IsSynced f g none s h = h
    level-IsSynced f g (some level) s h =
        let first = set_log_level-Leaves f level s.store h.1 in
        let second = save-Leaves g (set_log_level Js w f level s.store).0 first.1 in
        (h.0 ∙ ap sorter.sort (sym (second.0 ∙ first.0)), second.1)

    reload-IsSynced :
        (f : FileApi) (s : Service)
        → IsSynced sorter s
        → IsSynced sorter (reload_config Js w casts sorter f s)
    unfolding reload_config set_rules
    reload-IsSynced f s h =
        let l = load_impl-Leaves f s.store h.1 in
        elim (Bool-cases (load_impl Js w f s.store).1) [
          | inl a ↦ simp a (refl, l.0)
          | inr b ↦ simp b (h.0 ∙ ap sorter.sort (sym (l.1 b)), l.0)
        ]

    dispatch-IsSynced :
        (params : List ℕ) (r : Request) (s : Service)
        → IsSynced sorter s
        → IsSynced sorter (dispatch Js w casts sorter params r s)
    unfolding dispatch set_config
    dispatch-IsSynced params (set_config_request f g) s h =
        kept-IsSynced sorter s (set_proxy Js w f g (parse_proxy Js w params) s.store).0 h
          (set_proxy-Leaves f g (parse_proxy Js w params) s.store h.1)
    dispatch-IsSynced params (set_rules_request f) s h =
        rules-IsSynced f (parse_rules Js w casts sorter params) s h
    dispatch-IsSynced params (set_log_level_request f g) s h =
        level-IsSynced f g (parse_level Js w casts sorter params) s h
    dispatch-IsSynced params (reload_config_request f) s h = reload-IsSynced f s h
    dispatch-IsSynced params reads s h = h

    handle-IsSynced :
        (params : List ℕ) (r : Request) (s : Service)
        → IsSynced sorter s
        → IsSynced sorter (handle Js w casts sorter params r s)
    unfolding handle
    handle-IsSynced params r s h =
        if-cases (IsSynced sorter) (ltb max_ipc_message_size (length params)) h
          (dispatch-IsSynced params r s h)

-- Requests with their parameters.
abbrev pub handle_all :
    JsonApi → Windows → Casts → Sorter → List (List ℕ × Request) → Service → Service
handle_all Js w casts sorter [] s = s
handle_all Js w casts sorter ((params, r) ∷ rs) s =
    handle_all Js w casts sorter rs (handle Js w casts sorter params r s)

handle_all-IsSynced :
    (Js : JsonApi) (w : Windows) (casts : Casts) (sorter : Sorter) (rs : List (List ℕ × Request))
    (s : Service)
    → IsSynced Js w sorter s
    → IsSynced Js w sorter (handle_all Js w casts sorter rs s)
handle_all-IsSynced Js w casts sorter [] s h = h
handle_all-IsSynced Js w casts sorter ((params, r) ∷ rs) s h =
    handle_all-IsSynced Js w casts sorter rs (handle Js w casts sorter params r s)
      (handle-IsSynced Js w casts sorter params r s h)

-- After any requests to a service that began with the rules of its configuration and with a file, whatever the
-- file system does and whatever fails, the engine has the rules of the configuration, in some order, and `Match`
-- decides by their priority.
pub handle_all-Decides :
    (Js : JsonApi) (w : Windows) (casts : Casts) (sorter : Sorter) (rs : List (List ℕ × Request))
    (s : Service) (name path : List ℕ)
    → s.engine ≡ set_rules sorter [] s.store.manager.rules
    → HasFile s.store
    → let r = handle_all Js w casts sorter rs s in
      Perm r.engine r.store.manager.rules
      × Decides r.engine name path (match_rules r.engine name path)
unfolding set_rules
handle_all-Decides Js w casts sorter rs s name path began there =
    let h = handle_all-IsSynced Js w casts sorter rs s (began, there) in
    let rules = (handle_all Js w casts sorter rs s).store.manager.rules in
    simp h.0 (
      sorter.sort-perm rules,
      match_rules-Decides (sorter.sort rules) name path (sorter.sort-IsSorted rules),
    )
