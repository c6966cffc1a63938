-- ===== src/Config/Settings.antt =====
-- ConfigManager.cpp: what SetProxyConfig stores and GetProxyConfig gives, and what a failed save leaves.
use tcp_redirector.Base64.Decoders.{config_decode, decode_from}
use tcp_redirector.Base64.Stored.{config_encode, config_decode-config_encode}
use tcp_redirector.Prelude.{
  ℕ, ◌≡◌, ◌<◌, true, false, List, [], ◌∷◌, ◌++◌, some, All, map, refl, ap, sym, ◌∙◌, arith, inl,
  inr, Bool-cases,
}
use tcp_redirector.Config.Entities.{ProxyConfig, Store, Windows, FileApi}
use tcp_redirector.Config.Json.{JsonApi}
use tcp_redirector.Config.RoundTrip.{IsConverted}
use tcp_redirector.Config.Stored.{save_impl-manager, save_impl-fails}
use tcp_redirector.Config.{
  is_empty, encrypt_password, decrypt_password, with_config, with_proxy, get_proxy_config,
  notify_listeners, set_proxy_config,
}

encrypt_password-blob :
    (w : Windows) (plain blob : List ℕ)
    → w.protect plain ≡ some blob
    → encrypt_password w plain ≡ config_encode blob
unfolding encrypt_password
encrypt_password-blob w plain blob sealed = simp (sealed, encrypt_password) refl

is_empty-nil : (xs : List ℕ) → is_empty xs ≡ true → xs ≡ []
is_empty-nil [] h = refl
is_empty-nil (x ∷ xs) h = cc

config_decode_nil : config_decode [] ≡ []
unfolding config_decode decode_from
config_decode_nil = refl

-- What DPAPI and its inverse do with a password; the blob is a list of bytes, and not empty.
pub record IsSealed (w : Windows) (plain : List ℕ) : Type 0 where
  pub blob : List ℕ
  pub sealed : w.protect plain ≡ some blob
  pub bytes : All (λ x. x < 256) blob
  pub opened : w.unprotect blob ≡ some plain
  pub full : is_empty blob ≡ false

decrypt-encrypt :
    (w : Windows) (plain : List ℕ)
    → IsSealed w plain
    → decrypt_password w (encrypt_password w plain) ≡ plain
unfolding decrypt_password
decrypt-encrypt w plain p =
    let same : config_decode (encrypt_password w plain) ≡ p.blob =
      ap config_decode (encrypt_password-blob w plain p.blob p.sealed)
      ∙ config_decode-config_encode p.blob p.bytes in
    simp (same, p.full, p.opened, decrypt_password) refl

is_empty-encrypt :
    (w : Windows) (plain : List ℕ) → IsSealed w plain → is_empty (encrypt_password w plain) ≡ false
is_empty-encrypt w plain p =
    let same =
      ap config_decode (encrypt_password-blob w plain p.blob p.sealed)
      ∙ config_decode-config_encode p.blob p.bytes in
    elim (Bool-cases (is_empty (encrypt_password w plain))) [
      | inr e ↦ e
      | inl e ↦
          let nothing : p.blob ≡ [] =
            sym same
            ∙ ap config_decode (is_empty-nil (encrypt_password w plain) e)
            ∙ config_decode_nil in
          absurd (ground (arith, nothing, p.full))
    ]

with_proxy-get :
    (w : Windows) (p : ProxyConfig) (s : Store)
    → IsConverted w.to_utf8 w.to_wide p.host
    → IsConverted w.to_utf8 w.to_wide p.login
    → p.has_password ≡ true
    → IsSealed w p.plain_password
    → get_proxy_config w (with_config (with_proxy w p s.manager.config) s)
      ≡ record p { encrypted_password = [] }
unfolding get_proxy_config with_proxy IsConverted
with_proxy-get w p s host login has sealed =
    simp
      (
        has,
        host,
        login,
        is_empty-encrypt w p.plain_password sealed,
        decrypt-encrypt w p.plain_password sealed,
      )
      refl

with_proxy-keeps :
    (w : Windows) (p : ProxyConfig) (s : Store)
    → p.has_password ≡ false
    → let after = get_proxy_config w (with_config (with_proxy w p s.manager.config) s) in
      let before = get_proxy_config w s in
      (after.has_password ≡ before.has_password) × (after.plain_password ≡ before.plain_password)
unfolding get_proxy_config with_proxy
with_proxy-keeps w p s has = simp has (refl, refl)

get_proxy_config-manager :
    (w : Windows) (s t : Store)
    → s.manager ≡ t.manager
    → get_proxy_config w s ≡ get_proxy_config w t
unfolding get_proxy_config
get_proxy_config-manager w s t h = ap (λ m. get_proxy_config w (record s { manager = m })) h

pub set_proxy_config-manager :
    (Js : JsonApi) (w : Windows) (f : FileApi) (p : ProxyConfig) (s : Store)
    → (set_proxy_config Js w f p s).0.manager
      ≡ (with_config (with_proxy w p s.manager.config) s).manager
unfolding set_proxy_config notify_listeners
set_proxy_config-manager Js w f p s = save_impl-manager Js w f _

-- After SetProxyConfig with a password, whether or not the save succeeds, GetProxyConfig gives back what was set,
-- with the encrypted password left empty. The conversions to UTF-8 and back give the host and the login back, and
-- DPAPI turns the password into bytes, not none, that its inverse turns back.
pub get_proxy_config-set_proxy_config :
    (Js : JsonApi) (w : Windows) (f : FileApi) (p : ProxyConfig) (s : Store)
    → IsConverted w.to_utf8 w.to_wide p.host
    → IsConverted w.to_utf8 w.to_wide p.login
    → p.has_password ≡ true
    → IsSealed w p.plain_password
    → get_proxy_config w (set_proxy_config Js w f p s).0 ≡ record p { encrypted_password = [] }
get_proxy_config-set_proxy_config Js w f p s host login has sealed =
    get_proxy_config-manager w (set_proxy_config Js w f p s).0
      (with_config (with_proxy w p s.manager.config) s) (set_proxy_config-manager Js w f p s)
    ∙ with_proxy-get w p s host login has sealed

-- After SetProxyConfig without a password GetProxyConfig gives the password that it gave before.
pub set_proxy_config_keeps :
    (Js : JsonApi) (w : Windows) (f : FileApi) (p : ProxyConfig) (s : Store)
    → p.has_password ≡ false
    → let after = get_proxy_config w (set_proxy_config Js w f p s).0 in
      let before = get_proxy_config w s in
      (after.has_password ≡ before.has_password) × (after.plain_password ≡ before.plain_password)
set_proxy_config_keeps Js w f p s has =
    rw
      (get_proxy_config-manager w (set_proxy_config Js w f p s).0
        (with_config (with_proxy w p s.manager.config) s) (set_proxy_config-manager Js w f p s))
      (with_proxy-keeps w p s has)

-- If SetProxyConfig returns false, then the file is as it was, but the manager has the new configuration and has
-- told it to every listener.
pub set_proxy_config_fails :
    (Js : JsonApi) (w : Windows) (f : FileApi) (p : ProxyConfig) (s : Store)
    → (set_proxy_config Js w f p s).1 ≡ false
    → let old = s.manager.config in
      let t = (set_proxy_config Js w f p s).0 in
      (t.file ≡ s.file)
      × (t.manager.config ≡ with_proxy w p old)
      × (t.notices ≡ map (λ l. (l, old, with_proxy w p old)) s.listeners ++ s.notices)
unfolding set_proxy_config notify_listeners
set_proxy_config_fails Js w f p s h = rw (save_impl-fails Js w f _ h) (refl, refl, refl)
