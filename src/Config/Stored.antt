-- ===== src/Config/Stored.antt =====
-- ConfigManager.cpp: what is stored, and what is read again.
use tcp_redirector.Prelude.{
  ℕ, ◌≡◌, ◌<◌, true, false, List, some, All, map, refl, ap, ◌∙◌, arith, inl, inr, u16_mod,
  Option-cases,
}
use tcp_redirector.Config.Entities.{Store, Windows, FileApi, Flushes}
use tcp_redirector.Config.Json.{JsonApi, IsLawful}
use tcp_redirector.Config.Document.{document}
use tcp_redirector.Config.Load.{load_document}
use tcp_redirector.Config.RoundTrip.{IsConverted, IsKept, undated, reread, load_document-document}
use tcp_redirector.Config.{save_impl, load_impl}

pub save_impl-manager :
    (Js : JsonApi) (w : Windows) (f : FileApi) (s : Store)
    → (save_impl Js w f s).0.manager ≡ s.manager
unfolding save_impl
save_impl-manager Js w f s = ground arith

pub save_impl-file :
    (Js : JsonApi) (w : Windows) (f : FileApi) (s : Store)
    → (save_impl Js w f s).1 ≡ true
    → (t : List ℕ) × (Js.dump (document Js w.to_utf8 s.manager) ≡ some t)
      × ((save_impl Js w f s).0.file ≡ some (f.flush t))
unfolding save_impl
save_impl-file Js w f s h = elim (Option-cases (Js.dump (document Js w.to_utf8 s.manager))) [
  | inl e ↦ absurd (ground arith)
  | inr (t, e) ↦ (t, e, ground arith)
]

pub save_impl-fails :
    (Js : JsonApi) (w : Windows) (f : FileApi) (s : Store)
    → (save_impl Js w f s).1 ≡ false
    → (save_impl Js w f s).0 ≡ s
unfolding save_impl
save_impl-fails Js w f s h = ground arith

load_impl-file :
    (Js : JsonApi) (w : Windows) (f : FileApi) (s : Store) (t : List ℕ) (j : Js.Json)
    → s.file ≡ some t
    → f.reads ≡ true
    → Js.parse t ≡ some j
    → load_impl Js w f s ≡ (
      record s { manager = (load_document Js w.to_wide j s.manager).0 },
      (load_document Js w.to_wide j s.manager).1,
    )
unfolding load_impl
load_impl-file Js w f s t j file reads parsed = simp (file, reads, parsed, load_impl) refl

-- With a lawful JSON library: if a Save returns true and the closing of its stream loses
-- nothing, then a Load of that file by any manager returns true and
-- gives the saved configuration, but for the authentication mode, which stays as it was, and the saved rules,
-- but for their dates. The port is a 16-bit number, and the conversions to UTF-8 and back give the path of the
-- program and the patterns and descriptions of the rules back.
pub load_impl-save_impl :
    (Js : JsonApi) (w : Windows) (f g : FileApi) (s other : Store)
    → IsLawful Js
    → Flushes f
    → (save_impl Js w f s).1 ≡ true
    → other.file ≡ (save_impl Js w f s).0.file
    → g.reads ≡ true
    → IsConverted w.to_utf8 w.to_wide s.manager.config.app.exe_path
    → s.manager.config.proxy.port < u16_mod
    → All (IsKept w.to_utf8 w.to_wide) s.manager.rules
    → load_impl Js w g other ≡ (
      record other {
        manager = record {
          config = reread s.manager.config other.manager.config;
          rules = map undated s.manager.rules;
        };
      },
      true,
    )
load_impl-save_impl Js w f g s other L whole saved same reads exe port kept =
    let (t, dumped, file) = save_impl-file Js w f s saved in
    let j = document Js w.to_utf8 s.manager in
    let parsed = L.parse-dump j t dumped in
    let loaded =
      load_document-document Js L w.to_utf8 w.to_wide s.manager other.manager exe port kept in
    load_impl-file Js w g other t j (same ∙ file ∙ ap some (whole t)) reads parsed
    ∙ ap (λ r. (record other { manager = r.0 }, r.1)) loaded
