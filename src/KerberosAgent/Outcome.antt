-- ===== src/KerberosAgent/Outcome.antt =====
-- KerberosAgentProvider.cpp: what the result of CreateContext says of the answer of the agent.
use mathlib.Core.Path.{subst}
use tcp_redirector.Prelude.{
  ℕ, ◌≡◌, ◌↔◌, true, false, List, [], Option, none, some, refl, ap, sym, ◌∙◌, arith, Bool-cases,
  inl, inr,
}
use tcp_redirector.Relay.Entities.{CreateContextResult}
use tcp_redirector.KerberosAgent.Entities.{
  World, Provider, Request, create_request, answered, Response,
}
use tcp_redirector.KerberosAgent.Results.{not_available, created, create_result}
use tcp_redirector.KerberosAgent.{call, ensure_connected, create_context}

call-answered :
    (w : World) (q : Request) (s : Provider) (r : Response)
    → (call w q s).1 ≡ some r
    → w.replies (call w q s).0.events ≡ answered r
unfolding call
call-answered w q s r h = ground arith

answered-call :
    (w : World) (q : Request) (s : Provider) (r : Response)
    → w.replies (call w q s).0.events ≡ answered r
    → (call w q s).1 ≡ some r
unfolding call
answered-call w q s r h = ground arith

-- The response is no error, and it is an object or null.
pub record Grants (o : Option Response) : Type 0 where
  pub response : Response
  pub is_that : o ≡ some response
  pub no_error : response.contains_error ≡ false
  pub result : response.is_object_or_null ≡ true

success-Grants :
    (what : List ℕ) (o : Option Response) → (create_result what o).success ≡ true → Grants o
unfolding create_result
success-Grants what none h = cc
success-Grants what (some r) h = record {
  response = r;
  is_that = refl;
  no_error = ground arith;
  result = ground arith;
}

Grants-success :
    (what : List ℕ) (o : Option Response) → Grants o → (create_result what o).success ≡ true
unfolding create_result
Grants-success what none g = absurd (ground (arith, g.is_that))
Grants-success what (some r) g = ground (arith, g.is_that, g.no_error, g.result)

-- The fields of the result are those of the response.
pub record Carries (r : Response) (c : CreateContextResult) : Type 0 where
  pub id : r.context_id ≡ some c.context_id
  pub token : r.token ≡ some c.token
  pub more : r.needs_continue ≡ some c.needs_continue

success-Carries :
    (what : List ℕ) (r : Response)
    → (create_result what (some r)).success ≡ true
    → (create_result what (some r)).error_message ≡ []
    → Carries r (create_result what (some r))
unfolding create_result
success-Carries what r h m = record { id = ground arith; token = ground arith; more = ground arith }

connected-result :
    (w : World) (spn : List ℕ) (s : Provider)
    → (ensure_connected w s).connected ≡ true
    → let r = call w (create_request spn) (ensure_connected w s) in
      create_context w spn s ≡ (r.0, create_result (w.what r.0.events) r.1)
unfolding create_context
connected-result w spn s on = simp on refl

unconnected-result :
    (w : World) (spn : List ℕ) (s : Provider)
    → (ensure_connected w s).connected ≡ false
    → create_context w spn s ≡ (ensure_connected w s, created false 0 [] false not_available)
unfolding create_context
unconnected-result w spn s off = simp off refl

-- CreateContext reports success exactly if the provider is connected and the answer of the agent parses as an
-- object or as null and has no member "error": whether or not it has a result, and whether or not that has an
-- identifier and a token.
pub create_context-success :
    (w : World) (spn : List ℕ) (s : Provider)
    → let t = ensure_connected w s in
      ((create_context w spn s).1.success ≡ true)
      ↔ ((t.connected ≡ true) × Grants (call w (create_request spn) t).1)
create_context-success w spn s =
    let t = ensure_connected w s in
    let r = call w (create_request spn) t in
    let what = w.what r.0.events in
    elim (Bool-cases t.connected) [
      | inl on ↦
          let same = ap (λ c. c.1.success) (connected-result w spn s on) in
          (
            λ h. (on, success-Grants what r.1 (sym same ∙ h)),
            λ g. same ∙ Grants-success what r.1 g.1,
          )
      | inr off ↦
          let same = ap (λ c. c.1.success) (unconnected-result w spn s off) in (λ h. cc, λ g. cc)
    ]

-- If CreateContext reports success and no error message, then the identifier, the token and the flag of its
-- result are those of the agent's answer to the request.
pub create_context-Carries :
    (w : World) (spn : List ℕ) (s : Provider)
    → (create_context w spn s).1.success ≡ true
    → (create_context w spn s).1.error_message ≡ []
    → let c = create_context w spn s in
      (r : Response) × (w.replies c.0.events ≡ answered r) × Carries r c.1
create_context-Carries w spn s h m =
    let t = ensure_connected w s in
    let r = call w (create_request spn) t in
    let (on, g) = (create_context-success w spn s).0 h in
    let same = connected-result w spn s on in
    let what = w.what r.0.events in
    let eq : (create_context w spn s).1 ≡ create_result what (some g.response) =
      ap (λ c. c.1) same ∙ ap (create_result what) g.is_that in
    (
      g.response,
      ap (λ c. w.replies c.0.events) same
          ∙ call-answered w (create_request spn) t g.response g.is_that,
      subst (λ c. Carries g.response c) (sym eq)
          (success-Carries what g.response (ap (λ c. c.success) (sym eq) ∙ h)
            (ap (λ c. c.error_message) (sym eq) ∙ m)),
    )
