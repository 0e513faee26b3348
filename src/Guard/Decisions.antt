-- ===== src/Guard/Decisions.antt =====
-- What the guards let through.
use edge_bootstrap.Prelude.{String, Option, err, Call, ◌≡◌, ◌⊎◌, inl, inr, refl}
use edge_bootstrap.Transport.{HttpBody, InboundRequest, HttpIngressError, HttpIngress}
use edge_bootstrap.Guard.{
  RequestEvent, Decision, allow, reject, Wired, guarded, blocked, build_http_event,
  http_intrusion_guard,
}

module _ {W : Type 0} (wired : Wired W) where
  pub decision_cases :
      (d : Decision)
      → (d ≡ allow) ⊎ ((rule : String) × (reason : String) × (d ≡ reject rule reason))
  decision_cases allow = inl refl
  decision_cases (reject rule reason) = inr (rule, reason, refl)

  module _ {E A : Type 0} (denied : String → E) (event : W → RequestEvent) (call : Call W E A)
      (w : W) where
    pub guarded-passed :
        (wired.guard (event w) w).1 ≡ allow
        → guarded wired denied event call w ≡ call (wired.guard (event w) w).0
    unfolding guarded
    guarded-passed e = rw (e, guarded) refl

    pub guarded-denied :
        (rule reason : String)
        → (wired.guard (event w) w).1 ≡ reject rule reason
        → guarded wired denied event call w
          ≡ ((wired.guard (event w) w).0, err (denied (blocked rule reason)))
    unfolding guarded
    guarded-denied rule reason e = rw (e, guarded) refl

  -- For one request, in one state, with the event made of its method, URL, headers and peer: if the
  -- rules engine allows the event, the guard passes the call on to whatever ingress it wraps, in the
  -- state that the engine leaves; if the engine rejects it, the guard denies the call with the
  -- engine's rule and reason, in that state, whatever ingress it wraps: then nothing of that ingress
  -- runs. The request's body makes no difference to this.
  pub guard_decides :
      (req : InboundRequest) (w : W)
      → let (w', decision) = wired.guard (build_http_event wired req w) w in
        ((decision ≡ allow)
          × ((inner : HttpIngress W) (body : Option HttpBody)
              → let other = record req { request = record (req.request) { body = body } } in
                (http_intrusion_guard wired inner).handle other w ≡ inner.handle other w'))
        ⊎ ((rule : String) × (reason : String) × (decision ≡ reject rule reason)
            × ((inner : HttpIngress W) (body : Option HttpBody)
                → let other = record req { request = record (req.request) { body = body } } in
                  (http_intrusion_guard wired inner).handle other w
                  ≡ (w', err (HttpIngressError.permission_denied (blocked rule reason)))))
  unfolding http_intrusion_guard build_http_event
  guard_decides req w =
      let event : RequestEvent = build_http_event wired req w in
      let with_body : Option HttpBody → InboundRequest =
        λ body. record req { request = record (req.request) { body = body } } in
      elim (decision_cases (wired.guard event w).1) [
        | inl passed ↦ inl (
          passed,
          λ inner body.
              guarded-passed HttpIngressError.permission_denied
                (build_http_event wired (with_body body)) (inner.handle (with_body body)) w passed,
        )
        | inr (rule, reason, denied) ↦ inr (
          rule,
          reason,
          denied,
          λ inner body.
              guarded-denied HttpIngressError.permission_denied
                (build_http_event wired (with_body body)) (inner.handle (with_body body)) w rule
                reason denied,
        )
      ]
