-- ===== src/Assembly/Startable.antt =====
-- What the choice of the ingress means for the start of the runtime.
use edge_bootstrap.Prelude.{
  true, Option, ok, is_ok, is_some, ◌≡◌, ◌≢◌, ◌↔◌, ◌⊎◌, inl, inr, ◌||◌, arith,
}
use edge_bootstrap.Transport.{HttpIngress, GrpcIngress}
use edge_bootstrap.Adapters.{DefaultIngress, has_any}
use edge_bootstrap.Runtime.Status.{running}
use edge_bootstrap.Runtime.Manager.{Manager, State, start}
use edge_bootstrap.Runtime.Manager.Laws.{start_ok_iff}
use edge_bootstrap.Assembly.{choose_ingress}

module _ {W : Type 0} where
  chosen_any :
      (hj hh : Option (HttpIngress W)) (gj gh : Option (GrpcIngress W)) (i : DefaultIngress W)
      → choose_ingress hj hh gj gh ≡ ok i
      → has_any i ≡ true
  unfolding choose_ingress has_any
  chosen_any hj hh gj gh i e = ground arith

  some_given :
      (hj hh : Option (HttpIngress W)) (gj gh : Option (GrpcIngress W)) (i : DefaultIngress W)
      → choose_ingress hj hh gj gh ≡ ok i
      → is_some hj || is_some hh || is_some gj || is_some gh ≡ true
  unfolding choose_ingress has_any
  some_given hj hh gj gh i e = ground arith

  -- If the assembly chooses an ingress, a job or a handler was given; and a manager over that ingress,
  -- unless it runs already, starts exactly if the background tasks start.
  pub assembled_start_iff :
      (hj hh : Option (HttpIngress W)) (gj gh : Option (GrpcIngress W)) (m : Manager W)
      (s : State W)
      → choose_ingress hj hh gj gh ≡ ok m.ingress
      → s.status ≢ running
      → (is_some hj || is_some hh || is_some gj || is_some gh ≡ true)
        × (((start m s).1 ≡ ok tt) ↔ (is_ok (m.lifecycle.start_background_tasks s.world).1 ≡ true))
  assembled_start_iff hj hh gj gh m s e idle =
      let any = chosen_any hj hh gj gh m.ingress e in
      let (to, from) = start_ok_iff m s in
      let tasks_started : ((s.status ≡ running)
            ⊎ ((has_any m.ingress ≡ true)
                × (is_ok (m.lifecycle.start_background_tasks s.world).1 ≡ true)))
          → is_ok (m.lifecycle.start_background_tasks s.world).1 ≡ true =
        λ r. elim r [ inl up ↦ absurd (idle up) | inr h ↦ h.1 ] in
      (
        some_given hj hh gj gh m.ingress e,
        (λ started. tasks_started (to started), λ tasks. from (inr (any, tasks))),
      )
