-- ===== src/Dispatch/HttpJob/Overlap/Alone.antt =====
-- A registration that nothing overlaps, as steps.
use edge_bootstrap.Prelude.{ℕ, String, Result, ◌≡◌, inl, inr, Result-cases, refl}
use edge_bootstrap.Dispatch.Stages.{set_stage, set_stage-own}
use edge_bootstrap.Dispatch.Interface.{Handler, Registry, PathRouter}
use edge_bootstrap.Dispatch.HttpJob.{
  HttpHandler, bridge, check_names, add_pattern, add_handler, register_route,
}
use edge_bootstrap.Transport.{HttpRequest, HttpResponse}
use edge_bootstrap.Dispatch.HttpJob.Overlap.{
  idle, stored, published, Shared, store, publish, keep, accept, reject, finish, refuse, Reach,
  here, next,
}

module _ {O W P R : Type 0} (reg : Registry R (HttpHandler O W)) (rt : PathRouter P) where
  module _ (id pattern : String) (erased : HttpHandler O W) (a : Shared O W P R) (i : ℕ)
      (was : a.stages i ≡ idle) where
    abbrev at_store : Shared O W P R
    at_store = record {
      job = store reg rt id erased a.job;
      stages = set_stage i (stored id pattern erased) a.stages;
    }

    abbrev at_publish : Shared O W P R
    at_publish = record {
      job = publish reg rt id pattern erased at_store.job;
      stages = set_stage i (published id pattern erased) at_store.stages;
    }

    to_store : Reach reg rt a at_store
    to_store = next here (keep i id pattern erased was)

    own_store : at_store.stages i ≡ stored id pattern erased
    own_store = set_stage-own i (stored id pattern erased) a.stages

    own_publish : at_publish.stages i ≡ published id pattern erased
    own_publish = set_stage-own i (published id pattern erased) at_store.stages

    add_handler-Reach :
        (b : Shared O W P R) × Reach reg rt a b
        × (b.job ≡ (add_handler reg rt (id, pattern) erased a.job).0)
    unfolding store publish add_handler
    add_handler-Reach =
        elim (Result-cases (reg.register a.job.registry id (reg.wrap id pattern erased)).1) [
          | inr (e, failed) ↦ (
            _,
            next to_store (reject i id pattern e erased own_store failed),
            rw (failed, add_handler) refl,
          )
          | inl (u, done) ↦
              let reached = next to_store (accept i id pattern erased own_store done) in
              elim (Result-cases (rt.insert a.job.router pattern id)) [
                | inr (e, refused) ↦ (
                  _,
                  next reached (refuse i id pattern e erased own_publish refused),
                  rw (done, add_handler) (rw (refused, add_pattern) refl),
                )
                | inl (p, inserted) ↦ (
                  _,
                  next reached (finish i id pattern erased p own_publish inserted),
                  rw (done, add_handler) (rw (inserted, add_pattern) refl),
                )
              ]
        ]

  -- A call of `register_route` that no other call overlaps is a run of steps, however it ends.
  register_route-Reach :
      {Req Resp : Type 0} (h : Handler O W Req Resp) (decode : HttpRequest → Result String Req)
      (encode : Resp → HttpResponse) (a : Shared O W P R) (i : ℕ)
      → a.stages i ≡ idle
      → (b : Shared O W P R) × Reach reg rt a b
        × (b.job ≡ (register_route reg rt h decode encode a.job).0)
  unfolding register_route
  register_route-Reach h decode encode a i was = elim (Result-cases (check_names reg rt h)) [
    | inr (e, bad) ↦ (a, here, rw (bad, register_route) refl)
    | inl ((id, pattern), good) ↦
        rw (good, register_route)
          (add_handler-Reach id pattern (bridge reg rt h decode encode) a i was)
  ]
