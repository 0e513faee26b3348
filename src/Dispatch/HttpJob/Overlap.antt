-- ===== src/Dispatch/HttpJob/Overlap.antt =====
-- Calls of `register_route` and of `run` that overlap: the job is shared, and each registration stores
-- its handler for health checks, publishes it and adds its pattern, while other calls step in between.
pub mod Sound
pub mod Alone
use edge_bootstrap.Prelude.{
  ℕ, String, Option, none, some, Result, ok, err, ◌≡◌, ap, sym, ◌==◌, inl, inr, Bool-cases, arith,
  Result-cases, refl,
}
use edge_bootstrap.Dispatch.Stages.{set_stage, set_stage-own}
use edge_bootstrap.Dispatch.Interface.{
  Handler, Registry, RegistryLaws, PathRouter, PathRouterLaws, put,
}
use edge_bootstrap.Dispatch.HttpJob.{
  HttpHandler, HttpJob, bridge, new, check_names, add_pattern, add_handler, register_route, route,
}
use edge_bootstrap.Transport.{HttpRequest, HttpResponse}
use edge_bootstrap.Dispatch.HttpJob.Routing.{IsRoutable, get-register}

-- How far a registration is; `erased` is its bridged handler.
pub data Stage (O W : Type 0) : Type 0 where
  idle : Stage O W
  stored published : (id pattern : String) (erased : HttpHandler O W) → Stage O W

pub record Shared (O W P R : Type 0) : Type 0 where
  pub job : HttpJob O W P R
  pub stages : ℕ → Stage O W

module _ {O W P R : Type 0} (reg : Registry R (HttpHandler O W)) (rt : PathRouter P) where
  unfoldable pub store : String → HttpHandler O W → HttpJob O W P R → HttpJob O W P R
  store id erased job = record job { health_handlers = put id erased job.health_handlers }

  unfoldable pub publish : String → String → HttpHandler O W → HttpJob O W P R → HttpJob O W P R
  publish id pattern erased job = record job {
    registry = (reg.register job.registry id (reg.wrap id pattern erased)).0;
  }

  pub data Step (a : Shared O W P R) : Shared O W P R → Type 0 where
    keep :
        (i : ℕ) (id pattern : String) (erased : HttpHandler O W)
        → a.stages i ≡ idle
        → Step a (record {
          job = store id erased a.job;
          stages = set_stage i (stored id pattern erased) a.stages;
        })
    accept :
        (i : ℕ) (id pattern : String) (erased : HttpHandler O W)
        → a.stages i ≡ stored id pattern erased
        → (reg.register a.job.registry id (reg.wrap id pattern erased)).1 ≡ ok tt
        → Step a (record {
          job = publish id pattern erased a.job;
          stages = set_stage i (published id pattern erased) a.stages;
        })
    reject :
        (i : ℕ) (id pattern e : String) (erased : HttpHandler O W)
        → a.stages i ≡ stored id pattern erased
        → (reg.register a.job.registry id (reg.wrap id pattern erased)).1 ≡ err e
        → Step a
            (record { job = publish id pattern erased a.job; stages = set_stage i idle a.stages })
    finish :
        (i : ℕ) (id pattern : String) (erased : HttpHandler O W) (p : P)
        → a.stages i ≡ published id pattern erased
        → rt.insert a.job.router pattern id ≡ ok p
        → Step a
            (record { job = record (a.job) { router = p }; stages = set_stage i idle a.stages })
    refuse :
        (i : ℕ) (id pattern e : String) (erased : HttpHandler O W)
        → a.stages i ≡ published id pattern erased
        → rt.insert a.job.router pattern id ≡ err e
        → Step a (record a { stages = set_stage i idle a.stages })

  pub data Reach (a : Shared O W P R) : Shared O W P R → Type 0 where
    here : Reach a a
    next : {b c : Shared O W P R} → Reach a b → Step b c → Reach a c

  abbrev pub quiet : Shared O W P R
  quiet = record { job = new reg rt; stages = λ i. idle }

  abbrev pub HasHandler : HttpJob O W P R → String → Type 0
  HasHandler job id = (h : HttpHandler O W) × (reg.get job.registry id ≡ ok (some h))
