-- ===== src/Dispatch/HttpJob/Overlap/Sound.antt =====
-- What overlapping registrations promise to requests.
use edge_bootstrap.Prelude.{ℕ, String, some, ok, ◌≡◌, ap, ◌==◌, inl, inr, Bool-cases, arith}
use edge_bootstrap.Dispatch.Interface.{Registry, RegistryLaws, PathRouter, PathRouterLaws}
use edge_bootstrap.Dispatch.HttpJob.{HttpHandler, HttpJob, new, route}
use edge_bootstrap.Dispatch.HttpJob.Routing.{IsRoutable, get-register}
use edge_bootstrap.Dispatch.HttpJob.Overlap.{
  Stage, idle, stored, published, Shared, store, publish, Step, keep, accept, reject, finish,
  refuse, Reach, here, next, quiet, HasHandler,
}

module _ {O W P R : Type 0} (reg : Registry R (HttpHandler O W)) (rt : PathRouter P) where
  abbrev named : String → Stage O W → String
  named other idle = other
  named other (stored id pattern erased) = id
  named other (published id pattern erased) = id

  -- What is routed, or about to be, has a handler.
  record IsSound (a : Shared O W P R) : Type 0 where
    routable : IsRoutable reg rt a.job
    coming :
        (i : ℕ) (id pattern : String) (erased : HttpHandler O W)
        → a.stages i ≡ published id pattern erased
        → HasHandler reg rt a.job id

  module _ (laws : RegistryLaws reg) (paths : PathRouterLaws rt) where
    publish-keeps :
        (job : HttpJob O W P R) (id pattern j : String) (erased : HttpHandler O W)
        → HasHandler reg rt job j
        → HasHandler reg rt (publish reg rt id pattern erased job) j
    unfolding publish
    publish-keeps job id pattern j erased (h, found) =
        get-register reg rt laws paths job.registry id j (reg.wrap id pattern erased) h found

    -- No step takes a handler away.
    Step-keeps :
        {a b : Shared O W P R} (id : String)
        → Step reg rt a b
        → HasHandler reg rt a.job id
        → HasHandler reg rt b.job id
    unfolding store
    Step-keeps j (keep i id pattern erased was) h = h
    Step-keeps {a} j (accept i id pattern erased was done) h =
        publish-keeps a.job id pattern j erased h
    Step-keeps {a} j (reject i id pattern e erased was failed) h =
        publish-keeps a.job id pattern j erased h
    Step-keeps j (finish i id pattern erased p was inserted) h = h
    Step-keeps j (refuse i id pattern e erased was refused) h = h

    Reach-keeps :
        {a b : Shared O W P R} (id : String)
        → Reach reg rt a b
        → HasHandler reg rt a.job id
        → HasHandler reg rt b.job id
    Reach-keeps id here h = h
    Reach-keeps id (next r st) h = Step-keeps id st (Reach-keeps id r h)

    grown-IsRoutable :
        (job : HttpJob O W P R) (id pattern : String) (p : P)
        → rt.insert job.router pattern id ≡ ok p
        → HasHandler reg rt job id
        → IsRoutable reg rt job
        → IsRoutable reg rt (record job { router = p })
    grown-IsRoutable job id pattern p inserted has routable path j there =
        elim (paths.at_insert job.router p pattern id path j inserted there) [
          | inl old ↦ routable path j old
          | inr same ↦ rw same has
        ]

    published_has :
        (job : HttpJob O W P R) (id pattern : String) (erased : HttpHandler O W)
        → (reg.register job.registry id (reg.wrap id pattern erased)).1 ≡ ok tt
        → HasHandler reg rt (publish reg rt id pattern erased job) id
    unfolding publish
    published_has job id pattern erased done = (
      reg.wrap id pattern erased,
      laws.get_same job.registry id (reg.wrap id pattern erased) done,
    )

    Step-IsSound : {a b : Shared O W P R} → Step reg rt a b → IsSound a → IsSound b
    unfolding store publish
    Step-IsSound {a} (keep i id pattern erased was) h = record {
      routable = h.routable;
      coming = λ j id' pattern' e there. h.coming j id' pattern' e (grind arith);
    }
    Step-IsSound {a} (accept i id pattern erased was done) h = record {
      routable = λ path j there. publish-keeps a.job id pattern j erased (h.routable path j there);
      coming = λ j id' pattern' e there. elim (Bool-cases (j == i)) [
        | inl own ↦
            let same : id ≡ id' = ap (named id) (rw own at there) in
            rw⁻¹ same (published_has a.job id pattern erased done)
        | inr other ↦
            publish-keeps a.job id pattern id' erased
              (h.coming j id' pattern' e (rw other at there))
      ];
    }
    Step-IsSound {a} (reject i id pattern e erased was failed) h = record {
      routable = λ path j there. publish-keeps a.job id pattern j erased (h.routable path j there);
      coming = λ j id' pattern' e' there.
          publish-keeps a.job id pattern id' erased (h.coming j id' pattern' e' (grind arith));
    }
    Step-IsSound {a} (finish i id pattern erased p was inserted) h = record {
      routable =
          grown-IsRoutable a.job id pattern p inserted (h.coming i id pattern erased was)
            h.routable;
      coming = λ j id' pattern' e there. h.coming j id' pattern' e (grind arith);
    }
    Step-IsSound {a} (refuse i id pattern e erased was refused) h = record {
      routable = h.routable;
      coming = λ j id' pattern' e' there. h.coming j id' pattern' e' (grind arith);
    }

    Reach-IsSound : {b : Shared O W P R} → Reach reg rt (quiet reg rt) b → IsSound b
    unfolding new
    Reach-IsSound here = record {
      routable = λ path id there. cc (there, paths.at_empty path);
      coming = λ i id pattern erased there. cc;
    }
    Reach-IsSound (next r st) = Step-IsSound st (Reach-IsSound r)

    -- Where registry and router keep their laws: however registrations overlap on a new job, those that
    -- fail included, a request that the router has given an id finds a handler under this id, at that
    -- moment and after any further steps of registrations: `run` never answers that the handler is
    -- unavailable.
    pub routed_finds :
        (b c : Shared O W P R) (path id : String)
        → Reach reg rt (quiet reg rt) b
        → route reg rt b.job path ≡ ok id
        → Reach reg rt b c
        → (h : HttpHandler O W) × (reg.get c.job.registry id ≡ ok (some h))
    unfolding route
    routed_finds b c path id r routed later =
        Reach-keeps id later ((Reach-IsSound r).routable path id (ground arith))
