-- ===== src/Dispatch/GrpcJob/Overlap.antt =====
-- Calls of `register_route` that overlap: the job is shared, and each call looks its id up, stores its
-- handler for health checks and publishes it, while other calls step in between.
use edge_bootstrap.Prelude.{
  ℕ, String, List, true, false, some, Result, ok, ◌≡◌, ◌≢◌, refl, sym, ap, ◌∙◌, ◌==◌, is_some,
  arith, eq_iff, Bool-cases, inl, inr,
}
use text.Mathlib.Text.{◌==◌ as str_eq}
use edge_bootstrap.Dispatch.Stages.{set_stage, set_stage-own}
use edge_bootstrap.Dispatch.Interface.{Handler, Registry, RegistryLaws, put, find, find-put}
use edge_bootstrap.Dispatch.GrpcJob.{
  GrpcHandler, GrpcJob, is_registered, new, bridge, check_names, add_handler, register_route,
}

-- How far the call of a thread is; `erased` is its bridged handler.
pub data Stage (O W : Type 0) : Type 0 where
  idle : Stage O W
  checked stored : (id : String) (erased : GrpcHandler O W) → Stage O W

pub record Shared (O W R : Type 0) : Type 0 where
  pub job : GrpcJob O W R
  pub stages : ℕ → Stage O W

module _ {O W R : Type 0} (reg : Registry R (GrpcHandler O W)) where
  unfoldable pub store : String → GrpcHandler O W → GrpcJob O W R → GrpcJob O W R
  store id erased job = record job { health_handlers = put id erased job.health_handlers }

  unfoldable pub publish : String → GrpcHandler O W → GrpcJob O W R → GrpcJob O W R
  publish id erased job = record job {
    registry = (reg.register job.registry id (reg.wrap id id erased)).0;
  }

  pub data Step (a : Shared O W R) : Shared O W R → Type 0 where
    check :
        (i : ℕ) (id : String) (erased : GrpcHandler O W)
        → a.stages i ≡ idle
        → is_registered (reg.get a.job.registry id) ≡ false
        → Step a (record a { stages = set_stage i (checked id erased) a.stages })
    keep :
        (i : ℕ) (id : String) (erased : GrpcHandler O W)
        → a.stages i ≡ checked id erased
        → Step a (record {
          job = store id erased a.job;
          stages = set_stage i (stored id erased) a.stages;
        })
    finish :
        (i : ℕ) (id : String) (erased : GrpcHandler O W)
        → a.stages i ≡ stored id erased
        → Step a (record { job = publish id erased a.job; stages = set_stage i idle a.stages })

  pub data Reach (a : Shared O W R) : Shared O W R → Type 0 where
    here : Reach a a
    next : {b c : Shared O W R} → Reach a b → Step b c → Reach a c

  abbrev pub quiet : Shared O W R
  quiet = record { job = new reg; stages = λ i. idle }

  abbrev looked_up : String → Stage O W → String
  looked_up other idle = other
  looked_up other (checked id erased) = id
  looked_up other (stored id erased) = id

  -- What is served, or about to be, has a handler to be checked.
  pub record IsChecked (a : Shared O W R) : Type 0 where
    pub served :
        (id : String) (h : GrpcHandler O W)
        → reg.get a.job.registry id ≡ ok (some h)
        → is_some (find id a.job.health_handlers) ≡ true
    pub coming :
        (i : ℕ) (id : String) (erased : GrpcHandler O W)
        → a.stages i ≡ stored id erased
        → is_some (find id a.job.health_handlers) ≡ true

  find_stored :
      (job : GrpcJob O W R) (id j : String) (erased : GrpcHandler O W)
      → is_some (find j job.health_handlers) ≡ true
      → is_some (find j (store id erased job).health_handlers) ≡ true
  unfolding store
  find_stored job id j erased h = ground (arith, find-put job.health_handlers id j erased)

  find_own :
      (job : GrpcJob O W R) (id : String) (erased : GrpcHandler O W)
      → find id (store id erased job).health_handlers ≡ some erased
  unfolding store
  find_own job id erased = ground (arith, find-put job.health_handlers id id erased, eq_iff id id)

  module _ (laws : RegistryLaws reg) where
    published_served :
        (job : GrpcJob O W R) (id j : String) (erased h : GrpcHandler O W)
        → ((k : GrpcHandler O W)
            → reg.get job.registry j ≡ ok (some k)
            → is_some (find j job.health_handlers) ≡ true)
        → is_some (find id job.health_handlers) ≡ true
        → reg.get (publish id erased job).registry j ≡ ok (some h)
        → is_some (find j job.health_handlers) ≡ true
    unfolding publish
    published_served job id j erased h before own found = elim (Bool-cases (str_eq j id)) [
      | inl same ↦ rw ((eq_iff j id).0 same) own
      | inr other ↦
          let differ : j ≢ id = λ e. cc (other, (eq_iff j id).1 e) in
          before h (sym (laws.get_other job.registry id j (reg.wrap id id erased) differ) ∙ found)
    ]

    Step-IsChecked : {a b : Shared O W R} → Step a b → IsChecked a → IsChecked b
    unfolding store publish
    Step-IsChecked {a} (check i id erased was free) h = record {
      served = h.served;
      coming = λ j id' e there. h.coming j id' e (grind arith);
    }
    Step-IsChecked {a} (keep i id erased was) h = record {
      served = λ j k found. find_stored a.job id j erased (h.served j k found);
      coming = λ j id' e there. elim (Bool-cases (j == i)) [
        | inl own ↦
            let same : id ≡ id' = ap (looked_up id) (rw own at there) in
            rw⁻¹ same (ap is_some (find_own a.job id erased))
        | inr other ↦ find_stored a.job id id' erased (h.coming j id' e (rw other at there))
      ];
    }
    Step-IsChecked {a} (finish i id erased was) h = record {
      served = λ j k found.
          published_served a.job id j erased k (h.served j) (h.coming i id erased was) found;
      coming = λ j id' e there. h.coming j id' e (grind arith);
    }

    quiet-IsChecked : IsChecked quiet
    unfolding new
    quiet-IsChecked = record {
      served = λ id h found. cc (found, laws.get_empty id);
      coming = λ i id erased there. cc;
    }

    -- Where the registry keeps its laws: however registrations overlap on a new job, every method that
    -- is served has a handler among those that the health check asks.
    pub served_checked :
        (b : Shared O W R) (id : String) (h : GrpcHandler O W)
        → Reach quiet b
        → reg.get b.job.registry id ≡ ok (some h)
        → is_some (find id b.job.health_handlers) ≡ true
    served_checked b id h r found = (go b r).served id h found
      where
        go : (c : Shared O W R) → Reach quiet c → IsChecked c
        go c here = quiet-IsChecked
        go c (next before st) = Step-IsChecked st (go _ before)

    -- Two overlapping registrations of one method, which alone would not both be accepted: where the
    -- registry keeps its laws and takes every registration of this method, for any two handlers the
    -- calls on a new job can overlap so that both end, the method is served by the first handler, and
    -- the health check asks the second.
    pub overlap_splits :
        (id : String) (first second : GrpcHandler O W)
        → ((s : R) (h : GrpcHandler O W) → (reg.register s id h).1 ≡ ok tt)
        → (b : Shared O W R) × Reach quiet b
          × ((i : ℕ) → b.stages i ≡ idle)
          × (reg.get b.job.registry id ≡ ok (some (reg.wrap id id first)))
          × (find id b.job.health_handlers ≡ some second)
    unfolding new store publish
    overlap_splits id first second takes =
        let free = ap is_registered (laws.get_empty id) in
        let once = (reg.register reg.empty id (reg.wrap id id second)).0 in
        (
          _,
          next
              (next
                (next
                  (next
                    (next (next here (check 0 id first refl free)) (check 1 id second refl free))
                    (keep 0 id first refl))
                  (keep 1 id second refl))
                (finish 1 id second refl))
              (finish 0 id first refl),
          λ i. ground arith,
          laws.get_same once id (reg.wrap id id first) (takes once (reg.wrap id id first)),
          find_own (store id first (new reg)) id second,
        )

  -- A call of `register_route` that passes its checks and that no other call overlaps is a run of steps.
  register_route-Reach :
      {Req Resp : Type 0} (h : Handler O W Req Resp) (decode : List ℕ → Result String Req)
      (encode : Resp → List ℕ) (a : Shared O W R) (i : ℕ) (id : String)
      → a.stages i ≡ idle
      → check_names reg h ≡ ok id
      → is_registered (reg.get a.job.registry id) ≡ false
      → (b : Shared O W R) × Reach a b × (b.job ≡ (register_route reg h decode encode a.job).0)
  unfolding register_route add_handler store publish
  register_route-Reach h decode encode a i id was good free =
      let erased = bridge reg h decode encode in
      (
        _,
        next
            (next (next here (check i id erased was free))
              (keep i id erased (set_stage-own i (checked id erased) a.stages)))
            (finish i id erased
              (set_stage-own i (stored id erased) (set_stage i (checked id erased) a.stages))),
        rw (good, register_route) (rw free refl),
      )
