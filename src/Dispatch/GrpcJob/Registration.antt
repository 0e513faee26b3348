-- ===== src/Dispatch/GrpcJob/Registration.antt =====
-- What a registration promises to the calls after it.
use edge_bootstrap.Prelude.{
  ℕ, String, List, true, false, some, Result, ok, err, ◌≡◌, ◌≢◌, refl, sym, ap, ◌∙◌, Bool-cases,
  Result-cases, inl, inr,
}
use edge_bootstrap.Transport.{GrpcRequest}
use edge_bootstrap.Dispatch.Interface.{
  Handler, HandlerContext, Registry, RegistryLaws, JobRegistrationError, registration_failed,
}
use edge_bootstrap.Dispatch.GrpcJob.{
  GrpcHandler, GrpcJob, is_registered, taken, bridge, check_names, add_handler, register_route,
  route, find_handler, respond, run,
}

module _ {O W R : Type 0} (reg : Registry R (GrpcHandler O W)) where
  -- The jobs that any further registrations, failed ones included, make of a job.
  pub data Later (job : GrpcJob O W R) : GrpcJob O W R → Type 1 where
    now : Later job job
    after :
        {mid : GrpcJob O W R} {Req Resp : Type 0} (h : Handler O W Req Resp)
        (decode : List ℕ → Result String Req) (encode : Resp → List ℕ)
        → Later job mid
        → Later job (register_route reg h decode encode mid).0

  find_handler-found :
      (job : GrpcJob O W R) (method : String) (k : GrpcHandler O W)
      → reg.get job.registry method ≡ ok (some k)
      → find_handler reg job method ≡ ok k
  unfolding find_handler route
  find_handler-found job method k found = rw found (rw found refl)

  run-found :
      (job : GrpcJob O W R) (ctx : HandlerContext O) (req : GrpcRequest) (w : W)
      (k : GrpcHandler O W)
      → reg.get job.registry req.method ≡ ok (some k)
      → run reg job ctx req w ≡ respond (k.execute ctx req.body w)
  unfolding run
  run-found job ctx req w k found = rw (find_handler-found job req.method k found, run) refl

  module _ (laws : RegistryLaws reg) where
    add_handler-keeps :
        (id j : String) (h k : GrpcHandler O W) (job : GrpcJob O W R)
        → j ≢ id
        → reg.get job.registry j ≡ ok (some k)
        → reg.get (add_handler reg id h job).0.registry j ≡ ok (some k)
    unfolding add_handler
    add_handler-keeps id j h k job other found =
        laws.get_other job.registry id j (reg.wrap id id h) other ∙ found

    added_found :
        (id : String) (h : GrpcHandler O W) (job : GrpcJob O W R)
        → (add_handler reg id h job).1 ≡ ok tt
        → reg.get (add_handler reg id h job).0.registry id ≡ ok (some (reg.wrap id id h))
    unfolding add_handler
    added_found id h job e =
        elim (Result-cases (reg.register job.registry id (reg.wrap id id h)).1) [
          | inl (u, done) ↦ laws.get_same job.registry id (reg.wrap id id h) done
          | inr (x, failed) ↦ cc (e, failed)
        ]

    free_differs :
        (id j : String) (k : GrpcHandler O W) (job : GrpcJob O W R)
        → is_registered (reg.get job.registry id) ≡ false
        → reg.get job.registry j ≡ ok (some k)
        → j ≢ id
    free_differs id j k job free found same =
        let there = ap (λ i. reg.get job.registry i) (sym same) ∙ found in
        let taken = ap is_registered there in cc (taken, free)

    module _ {Req Resp : Type 0} (h : Handler O W Req Resp) (decode : List ℕ → Result String Req)
        (encode : Resp → List ℕ) (job : GrpcJob O W R) where
      rejected :
          (e : JobRegistrationError)
          → check_names reg h ≡ err e
          → register_route reg h decode encode job ≡ (job, err e)
      unfolding register_route
      rejected e bad = rw (bad, register_route) refl

      refused :
          (id : String)
          → check_names reg h ≡ ok id
          → is_registered (reg.get job.registry id) ≡ true
          → register_route reg h decode encode job ≡ (job, err (registration_failed id taken))
      unfolding register_route
      refused id good there = rw (good, register_route) (rw there refl)

      accepted :
          (id : String)
          → check_names reg h ≡ ok id
          → is_registered (reg.get job.registry id) ≡ false
          → register_route reg h decode encode job
            ≡ add_handler reg id (bridge reg h decode encode) job
      unfolding register_route
      accepted id good free = rw (good, register_route) (rw free refl)

      register_route-keeps :
          (j : String) (k : GrpcHandler O W)
          → reg.get job.registry j ≡ ok (some k)
          → reg.get (register_route reg h decode encode job).0.registry j ≡ ok (some k)
      register_route-keeps j k found = elim (Result-cases (check_names reg h)) [
        | inr (e, bad) ↦ rw (rejected e bad) found
        | inl (id, good) ↦ elim (Bool-cases (is_registered (reg.get job.registry id))) [
          | inl there ↦ rw (refused id good there) found
          | inr free ↦ rw (accepted id good free) (
              add_handler-keeps id j (bridge reg h decode encode) k job
                (free_differs id j k job free found) found)
        ]
      ]

      registered_found :
          (register_route reg h decode encode job).1 ≡ ok tt
          → (id : String) × (check_names reg h ≡ ok id)
            × (reg.get (register_route reg h decode encode job).0.registry id
                ≡ ok (some (reg.wrap id id (bridge reg h decode encode))))
      registered_found e = elim (Result-cases (check_names reg h)) [
        | inr (x, bad) ↦ cc (e, rejected x bad)
        | inl (id, good) ↦ elim (Bool-cases (is_registered (reg.get job.registry id))) [
          | inl there ↦ cc (e, refused id good there)
          | inr free ↦ (
            id,
            good,
            rw (accepted id good free) (
                added_found id (bridge reg h decode encode) job
                  (ap (λ r. r.1) (sym (accepted id good free)) ∙ e)),
          )
        ]
      ]

    Later-keeps :
        {job job' : GrpcJob O W R} (j : String) (k : GrpcHandler O W)
        → Later job job'
        → reg.get job.registry j ≡ ok (some k)
        → reg.get job'.registry j ≡ ok (some k)
    Later-keeps j k now found = found
    Later-keeps j k (after {mid} h decode encode l) found =
        register_route-keeps h decode encode mid j k (Later-keeps j k l found)

    -- Where the registry keeps its laws: a handler that was registered successfully stays in charge
    -- of its method: after any further registrations, with success or without, a run of that method
    -- decodes the body, executes this handler in its pipeline and encodes the answer. No later
    -- registration replaces it.
    pub registration_lasts :
        {Req Resp : Type 0} (h : Handler O W Req Resp) (decode : List ℕ → Result String Req)
        (encode : Resp → List ℕ) (job later : GrpcJob O W R) (w : W)
        → (register_route reg h decode encode job).1 ≡ ok tt
        → Later (register_route reg h decode encode job).0 later
        → (id : String) × (check_names reg h ≡ ok id)
          × ((ctx : HandlerContext O) (req : GrpcRequest)
              → req.method ≡ id
              → run reg later ctx req w
                ≡ respond ((reg.wrap id id (bridge reg h decode encode)).execute ctx req.body w))
    registration_lasts h decode encode job later w e l =
        let (id, good, found) = registered_found h decode encode job e in
        (
          id,
          good,
          λ ctx req same.
              run-found later ctx req w (reg.wrap id id (bridge reg h decode encode))
                (rw same (Later-keeps id (reg.wrap id id (bridge reg h decode encode)) l found)),
        )
