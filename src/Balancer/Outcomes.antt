-- ===== src/Balancer/Outcomes.antt =====
-- What the pool learns of every call.
use edge_bootstrap.Prelude.{
  String, List, ◌∷◌, Result, ok, err, Call, ◌≡◌, ◌⊎◌, inl, inr, refl, Result-cases,
}
use edge_bootstrap.Transport.{HttpRequest, HttpResponse, HttpEgressError, internal, HttpEgress}
use edge_bootstrap.Balancer.{
  Backend, Outcome, Urls, Pool, outcome_of, rewrite_url, balanced, load_balanced_http_egress,
}

-- What is noted of a run: a request that the client is given, and an outcome that the pool is told.
pub data Note : Type 0 where
  sent : HttpRequest → Note
  reported : String → Outcome → Note

-- A pool that keeps the reports it is given, the latest first, beside the world.
abbrev pub recording : {W : Type 0} → Pool W → Pool (W × List Note)
recording pool = record {
  select = λ s. let (w, r) = pool.select s.0 in ((w, s.1), r);
  report_outcome = λ id outcome s. (pool.report_outcome id outcome s.0, reported id outcome ∷ s.1);
  backend_count = λ s. pool.backend_count s.0;
  is_server_error = pool.is_server_error;
  status_text = pool.status_text;
  error_text = pool.error_text;
}

abbrev pub noting : {W E A : Type 0} → HttpRequest → Call W E A → Call (W × List Note) E A
noting req call s = let (w, r) = call s.0 in ((w, sent req ∷ s.1), r)

-- A client that keeps the requests it is given there too.
abbrev pub noted : {W : Type 0} → HttpEgress W → HttpEgress (W × List Note)
noted inner = record {
  send = λ req. noting req (inner.send req);
  send_stream = λ req. noting req (inner.send_stream req);
  health_check = λ s. let (w, r) = inner.health_check s.0 in ((w, s.1), r);
}

module _ {U W : Type 0} (urls : Urls U) (pool : Pool W)
    (call : HttpRequest → Call W HttpEgressError HttpResponse)
    (outcome : Result HttpEgressError HttpResponse → Outcome) (request : HttpRequest) (w : W) where
  balanced-unselected :
      (e : String)
      → (pool.select w).1 ≡ err e
      → balanced urls pool call outcome request w ≡ ((pool.select w).0, err (internal e))
  unfolding balanced
  balanced-unselected e h = rw (h, balanced) refl

  balanced-unwritten :
      (backend : Backend) (e : HttpEgressError)
      → (pool.select w).1 ≡ ok backend
      → rewrite_url urls request.url backend.url ≡ err e
      → balanced urls pool call outcome request w ≡ ((pool.select w).0, err e)
  unfolding balanced
  balanced-unwritten backend e h k = rw (h, balanced) (rw k refl)

  balanced-called :
      (backend : Backend) (url : String)
      → (pool.select w).1 ≡ ok backend
      → rewrite_url urls request.url backend.url ≡ ok url
      → balanced urls pool call outcome request w ≡ (
        pool.report_outcome backend.id
            (outcome (call (record request { url = url }) (pool.select w).0).1)
            (call (record request { url = url }) (pool.select w).0).0,
        (call (record request { url = url }) (pool.select w).0).1,
      )
  unfolding balanced
  balanced-called backend url h k = rw (h, balanced) (rw k refl)

module _ {U W : Type 0} (urls : Urls U) (pool : Pool W) (inner : HttpEgress W) where
  -- One `send` through the pool: if the pool selects no backend, it fails with the pool's error; if the
  -- url cannot be rewritten to the selected backend, it fails with the error of that; in both cases
  -- the client is not called, nothing is reported, and the world is as the selection left it.
  -- Otherwise the client is called exactly once, with the request for the rewritten url, then the
  -- outcome of its result is reported exactly once, for the selected backend, and the caller gets
  -- that result.
  pub send_reports_once :
      (request : HttpRequest) (w : W) (log : List Note)
      → let after =
          (load_balanced_http_egress urls (recording pool) (noted inner)).send request (w, log) in
        let (w1, selected) = pool.select w in
        ((e : String) × (selected ≡ err e) × (after ≡ ((w1, log), err (internal e))))
        ⊎ (((backend : Backend) × (e : HttpEgressError) × (selected ≡ ok backend)
              × (rewrite_url urls request.url backend.url ≡ err e)
              × (after ≡ ((w1, log), err e)))
            ⊎ ((backend : Backend) × (url : String) × (selected ≡ ok backend)
                × (rewrite_url urls request.url backend.url ≡ ok url)
                × (let there = record request { url = url } in
                    let (w2, result) = inner.send there w1 in
                    let outcome = outcome_of urls (recording pool) result in
                    after ≡ (
                      (
                        pool.report_outcome backend.id outcome w2,
                        reported backend.id outcome ∷ sent there ∷ log,
                      ),
                      result,
                    ))))
  unfolding load_balanced_http_egress
  send_reports_once request w log =
      let pool' : Pool (W × List Note) = recording pool in
      let egress : HttpEgress (W × List Note) = noted inner in
      let outcome = outcome_of urls pool' in
      elim (Result-cases (pool.select w).1) [
        | inr (e, failed) ↦ inl (
          e,
          failed,
          balanced-unselected urls pool' egress.send outcome request (w, log) e failed,
        )
        | inl (backend, selected) ↦ elim (Result-cases (rewrite_url urls request.url backend.url)) [
          | inr (e, bad) ↦ inr (
              inl (
                backend,
                e,
                selected,
                bad,
                balanced-unwritten urls pool' egress.send outcome request (w, log) backend e
                    selected bad,
              ))
          | inl (url, good) ↦ inr (
              inr (
                backend,
                url,
                selected,
                good,
                balanced-called urls pool' egress.send outcome request (w, log) backend url selected
                    good,
              ))
        ]
      ]
