-- ===== src/Monitor/MetricsHandler.antt =====
-- scm/main/adapter/src/core/metrics/handler/metrics_handler.rs: the metrics in Prometheus' text format.
pub mod Scrape
use edge_bootstrap.Prelude.{
  ℕ, String, List, [], ◌∷◌, map, not, Result, ok, err, Call, if◌then◌else◌,
}
use Prim.Native.String
use edge_bootstrap.Endpoint.{is_get, same_path}
use edge_bootstrap.Transport.{
  HttpRequest, HttpResponse, InboundRequest, HttpIngressError, invalid_input, not_found,
  HealthCheck, healthy, HttpIngress,
}
use edge_bootstrap.Monitor.Provider.{
  MetricsProvider, MetricSnapshot, MetricType, counter, gauge, histogram,
}
use edge_bootstrap.Monitor.Counters.{TrafficCounters}

infix 60 ◌<>◌
abbrev ◌<>◌ : String → String → String
s <> t = String.◌++◌ s t

-- `parts.join(",")`
unfoldable pub join_commas : List String → String
join_commas [] = ""
join_commas (s ∷ []) = s
join_commas (s ∷ t ∷ ts) = s <> ("," <> join_commas (t ∷ ts))

unfoldable pub type_text : MetricType → String
type_text counter = "counter"
type_text gauge = "gauge"
type_text histogram = "gauge"

abbrev pub label_text : String × String → String
label_text (k, v) = k <> ("=\"" <> (v <> "\""))

unfoldable pub labels_text : List (String × String) → String
unfolding join_commas
labels_text [] = ""
labels_text (l ∷ ls) = "{" <> (join_commas (map label_text (l ∷ ls)) <> "}")

-- `print` formats an `f64`, and `bytes` is the UTF-8 of a text.
module _ {F W : Type 0} (p : MetricsProvider F W) (print : F → String)
    (bytes : String → List ℕ) where
  unfoldable pub type_line : MetricSnapshot F → String
  unfolding type_text
  type_line snap = "# TYPE " <> (snap.name <> (" " <> (type_text snap.metric_type <> "\n")))

  unfoldable pub value_line : MetricSnapshot F → String
  unfolding labels_text
  value_line snap = snap.name <> (labels_text snap.labels <> (" " <> (print snap.value <> "\n")))

  unfoldable pub render : List (MetricSnapshot F) → String
  render [] = ""
  render (snap ∷ snaps) = type_line snap <> (value_line snap <> render snaps)

  unfoldable pub render_prometheus : W → String
  unfolding render
  render_prometheus w = render (p.export w)

  unfoldable pub handle :
      String → InboundRequest → Call (TrafficCounters W) HttpIngressError HttpResponse
  handle path req c =
      if not (is_get req.request.method)
      then (c, err (invalid_input "metrics endpoint only accepts GET"))
      else if not (same_path path req.request.url)
      then (c, err (not_found ("not found: " <> req.request.url)))
      else (
        c,
        ok (record {
          status = 200;
          headers = ("content-type", "text/plain; version=0.0.4; charset=utf-8") ∷ [];
          body = bytes (render_prometheus c.world);
        }),
      )

  unfoldable pub metrics_handler : String → HttpIngress (TrafficCounters W)
  unfolding handle
  metrics_handler path = record { handle = handle path; health_check = λ c. (c, ok healthy) }
