-- ===== src/Monitor/MetricsHandler/Scrape.antt =====
-- What a scrape returns.
use edge_bootstrap.Prelude.{
  ℕ, ◌+◌, ◌*◌, String, List, [], ◌∷◌, map, length, true, ok, if◌then◌else◌, ◌≡◌, refl, arith, ◌==◌,
  All,
}
use Prim.Native.String
use Prim.Native.Char.{code}
use text.Mathlib.TextLemmas.{cons-append, nil-append}
use edge_bootstrap.Endpoint.{is_get, same_path}
use edge_bootstrap.Transport.{HttpResponse, InboundRequest}
use edge_bootstrap.Monitor.Provider.{
  MetricsProvider, MetricSnapshot, MetricType, counter, gauge, histogram,
}
use edge_bootstrap.Monitor.Counters.{TrafficCounters}
use edge_bootstrap.Monitor.MetricsHandler.{
  join_commas, type_text, label_text, labels_text, type_line, value_line, render, render_prometheus,
  handle,
}

-- The line ends of a text.
unfoldable pub lines : String → ℕ
lines String.[] = 0
lines (String.◌∷◌ c s) = (if code c == 10 then 1 else 0) + lines s

lines-append : (s t : String) → lines (String.◌++◌ s t) ≡ lines s + lines t
unfolding lines
lines-append String.[] t = rw nil-append (omega arith)
lines-append (String.◌∷◌ c s) t = rw cons-append (omega (arith, lines-append s t))

-- A label without a line end.
abbrev pub IsPlainLabel : String × String → Type 0
IsPlainLabel (k, v) = (lines k ≡ 0) × (lines v ≡ 0)

-- A snapshot none of whose texts has a line end.
abbrev pub IsPlain : {F : Type 0} → (F → String) → MetricSnapshot F → Type 0
IsPlain print snap =
    (lines snap.name ≡ 0) × All IsPlainLabel snap.labels × (lines (print snap.value) ≡ 0)

type_plain : (t : MetricType) → lines (type_text t) ≡ 0
unfolding type_text lines
type_plain counter = refl
type_plain gauge = refl
type_plain histogram = refl

label_plain : (l : String × String) → IsPlainLabel l → lines (label_text l) ≡ 0
unfolding lines
label_plain (k, v) h = simp lines-append (omega (arith, h.0, h.1))

join_commas_plain :
    (l : String × String) (ls : List (String × String))
    → All IsPlainLabel (l ∷ ls)
    → lines (join_commas (map label_text (l ∷ ls))) ≡ 0
unfolding join_commas lines
join_commas_plain l [] h = label_plain l h.0
join_commas_plain l (k ∷ ls) h =
    simp lines-append (omega (arith, label_plain l h.0, join_commas_plain k ls h.1))

labels_plain : (ls : List (String × String)) → All IsPlainLabel ls → lines (labels_text ls) ≡ 0
unfolding labels_text lines
labels_plain [] h = refl
labels_plain (l ∷ ls) h = simp lines-append (omega (arith, join_commas_plain l ls h))

module _ {F W : Type 0} (p : MetricsProvider F W) (print : F → String)
    (bytes : String → List ℕ) where
  type_line_one :
      (snap : MetricSnapshot F) → IsPlain print snap → lines (type_line p print bytes snap) ≡ 1
  unfolding type_line lines
  type_line_one snap h = simp lines-append (omega (arith, h.0, type_plain snap.metric_type))

  value_line_one :
      (snap : MetricSnapshot F) → IsPlain print snap → lines (value_line p print bytes snap) ≡ 1
  unfolding value_line lines
  value_line_one snap h = simp lines-append (omega (arith, h.0, labels_plain snap.labels h.1, h.2))

  lines-render :
      (snaps : List (MetricSnapshot F))
      → All (IsPlain print) snaps
      → lines (render p print bytes snaps) ≡ 2 * length snaps
  unfolding render lines
  lines-render [] h = refl
  lines-render (snap ∷ snaps) h =
      simp lines-append
        (omega (arith, type_line_one snap h.0, value_line_one snap h.0, lines-render snaps h.1))

  -- The endpoint answers a request only if it is a GET for its path, and then leaves the counters and the
  -- provider as they were. The body is the rendering of what the provider exports: two lines for
  -- each snapshot if no name, label or printed value holds a line end.
  pub scrape_lines :
      (path : String) (req : InboundRequest) (c d : TrafficCounters W) (answer : HttpResponse)
      → All (IsPlain print) (p.export c.world)
      → handle p print bytes path req c ≡ (d, ok answer)
      → (is_get req.request.method ≡ true)
        × (same_path path req.request.url ≡ true)
        × (d ≡ c)
        × (answer.body ≡ bytes (render_prometheus p print bytes c.world))
        × (lines (render_prometheus p print bytes c.world) ≡ 2 * length (p.export c.world))
  unfolding handle render_prometheus
  scrape_lines path req c d answer h e =
      (ground arith, ground arith, ground arith, ground arith, lines-render (p.export c.world) h)
