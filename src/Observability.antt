-- ===== src/Observability.antt =====
-- scm/main/adapter/src/core/observability: the tracer, log drain and metrics registry that handlers are
-- given, over the backends of the three observability crates.
pub mod Spans
use edge_bootstrap.Prelude.{
  ℕ, ◌+◌, ◌-◌, ◌/◌, ◌%◌, String, List, [], ◌∷◌, Bool, true, false, ◌&&◌, Option, none, some, ◌==◌,
  leb, if◌then◌else◌,
}
use Prim.Native.String
use Prim.Native.Char.{code}
use edge_bootstrap.Dispatch.Interface.{put}
use edge_bootstrap.Monitor.Floats.{Floats, u64_mod}
use edge_bootstrap.Monitor.Provider.{MetricsProvider}

pub data LogLevel : Type 0 where
  trace debug info warn error fatal : LogLevel

pub record LogEntry : Type 0 where
  pub level : LogLevel
  pub source : String
  pub message : String

-- `LoggerProvider` and `TracerProvider`, as far as they are called; a span is exported as an object of
-- texts and numbers.
pub record LoggerProvider (W : Type 0) : Type 0 where
  pub emit : LogEntry → W → W
  pub flush : W → W

pub data SpanValue : Type 0 where
  text : String → SpanValue
  number : ℕ → SpanValue

pub record TracerProvider (W : Type 0) : Type 0 where
  pub export_span : List (String × SpanValue) → W → W

-- `s.to_ascii_lowercase() == t`
abbrev pub eq_lowercase : String → String → Bool
eq_lowercase String.[] String.[] = true
eq_lowercase String.[] (String.◌∷◌ d t) = false
eq_lowercase (String.◌∷◌ c s) String.[] = false
eq_lowercase (String.◌∷◌ c s) (String.◌∷◌ d t) =
    ((if leb b'A' (code c) && leb (code c) b'Z' then code c + 32 else code c) == code d)
    && eq_lowercase s t

unfoldable pub parse_level : String → LogLevel
parse_level level =
    if eq_lowercase level "trace"
    then trace
    else if eq_lowercase level "debug"
    then debug
    else if eq_lowercase level "warn"
    then warn
    else if eq_lowercase level "warning"
    then warn
    else if eq_lowercase level "error"
    then error
    else if eq_lowercase level "fatal"
    then fatal
    else info

-- The traits of edge_application_observer that the program fills in. None of their methods fails here.
pub record LogDrain (W : Type 0) : Type 0 where
  pub emit : String → String → String → W → W

-- What a counter, a gauge and a histogram of a name do.
pub record MetricRegistry (F W : Type 0) : Type 0 where
  pub counter : String → ℕ → W → W
  pub gauge : String → F → W → W
  pub histogram : String → F → W → W

-- `TracingBridgeSpan`, with the time of its start in microseconds.
pub record Span : Type 0 where
  pub handler_id : String
  pub operation : String
  pub started_at : ℕ
  pub fields : List (String × SpanValue)

pub record HandlerTracer (W : Type 0) : Type 0 where
  pub start_span : String → String → W → Span
  pub finish : Span → W → W × Span

pub record ObserverContext (F W : Type 0) : Type 0 where
  pub tracer : HandlerTracer W
  pub drain : LogDrain W
  pub metrics : MetricRegistry F W

-- `LogDrainBridge`: each entry is flushed.
unfoldable pub log_drain_bridge : {W : Type 0} → LoggerProvider W → LogDrain W
unfolding parse_level
log_drain_bridge backend = record {
  emit = λ level handler_id message w. backend.flush (
      backend.emit (record { level = parse_level level; source = handler_id; message = message })
        w);
}

-- `Span::record`
unfoldable pub record_annotation : String → String → Span → Span
record_annotation key value s = record s { fields = put key (text value) s.fields }

-- The loop of `finish`.
unfoldable pub insert_all :
    List (String × SpanValue) → List (String × SpanValue) → List (String × SpanValue)
insert_all [] span = span
insert_all ((key, value) ∷ fields) span = insert_all fields (put key value span)

unfoldable pub span_object : Span → ℕ → List (String × SpanValue)
unfolding insert_all
span_object s now = insert_all s.fields (
    put "duration_us" (number ((now - s.started_at) % u64_mod))
      (put "operation" (text s.operation) (put "handler_id" (text s.handler_id) [])))

module _ {W : Type 0} (backend : TracerProvider W) (clock : W → ℕ) where
  -- The fields are taken out of the span.
  unfoldable pub finish : Span → W → W × Span
  unfolding span_object
  finish s w = (backend.export_span (span_object s (clock w)) w, record s { fields = [] })

  unfoldable pub handler_tracer : HandlerTracer W
  unfolding finish
  handler_tracer = record {
    start_span = λ handler_id operation w. record {
      handler_id = handler_id;
      operation = operation;
      started_at = clock w;
      fields = [];
    };
    finish = finish;
  }

module _ {F W : Type 0} (fl : Floats F) where
  unfoldable pub metrics_bridge_registry : MetricsProvider F W → MetricRegistry F W
  metrics_bridge_registry p = record {
    counter = λ name delta. p.record_counter name (fl.of_u64 delta) [];
    gauge = λ name value. p.record_gauge name value [];
    histogram = λ name value. p.record_histogram name value [];
  }

  -- `StdObserveFactory::noop_metric_registry` stands as `noop`.
  unfoldable pub observer_context :
      (W → ℕ)
      → MetricRegistry F W
      → TracerProvider W
      → LoggerProvider W
      → Option (MetricsProvider F W)
      → ObserverContext F W
  unfolding handler_tracer log_drain_bridge metrics_bridge_registry
  observer_context clock noop tracer logger provider = record {
    tracer = handler_tracer tracer clock;
    drain = log_drain_bridge logger;
    metrics = elim provider [ none ↦ noop | some p ↦ metrics_bridge_registry p ];
  }
