-- ===== src/Observability/Spans.antt =====
-- What a finished span exports.
use edge_bootstrap.Prelude.{
  ℕ, ◌-◌, ◌%◌, String, List, [], ◌∷◌, Option, none, some, or_else, or_else_assoc, ◌≡◌, refl, sym,
  ap, ◌∙◌, Bool-cases, inl, inr, if◌then◌else◌, arith, eq_iff,
}
use package.text.Mathlib.Text.{◌==◌ as str_eq}
use edge_bootstrap.Dispatch.Interface.{put, find, find-put, Distinct, put-Distinct}
use edge_bootstrap.Monitor.Floats.{u64_mod}
use edge_bootstrap.Observability.{
  SpanValue, text, number, Span, TracerProvider, record_annotation, insert_all, span_object, finish,
  handler_tracer,
}

-- Annotations recorded in turn, and the last of a key among them.
abbrev pub annotate : List (String × String) → Span → Span
annotate [] s = s
annotate ((k, v) ∷ notes) s = annotate notes (record_annotation k v s)

abbrev pub last_of : String → List (String × String) → Option SpanValue
last_of key [] = none
last_of key ((k, v) ∷ notes) =
    or_else (last_of key notes) (if str_eq k key then some (text v) else none)

find-annotate :
    (notes : List (String × String)) (s : Span) (key : String)
    → find key (annotate notes s).fields ≡ or_else (last_of key notes) (find key s.fields)
unfolding record_annotation
find-annotate [] s key = refl
find-annotate ((k, v) ∷ notes) s key =
    let ih = find-annotate notes (record_annotation k v s) key in
    ih ∙ rw (find-put s.fields k key (text v)) (ground arith)

annotate-Distinct :
    (notes : List (String × String)) (s : Span)
    → Distinct s.fields
    → Distinct (annotate notes s).fields
unfolding record_annotation
annotate-Distinct [] s d = d
annotate-Distinct ((k, v) ∷ notes) s d =
    annotate-Distinct notes (record_annotation k v s) (put-Distinct s.fields k (text v) d)

find-insert_all :
    (fields span : List (String × SpanValue)) (key : String)
    → Distinct fields
    → find key (insert_all fields span) ≡ or_else (find key fields) (find key span)
unfolding insert_all find
find-insert_all [] span key d = refl
find-insert_all ((k, v) ∷ fields) span key (fresh, d) =
    let ih = find-insert_all fields (put k v span) key d in
    let one = find-put span k key v in
    elim (Bool-cases (str_eq k key)) [
      | inl same ↦
          let gone : find key fields ≡ none =
            ap (λ j. find j fields) (sym ((eq_iff k key).0 same)) ∙ fresh in
          rw (ih, one, gone, same) refl
      | inr other ↦ rw (ih, one, other) refl
    ]

-- What a span has without annotations.
abbrev pub own_values : String → String → ℕ → List (String × SpanValue)
own_values id operation duration =
    ("handler_id", text id) ∷ ("operation", text operation) ∷ ("duration_us", number duration) ∷ []

-- The span whose annotations stand in `notes` and `s` has the identity of `s`.
annotate_identity :
    (notes : List (String × String)) (s : Span)
    → ((annotate notes s).handler_id ≡ s.handler_id)
      × ((annotate notes s).operation ≡ s.operation)
      × ((annotate notes s).started_at ≡ s.started_at)
unfolding record_annotation
annotate_identity [] s = (refl, refl, refl)
annotate_identity ((k, v) ∷ notes) s = annotate_identity notes (record_annotation k v s)

abbrev own_of : Span → ℕ → List (String × SpanValue)
own_of s now = own_values s.handler_id s.operation ((now - s.started_at) % u64_mod)

own_of-annotate :
    (notes : List (String × String)) (s : Span) (now : ℕ)
    → own_of (annotate notes s) now ≡ own_of s now
own_of-annotate notes s now = let (h, o, t) = annotate_identity notes s in rw (h, o, t) refl

span_object_lem : (s : Span) (now : ℕ) → span_object s now ≡ insert_all s.fields (own_of s now)
unfolding span_object put
span_object_lem s now = refl

exported :
    (notes : List (String × String)) (s : Span) (now : ℕ)
    → Distinct s.fields
    → (key : String)
    → find key (span_object (annotate notes s) now)
      ≡ or_else (or_else (last_of key notes) (find key s.fields)) (find key (own_of s now))
exported notes s now d key =
    let noted = annotate notes s in
    rw (sym (own_of-annotate notes s now), sym (find-annotate notes s key))
      (ap (find key) (span_object_lem noted now)
        ∙ find-insert_all noted.fields (own_of noted now) key (annotate-Distinct notes s d))

module _ {W : Type 0} (backend : TracerProvider W) (clock : W → ℕ) where
  -- A span that is started and annotated any number of times is exported, when it is finished, as an
  -- object in which each key has the text of the last annotation under it; only keys without an
  -- annotation have their own value, the handler's id, the operation and the time since the start as
  -- a u64, and all others none. Finishing it a second time exports the three own values alone.
  pub finish_exports :
      (id operation : String) (notes : List (String × String)) (before now later : W)
      → let s = (handler_tracer backend clock).start_span id operation before in
        let done = finish backend clock (annotate notes s) now in
        let own = λ (w : W). own_values id operation ((clock w - clock before) % u64_mod) in
        ((object : List (String × SpanValue)) × (done.0 ≡ backend.export_span object now)
          × ((key : String) → find key object ≡ or_else (last_of key notes) (find key (own now))))
        × ((finish backend clock done.1 later).0 ≡ backend.export_span (own later) later)
  unfolding finish handler_tracer find
  finish_exports id operation notes before now later =
      let s = (handler_tracer backend clock).start_span id operation before in
      let noted = annotate notes s in
      let again = span_object_lem (record noted { fields = [] }) (clock later) in
      (
        (
          span_object noted (clock now),
          refl,
          λ key.
              exported notes s (clock now) tt key
              ∙ or_else_assoc (last_of key notes) none (find key (own_of s (clock now))),
        ),
        ap (λ o. backend.export_span o later) (again ∙ own_of-annotate notes s (clock later)),
      )
