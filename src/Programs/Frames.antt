-- ===== src/Programs/Frames.antt =====
-- `EchoStream` of scm/examples/websocket-e2e. The receiving half of a channel is the list of what it
-- gives until the peer closes it; the sending half is part of the world.
use edge_bootstrap.Prelude.{
  String, List, [], ◌∷◌, ◌++◌, map, Result, ok, err, Call, Result-cases, inl, inr, ◌≡◌, ◌⊎◌, refl,
  ap, sym, ◌∙◌,
}
use mathlib.Core.List.{append-nil, append_assoc}
use edge_bootstrap.Transport.{HttpIngressError, internal, method_not_allowed}

-- `handle_sse`
unfoldable pub handle_sse : {W A : Type 0} → Call W HttpIngressError A
handle_sse w = (w, err (method_not_allowed "websocket-e2e: SSE is not wired in this demo"))

module _ {W M : Type 0} (send : M → Call W String (Unit {0})) where
  unfoldable pub handle_websocket :
      List (Result HttpIngressError M) → Call W HttpIngressError (Unit {0})
  handle_websocket [] w = (w, ok tt)
  handle_websocket (err e ∷ frames) w = (w, err e)
  handle_websocket (ok msg ∷ frames) w =
      let (w', sent) = send msg w in
      let rest = handle_websocket frames w' in
      elim sent [ err e ↦ (w', err (internal e)) | ok _ ↦ rest ]

  failed_send :
      (msg : M) (frames : List (Result HttpIngressError M)) (w : W) (e : String)
      → (send msg w).1 ≡ err e
      → handle_websocket (ok msg ∷ frames) w ≡ ((send msg w).0, err (internal e))
  unfolding handle_websocket
  failed_send msg frames w e failed = rw (failed, handle_websocket) refl

  done_send :
      (msg : M) (frames : List (Result HttpIngressError M)) (w : W)
      → (send msg w).1 ≡ ok tt
      → handle_websocket (ok msg ∷ frames) w ≡ handle_websocket frames (send msg w).0
  unfolding handle_websocket
  done_send msg frames w done = rw (done, handle_websocket) refl

  module _ (sent : W → List M)
      (sends : (m : M) (w : W) → (send m w).1 ≡ ok tt → sent (send m w).0 ≡ sent w ++ m ∷ [])
      (fails : (m : M) (e : String) (w : W)
        → (send m w).1 ≡ err e
        → sent (send m w).0 ≡ sent w) where
    -- What a run of the loop over some frames, from a world, comes to.
    abbrev pub Echoes : List (Result HttpIngressError M) → W → Type 0
    Echoes frames w =
        (msgs : List M) × (rest : List (Result HttpIngressError M)) × (frames ≡ map ok msgs ++ rest)
        × (sent (handle_websocket frames w).0 ≡ sent w ++ msgs)
        × (((rest ≡ []) × ((handle_websocket frames w).1 ≡ ok tt))
            ⊎ ((next : Result HttpIngressError M) × (later : List (Result HttpIngressError M))
                × (error : HttpIngressError) × (rest ≡ next ∷ later)
                × ((handle_websocket frames w).1 ≡ err error)))

    -- Where the channel keeps what was sent in order and nothing of what failed: the loop sends back
    -- exactly the messages of a first part of the stream, in order; it ends without an error if this
    -- is all of the stream, and with an error at the next frame otherwise.
    pub handle_websocket-Echoes :
        (frames : List (Result HttpIngressError M)) (w : W) → Echoes frames w
    unfolding handle_websocket
    handle_websocket-Echoes [] w = ([], [], refl, sym (append-nil (sent w)), inl (refl, refl))
    handle_websocket-Echoes (err e ∷ frames) w =
        ([], err e ∷ frames, refl, sym (append-nil (sent w)), inr (err e, frames, e, refl, refl))
    handle_websocket-Echoes (ok msg ∷ frames) w = elim (Result-cases (send msg w).1) [
      | inr (e, failed) ↦ rw (failed_send msg frames w e failed) (
        [],
        ok msg ∷ frames,
        refl,
        fails msg e w failed ∙ sym (append-nil (sent w)),
        inr (ok msg, frames, internal e, refl, refl),
      )
      | inl (u, done) ↦
          let (msgs, rest, split, echoed, ending) = handle_websocket-Echoes frames (send msg w).0 in
          rw (done_send msg frames w done) (
            msg ∷ msgs,
            rest,
            ap (λ l. ok msg ∷ l) split,
            echoed ∙ ap (λ l. l ++ msgs) (sends msg w done) ∙ append_assoc (sent w) (msg ∷ []) msgs,
            ending,
          )
    ]
