-- ===== src/Examples/Frames.antt =====
-- The loop of websocket-e2e on a channel that is full after two messages.
use edge_bootstrap.Prelude.{
  ℕ, String, List, [], ◌∷◌, ◌++◌, ok, err, Call, ◌≡◌, arith, if◌then◌else◌, length, ◌==◌,
}
use edge_bootstrap.Programs.Frames.{Echoes, handle_websocket-Echoes}

-- A channel that keeps what is sent, up to two messages.
abbrev send : ℕ → Call (List ℕ) String (Unit {0})
send m w = if length w == 2 then (w, err "full") else (w ++ m ∷ [], ok tt)

sends : (m : ℕ) (w : List ℕ) → (send m w).1 ≡ ok tt → (send m w).0 ≡ w ++ m ∷ []
sends m w e = ground arith

fails : (m : ℕ) (e : String) (w : List ℕ) → (send m w).1 ≡ err e → (send m w).0 ≡ w
fails m e w failed = ground arith

handle_websocket-Echoes_example : Echoes send (λ w. w) sends fails (ok 7 ∷ ok 8 ∷ ok 9 ∷ []) []
handle_websocket-Echoes_example =
    handle_websocket-Echoes send (λ w. w) sends fails (ok 7 ∷ ok 8 ∷ ok 9 ∷ []) []
