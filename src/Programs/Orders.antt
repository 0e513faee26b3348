-- ===== src/Programs/Orders.antt =====
-- scm/examples/messaging-e2e: orders that are published, and the subscriber that counts them. The broker
-- is part of the world; lines on the terminal are left out.
use edge_bootstrap.Prelude.{
  ℕ, ◌+◌, ◌%◌, ◌<◌, String, List, [], ◌∷◌, Bool, true, false, Result, ok, err, Call, ◌≡◌, arith,
}
use edge_bootstrap.Monitor.Floats.{u64_mod}
use edge_bootstrap.Codec.{Serde}
use edge_bootstrap.Dispatch.Interface.{Handler}

abbrev pub topic : String
topic = "orders.created"

-- `build_broker`: a broker that cannot be reached is replaced by one in memory.
unfoldable pub build_broker : {W B : Type 0} → Call W String B → B → W → W × B
build_broker connect in_memory w =
    let (w', connected) = connect w in
    elim connected [ ok broker ↦ (w', broker) | err e ↦ (w', in_memory) ]

-- `OrderHandler`; an order is its id, and `execution_failed` is the text of the handler error with a
-- text in it. A failed publication is dropped.
module _ {W : Type 0} (publish : String → List ℕ → Call W String (Unit {0})) (order : Serde String)
    (execution_failed : String → String) (default_health : Call W String Bool) where
  unfoldable pub order_handler : {O : Type 0} → Handler O W String String
  order_handler = record {
    id = ok "/orders";
    pattern = ok "/orders";
    execute = λ ctx id w. elim (order.to_vec id) [
      | err e ↦ (w, err (execution_failed e))
      | ok payload ↦ ((publish topic payload w).0, ok id)
    ];
    health_check = default_health;
  }

-- What the task of `spawn_subscriber` counts in a stream, from a count.
unfoldable pub receive : {M : Type 0} → ℕ → List (Result String M) → ℕ
receive count [] = count
receive count (ok msg ∷ stream) = receive ((count + 1) % u64_mod) stream
receive count (err e ∷ stream) = receive count stream

-- Whether the task says that it is ready, and what it counts to the end of the stream.
unfoldable pub subscriber : {M : Type 0} → Result String (List (Result String M)) → Bool × ℕ
subscriber (err e) = (false, 0)
subscriber (ok stream) = (true, receive 0 stream)

abbrev messages : {M : Type 0} → List (Result String M) → ℕ
messages [] = 0
messages (ok msg ∷ stream) = messages stream + 1
messages (err e ∷ stream) = messages stream

receive-messages :
    {M : Type 0} (stream : List (Result String M)) (count : ℕ)
    → count < u64_mod
    → receive count stream ≡ (count + messages stream) % u64_mod
unfolding receive
receive-messages [] count small = omega arith
receive-messages (ok msg ∷ stream) count small =
    omega (arith, receive-messages stream ((count + 1) % u64_mod) (omega arith))
receive-messages (err e ∷ stream) count small = receive-messages stream count small

-- A subscriber that starts counts the messages of its stream, modulo 2 ^ 64, and no errors.
pub subscriber_counts :
    {M : Type 0} (stream : List (Result String M))
    → subscriber (ok stream) ≡ (true, messages stream % u64_mod)
unfolding subscriber
subscriber_counts stream = rw (receive-messages stream 0 (omega arith)) (ground arith)
