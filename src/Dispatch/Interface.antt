-- ===== src/Dispatch/Interface.antt =====
-- What the jobs take from other crates: handlers (edge_application), the handler registry and the
-- pipeline (edge_dispatch), the path router (matchit). An error is given by its text.
use edge_bootstrap.Prelude.{
  String, List, [], ◌∷◌, Bool, true, false, Option, none, some, Result, ok, err, Call, ◌≡◌, ◌≢◌,
  ◌⊎◌, if◌then◌else◌, refl, arith, eq_iff, Bool-cases, inl, inr,
}
use text.Mathlib.Text.{◌==◌ as str_eq}

-- What a handler is told of its call, for a type of observers. The third part of it, the command bus, is
-- always the one that does nothing.
pub record HandlerContext (O : Type 0) : Type 0 where
  pub security : String
  pub observer : O

pub record Handler (O W Req Resp : Type 0) : Type 0 where
  pub id : Result String String
  pub pattern : Result String String
  pub execute : HandlerContext O → Req → Call W String Resp
  pub health_check : Call W String Bool

-- `wrap` is the pipeline of one passing stage; `invalid_request` is the text of the handler error
-- with a text in it, and `no_match_text` that of the routing error.
pub record Registry (R H : Type 0) : Type 0 where
  pub empty : R
  pub get : R → String → Result String (Option H)
  pub register : R → String → H → R × Result String (Unit {0})
  pub list_ids : R → Result String (List String)
  pub wrap : String → String → H → H
  pub invalid_request : String → String
  pub no_match_text : String

-- What the jobs rely on: a registration that succeeds is found under its id and touches no other id,
-- one that fails touches none, and a lookup does not fail.
pub record RegistryLaws {R H : Type 0} (r : Registry R H) : Type 0 where
  pub get_empty : (id : String) → r.get r.empty id ≡ ok none
  pub get_same :
      (s : R) (id : String) (h : H)
      → (r.register s id h).1 ≡ ok tt
      → r.get (r.register s id h).0 id ≡ ok (some h)
  pub get_other :
      (s : R) (id j : String) (h : H) → j ≢ id → r.get (r.register s id h).0 j ≡ r.get s j
  pub get_failed :
      (s : R) (id j : String) (h : H) (e : String)
      → (r.register s id h).1 ≡ err e
      → r.get (r.register s id h).0 j ≡ r.get s j

pub record PathRouter (P : Type 0) : Type 0 where
  pub empty : P
  pub insert : P → String → String → Result String P
  pub at : P → String → Option String

-- A path leads to an id that was inserted.
pub record PathRouterLaws {P : Type 0} (r : PathRouter P) : Type 0 where
  pub at_empty : (path : String) → r.at r.empty path ≡ none
  pub at_insert :
      (p p' : P) (pattern id path j : String)
      → r.insert p pattern id ≡ ok p'
      → r.at p' path ≡ some j
      → (r.at p path ≡ some j) ⊎ (j ≡ id)

pub data RoutingError : Type 0 where
  no_match : RoutingError

pub data JobError : Type 0 where
  handler_unavailable : String → JobError
  routing : RoutingError → JobError
  handler_failed : String → JobError
  cancelled : JobError

pub data JobRegistrationError : Type 0 where
  registration_failed : String → String → JobRegistrationError
  handler_rejected : String → JobRegistrationError

-- A `HashMap` from ids: one entry for each key, in an order that is not used.
module _ {H : Type 0} where
  unfoldable pub put : String → H → List (String × H) → List (String × H)
  put k v [] = (k, v) ∷ []
  put k v ((j, w) ∷ m) = if str_eq j k then (k, v) ∷ m else (j, w) ∷ put k v m

  unfoldable pub find : String → List (String × H) → Option H
  find k [] = none
  find k ((j, w) ∷ m) = if str_eq j k then some w else find k m

  pub find-put :
      (m : List (String × H)) (k j : String) (v : H)
      → find j (put k v m) ≡ (if str_eq k j then some v else find j m)
  unfolding find put
  find-put [] k j v = refl
  find-put ((i, w) ∷ m) k j v = ground (arith, eq_iff k j, eq_iff i k, eq_iff i j, find-put m k j v)

  -- One entry for each key.
  abbrev pub Distinct : List (String × H) → Type 0
  Distinct [] = Unit
  Distinct ((k, v) ∷ m) = (find k m ≡ none) × Distinct m

  pub put-Distinct :
      (m : List (String × H)) (k : String) (v : H) → Distinct m → Distinct (put k v m)
  unfolding find put
  put-Distinct [] k v d = (refl, tt)
  put-Distinct ((j, w) ∷ m) k v (fresh, d) = elim (Bool-cases (str_eq j k)) [
    | inl same ↦ rw same (let e = (eq_iff j k).0 same in rw e at fresh, d)
    | inr other ↦
        rw other
          (rw (find-put m k j v) (ground (arith, eq_iff k j, eq_iff j k)), put-Distinct m k v d)
  ]

-- The loop of `health_check`: it stops at the first handler that is not healthy.
unfoldable pub all_healthy :
    {O W Req Resp : Type 0} → List (String × Handler O W Req Resp) → W → W × Bool
all_healthy [] w = (w, true)
all_healthy ((id, h) ∷ hs) w =
    let (w', r) = h.health_check w in
    let rest = all_healthy hs w' in
    elim r [ err e ↦ (w', false) | ok up ↦ if up then rest else (w', false) ]
