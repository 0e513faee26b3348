-- ===== src/Config/Feature.antt =====
-- scm/main/port/config/src/traits/feature_handler_bridge.rs: a handler from the section of a feature.
use edge_bootstrap.Prelude.{String, Result, ok, and_then, map_err}
use edge_bootstrap.Config.Types.{ConfigError, handler_build}

-- `FeatureState` and `OptionalHandler` of the other crates.
pub data FeatureState (C : Type 0) : Type 0 where
  enabled : C → FeatureState C
  disabled : FeatureState C

-- `load` is the registry's load of the section, and `build` is `HandlerFactory::build`.
unfoldable pub build_handler :
    {C H : Type 0}
    → Result ConfigError (FeatureState C)
    → (C → Result String H)
    → Result ConfigError (FeatureState H)
build_handler load build = and_then load (λ state. elim state [
  | disabled ↦ ok disabled
  | enabled cfg ↦ and_then (map_err handler_build (build cfg)) (λ handler. ok (enabled handler))
])
