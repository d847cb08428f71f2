-- ===== src/Gateway/Complete.antt =====
-- The only way to call a model (ai/gateway.py: `Gateway.complete`, `cache_key`). `digest` is the
-- SHA-256 digest of the reference, the system text and the input.
pub mod Again
use Prim.Native.String.{◌++◌ as cat}
use bid_pilot.Prelude.{
  ℕ, Bool, true, false, String, Option, none, some, ◌≡◌, refl, ◌⊎◌, if◌then◌else◌, inl, inr, arith,
}
use bid_pilot.Prelude.Outcome.{Result, ok, err}
use bid_pilot.Gateway.Cache.{cache_get, cache_set}
use bid_pilot.Gateway.Call.{
  ModelTier, PromptSpec, ref, TransportResult, ModelResponse, Gateway, Outcome, complete_uncached,
}

module _ {V : Type 0} (transport : ℕ → PromptSpec → String → String → Result TransportResult)
    (validate : PromptSpec → String → V ⊎ String) (resolve : ModelTier → String) (clock : ℕ → ℕ)
    (digest : String → String → String → String) (prompt : PromptSpec) (user : String) where
  abbrev pub cache_key : String → String
  cache_key model = cat (digest (ref prompt) prompt.system user) (cat ":" model)

  -- The response of a cache hit.
  abbrev pub from_cache : V → ModelResponse V
  from_cache payload = record {
    payload = payload;
    model = resolve prompt.tier;
    prompt_ref = ref prompt;
    tokens_in = 0;
    tokens_out = 0;
    cached = true;
    attempts = 0;
  }

  -- The answer is kept under the key of the model that was asked for.
  unfoldable pub remember : ℕ → Bool → Outcome V → Outcome V
  remember now allow_cache (err e, g) = (err e, g)
  remember now false (ok r, g) = (ok r, g)
  remember now true (ok r, g) =
      (ok r, record g { cache = cache_set now (cache_key (resolve prompt.tier)) r.payload g.cache })

  unfoldable pub fresh : ℕ → Bool → Gateway V → Outcome V
  unfolding remember
  fresh now allow_cache g =
      remember now allow_cache
        (complete_uncached transport validate resolve clock prompt user prompt.tier g)

  unfoldable pub after_lookup : ℕ → Gateway V → Option V → Outcome V
  unfolding fresh
  after_lookup now g (some payload) = (ok (from_cache payload), g)
  after_lookup now g none = fresh now true g

  -- `now` is the time of the cache.
  unfoldable pub complete : ℕ → Bool → Gateway V → Outcome V
  unfolding after_lookup
  complete now false g = fresh now false g
  complete now true g =
      let found = cache_get now (cache_key (resolve prompt.tier)) g.cache in
      after_lookup now (record g { cache = found.1 }) found.0
