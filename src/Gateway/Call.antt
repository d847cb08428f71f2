-- ===== src/Gateway/Call.antt =====
-- A call of a model (ai/gateway.py: `_Circuit`, `Gateway._complete_uncached`; ai/registry.py:
-- `PromptSpec`). The provider is an argument that may answer each of its calls differently, as is the
-- clock, read by the number of calls. So are `validate_against` and `resolve_model`, for which every
-- tier is configured. The message of an error keeps its fixed part.
pub mod Bounds
use Prim.Native.String.{◌++◌ as cat}
use bid_pilot.Prelude.{
  ℕ, zero, suc, ◌+◌, ◌*◌, Bool, true, false, not, ◌&&◌, String, Option, none, some, List, [], ◌∷◌,
  leb, select, str_eq, if◌then◌else◌, ◌⊎◌, inl, inr, update_where, any,
}
use bid_pilot.Prelude.Outcome.{Result, ok, err, gateway_error, circuit_open, schema_validation}
use bid_pilot.Store.{second}
use bid_pilot.Gateway.Cache.{ResponseCache, cache_get, cache_set}

pub data ModelTier : Type 0 where
  large medium small : ModelTier

-- The schema, the token limit and the temperature, which only the provider and the validation read,
-- belong to the identifier and the version.
pub record PromptSpec : Type 0 where
  pub id : String
  pub version : String
  pub system : String
  pub tier : ModelTier

-- f"{id}@{version}"
unfoldable pub ref : PromptSpec → String
ref p = cat p.id (cat "@" p.version)

pub record TransportResult : Type 0 where
  pub text : String
  pub tokens_in : ℕ
  pub tokens_out : ℕ

pub record ModelResponse (V : Type 0) : Type 0 where
  pub payload : V
  pub model : String
  pub prompt_ref : String
  pub tokens_in : ℕ
  pub tokens_out : ℕ
  pub cached : Bool
  pub attempts : ℕ

-- MAX_SCHEMA_RETRIES, CIRCUIT_FAILURE_THRESHOLD and CIRCUIT_RESET_SECONDS
abbrev pub max_schema_retries : ℕ
max_schema_retries = 2

abbrev pub circuit_failure_threshold : ℕ
circuit_failure_threshold = 5

abbrev pub circuit_reset : ℕ
circuit_reset = 60 * second

pub record Circuit : Type 0 where
  pub failures : ℕ
  pub opened_at : Option ℕ

abbrev pub closed_circuit : Circuit
closed_circuit = record { failures = 0; opened_at = none }

unfoldable pub record_failure : ℕ → Circuit → Circuit
record_failure now c =
    if leb circuit_failure_threshold (c.failures + 1)
    then record { failures = c.failures + 1; opened_at = some now }
    else record c { failures = c.failures + 1 }

-- Whether the circuit is open, and the circuit after the question.
unfoldable pub is_open_since : ℕ → Circuit → Option ℕ → Bool × Circuit
is_open_since now c none = (false, c)
is_open_since now c (some opened) =
    if leb (opened + circuit_reset) now then (false, closed_circuit) else (true, c)

abbrev pub is_open : ℕ → Circuit → Bool × Circuit
is_open now c = is_open_since now c c.opened_at

-- The mapping from models to circuits.
abbrev pub Circuits : Type 0
Circuits = String → Circuit

abbrev pub put : String → Circuit → Circuits → Circuits
put model c circuits m = if str_eq m model then c else circuits m

-- `calls` counts the calls of the provider.
pub record Gateway (V : Type 0) : Type 0 where
  pub cache : ResponseCache V
  pub circuits : Circuits
  pub calls : ℕ

-- The message of another attempt.
abbrev pub correction : String → String → String
correction user violation = cat user (
    cat "\n\n---\nYour previous answer did not match the required JSON schema: "
      (cat violation "\nReturn only valid JSON matching the schema. Do not explain."))

-- An exception leaves the gateway as it is, so a call returns the gateway besides its outcome.
abbrev pub Outcome : Type 0 → Type 0
Outcome V = Result (ModelResponse V) × Gateway V

module _ {V : Type 0} (transport : ℕ → PromptSpec → String → String → Result TransportResult)
    (validate : PromptSpec → String → V ⊎ String) (resolve : ModelTier → String) (clock : ℕ → ℕ)
    (prompt : PromptSpec) (user : String) where
  abbrev pub answered : String → ℕ → TransportResult → V → ModelResponse V
  answered model attempt result payload = record {
    payload = payload;
    model = model;
    prompt_ref = ref prompt;
    tokens_in = result.tokens_in;
    tokens_out = result.tokens_out;
    cached = false;
    attempts = attempt;
  }

  -- The gateway after a call that failed, and after one that was answered.
  abbrev pub after_failure : String → Gateway V → Gateway V
  after_failure model g = record g {
    circuits = put model (record_failure (clock (g.calls + 1)) (g.circuits model)) g.circuits;
    calls = g.calls + 1;
  }

  abbrev pub after_answer : String → Gateway V → Gateway V
  after_answer model g = record g {
    circuits = put model closed_circuit g.circuits;
    calls = g.calls + 1;
  }

  -- The answer is believed if it is valid; if not, `retry` gets the violation.
  unfoldable pub checked :
      (String → Outcome V) → String → ℕ → TransportResult → Gateway V → V ⊎ String → Outcome V
  checked retry model attempt result g (inl payload) =
      (ok (answered model attempt result payload), after_answer model g)
  checked retry model attempt result g (inr violation) = retry violation

  unfoldable pub heard :
      (String → Outcome V) → String → ℕ → Gateway V → Result TransportResult → Outcome V
  unfolding checked
  heard retry model attempt g (err e) = (err (gateway_error model), after_failure model g)
  heard retry model attempt g (ok result) =
      checked retry model attempt result g (validate prompt result.text)

  -- The loop over the attempts, of which `remaining` are left.
  unfoldable pub attempts_from : ℕ → ℕ → String → String → String → Gateway V → Outcome V
  attempts_from zero attempt model message violation g = (err (schema_validation violation), g)
  attempts_from (suc remaining) attempt model message violation g =
      heard
        (λ wrong.
          attempts_from remaining (attempt + 1) model (correction user wrong) wrong
            (after_answer model g))
        model attempt g (transport g.calls prompt model message)

  -- The circuit is asked, and the call goes to the model or to the fallback.
  unfoldable pub routed : (Gateway V → Outcome V) → String → Gateway V → Bool → Outcome V
  routed fallback model asked true = fallback asked
  routed fallback model asked false = attempts_from (max_schema_retries + 1) 1 model user "" asked

  unfoldable pub through_circuit : String → (Gateway V → Outcome V) → Gateway V → Outcome V
  unfolding routed
  through_circuit model fallback g =
      let answer = is_open (clock g.calls) (g.circuits model) in
      routed fallback model (record g { circuits = put model answer.1 g.circuits }) answer.0

  -- FALLBACK_TIER: from large to medium to small, and no further.
  unfoldable pub complete_small : Gateway V → Outcome V
  complete_small = through_circuit (resolve small) (λ g. (err (circuit_open (resolve small)), g))

  unfoldable pub complete_medium : Gateway V → Outcome V
  complete_medium = through_circuit (resolve medium) complete_small

  unfoldable pub complete_uncached : ModelTier → Gateway V → Outcome V
  complete_uncached large = through_circuit (resolve large) complete_medium
  complete_uncached medium = complete_medium
  complete_uncached small = complete_small
