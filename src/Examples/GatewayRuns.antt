-- ===== src/Examples/GatewayRuns.antt =====
-- Runs of the gateway.
use bid_pilot.Prelude.{
  ℕ, zero, suc, ◌+◌, ◌≤◌, ◌<◌, ◌≡◌, refl, true, false, String, some, [], ◌∷◌, length, str_eq,
  if◌then◌else◌, ◌⊎◌, inl, inr, arith,
}
use bid_pilot.Prelude.Outcome.{Result, ok}
use bid_pilot.Gateway.Cache.{
  MemoryStore, get, set, serve, evict, cache_get, cache_set, counted, default_max_entries,
  default_ttl_seconds,
}
use bid_pilot.Gateway.Cache.Bounds.{set-get}
use bid_pilot.Gateway.Call.{
  ModelTier, large, medium, small, PromptSpec, ref, TransportResult, ModelResponse, Circuits,
  closed_circuit, Gateway, Outcome, is_open_since, record_failure, attempts_from, heard, checked,
  routed, through_circuit, complete_small, complete_medium, complete_uncached, put,
}
use bid_pilot.Gateway.Call.Bounds.{Within, complete_uncached-Within}
use bid_pilot.Gateway.Complete.{remember, fresh, after_lookup, complete}
use bid_pilot.Gateway.Complete.Again.{Repeats, fresh-Repeats}

program : Unit {0}
unfolding get set serve evict cache_get cache_set counted ref is_open_since record_failure
    attempts_from heard checked routed through_circuit complete_small complete_medium
    complete_uncached remember fresh after_lookup complete
program = tt

abbrev small_store : MemoryStore ℕ
small_store = record { entries = []; max_entries = 2 }

set-get_example :
    (length (set 10 "k" 7 60 small_store).entries ≤ 2)
    × ((get 69 "k" (set 10 "k" 7 60 small_store)).0 ≡ some 7)
set-get_example = set-get 10 60 69 "k" 7 small_store (omega arith)

abbrev prompt : PromptSpec
prompt = record { id = "extract_admin"; version = "v1"; system = "Extract."; tier = large }

-- The first answer is not valid, the second is.
abbrev answer : String → Result TransportResult
answer text = ok (record { text = text; tokens_in = 100; tokens_out = 20 })

abbrev scripted : ℕ → PromptSpec → String → String → Result TransportResult
scripted zero p model message = answer "{"
scripted (suc n) p model message = answer "{}"

abbrev judged : PromptSpec → String → ℕ ⊎ String
judged p text = if str_eq text "{}" then inl 7 else inr "not JSON"

abbrev named : ModelTier → String
named large = "model-l"
named medium = "model-m"
named small = "model-s"

abbrev still : ℕ → ℕ
still n = 0

abbrev joined : String → String → String → String
joined a b c = c

-- The circuit of the large model is open.
abbrev broken : Circuits
broken = put "model-l" (record { failures = 5; opened_at = some 0 }) (λ m. closed_circuit)

abbrev idle : Gateway ℕ
idle = record {
  cache = record {
    store = record { entries = []; max_entries = default_max_entries };
    ttl = default_ttl_seconds;
    hits = 0;
    misses = 0;
  };
  circuits = broken;
  calls = 0;
}

complete_uncached-Within_example :
    Within scripted judged named still prompt "dossier"
      ("model-l" ∷ "model-m" ∷ "model-s" ∷ [])
      1
      3
      idle
      (complete_uncached scripted judged named still prompt "dossier" large idle)
complete_uncached-Within_example =
    complete_uncached-Within scripted judged named still prompt "dossier" large idle

-- The medium model answers, with its second attempt.
abbrev response : ModelResponse ℕ
response = record {
  payload = 7;
  model = "model-m";
  prompt_ref = "extract_admin@v1";
  tokens_in = 100;
  tokens_out = 20;
  cached = false;
  attempts = 2;
}

abbrev gateway_of : Outcome ℕ → Gateway ℕ
gateway_of o = o.1

abbrev warm : Gateway ℕ
unfolding program
warm = gateway_of (fresh scripted judged named still joined prompt "dossier" 5 true idle)

answered_once :
    fresh scripted judged named still joined prompt "dossier" 5 true idle ≡ (ok response, warm)
unfolding program warm
answered_once = refl

fits : 0 < warm.cache.store.max_entries
unfolding program warm
fits = omega arith

lives : 99 < 5 + warm.cache.ttl
unfolding program warm
lives = omega arith

fresh-Repeats_example : Repeats scripted judged named still joined prompt "dossier" 99 warm 7
fresh-Repeats_example =
    fresh-Repeats scripted judged named still joined prompt "dossier" 5 99 idle response warm
      answered_once fits lives
