-- ===== src/Gateway/Call/Bounds.antt =====
-- What a call of a model costs and returns.
use bid_pilot.Prelude.{
  ℕ, zero, suc, ◌+◌, ◌≤◌, ◌≡◌, refl, subst, true, false, Bool, arith, String, List, [], ◌∷◌, elem,
  ◌⊎◌, inl, inr, eq_refl,
}
use bid_pilot.Prelude.Outcome.{Error, Result, ok, err, circuit_open}
use bid_pilot.Gateway.Call.{
  ModelTier, large, medium, small, PromptSpec, TransportResult, ModelResponse, Gateway, Outcome,
  attempts_from, checked, heard, routed, through_circuit, complete_small, complete_medium,
  complete_uncached, correction, answered, after_answer,
}

module _ {V : Type 0} (transport : ℕ → PromptSpec → String → String → Result TransportResult)
    (validate : PromptSpec → String → V ⊎ String) (resolve : ModelTier → String) (clock : ℕ → ℕ)
    (prompt : PromptSpec) (user : String) where
  -- The response has what some call of the provider for its model answered, and the validation
  -- accepted that answer.
  pub record Verified (r : ModelResponse V) : Type 0 where
    pub number : ℕ
    pub message : String
    pub result : TransportResult
    pub sent : transport number prompt r.model message ≡ ok result
    pub accepted : validate prompt result.text ≡ inl r.payload
    pub billed : (r.tokens_in ≡ result.tokens_in) × (r.tokens_out ≡ result.tokens_out)

  -- An outcome that took at most `budget` calls; a response is verified, comes from one of the models
  -- and counts its attempts from `first`.
  pub record Within (models : List String) (first budget : ℕ) (g : Gateway V) (o : Outcome V)
      : Type 0 where
    pub spent : (g.calls ≤ o.1.calls) × (o.1.calls ≤ g.calls + budget)
    pub verified : (r : ModelResponse V) → o.0 ≡ ok r → Verified r
    pub model : (r : ModelResponse V) → o.0 ≡ ok r → elem r.model models ≡ true
    pub tries :
        (r : ModelResponse V)
        → o.0 ≡ ok r
        → (first ≤ r.attempts) × (r.attempts + 1 ≤ first + budget)

  failed-Within :
      (models : List String) (first budget : ℕ) (e : Error) (g g' : Gateway V)
      → g.calls ≤ g'.calls
      → g'.calls ≤ g.calls + budget
      → Within models first budget g (err e, g')
  failed-Within models first budget e g g' a b = record {
    spent = (a, b);
    verified = λ r h. cc;
    model = λ r h. cc;
    tries = λ r h. cc;
  }

  module _ (retry : String → Outcome V) (model message : String) (first remaining : ℕ)
      (g : Gateway V)
      (again : (wrong : String)
        → Within
            (model ∷ [])
            (first + 1)
            remaining
            (after_answer transport validate resolve clock prompt user model g)
            (retry wrong)) where
    checked-Within :
        (result : TransportResult) (verdict : V ⊎ String)
        → transport g.calls prompt model message ≡ ok result
        → validate prompt result.text ≡ verdict
        → Within (model ∷ []) first (suc remaining) g (
            checked transport validate resolve clock prompt user retry model first result g verdict)
    unfolding checked
    checked-Within result (inl payload) sent accepted =
        let r : ModelResponse V =
          answered transport validate resolve clock prompt user model first result payload in
        let is_r : (r' : ModelResponse V) → ok r ≡ ok r' → r ≡ r' = λ r' h. ground arith in
        record {
          spent = omega arith;
          verified = λ r' h. subst Verified (is_r r' h) (record {
            number = g.calls;
            message = message;
            result = result;
            sent = sent;
            accepted = accepted;
            billed = (refl, refl);
          });
          model = λ r' h.
              subst (λ x. elem x.model (model ∷ []) ≡ true) (is_r r' h)
                (ground (arith, eq_refl model));
          tries = λ r' h.
              subst (λ x. (first ≤ x.attempts) × (x.attempts + 1 ≤ first + suc remaining))
                (is_r r' h) (omega arith);
        }
    checked-Within result (inr wrong) sent refused =
        let w = again wrong in
        record {
          spent = omega (arith, w.spent.0, w.spent.1);
          verified = w.verified;
          model = w.model;
          tries = λ r h. omega (arith, (w.tries r h).0, (w.tries r h).1);
        }

    heard-Within :
        (answer : Result TransportResult)
        → transport g.calls prompt model message ≡ answer
        → Within
            (model ∷ [])
            first
            (suc remaining)
            g
            (heard transport validate resolve clock prompt user retry model first g answer)
    unfolding heard
    heard-Within (err e) sent = failed-Within _ _ _ _ g _ (omega arith) (omega arith)
    heard-Within (ok result) sent = checked-Within result _ sent refl

  attempts_from-Within :
      (remaining first : ℕ) (model message violation : String) (g : Gateway V)
      → Within (model ∷ []) first remaining g (
          attempts_from transport validate resolve clock prompt user remaining first model message
            violation g)
  unfolding attempts_from
  attempts_from-Within zero first model message violation g =
      failed-Within _ _ _ _ g g (omega arith) (omega arith)
  attempts_from-Within (suc remaining) first model message violation g =
      heard-Within _ model message first remaining g
        (λ wrong.
          attempts_from-Within remaining (first + 1) model (correction user wrong) wrong
            (after_answer transport validate resolve clock prompt user model g))
        _ refl

  routed-Within :
      (model : String) (models : List String) (fallback : Gateway V → Outcome V)
      (g asked : Gateway V)
      → asked.calls ≡ g.calls
      → ((h : Gateway V) → Within models 1 3 h (fallback h))
      → (shut : Bool)
      → Within
          (model ∷ models)
          1
          3
          g
          (routed transport validate resolve clock prompt user fallback model asked shut)
  unfolding routed
  routed-Within model models fallback g asked same lower true =
      let w = lower asked in
      record {
        spent = omega (arith, w.spent.0, w.spent.1, same);
        verified = w.verified;
        model = λ r h. ground (arith, w.model r h);
        tries = w.tries;
      }
  routed-Within model models fallback g asked same lower false =
      let w = attempts_from-Within 3 1 model user "" asked in
      record {
        spent = omega (arith, w.spent.0, w.spent.1, same);
        verified = w.verified;
        model = λ r h. ground (arith, w.model r h);
        tries = w.tries;
      }

  small-Within :
      (g : Gateway V)
      → Within
          (resolve small ∷ [])
          1
          3
          g
          (complete_small transport validate resolve clock prompt user g)
  unfolding complete_small through_circuit
  small-Within g =
      routed-Within (resolve small) [] _ g _ refl
        (λ h. failed-Within [] 1 3 (circuit_open (resolve small)) h h (omega arith) (omega arith)) _

  medium-Within :
      (g : Gateway V)
      → Within
          (resolve medium ∷ resolve small ∷ [])
          1
          3
          g
          (complete_medium transport validate resolve clock prompt user g)
  unfolding complete_medium through_circuit
  medium-Within g = routed-Within (resolve medium) _ _ g _ refl small-Within _

  -- The models of a tier and of the tiers below it.
  abbrev pub models_from : ModelTier → List String
  models_from large = resolve large ∷ resolve medium ∷ resolve small ∷ []
  models_from medium = resolve medium ∷ resolve small ∷ []
  models_from small = resolve small ∷ []

  -- A request calls the provider at most three times, whatever it answers and whichever circuits are
  -- open. If it returns a response, the validation accepted what the provider answered to one of the
  -- calls, the numbers of tokens are those of that call, and the model is one of the tier asked for or
  -- of a tier below it, never of one above.
  pub complete_uncached-Within :
      (tier : ModelTier) (g : Gateway V)
      → Within
          (models_from tier)
          1
          3
          g
          (complete_uncached transport validate resolve clock prompt user tier g)
  unfolding complete_uncached through_circuit
  complete_uncached-Within large g = routed-Within (resolve large) _ _ g _ refl medium-Within _
  complete_uncached-Within medium g = medium-Within g
  complete_uncached-Within small g = small-Within g
