-- ===== src/Gateway/Complete/Again.antt =====
-- A request that is repeated.
use bid_pilot.Prelude.{
  ℕ, ◌+◌, ◌<◌, true, false, String, some, ◌≡◌, refl, ap, sym, subst, ◌⊎◌, arith, leb,
}
use bid_pilot.Prelude.Outcome.{Result, ok, err}
use bid_pilot.Gateway.Cache.{ResponseCache, set, cache_get, cache_set, counted}
use bid_pilot.Gateway.Cache.Bounds.{set-get}
use bid_pilot.Gateway.Call.{
  ModelTier, PromptSpec, TransportResult, ModelResponse, Gateway, Outcome, complete_uncached,
}
use bid_pilot.Gateway.Complete.{cache_key, from_cache, remember, fresh, after_lookup, complete}

-- Within the time to live a stored value is served, and the store is asked no further.
cache_set-get :
    {V : Type 0} (now later : ℕ) (key : String) (value : V) (c : ResponseCache V)
    → 0 < c.store.max_entries
    → later < now + c.ttl
    → (cache_get later key (cache_set now key value c)).0 ≡ some value
unfolding cache_get cache_set counted
cache_set-get now later key value c pos live =
    let (_, served) = set-get now c.ttl later key value c.store pos in
    let in_time : leb (now + c.ttl) later ≡ false = ground arith in rw (served, in_time) refl

module _ {V : Type 0} (transport : ℕ → PromptSpec → String → String → Result TransportResult)
    (validate : PromptSpec → String → V ⊎ String) (resolve : ModelTier → String) (clock : ℕ → ℕ)
    (digest : String → String → String → String) (prompt : PromptSpec) (user : String) where
  -- The next request finds the payload and calls no model.
  abbrev pub Repeats : ℕ → Gateway V → V → Type 0
  Repeats later g payload =
      let next = complete transport validate resolve clock digest prompt user later true g in
      (next.0 ≡ ok (from_cache transport validate resolve clock digest prompt user payload))
      × (next.1.calls ≡ g.calls)

  found-Repeats :
      (later : ℕ) (g : Gateway V) (payload : V)
      → (cache_get later
          (cache_key transport validate resolve clock digest prompt user (resolve prompt.tier))
          g.cache).0
        ≡ some payload
      → Repeats later g payload
  unfolding complete after_lookup
  found-Repeats later g payload found = rw found (refl, refl)

  remember-Repeats :
      (now later : ℕ) (o : Outcome V) (r : ModelResponse V) (g' : Gateway V)
      → remember transport validate resolve clock digest prompt user now true o ≡ (ok r, g')
      → 0 < g'.cache.store.max_entries
      → later < now + g'.cache.ttl
      → Repeats later g' r.payload
  unfolding remember cache_set set
  remember-Repeats now later (err e, g) r g' h pos live = absurd (ground arith)
  remember-Repeats now later (ok s, g) r g' h pos live =
      let same : s ≡ r = ground arith in
      let stored : record g {
        cache =
            cache_set now
              (cache_key transport validate resolve clock digest prompt user (resolve prompt.tier))
              s.payload g.cache;
      }
          ≡ g' =
        ap (λ x. x.1) h in
      let pos' : 0 < g.cache.store.max_entries =
        subst (λ (x : Gateway V). 0 < x.cache.store.max_entries) (sym stored) pos in
      let live' : later < now + g.cache.ttl =
        subst (λ (x : Gateway V). later < now + x.cache.ttl) (sym stored) live in
      subst (λ x. Repeats later x r.payload) stored
        (subst
          (λ x.
            Repeats later
              (record g {
                cache =
                    cache_set now
                      (cache_key transport validate resolve clock digest prompt user
                        (resolve prompt.tier))
                      s.payload g.cache;
              })
              x)
          (ap (λ (x : ModelResponse V). x.payload) same)
          (found-Repeats later _ s.payload
            (cache_set-get now later _ s.payload g.cache pos' live')))

  -- After a request that was not served from the cache and that returned a response, the same request
  -- within the time to live returns the same payload and calls no model. It reports the model of the
  -- tier asked for, also when a model of a lower tier had answered.
  pub fresh-Repeats :
      (now later : ℕ) (g : Gateway V) (r : ModelResponse V) (g' : Gateway V)
      → fresh transport validate resolve clock digest prompt user now true g ≡ (ok r, g')
      → 0 < g'.cache.store.max_entries
      → later < now + g'.cache.ttl
      → Repeats later g' r.payload
  unfolding fresh
  fresh-Repeats now later g r g' h pos live =
      remember-Repeats now later
        (complete_uncached transport validate resolve clock prompt user prompt.tier g) r g' h pos
        live
