-- ===== src/Gateway/Cache/Bounds.antt =====
-- What the response cache holds.
use bid_pilot.Prelude.{
  ℕ, ◌+◌, ◌≤◌, ◌<◌, ◌≡◌, refl, Bool, true, false, arith, String, none, some, List, [], ◌∷◌, ◌++◌,
  leb, length, find, any, eq_refl, if◌then◌else◌, Bool-cases, inl, inr,
}
use bid_pilot.Gateway.Cache.{Entry, MemoryStore, is_at, without, serve, get, evict, set}

module _ {V : Type 0} where
  length-evict-le : (most : ℕ) (es : List (Entry V)) → length (evict most es) ≤ most
  unfolding evict
  length-evict-le most [] = omega arith
  length-evict-le most (e ∷ es) = elim (Bool-cases (leb (length (e ∷ es)) most)) [
    | inl fits ↦ rw fits (ground arith)
    | inr over ↦ rw over (length-evict-le most es)
  ]

  -- The newest entry is not evicted.
  evict-concat :
      (most : ℕ) (es : List (Entry V)) (e : Entry V)
      → 0 < most
      → (kept : List (Entry V)) × (evict most (es ++ e ∷ []) ≡ kept ++ e ∷ [])
        × ((p : Entry V → Bool) → any p es ≡ false → any p kept ≡ false)
  unfolding evict
  evict-concat most [] e pos = ([], ground arith, λ p h. refl)
  evict-concat most (x ∷ es) e pos =
      let (kept, same, none_kept) = evict-concat most es e pos in
      elim (Bool-cases (leb (length (x ∷ (es ++ e ∷ []))) most)) [
        | inl fits ↦ (x ∷ es, rw fits refl, λ p h. h)
        | inr over ↦ (kept, rw over same, λ p h. none_kept p (ground arith))
      ]

  any-without : (key : String) (es : List (Entry V)) → any (is_at key) (without key es) ≡ false
  any-without key [] = refl
  any-without key (e ∷ es) = elim (Bool-cases (is_at key e)) [
    | inl here ↦ rw here (any-without key es)
    | inr other ↦ rw other (rw other (any-without key es))
  ]

  find-concat :
      (p : Entry V → Bool) (es : List (Entry V)) (e : Entry V)
      → any p es ≡ false
      → p e ≡ true
      → find p (es ++ e ∷ []) ≡ some e
  find-concat p [] e h hit = rw hit refl
  find-concat p (x ∷ es) e h hit = ground (arith, find-concat p es e)

  -- A store never holds more entries than its bound after a value is stored. With a bound above 0 the
  -- value is found again until its time to live is over, and not from then on.
  pub set-get :
      (now ttl later : ℕ) (key : String) (value : V) (s : MemoryStore V)
      → 0 < s.max_entries
      → (length (set now key value ttl s).entries ≤ s.max_entries)
        × ((get later key (set now key value ttl s)).0
            ≡ (if leb (now + ttl) later then none else some value))
  unfolding set get serve
  set-get now ttl later key value s pos =
      let e : Entry V = record { key = key; expires_at = now + ttl; value = value } in
      let (kept, same, none_kept) = evict-concat s.max_entries (without key s.entries) e pos in
      let found : find (is_at key) (kept ++ e ∷ []) ≡ some e =
        find-concat (is_at key) kept e (none_kept (is_at key) (any-without key s.entries))
          (eq_refl key) in
      (
        length-evict-le s.max_entries (without key s.entries ++ e ∷ []),
        rw (same, found)
            (elim (Bool-cases (leb (now + ttl) later)) [
              | inl over ↦ rw over refl
              | inr live ↦ rw live refl
            ]),
      )
