-- ===== src/Gateway/Cache.antt =====
-- The response cache (ai/cache.py: `MemoryStore`, `ResponseCache`). The entries stand in the order of
-- their last use, the oldest first; times are those of a clock that never goes back.
pub mod Bounds
use bid_pilot.Prelude.{
  ℕ, ◌+◌, ◌*◌, Bool, true, false, not, String, Option, none, some, List, [], ◌∷◌, ◌++◌, leb, length,
  find, select, str_eq, if◌then◌else◌,
}

-- DEFAULT_TTL_SECONDS
abbrev pub default_ttl_seconds : ℕ
default_ttl_seconds = 24 * 60 * 60

-- DEFAULT_MAX_ENTRIES
abbrev pub default_max_entries : ℕ
default_max_entries = 256

pub record Entry (V : Type 0) : Type 0 where
  pub key : String
  pub expires_at : ℕ
  pub value : V

pub record MemoryStore (V : Type 0) : Type 0 where
  pub entries : List (Entry V)
  pub max_entries : ℕ

module _ {V : Type 0} where
  abbrev pub is_at : String → Entry V → Bool
  is_at key e = str_eq e.key key

  -- The entries without the one at the key.
  abbrev pub without : String → List (Entry V) → List (Entry V)
  without key = select (λ e. not (is_at key e))

  -- What `get` does with the entry that it found.
  unfoldable pub serve : ℕ → String → MemoryStore V → Option (Entry V) → Option V × MemoryStore V
  serve now key s none = (none, s)
  serve now key s (some e) =
      if leb e.expires_at now
      then (none, record s { entries = without key s.entries })
      else (some e.value, record s { entries = without key s.entries ++ e ∷ [] })

  unfoldable pub get : ℕ → String → MemoryStore V → Option V × MemoryStore V
  unfolding serve
  get now key s = serve now key s (find (is_at key) s.entries)

  -- `while len(entries) > max_entries: entries.popitem(last=False)`
  unfoldable pub evict : ℕ → List (Entry V) → List (Entry V)
  evict most [] = []
  evict most (e ∷ es) =
      let rest = evict most es in if leb (length (e ∷ es)) most then e ∷ es else rest

  unfoldable pub set : ℕ → String → V → ℕ → MemoryStore V → MemoryStore V
  unfolding evict
  set now key value ttl s =
      let e : Entry V = record { key = key; expires_at = now + ttl; value = value } in
      record s { entries = evict s.max_entries (without key s.entries ++ e ∷ []) }

-- `hits` and `misses` count the answers of `get`.
pub record ResponseCache (V : Type 0) : Type 0 where
  pub store : MemoryStore V
  pub ttl : ℕ
  pub hits : ℕ
  pub misses : ℕ

module _ {V : Type 0} where
  unfoldable pub counted : ResponseCache V → MemoryStore V → Option V → Option V × ResponseCache V
  counted c store none = (none, record c { store = store; misses = c.misses + 1 })
  counted c store (some v) = (some v, record c { store = store; hits = c.hits + 1 })

  unfoldable pub cache_get : ℕ → String → ResponseCache V → Option V × ResponseCache V
  unfolding get counted
  cache_get now key c = let answer = get now key c.store in counted c answer.1 answer.0

  unfoldable pub cache_set : ℕ → String → V → ResponseCache V → ResponseCache V
  unfolding set
  cache_set now key value c = record c { store = set now key value c.ttl c.store }
