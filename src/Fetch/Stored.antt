-- ===== src/Fetch/Stored.antt =====
-- A payload is stored once (pipeline.py: `store_raw`).
use bid_pilot.Prelude.{
  ◌+◌, ◌≡◌, refl, true, arith, String, Option, none, some, [], ◌∷◌, ◌++◌, any, any-append, eq_refl,
  Bool-cases, inl, inr,
}
use bid_pilot.Prelude.Outcome.{ok}
use bid_pilot.Store.{Env, Db}
use bid_pilot.Store.Rows.{RawRow, SourceRow}
use bid_pilot.Fetch.{RawNotice, same_raw, raw_row, insert_raw, store_raw}

same_raw_refl :
    (a b : RawRow)
    → a.source_id ≡ b.source_id
    → a.external_id ≡ b.external_id
    → a.content_hash ≡ b.content_hash
    → same_raw a b ≡ true
same_raw_refl a b s e h =
    rw (s, e, h)
      (ground (arith, eq_refl b.source_id, eq_refl b.external_id, eq_refl b.content_hash))

-- After a payload was offered, the same payload of the same notice and source is never stored again:
-- the second call returns no id and leaves every row as it was.
pub store_raw-again :
    (env env' : Env) (source : SourceRow) (raw : RawNotice) (db : Db)
    → (r : Option String) × (db' : Db) × (store_raw env source raw db ≡ ok (r, db'))
      × (store_raw env' source raw db' ≡ ok (none, record db' { drawn = db'.drawn + 1 }))
unfolding store_raw insert_raw
store_raw-again env env' source raw db =
    let row = raw_row env source raw db.drawn in
    let next : RawRow = raw_row env' source raw (db.drawn + 1) in
    let equal = same_raw_refl next row refl refl refl in
    elim (Bool-cases (any (same_raw row) db.raw_notices)) [
      | inl old ↦ (none, record db { drawn = db.drawn + 1 }, rw old refl, rw old refl)
      | inr new ↦ (
        some row.id,
        record db { drawn = db.drawn + 1; raw_notices = db.raw_notices ++ row ∷ [] },
        rw new refl,
        rw (any-append (same_raw next) db.raw_notices (row ∷ [])) (ground (arith, equal)),
      )
    ]
