-- ===== src/Notify/Once.antt =====
-- At most one digest a day (notify.py: `run_daily_digest`).
use bid_pilot.Prelude.{◌+◌, String, some, [], ◌∷◌, ◌++◌}
use bid_pilot.Store.{Env, Db}
use bid_pilot.Notify.Digest.{digest_row}

-- The state after a digest was recorded.
recorded : Env → String → Db → Db
recorded env org_id db = record db {
  org_context = some org_id;
  notifications = db.notifications ++ digest_row env org_id db.drawn ∷ [];
  drawn = db.drawn + 1;
}
