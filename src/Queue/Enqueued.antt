-- ===== src/Queue/Enqueued.antt =====
-- A request for a job of a known kind (queue.py: `enqueue`).
use bid_pilot.Prelude.{
  ◌+◌, String, ◌≡◌, refl, Option, some, none, List, [], ◌∷◌, ◌++◌, map, true, elem, any, Bool-cases,
  inl, inr,
}
use bid_pilot.Prelude.Outcome.{ok}
use bid_pilot.Store.{Env, Db}
use bid_pilot.Store.Rows.{Payload, JobRow}
use bid_pilot.Queue.Defs.{
  is_job_kind, enqueue, enqueue_with, insert_job, idempotency_key, offered, default_max_attempts,
  has_key,
}
use bid_pilot.Queue.Keys.{key_of, insert_job-stored}

-- It returns, has changed only the jobs and the counter of identifiers, and a job with the key is stored.
stored-key :
    (row : JobRow) (db : Db) (r : Option String) (db' : Db)
    → insert_job row db ≡ ok (r, db')
    → elem row.idempotency_key (map key_of db'.jobs) ≡ true
stored-key row db r db' h = insert_job-stored row db h

inserted :
    (row : JobRow) (db : Db)
    → (r : Option String) × (jobs : List JobRow) × (insert_job row db
        ≡ ok (r, record db { jobs = jobs }))
unfolding insert_job
inserted row db = elim (Bool-cases (any (has_key row.idempotency_key) db.jobs)) [
  | inl e ↦ (none, db.jobs, rw e refl)
  | inr e ↦ (some row.id, db.jobs ++ row ∷ [], rw e refl)
]

-- It returns, has changed only the jobs and the counter of identifiers, and a job with the key is stored.
pub enqueue-total :
    (env : Env) (kind : String) (payload : Payload) (entity version : String) (db : Db)
    → is_job_kind kind ≡ true
    → (r : Option String) × (jobs : List JobRow) × (enqueue env kind payload entity version db
        ≡ ok (r, record db { jobs = jobs; drawn = db.drawn + 1 }))
      × (elem (idempotency_key kind entity version) (map key_of jobs) ≡ true)
unfolding enqueue enqueue_with
enqueue-total env kind payload entity version db known =
    let row = offered env kind payload entity version none default_max_attempts db.drawn in
    let (r, jobs, e) = inserted row (record db { drawn = db.drawn + 1 }) in
    (
      r,
      jobs,
      rw known e,
      stored-key row (record db { drawn = db.drawn + 1 }) r
          (record db { jobs = jobs; drawn = db.drawn + 1 }) e,
    )
