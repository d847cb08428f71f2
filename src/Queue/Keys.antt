-- ===== src/Queue/Keys.antt =====
-- Idempotency keys (queue.py: `enqueue` and the unique column `jobs.idempotency_key`).
use bid_pilot.Prelude.{
  ℕ, ◌+◌, String, ◌≡◌, refl, Option, none, List, [], ◌∷◌, ◌++◌, map, true, false, arith, any, elem,
  IsUnique, IsUnique-concat, elem-append, eq_refl, ap, ◌⊎◌, inl, inr, some,
}
use bid_pilot.Prelude.Outcome.{ok}
use bid_pilot.Store.{Env, Db}
use bid_pilot.Store.Rows.{Payload, JobRow}
use bid_pilot.Queue.Defs.{is_job_kind, offered, enqueue_with, insert_job, has_key}

abbrev pub key_of : JobRow → String
key_of j = j.idempotency_key

pub any-has_key :
    (key : String) (jobs : List JobRow) → any (has_key key) jobs ≡ elem key (map key_of jobs)
any-has_key key [] = refl
any-has_key key (j ∷ js) = ground (arith, any-has_key key js)

pub map-concat :
    (f : JobRow → String) (jobs : List JobRow) (row : JobRow)
    → map f (jobs ++ row ∷ []) ≡ map f jobs ++ f row ∷ []
map-concat f [] row = refl
map-concat f (j ∷ js) row = ap (λ ks. f j ∷ ks) (map-concat f js row)

-- What an insertion that returns has done.
pub insert_job_cases :
    (row : JobRow) (db : Db) {r : Option String} {db' : Db}
    → insert_job row db ≡ ok (r, db')
    → (elem row.idempotency_key (map key_of db.jobs) ≡ true) × (r ≡ none) × (db' ≡ db)
      ⊎ (elem row.idempotency_key (map key_of db.jobs) ≡ false)
        × (r ≡ some row.id)
        × (db' ≡ record db { jobs = db.jobs ++ row ∷ [] })
unfolding insert_job
insert_job_cases row db h = ground (arith, any-has_key row.idempotency_key db.jobs)

-- An insertion keeps the keys distinct.
pub insert_job-IsUnique :
    (row : JobRow) (db : Db) {r : Option String} {db' : Db}
    → IsUnique (map key_of db.jobs)
    → insert_job row db ≡ ok (r, db')
    → IsUnique (map key_of db'.jobs)
insert_job-IsUnique row db u h = elim (insert_job_cases row db h) [
  | inl (_, _, same) ↦ rw same u
  | inr (absent, _, longer) ↦
      rw (longer, map-concat key_of db.jobs row)
        (IsUnique-concat (map key_of db.jobs) row.idempotency_key u absent)
]

-- After an insertion a row with its key is stored.
pub insert_job-stored :
    (row : JobRow) (db : Db) {r : Option String} {db' : Db}
    → insert_job row db ≡ ok (r, db')
    → elem row.idempotency_key (map key_of db'.jobs) ≡ true
insert_job-stored row db h = elim (insert_job_cases row db h) [
  | inl (taken, _, same) ↦ rw same taken
  | inr (_, _, longer) ↦
      rw (longer, map-concat key_of db.jobs row)
        (ground (
          arith,
          elem-append row.idempotency_key (map key_of db.jobs) (key_of row ∷ []),
          eq_refl row.idempotency_key,
        ))
]

-- A row whose key is stored is not inserted.
pub insert_job-again :
    (row : JobRow) (db : Db)
    → elem row.idempotency_key (map key_of db.jobs) ≡ true
    → insert_job row db ≡ ok (none, db)
unfolding insert_job
insert_job-again row db taken = ground (arith, any-has_key row.idempotency_key db.jobs)

-- A call of `enqueue` that returns is an insertion of the offered row.
pub enqueue_with-ok :
    (env : Env) (kind : String) (payload : Payload) (entity version : String) (run_at : Option ℕ)
    (max_attempts : ℕ) (db : Db) {r : Option String} {db' : Db}
    → enqueue_with env kind payload entity version run_at max_attempts db ≡ ok (r, db')
    → (is_job_kind kind ≡ true)
      × (insert_job
            (offered env kind payload entity version run_at max_attempts db.drawn)
            (record db { drawn = db.drawn + 1 })
          ≡ ok (r, db'))
unfolding enqueue_with
enqueue_with-ok env kind payload entity version run_at m db h = ground arith

-- A second request for the same kind, entity and version schedules nothing, whatever its payload,
-- time and number of attempts: it returns no id and leaves every job as the first request left it.
pub enqueue_with-again :
    (env env' : Env) (kind entity version : String) (payload payload' : Payload)
    (run_at run_at' : Option ℕ) (max_attempts max_attempts' : ℕ) (db db' : Db) (r : Option String)
    → enqueue_with env kind payload entity version run_at max_attempts db ≡ ok (r, db')
    → enqueue_with env' kind payload' entity version run_at' max_attempts' db'
      ≡ ok (none, record db' { drawn = db'.drawn + 1 })
unfolding enqueue_with
enqueue_with-again env env' kind entity version payload payload' run_at run_at' m m' db db' r h =
    let (known, inserted) = enqueue_with-ok env kind payload entity version run_at m db h in
    rw known (
      insert_job-again (offered env' kind payload' entity version run_at' m' db'.drawn)
        (record db' { drawn = db'.drawn + 1 }) (insert_job-stored _ _ inserted))
