-- ===== src/Scheduler/Idempotent.antt =====
-- A tick may be repeated (scheduler.py: `tick`): the idempotency keys carry the minute and the bucket.
use Prim.Native.String.{◌++◌ as cat}
use bid_pilot.Prelude.{
  ℕ, ◌+◌, String, ◌≡◌, ◌∙◌, refl, sym, subst, Option, none, some, List, [], ◌∷◌, ◌++◌, map, true,
  arith, any, elem, select, length, Bool-cases, inl, inr, All, All-imp, length-append, elem-append,
}
use bid_pilot.Prelude.Outcome.{ok}
use bid_pilot.Store.{Env, Db, M}
use bid_pilot.Store.Rows.{Payload, text, JobRow, SourceRow}
use bid_pilot.Queue.Defs.{
  enqueue, enqueue_with, insert_job, has_key, default_max_attempts, idempotency_key, offered,
  is_job_kind,
}
use bid_pilot.Queue.Keys.{key_of, insert_job_cases, insert_job-stored, insert_job-again, map-concat}
use bid_pilot.Scheduler.Cron.{cron_matches}
use bid_pilot.Scheduler.Tick.{
  Minute, tick, tick_sources, tick_platform, enqueue_fetch, enqueue_periodic, time_bucket, is_due,
  is_scheduled, count_new, platform_schedule,
}

abbrev keys : Db → List String
keys db = map key_of db.jobs

-- The queue has grown by `n` jobs: no key is lost and the sources are untouched.
pub record Grown (n : ℕ) (db db' : Db) : Type 0 where
  pub kept : (k : String) → elem k (keys db) ≡ true → elem k (keys db') ≡ true
  pub same_sources : db'.sources ≡ db.sources
  pub counted : length db'.jobs ≡ length db.jobs + n

Grown-trans : (n m : ℕ) {a b c : Db} → Grown n a b → Grown m b c → Grown (n + m) a c
Grown-trans n m g h = record {
  kept = λ k e. h.kept k (g.kept k e);
  same_sources = h.same_sources ∙ g.same_sources;
  counted = omega (arith, g.counted, h.counted);
}

pub insert_job-Grown :
    (row : JobRow) (db : Db) {r : Option String} {db' : Db}
    → insert_job row db ≡ ok (r, db')
    → Grown (count_new r 0) db db'
insert_job-Grown row db h = elim (insert_job_cases row db h) [
  | inl (_, nothing, same) ↦
      rw (nothing, same) (record { kept = λ k e. e; same_sources = refl; counted = omega arith })
  | inr (_, new, longer) ↦
      rw (new, longer)
        (record {
          kept = λ k e.
              rw (map-concat key_of db.jobs row)
                (ground (arith, elem-append k (keys db) (key_of row ∷ [])));
          same_sources = refl;
          counted = length-append db.jobs (row ∷ []);
        })
]

pub insert_job-total :
    (row : JobRow) (db : Db) → (r : Option String) × (db' : Db) × (insert_job row db ≡ ok (r, db'))
unfolding insert_job
insert_job-total row db = elim (Bool-cases (any (has_key row.idempotency_key) db.jobs)) [
  | inl taken ↦ (none, db, rw taken refl)
  | inr free ↦ (some row.id, record db { jobs = db.jobs ++ row ∷ [] }, rw free refl)
]

-- A call of `enqueue` with a declared kind returns, and its key is stored afterwards.
module _ (env : Env) (kind entity version : String) (payload : Payload)
    (known : is_job_kind kind ≡ true) (db : Db) where
  pub enqueue-Grown :
      (r : Option String) × (db' : Db) × (enqueue env kind payload entity version db ≡ ok (r, db'))
      × Grown (count_new r 0) db db'
      × (elem (idempotency_key kind entity version) (keys db') ≡ true)
  unfolding enqueue enqueue_with
  enqueue-Grown =
      let drawn = record db { drawn = db.drawn + 1 } in
      let row = offered env kind payload entity version none default_max_attempts db.drawn in
      let (r, db', inserted) = insert_job-total row drawn in
      let g = insert_job-Grown row drawn inserted in
      (
        r,
        db',
        rw known inserted,
        record { kept = g.kept; same_sources = g.same_sources; counted = g.counted },
        insert_job-stored row drawn inserted,
      )

  pub enqueue-again :
      elem (idempotency_key kind entity version) (keys db) ≡ true
      → enqueue env kind payload entity version db ≡ ok (none, record db { drawn = db.drawn + 1 })
  unfolding enqueue enqueue_with
  enqueue-again stored = rw known (insert_job-again _ _ stored)

count_new-add : (r : Option String) (n : ℕ) → count_new r n ≡ n + count_new r 0
count_new-add none n = omega arith
count_new-add (some id) n = omega arith

-- The fetch of a due source is in the queue.
abbrev Fetched : Minute → Db → SourceRow → Type 0
Fetched now db s =
    is_due (cron_matches s.schedule now.civil) ≡ true
    → elem (idempotency_key "source.fetch" s.code now.label) (keys db) ≡ true

-- The job of a period is in the queue.
abbrev Periodic : Minute → Db → String × ℕ → Type 0
Periodic now db (kind, every) =
    elem (idempotency_key kind "platform" (cat kind (cat ":" (time_bucket now.timestamp every))))
      (keys db)
    ≡ true

-- A loop that returns, with what it added.
abbrev Ran : M ℕ → ℕ → Db → (Db → Type 0) → Type 0
Ran loop n db P =
    (m : ℕ) × (k : ℕ) × (db' : Db) × (loop db ≡ ok (m, db')) × (m ≡ n + k) × Grown k db db' × P db'

Grown-refl : (db : Db) → Grown 0 db db
Grown-refl db = record { kept = λ k e. e; same_sources = refl; counted = omega arith }

fetch_known : is_job_kind "source.fetch" ≡ true
unfolding is_job_kind
fetch_known = refl

module _ (env : Env) (now : Minute) where
  pub tick_sources-Ran :
      (n : ℕ) (ss : List SourceRow) (db : Db)
      → Ran (tick_sources env now n ss) n db (λ db'. All (Fetched now db') ss)
  unfolding tick_sources enqueue_fetch
  tick_sources-Ran n [] db = (n, 0, db, refl, omega arith, Grown-refl db, tt)
  tick_sources-Ran n (s ∷ ss) db = elim (Bool-cases (is_due (cron_matches s.schedule now.civil))) [
    | inl due ↦
        let (r, db₁, e, g, stored) =
          enqueue-Grown env "source.fetch" s.code now.label (("source_code", text s.code) ∷ [])
            fetch_known db in
        let (m, k, db₂, e', total, h, rest) = tick_sources-Ran (count_new r n) ss db₁ in
        (
          m,
          count_new r 0 + k,
          db₂,
          rw due (rw e e'),
          omega (arith, count_new-add r n),
          Grown-trans _ _ g h,
          ((λ _. h.kept _ stored), rest),
        )
    | inr idle ↦
        let (m, k, db₂, e', total, h, rest) = tick_sources-Ran n ss db in
        (m, k, db₂, rw idle e', total, h, ((λ e. cc), rest))
  ]

  pub tick_platform-Ran :
      (n : ℕ) (periods : List (String × ℕ)) (db : Db)
      → All (λ (p : String × ℕ). is_job_kind p.0 ≡ true) periods
      → Ran (tick_platform env now n periods) n db (λ db'. All (Periodic now db') periods)
  unfolding tick_platform enqueue_periodic
  tick_platform-Ran n [] db known = (n, 0, db, refl, omega arith, Grown-refl db, tt)
  tick_platform-Ran n ((kind, every) ∷ rest) db known =
      let (r, db₁, e, g, stored) =
        enqueue-Grown env kind "platform" (cat kind (cat ":" (time_bucket now.timestamp every))) []
          known.0 db in
      let (m, k, db₂, e', total, h, later) = tick_platform-Ran (count_new r n) rest db₁ known.1 in
      (
        m,
        count_new r 0 + k,
        db₂,
        rw e e',
        omega (arith, count_new-add r n),
        Grown-trans _ _ g h,
        (h.kept _ stored, later),
      )

  -- With all jobs in the queue the loops add nothing.
  tick_sources-again :
      (n : ℕ) (ss : List SourceRow) (db : Db)
      → All (Fetched now db) ss
      → (d : ℕ) × (tick_sources env now n ss db ≡ ok (n, record db { drawn = d }))
  unfolding tick_sources enqueue_fetch
  tick_sources-again n [] db done = (db.drawn, refl)
  tick_sources-again n (s ∷ ss) db done =
      elim (Bool-cases (is_due (cron_matches s.schedule now.civil))) [
        | inl due ↦
            let e =
              enqueue-again env "source.fetch" s.code now.label (("source_code", text s.code) ∷ [])
                fetch_known db (done.0 due) in
            let (d, rest) = tick_sources-again n ss (record db { drawn = db.drawn + 1 }) done.1 in
            (d, rw due (rw e rest))
        | inr idle ↦ let (d, rest) = tick_sources-again n ss db done.1 in (d, rw idle rest)
      ]

  tick_platform-again :
      (n : ℕ) (periods : List (String × ℕ)) (db : Db)
      → All (λ (p : String × ℕ). is_job_kind p.0 ≡ true) periods
      → All (Periodic now db) periods
      → (d : ℕ) × (tick_platform env now n periods db ≡ ok (n, record db { drawn = d }))
  unfolding tick_platform enqueue_periodic
  tick_platform-again n [] db known done = (db.drawn, refl)
  tick_platform-again n ((kind, every) ∷ rest) db known done =
      let e =
        enqueue-again env kind "platform" (cat kind (cat ":" (time_bucket now.timestamp every))) []
          known.0 db done.0 in
      let (d, later) =
        tick_platform-again n rest (record db { drawn = db.drawn + 1 }) known.1 done.1 in
      (d, rw e later)

platform_known : All (λ (p : String × ℕ). is_job_kind p.0 ≡ true) platform_schedule
unfolding is_job_kind
platform_known = (refl, (refl, (refl, (refl, (refl, tt)))))

-- All that a tick has to ask for is in the queue.
abbrev Asked : Minute → Db → Db → Type 0
Asked now db db' =
    All (Fetched now db') (select is_scheduled db.sources)
    × All (Periodic now db') platform_schedule

Fetched-Grown :
    (now : Minute) (n : ℕ) {db db' : Db}
    → Grown n db db'
    → (ss : List SourceRow) → All (Fetched now db) ss
    → All (Fetched now db') ss
Fetched-Grown now n {db} {db'} g ss =
    All-imp (Fetched now db) (Fetched now db') (λ s stored due. g.kept _ (stored due)) ss

tick-Ran : (env : Env) (now : Minute) (db : Db) → Ran (tick env now) 0 db (Asked now db)
unfolding tick
tick-Ran env now db =
    let ss = select is_scheduled db.sources in
    let (m, k, db₁, e, total, g, fetched) = tick_sources-Ran env now 0 ss db in
    let (m', k', db₂, e', total', h, periodic) =
      tick_platform-Ran env now m platform_schedule db₁ platform_known in
    (
      m',
      k + k',
      db₂,
      rw e e',
      omega arith,
      Grown-trans k k' g h,
      (Fetched-Grown now k' h ss fetched, periodic),
    )

-- A tick never raises, also with malformed schedules. It reports as many jobs as it adds, loses no job
-- and leaves the sources alone.
pub tick-Grown :
    (env : Env) (now : Minute) (db : Db)
    → (m : ℕ) × (db' : Db) × (tick env now db ≡ ok (m, db')) × Grown m db db'
tick-Grown env now db =
    let (m, k, db', e, total, g, _) = tick-Ran env now db in
    let same : k ≡ m = omega arith in (m, db', e, subst (λ n. Grown n db db') same g)

again_of_Asked :
    (env : Env) (now : Minute) (db db' : Db)
    → Asked now db db'
    → db'.sources ≡ db.sources
    → (d : ℕ) × (tick env now db' ≡ ok (0, record db' { drawn = d }))
unfolding tick
again_of_Asked env now db db' (fetched, periodic) same =
    let (d, e) =
      tick_sources-again env now 0 (select is_scheduled db'.sources) db'
        (subst (λ ss. All (Fetched now db') (select is_scheduled ss)) (sym same) fetched) in
    let (d', e') =
      tick_platform-again env now 0 platform_schedule (record db' { drawn = d }) platform_known
        periodic in
    (d', rw e e')

-- Two schedulers in one minute, or one that runs twice: the second tick adds no job, whatever it is
-- given for the rest of its surroundings.
pub tick-again :
    (env env' : Env) (now : Minute) (db db' : Db) (m : ℕ)
    → tick env now db ≡ ok (m, db')
    → (d : ℕ) × (tick env' now db' ≡ ok (0, record db' { drawn = d }))
tick-again env env' now db db' m h =
    let (m₁, k, db₁, e, total, g, asked) = tick-Ran env now db in
    let same : db₁ ≡ db' = cc in
    again_of_Asked env' now db db' (subst (Asked now db) same asked)
      (subst (λ x. x.sources ≡ db.sources) same g.same_sources)
