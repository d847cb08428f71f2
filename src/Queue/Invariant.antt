-- ===== src/Queue/Invariant.antt =====
-- The invariant of the job table holds in every state that workers can reach.
use bid_pilot.Prelude.{
  ℕ, ◌<◌, String, ◌≡◌, refl, sym, subst, Option, none, List, [], ◌∷◌, ◌++◌, map, Bool, true, false,
  arith, select, update_where, str_eq, if◌then◌else◌, Bool-cases, ◌⊎◌, inl, inr, All, All-imp,
  All-select, All-update_where, All-append, IsUnique, IsUnique-concat, All-map, All-pair,
  All-selected,
}
use bid_pilot.Prelude.Outcome.{ok}
use bid_pilot.Store.{Env, Db}
use bid_pilot.Store.Rows.{Payload, queued, JobRow}
use bid_pilot.Queue.Defs.{
  Job, claim, claimed_ids, job_id, start_run, id_among, to_job, is_running, enqueue_with, offered,
  is_job_kind, new_id,
}
use bid_pilot.Queue.Keys.{key_of, insert_job_cases, enqueue_with-ok, map-concat}
use bid_pilot.Queue.Lifecycle.{
  System, IsFresh, Step, enqueued, claimed, completed, failed, reclaimed, Reach, here, next, RowInv,
  Fits, Inv, start_run-RowInv, is_dead,
}
use bid_pilot.Queue.Preserved.{
  update-Inv, complete-Inv, fail-Inv, reclaim_stale-Inv, All-Alike, Counted, to_job-Fits,
}

started_pos :
    (env : Env) (ids : List String) (jobs : List JobRow)
    → All
        (λ k. id_among ids k ≡ true → 0 < k.attempts)
        (update_where (id_among ids) (start_run env) jobs)
started_pos env ids [] = tt
started_pos env ids (j ∷ js) = (step (Bool-cases (id_among ids j)), started_pos env ids js)
  where
    step :
        (id_among ids j ≡ true) ⊎ (id_among ids j ≡ false)
        → (let k = if id_among ids j then start_run env j else j in
            id_among ids k ≡ true → 0 < k.attempts)
    step (inl e) = rw e (λ _. omega arith)
    step (inr e) = rw e (λ e'. cc)

-- The handles that a claim gives out fit the table that it leaves.
handles-Fits :
    (p : JobRow → Bool) (jobs : List JobRow)
    → IsUnique (map job_id jobs)
    → All (λ k. p k ≡ true → 0 < k.attempts) jobs
    → All (λ h. All (Fits h) jobs) (map to_job (select p jobs))
handles-Fits p jobs unique pos =
    let alike = All-Alike Counted (λ j. (omega arith, refl)) jobs unique in
    All-map _ (λ h. All (Fits h) jobs) to_job
      (λ k (chosen, (counted, same)). to_job-Fits k jobs same (counted chosen)) (select p jobs)
      (All-pair (λ k. p k ≡ true) _ (select p jobs) (All-selected p jobs)
        (All-select _ p jobs (All-pair _ _ jobs pos alike)))

claim-Inv :
    (s : System) (env : Env) (kinds : List String) (locked : String → Bool) (limit : ℕ)
    (handles : List Job) (db' : Db)
    → Inv s
    → claim env kinds locked limit s.db ≡ ok (handles, db')
    → Inv (record { db = db'; held = handles ++ s.held })
unfolding claim
claim-Inv s env kinds locked limit handles db' inv h =
    let ids = claimed_ids env kinds locked limit s.db.jobs in
    let p = id_among ids in
    let jobs = update_where p (start_run env) s.db.jobs in
    let after : db'.jobs ≡ jobs = ground arith in
    let given : handles ≡ map to_job (select p jobs) = ground arith in
    let kept =
      update-Inv p (start_run env) (λ j. refl) (λ j. refl) (λ j. refl) (λ j. omega arith) s db' inv
        after
        (All-update_where RowInv p (start_run env) (λ j r _. start_run-RowInv env j r) s.db.jobs
          inv.rows) in
    record {
      keys = kept.keys;
      ids = kept.ids;
      rows = kept.rows;
      handed =
          All-append (λ h. All (Fits h) db'.jobs) handles s.held
            (subst (λ hs. All (λ h. All (Fits h) db'.jobs) hs) (sym given)
              (subst (λ js. All (λ h. All (Fits h) js) (map to_job (select p jobs))) (sym after)
                (handles-Fits p jobs (rw after at kept.ids) (started_pos env ids s.db.jobs))))
            kept.handed;
    }

-- A row is added whose id no handed job has.
handed-concat :
    (row : JobRow) (jobs : List JobRow) (hs : List Job)
    → All (λ h. All (Fits h) jobs) hs
    → All (λ (h : Job). str_eq row.id h.id ≡ false) hs
    → All (λ h. All (Fits h) (jobs ++ row ∷ [])) hs
handed-concat row jobs hs fits fresh =
    All-imp _ _ (λ h (f, other). All-append (Fits h) jobs (row ∷ []) f ((λ e. cc), tt)) hs
      (All-pair (λ h. All (Fits h) jobs) (λ h. str_eq row.id h.id ≡ false) hs fits fresh)

new_job-RowInv :
    (row : JobRow)
    → is_job_kind row.kind ≡ true
    → row.state ≡ queued
    → row.locked_by ≡ none
    → row.locked_at ≡ none
    → RowInv row
unfolding is_running is_dead
new_job-RowInv row known q l t = ground arith

enqueue_with-Inv :
    (s : System) (env : Env) (kind : String) (payload : Payload) (entity version : String)
    (run_at : Option ℕ) (max_attempts : ℕ) (r : Option String) (db' : Db)
    → Inv s
    → IsFresh (new_id env "job" s.db.drawn) s
    → enqueue_with env kind payload entity version run_at max_attempts s.db ≡ ok (r, db')
    → Inv (record s { db = db' })
enqueue_with-Inv s env kind payload entity version run_at m r db' inv fresh h =
    let (known, inserted) = enqueue_with-ok env kind payload entity version run_at m s.db h in
    let row = offered env kind payload entity version run_at m s.db.drawn in
    elim (insert_job_cases row _ inserted) [
      | inl (_, _, same) ↦
          subst (λ db. Inv (record s { db = db })) (sym same)
            (record { keys = inv.keys; ids = inv.ids; rows = inv.rows; handed = inv.handed })
      | inr (absent, _, longer) ↦
          subst (λ db. Inv (record s { db = db })) (sym longer)
            (record {
              keys =
                  rw (map-concat key_of s.db.jobs row)
                    (IsUnique-concat _ row.idempotency_key inv.keys absent);
              ids = rw (map-concat job_id s.db.jobs row) (IsUnique-concat _ row.id inv.ids fresh.0);
              rows =
                  All-append RowInv s.db.jobs (row ∷ []) inv.rows
                    (new_job-RowInv row known refl refl refl, tt);
              handed = handed-concat row s.db.jobs s.held inv.handed fresh.1;
            })
    ]

-- Every step keeps the invariant.
Step-Inv : {s t : System} → Inv s → Step s t → Inv t
Step-Inv {s} inv (enqueued env kind payload entity version run_at m r db' fresh h) =
    enqueue_with-Inv s env kind payload entity version run_at m r db' inv fresh h
Step-Inv {s} inv (claimed env kinds locked limit handles db' h) =
    claim-Inv s env kinds locked limit handles db' inv h
Step-Inv {s} inv (completed job i db' held h) = complete-Inv s job db' inv h
Step-Inv {s} inv (failed env job error i state db' held h) =
    fail-Inv s env job error state i db' inv held h
Step-Inv {s} inv (reclaimed env older_than n db' h) = reclaim_stale-Inv s env older_than n db' inv h

-- From a table in order, whatever the workers do and in whatever order, also when a worker that was
-- taken for dead still reports: idempotency keys and ids stay distinct, a row has a worker exactly
-- while it runs, no row is given up before its attempts are used, and no worker holds a job whose row
-- has not counted the run.
pub Reach-Inv : {s t : System} → Inv s → Reach s t → Inv t
Reach-Inv inv here = inv
Reach-Inv inv (next r st) = Step-Inv (Reach-Inv inv r) st
