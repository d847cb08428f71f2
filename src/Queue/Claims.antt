-- ===== src/Queue/Claims.antt =====
-- Claims (queue.py: `claim`, and the lock that `FOR UPDATE SKIP LOCKED` takes).
use bid_pilot.Prelude.{
  ℕ, ◌≤◌, String, ◌≡◌, refl, List, [], ◌∷◌, map, Bool, true, false, arith, any, elem, select, take,
  length, update_where, ◌&&◌, ◌||◌, str_eq, if◌then◌else◌, any_witness, subst, sym, any-take,
  any-select, any-map, any-false, any-update_where, length-take-le, length-map, eq_iff, Bool-cases,
  inl, inr,
}
use bid_pilot.Prelude.Outcome.{ok}
use bid_pilot.Store.{Env, Db}
use bid_pilot.Store.Rows.{JobRow}
use bid_pilot.Queue.Defs.{
  Job, claim, claimed_ids, order_by_run_at, insert_by_run_at, runnable, start_run, id_among, to_job,
  is_queued,
}

any-insert_by_run_at :
    (q : JobRow → Bool) (j : JobRow) (js : List JobRow)
    → any q (insert_by_run_at j js) ≡ q j || any q js
unfolding insert_by_run_at
any-insert_by_run_at q j [] = refl
any-insert_by_run_at q j (k ∷ ks) = ground (arith, any-insert_by_run_at q j ks)

pub any-order_by_run_at :
    (q : JobRow → Bool) (js : List JobRow) → any q (order_by_run_at js) ≡ any q js
unfolding order_by_run_at
any-order_by_run_at q [] = refl
any-order_by_run_at q (j ∷ js) =
    ground (arith, any-insert_by_run_at q j (order_by_run_at js), any-order_by_run_at q js)

-- A claimed id belongs to a runnable row.
pub claimed_ids-runnable :
    (env : Env) (kinds : List String) (locked : String → Bool) (limit : ℕ) (jobs : List JobRow)
    (id : String)
    → elem id (claimed_ids env kinds locked limit jobs) ≡ true
    → any (λ j. runnable env kinds locked j && str_eq j.id id) jobs ≡ true
unfolding claimed_ids
claimed_ids-runnable env kinds locked limit jobs id h =
    let q = λ (j : JobRow). str_eq j.id id in
    let found = select (runnable env kinds locked) jobs in
    let some_taken : any q (take limit (order_by_run_at found)) ≡ true = rw any-map at h in
    let some_ordered : any q (order_by_run_at found) ≡ true =
      any-take q limit (order_by_run_at found) some_taken in
    let some_found : any q found ≡ true = rw any-order_by_run_at at some_ordered in
    rw any-select at some_found

-- An id with no runnable row is not claimed.
pub claimed_ids-false :
    (env : Env) (kinds : List String) (locked : String → Bool) (limit : ℕ) (jobs : List JobRow)
    (id : String)
    → any (λ j. runnable env kinds locked j && str_eq j.id id) jobs ≡ false
    → elem id (claimed_ids env kinds locked limit jobs) ≡ false
claimed_ids-false env kinds locked limit jobs id free =
    elim (Bool-cases (elem id (claimed_ids env kinds locked limit jobs))) [
      | inl taken ↦ cc (claimed_ids-runnable env kinds locked limit jobs id taken, free)
      | inr out ↦ out
    ]

pub elem-congr :
    (s t : String) (xs : List String) → str_eq s t ≡ true → elem s xs ≡ true → elem t xs ≡ true
elem-congr s t xs same h = rw (← (eq_iff s t).0 same) h

-- A row that another worker's claim has started is running, so it is not runnable.
started-not_runnable :
    (env env' : Env) (kinds : List String) (locked : String → Bool) (ids : List String)
    (id : String)
    → elem id ids ≡ true
    → (j : JobRow)
    → (let j' = if id_among ids j then start_run env j else j in
        runnable env' kinds locked j' && str_eq j'.id id)
      ≡ false
unfolding runnable is_queued
started-not_runnable env env' kinds locked ids id h j = elim (Bool-cases (id_among ids j)) [
  | inl claimed ↦ rw claimed (ground arith)
  | inr kept ↦ rw kept (ground (arith, elem-congr id j.id ids, eq_iff id j.id, eq_iff j.id id))
]

locked-not_runnable :
    (env : Env) (kinds : List String) (locked : String → Bool) (j : JobRow) (id : String)
    → locked id ≡ true
    → ¬ ((runnable env kinds locked j && str_eq j.id id) ≡ true)
unfolding runnable
locked-not_runnable env kinds locked j id held e = ground (
  arith,
  eq_iff j.id id,
  subst (λ i. locked i ≡ true) (sym ((eq_iff j.id id).0 (ground arith))) held,
)

-- The handles that a claim returns carry claimed ids.
pub claim-handles :
    (env : Env) (kinds : List String) (locked : String → Bool) (limit : ℕ) (db : Db) (id : String)
    {handles : List Job} {db' : Db}
    → claim env kinds locked limit db ≡ ok (handles, db')
    → any (λ h. str_eq h.id id) handles ≡ true
    → elem id (claimed_ids env kinds locked limit db.jobs) ≡ true
unfolding claim
claim-handles env kinds locked limit db id {handles} h found =
    let ids = claimed_ids env kinds locked limit db.jobs in
    let jobs = update_where (id_among ids) (start_run env) db.jobs in
    let same : handles ≡ map to_job (select (id_among ids) jobs) = ground arith in
    let row : any (λ (j : JobRow). id_among ids j && str_eq j.id id) jobs ≡ true =
      rw (same, any-map, any-select) at found in
    let (j, e) = any_witness (λ (j : JobRow). id_among ids j && str_eq j.id id) jobs row in
    ground (arith, elem-congr j.id id ids)

-- Once a worker's claim has committed, the claim that follows takes none of the jobs that it returned,
-- whichever worker makes it, when and for which kinds.
pub claim_then_claim :
    (env env' : Env) (kinds kinds' : List String) (locked locked' : String → Bool)
    (limit limit' : ℕ) (db : Db) (id : String) {handles : List Job} {db' : Db}
    → claim env kinds locked limit db ≡ ok (handles, db')
    → any (λ h. str_eq h.id id) handles ≡ true
    → elem id (claimed_ids env' kinds' locked' limit' db'.jobs) ≡ false
unfolding claim
claim_then_claim env env' kinds kinds' locked locked' limit limit' db id {db'} h found =
    let ids = claimed_ids env kinds locked limit db.jobs in
    let mine = claim-handles env kinds locked limit db id h found in
    let after : db'.jobs ≡ update_where (id_among ids) (start_run env) db.jobs = ground arith in
    let free : any (λ (j : JobRow). runnable env' kinds' locked' j && str_eq j.id id) db'.jobs
        ≡ false =
      rw (after, any-update_where)
        (any-false _ (started-not_runnable env env' kinds' locked' ids id mine) db.jobs) in
    claimed_ids-false env' kinds' locked' limit' db'.jobs id free

-- While a worker's claim is open its rows are locked, and no other claim takes them.
pub claim_beside_claim :
    (env : Env) (kinds : List String) (locked : String → Bool) (limit : ℕ) (jobs : List JobRow)
    (id : String)
    → locked id ≡ true
    → elem id (claimed_ids env kinds locked limit jobs) ≡ false
claim_beside_claim env kinds locked limit jobs id held =
    elim (Bool-cases (elem id (claimed_ids env kinds locked limit jobs))) [
      | inl taken ↦
          let (j, e) =
            any_witness _ jobs (claimed_ids-runnable env kinds locked limit jobs id taken) in
          absurd (locked-not_runnable env kinds locked j id held e)
      | inr free ↦ free
    ]

-- A claim returns at most `limit` ids.
pub length-claimed_ids-le :
    (env : Env) (kinds : List String) (locked : String → Bool) (limit : ℕ) (jobs : List JobRow)
    → length (claimed_ids env kinds locked limit jobs) ≤ limit
unfolding claimed_ids
length-claimed_ids-le env kinds locked limit jobs =
    rw length-map (length-take-le limit (order_by_run_at (select (runnable env kinds locked) jobs)))
