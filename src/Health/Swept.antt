-- ===== src/Health/Swept.antt =====
-- What a sweep over all sources leaves behind (health.py: `run_source_health`).
use bid_pilot.Prelude.{
  ℕ, ◌+◌, true, false, ◌&&◌, not, String, List, [], ◌∷◌, map, ◌≡◌, refl, ap, ◌∙◌, sym, arith,
  if◌then◌else◌, str_eq, str_eq_comm, update_where, length, Bool-cases, inl, inr, elem, IsUnique,
  eq_refl,
}
use bid_pilot.Prelude.Outcome.{ok}
use bid_pilot.Store.{Env, Db}
use bid_pilot.Store.Rows.{RawRow, SourceRow, Health, green, degraded, silent, disabled}
use bid_pilot.Sources.{has_code, with_event, length-events-with_event}
use bid_pilot.Health.Evaluate.{SourceHealth, evaluate}
use bid_pilot.Health.Sweep.{
  observe, same_health, is_alarming, flag, health_payload, event_kind, set_health, persist, assess,
  sweep, run_source_health,
}

same_health-eq : (a b : Health) → same_health a b ≡ true → b ≡ a
unfolding same_health
same_health-eq green green h = refl
same_health-eq green degraded h = cc
same_health-eq green silent h = cc
same_health-eq green disabled h = cc
same_health-eq degraded green h = cc
same_health-eq degraded degraded h = refl
same_health-eq degraded silent h = cc
same_health-eq degraded disabled h = cc
same_health-eq silent green h = cc
same_health-eq silent degraded h = cc
same_health-eq silent silent h = refl
same_health-eq silent disabled h = cc
same_health-eq disabled green h = cc
same_health-eq disabled degraded h = cc
same_health-eq disabled silent h = cc
same_health-eq disabled disabled h = refl

same_health_refl : (a : Health) → same_health a a ≡ true
unfolding same_health
same_health_refl green = refl
same_health_refl degraded = refl
same_health_refl silent = refl
same_health_refl disabled = refl

assess-code :
    (env : Env) (raws : List RawRow) (row : SourceRow) → (assess env raws row).code ≡ row.code
unfolding assess observe evaluate
assess-code env raws row = ground arith

-- The row with the verdict on it.
abbrev pub judged : Env → List RawRow → SourceRow → SourceRow
judged env raws row = set_health (assess env raws row).health row

-- A verdict that the row has already leaves the row as it is.
judged-same :
    (env : Env) (raws : List RawRow) (row : SourceRow)
    → same_health (assess env raws row).health row.health ≡ true
    → judged env raws row ≡ row
judged-same env raws row e =
    ap (λ h. set_health h row) (sym (same_health-eq (assess env raws row).health row.health e))

update_where-absent :
    (code : String) (h : Health) (xs : List SourceRow)
    → elem code (map (λ s. s.code) xs) ≡ false
    → update_where (has_code code) (set_health h) xs ≡ xs
update_where-absent code h [] absent = refl
update_where-absent code h (x ∷ xs) absent =
    let rest = update_where-absent code h xs (ground arith) in
    let other : has_code code x ≡ false = ground arith in rw other (ap (λ ys. x ∷ ys) rest)

-- The sources after the verdict on a row.
write : Env → List RawRow → SourceRow → List SourceRow → List SourceRow
write env raws row xs =
    if same_health (assess env raws row).health row.health
    then xs
    else update_where (has_code row.code) (set_health (assess env raws row).health) xs

persist-sources :
    (env : Env) (raws : List RawRow) (row : SourceRow) (db : Db)
    → (persist env row (assess env raws row) db).sources ≡ write env raws row db.sources
unfolding persist with_event write
persist-sources env raws row db = rw (assess-code env raws row) (ground arith)

write-other :
    (env : Env) (raws : List RawRow) (row x : SourceRow) (xs : List SourceRow)
    → str_eq x.code row.code ≡ false
    → write env raws row (x ∷ xs) ≡ x ∷ write env raws row xs
unfolding write
write-other env raws row x xs e =
    elim (Bool-cases (same_health (assess env raws row).health row.health)) [
      | inl same ↦ rw same refl
      | inr new ↦ rw (new, e) refl
    ]

write-own :
    (env : Env) (raws : List RawRow) (row : SourceRow) (xs : List SourceRow)
    → elem row.code (map (λ s. s.code) xs) ≡ false
    → write env raws row (row ∷ xs) ≡ judged env raws row ∷ xs
unfolding write
write-own env raws row xs absent =
    elim (Bool-cases (same_health (assess env raws row).health row.health)) [
      | inl same ↦ rw same (ap (λ y. y ∷ xs) (sym (judged-same env raws row same)))
      | inr new ↦
          rw (new, eq_refl row.code)
            (ap (λ ys. judged env raws row ∷ ys)
              (update_where-absent row.code (assess env raws row).health xs absent))
    ]

written : Env → List RawRow → List SourceRow → List SourceRow → List SourceRow
written env raws [] xs = xs
written env raws (row ∷ rows) xs = written env raws rows (write env raws row xs)

written-other :
    (env : Env) (raws : List RawRow) (rows : List SourceRow) (x : SourceRow) (xs : List SourceRow)
    → elem x.code (map (λ s. s.code) rows) ≡ false
    → written env raws rows (x ∷ xs) ≡ x ∷ written env raws rows xs
unfolding written
written-other env raws [] x xs absent = refl
written-other env raws (row ∷ rows) x xs absent =
    let other : str_eq x.code row.code ≡ false = ground (arith, str_eq_comm x.code row.code) in
    ap (written env raws rows) (write-other env raws row x xs other)
    ∙ written-other env raws rows x (write env raws row xs) (ground arith)

written-own :
    (env : Env) (raws : List RawRow) (xs : List SourceRow)
    → IsUnique (map (λ s. s.code) xs)
    → written env raws xs xs ≡ map (judged env raws) xs
unfolding written
written-own env raws [] u = refl
written-own env raws (x ∷ xs) u =
    ap (written env raws xs) (write-own env raws x xs u.0)
    ∙ written-other env raws xs (judged env raws x) xs u.0
    ∙ ap (λ ys. judged env raws x ∷ ys) (written-own env raws xs u.1)

sweep-sources :
    (env : Env) (raws : List RawRow) (rows : List SourceRow) (db : Db)
    → (sweep env raws rows db).sources ≡ written env raws rows db.sources
unfolding sweep written
sweep-sources env raws [] db = refl
sweep-sources env raws (row ∷ rows) db =
    sweep-sources env raws rows (persist env row (assess env raws row) db)
    ∙ ap (written env raws rows) (persist-sources env raws row db)

persist-raws :
    (env : Env) (row : SourceRow) (v : SourceHealth) (db : Db)
    → (persist env row v db).raw_notices ≡ db.raw_notices
unfolding persist with_event
persist-raws env row v db = ground arith

sweep-raws :
    (env : Env) (raws : List RawRow) (rows : List SourceRow) (db : Db)
    → (sweep env raws rows db).raw_notices ≡ db.raw_notices
unfolding sweep
sweep-raws env raws [] db = refl
sweep-raws env raws (row ∷ rows) db =
    sweep-raws env raws rows (persist env row (assess env raws row) db)
    ∙ persist-raws env row (assess env raws row) db

-- The health is not among what a verdict is computed from.
assess-judged :
    (env : Env) (raws : List RawRow) (row : SourceRow)
    → assess env raws (judged env raws row) ≡ assess env raws row
unfolding assess observe
assess-judged env raws row = refl

persist-judged :
    (env : Env) (raws : List RawRow) (row : SourceRow) (db : Db)
    → persist env (judged env raws row) (assess env raws (judged env raws row)) db ≡ db
unfolding persist
persist-judged env raws row db =
    rw (assess-judged env raws row, same_health_refl (assess env raws row).health) refl

sweep-judged :
    (env : Env) (raws : List RawRow) (rows : List SourceRow) (db : Db)
    → sweep env raws (map (judged env raws) rows) db ≡ db
unfolding sweep
sweep-judged env raws [] db = refl
sweep-judged env raws (row ∷ rows) db =
    ap (sweep env raws (map (judged env raws) rows)) (persist-judged env raws row db)
    ∙ sweep-judged env raws rows db

assess-all-judged :
    (env : Env) (raws : List RawRow) (rows : List SourceRow)
    → map (assess env raws) (map (judged env raws) rows) ≡ map (assess env raws) rows
assess-all-judged env raws [] = refl
assess-all-judged env raws (row ∷ rows) =
    rw (assess-judged env raws row, assess-all-judged env raws rows) refl

-- The number of the rows whose health is new and alarming in the second table.
unfoldable pub turned : List SourceRow → List SourceRow → ℕ
turned (x ∷ xs) (y ∷ ys) =
    flag (not (same_health y.health x.health) && is_alarming y.health) + turned xs ys
turned _ _ = 0

length-events-persist :
    (env : Env) (raws : List RawRow) (row : SourceRow) (db : Db)
    → length (persist env row (assess env raws row) db).events
      ≡ length db.events
        + flag (
            not (same_health (assess env raws row).health row.health)
            && is_alarming (assess env raws row).health)
unfolding persist
length-events-persist env raws row db =
    let v = assess env raws row in
    let stored = record db {
      sources = update_where (has_code v.code) (set_health v.health) db.sources;
    } in
    ground
      (arith, length-events-with_event env (event_kind v.health) v.code (health_payload v) stored)

length-events-sweep :
    (env : Env) (raws : List RawRow) (rows : List SourceRow) (db : Db)
    → length (sweep env raws rows db).events
      ≡ length db.events + turned rows (map (judged env raws) rows)
unfolding sweep turned
length-events-sweep env raws [] db = omega arith
length-events-sweep env raws (row ∷ rows) db = omega (
  arith,
  length-events-sweep env raws rows (persist env row (assess env raws row) db),
  length-events-persist env raws row db,
)

run_source_health-judged :
    (env : Env) (raws : List RawRow) (rows : List SourceRow) (db : Db)
    → db.raw_notices ≡ raws
    → db.sources ≡ map (judged env raws) rows
    → run_source_health env db ≡ ok (map (assess env raws) rows, db)
unfolding run_source_health
run_source_health-judged env raws rows db kept same =
    let report : List RawRow → List SourceRow → List SourceHealth × Db =
      λ r ss. (map (assess env r) ss, sweep env r ss db) in
    ap (λ r. ok (report r db.sources)) kept
    ∙ ap (λ ss. ok (report raws ss)) same
    ∙ ap (λ vs. ok (vs, sweep env raws (map (judged env raws) rows) db))
        (assess-all-judged env raws rows)
    ∙ ap (λ d. ok (map (assess env raws) rows, d)) (sweep-judged env raws rows db)

-- Where no two sources have the same code, a sweep returns with the verdict of each source stored as its
-- health and no other column of a source changed. It has recorded as many events as there are sources
-- whose health was changed to silent or degraded, and a second sweep at the same time reports the same
-- and changes nothing, so that none of them is reported again.
pub run_source_health-again :
    (env : Env) (db : Db)
    → IsUnique (map (λ s. s.code) db.sources)
    → (verdicts : List SourceHealth) × (db' : Db) × (run_source_health env db ≡ ok (verdicts, db'))
      × (db'.sources ≡ map (judged env db.raw_notices) db.sources)
      × (length db'.events ≡ length db.events + turned db.sources db'.sources)
      × (run_source_health env db' ≡ ok (verdicts, db'))
unfolding run_source_health
run_source_health-again env db u =
    let raws = db.raw_notices in
    let after = sweep env raws db.sources db in
    let rows : after.sources ≡ map (judged env raws) db.sources =
      sweep-sources env raws db.sources db ∙ written-own env raws db.sources u in
    let kept : after.raw_notices ≡ raws = sweep-raws env raws db.sources db in
    (
      map (assess env raws) db.sources,
      after,
      refl,
      rows,
      rw rows (length-events-sweep env raws db.sources db),
      run_source_health-judged env raws db.sources after kept rows,
    )
