-- ===== src/Pipeline/Placed.antt =====
-- Where the third stage leaves a notice (pipeline.py: `run_dedupe`).
use bid_pilot.Prelude.{
  ◌+◌, ◌≡◌, refl, ap, Bool, true, false, String, Option, none, some, List, [], ◌∷◌, ◌++◌, map, any,
  find, elem, update_where, map-update_where, ℕ, Bool-cases, inl, inr, All,
}
use bid_pilot.Prelude.Outcome.{ok}
use bid_pilot.Store.{Env, Db}
use bid_pilot.Store.Rows.{text, NoticeRow, ClusterRow}
use bid_pilot.Queue.Defs.{is_job_kind, idempotency_key, new_id}
use bid_pilot.Queue.Keys.{key_of}
use bid_pilot.Queue.Enqueued.{enqueue-total}
use bid_pilot.Dedupe.Names.{Unicode}
use bid_pilot.Dedupe.Similar.{Floats}
use bid_pilot.Canonical.{CanonicalNotice}
use bid_pilot.Dedupe.Verdict.{MatchVerdict, matched, apart}
use bid_pilot.Pipeline.Upsert.{is_notice}
use bid_pilot.Pipeline.Load.{load_canonical, canonical_of}
use bid_pilot.Pipeline.Cluster.{
  Joined, run_dedupe, dedupe_loaded, place_notice, joining, start_cluster, insert_cluster,
  join_cluster, set_cluster, with_cluster, enqueue_match, first_match, candidates, is_canonical_of,
  cluster_of, new_cluster, is_cluster, joined_by, verdict_with,
}

in_cluster : String → Option NoticeRow → Option NoticeRow
in_cluster cluster none = none
in_cluster cluster (some r) = some (with_cluster cluster r)

find-with_cluster :
    (id cluster : String) (rows : List NoticeRow) (o : Option NoticeRow)
    → find (is_notice id) rows ≡ o
    → find (is_notice id) (update_where (is_notice id) (with_cluster cluster) rows)
      ≡ in_cluster cluster o
unfolding in_cluster
find-with_cluster id cluster [] o h = ap (in_cluster cluster) h
find-with_cluster id cluster (x ∷ xs) o h = elim (Bool-cases (is_notice id x)) [
  | inl e ↦ rw (e, e) (ap (in_cluster cluster) (rw e at h))
  | inr e ↦ rw (e, e) (find-with_cluster id cluster xs o (rw e at h))
]

match_known : is_job_kind "notice.match" ≡ true
unfolding is_job_kind
match_known = refl

-- A notice's cluster, where it has one, is in the table: the foreign key of `notices.cluster_id`.
abbrev pub Linked : Db → Option String → Type 0
Linked db none = Unit
Linked db (some cluster) = elem cluster (map (λ c. c.id) db.clusters) ≡ true

Linked-find :
    (db : Db) (p : NoticeRow → Bool) (rows : List NoticeRow)
    → All (λ r. Linked db r.cluster_id) rows
    → Linked db (cluster_of (find p rows))
Linked-find db p [] h = tt
Linked-find db p (r ∷ rs) h = elim (Bool-cases (p r)) [
  | inl e ↦ rw e h.0
  | inr e ↦ rw e (Linked-find db p rs h.1)
]

module _ {F : Type 0} where
  abbrev Known : Db → Option (Joined F) → Type 0
  Known db none = Unit
  Known db (some j) = Linked db (some j.cluster_id)

  joined_by-Known :
      (db : Db) (v : MatchVerdict F) (c : Option String) → Linked db c → Known db (joined_by v c)
  unfolding joined_by
  joined_by-Known db (matched reason confidence) (some (String.◌∷◌ c s)) h = h
  joined_by-Known db (matched reason confidence) (some String.[]) h = tt
  joined_by-Known db (matched reason confidence) none h = tt
  joined_by-Known db apart c h = tt

  first-Known :
      (db : Db) (o rest : Option (Joined F))
      → Known db o
      → Known db rest
      → Known db (elim o [ none ↦ rest | some j ↦ some j ])
  first-Known db none rest h k = k
  first-Known db (some j) rest h k = h

  -- The cluster that a notice joins is in the table.
  first_match-Known :
      (u : Unicode) (f : Floats F) (n : CanonicalNotice ℕ) (db : Db) (ids : List String)
      → All (λ r. Linked db r.cluster_id) db.notices
      → Known db (first_match u f n db ids)
  unfolding first_match
  first_match-Known u f n db [] h = tt
  first_match-Known u f n db (id ∷ ids) h =
      let v : MatchVerdict F = verdict_with u f n (load_canonical id db) in
      let c : Option String = cluster_of (find (is_notice id) db.notices) in
      first-Known db (joined_by v c) (first_match u f n db ids)
        (joined_by-Known db v c (Linked-find db (is_notice id) db.notices h))
        (first_match-Known u f n db ids h)

-- The table of clusters after a notice was merged into one of them, or became the first of a new one.
pub Clustered : String → String → Bool → Db → Db → Type 0
Clustered id cluster true db db' =
    (map (λ c. c.id) db'.clusters ≡ map (λ c. c.id) db.clusters)
    × (elem cluster (map (λ c. c.id) db.clusters) ≡ true)
Clustered id cluster false db db' = db'.clusters ≡ db.clusters ++ new_cluster cluster id ∷ []

-- The notice is in the cluster, the other notices are as they were, and the job that matches the notice
-- is stored.
pub record Placed (id cluster : String) (merged : Bool) (db db' : Db) : Type 0 where
  pub here : cluster_of (find (is_notice id) db'.notices) ≡ some cluster
  pub notices : db'.notices ≡ update_where (is_notice id) (with_cluster cluster) db.notices
  pub clusters : Clustered id cluster merged db db'
  pub matched : elem (idempotency_key "notice.match" id "1") (map key_of db'.jobs) ≡ true

map-id-update :
    (p : ClusterRow → Bool) (f : ClusterRow → ClusterRow)
    → ((c : ClusterRow) → (f c).id ≡ c.id)
    → (cs : List ClusterRow) → map (λ c. c.id) (update_where p f cs) ≡ map (λ c. c.id) cs
map-id-update p f k cs = map-update_where (λ c. c.id) p f k cs

joining-Placed :
    {F : Type 0} (thousandths : F → ℕ) (env : Env) (id : String) (j : Joined F) (db : Db)
    (r : NoticeRow)
    → find (is_notice id) db.notices ≡ some r
    → Linked db (some j.cluster_id)
    → (db' : Db) × (joining thousandths env id j db ≡ ok ((j.cluster_id, true), db'))
      × Placed id j.cluster_id true db db'
unfolding joining enqueue_match join_cluster set_cluster Clustered in_cluster
joining-Placed thousandths env id j db r h there =
    let ready : Db = join_cluster thousandths id j db in
    let (q, jobs, e, stored) =
      enqueue-total env "notice.match" (("notice_id", text id) ∷ []) id "1" ready match_known in
    (
      record ready { jobs = jobs; drawn = ready.drawn + 1 },
      rw e refl,
      record {
        here = ap cluster_of (find-with_cluster id j.cluster_id db.notices (some r) h);
        notices = refl;
        clusters = (map-id-update (is_cluster j.cluster_id) _ (λ c. refl) db.clusters, there);
        matched = stored;
      },
    )

start-Placed :
    (env : Env) (id cluster : String) (db : Db) (r : NoticeRow)
    → find (is_notice id) db.notices ≡ some r
    → any (is_canonical_of id) db.clusters ≡ false
    → (db' : Db) × (start_cluster env id cluster db ≡ ok ((cluster, false), db'))
      × Placed id cluster false db db'
unfolding start_cluster enqueue_match insert_cluster set_cluster Clustered in_cluster
start-Placed env id cluster db r h free =
    let ready : Db =
      set_cluster id cluster
        (record db { clusters = db.clusters ++ new_cluster cluster id ∷ [] }) in
    let (q, jobs, e, stored) =
      enqueue-total env "notice.match" (("notice_id", text id) ∷ []) id "1" ready match_known in
    (
      record ready { jobs = jobs; drawn = ready.drawn + 1 },
      rw free (rw e refl),
      record {
        here = ap cluster_of (find-with_cluster id cluster db.notices (some r) h);
        notices = refl;
        clusters = refl;
        matched = stored;
      },
    )

module _ {F : Type 0} (u : Unicode) (f : Floats F) (thousandths : F → ℕ) where
  place-Placed :
      (env : Env) (id : String) (o : Option (Joined F)) (db : Db) (r : NoticeRow)
      → find (is_notice id) db.notices ≡ some r
      → any (is_canonical_of id) db.clusters ≡ false
      → Known db o
      → (cluster : String) × (merged : Bool) × (db' : Db) × (place_notice thousandths env id o db
          ≡ ok ((cluster, merged), db'))
        × Placed id cluster merged db db'
  unfolding place_notice Clustered
  place-Placed env id none db r h free known =
      let (db', e, p) =
        start-Placed env id (new_id env "cls" db.drawn) (record db { drawn = db.drawn + 1 }) r h
          free in
      (
        new_id env "cls" db.drawn,
        false,
        db',
        e,
        record { here = p.here; notices = p.notices; clusters = p.clusters; matched = p.matched },
      )
  place-Placed env id (some j) db r h free known =
      let (db', e, p) = joining-Placed thousandths env id j db r h known in
      (j.cluster_id, true, db', e, p)

  -- Where every notice's cluster is in the table, and for a stored notice that is not yet the canonical
  -- one of a cluster: the stage returns with the notice in a cluster, its own new one or one that was in
  -- the table before, with the other notices as they were and a job that matches the notice.
  pub run_dedupe-Placed :
      (env : Env) (id : String) (db : Db) (r : NoticeRow)
      → find (is_notice id) db.notices ≡ some r
      → any (is_canonical_of id) db.clusters ≡ false
      → All (λ x. Linked db x.cluster_id) db.notices
      → (cluster : String) × (merged : Bool) × (db' : Db) × (run_dedupe u f thousandths env id db
          ≡ ok ((cluster, merged), db'))
        × Placed id cluster merged db db'
  unfolding run_dedupe dedupe_loaded load_canonical
  run_dedupe-Placed env id db r h free linked = rw h (
      place-Placed env id
        (first_match u f (canonical_of r) db (candidates env id (canonical_of r) db)) db r h free
        (first_match-Known u f (canonical_of r) db (candidates env id (canonical_of r) db) linked))
