-- ===== src/Pipeline/Cluster.antt =====
-- The third stage (pipeline.py: `run_dedupe`). `thousandths` is a confidence as the table keeps it.
use bid_pilot.Prelude.{
  ℕ, ◌+◌, ◌*◌, ◌&&◌, ◌||◌, ◌==◌, not, Bool, true, false, String, Option, none, some, List, [], ◌∷◌,
  ◌++◌, any, find, select, take, map, min, ltb, leb, str_eq, update_where, is_some, if◌then◌else◌,
}
use bid_pilot.Prelude.Outcome.{lookup_error, integrity_error}
use bid_pilot.Store.{Env, Db, M, return, raise, ◌>>◌, day}
use bid_pilot.Store.Rows.{text, NoticeRow, ClusterRow}
use bid_pilot.Canonical.{CanonicalNotice, same_type, siren_effective}
use bid_pilot.Queue.Defs.{new_id, enqueue}
use bid_pilot.Dedupe.Names.{Unicode}
use bid_pilot.Dedupe.Similar.{Floats}
use bid_pilot.Dedupe.Verdict.{
  MatchReason, cross_reference, buyer_deadline_title, embedding, MatchVerdict, apart, matched,
  same_tender, within,
}
use bid_pilot.Pipeline.Upsert.{is_notice}
use bid_pilot.Pipeline.Load.{load_canonical}

-- `MatchReason.value`
unfoldable pub reason_value : MatchReason → String
reason_value cross_reference = "cross_reference"
reason_value buyer_deadline_title = "buyer_deadline_title"
reason_value embedding = "embedding"

abbrev pub same_siren : Option String → Option String → Bool
same_siren (some a) (some b) = str_eq a b
same_siren _ _ = false

-- The condition of the query for candidates.
unfoldable pub is_candidate : Env → String → CanonicalNotice ℕ → NoticeRow → Bool
unfolding within same_type siren_effective
is_candidate env id n r =
    not (is_notice id r)
    && str_eq r.country n.country
    && same_type r.notice_type n.notice_type
    && is_some r.cluster_id
    && (within day r.deadline_at n.dates.deadline_at
        || same_siren r.buyer_siren (siren_effective n.buyer))
    && ltb env.now (r.created_at + 45 * day)

-- `ORDER BY created_at DESC`
unfoldable pub insert_newest : NoticeRow → List NoticeRow → List NoticeRow
insert_newest r [] = r ∷ []
insert_newest r (x ∷ xs) =
    let rest = insert_newest r xs in if leb x.created_at r.created_at then r ∷ x ∷ xs else x ∷ rest

unfoldable pub newest_first : List NoticeRow → List NoticeRow
unfolding insert_newest
newest_first [] = []
newest_first (r ∷ rs) = insert_newest r (newest_first rs)

unfoldable pub candidates : Env → String → CanonicalNotice ℕ → Db → List String
unfolding is_candidate newest_first
candidates env id n db =
    map (λ r. r.id) (take 50 (newest_first (select (is_candidate env id n) db.notices)))

abbrev pub cluster_of : Option NoticeRow → Option String
cluster_of none = none
cluster_of (some r) = r.cluster_id

-- What the notice joins.
pub record Joined (F : Type 0) : Type 0 where
  pub cluster_id : String
  pub reason : MatchReason
  pub confidence : F

module _ {F : Type 0} where
  -- A match with a candidate whose cluster is missing or empty does not count.
  unfoldable pub joined_by : MatchVerdict F → Option String → Option (Joined F)
  joined_by (matched reason confidence) (some (String.◌∷◌ c s)) =
      some (record { cluster_id = String.◌∷◌ c s; reason = reason; confidence = confidence })
  joined_by _ _ = none

  unfoldable pub verdict_with :
      Unicode → Floats F → CanonicalNotice ℕ → Option (CanonicalNotice ℕ) → MatchVerdict F
  verdict_with u f n none = apart
  verdict_with u f n (some other) = same_tender u f none none other n

  -- The loop over the candidates.
  unfoldable pub first_match :
      Unicode → Floats F → CanonicalNotice ℕ → Db → List String → Option (Joined F)
  unfolding joined_by verdict_with
  first_match u f n db [] = none
  first_match u f n db (id ∷ ids) =
      let rest = first_match u f n db ids in
      elim (joined_by (verdict_with u f n (load_canonical id db))
        (cluster_of (find (is_notice id) db.notices))) [ none ↦ rest | some j ↦ some j ]

abbrev pub with_cluster : String → NoticeRow → NoticeRow
with_cluster cluster_id r = record r { cluster_id = some cluster_id }

-- `UPDATE notices SET cluster_id = … WHERE id = …`
unfoldable pub set_cluster : String → String → Db → Db
set_cluster notice_id cluster_id db = record db {
  notices = update_where (is_notice notice_id) (with_cluster cluster_id) db.notices;
}

abbrev pub is_cluster : String → ClusterRow → Bool
is_cluster id c = str_eq c.id id

abbrev pub with_member : String → String → ℕ → ClusterRow → ClusterRow
with_member notice_id reason confidence c = record c {
  merged_from = c.merged_from ++ (notice_id, reason) ∷ [];
  confidence = min c.confidence confidence;
}

-- `verdict.confidence or 1.0`
abbrev pub counted : ℕ → ℕ
counted n = if n == 0 then 1000 else n

abbrev pub is_canonical_of : String → ClusterRow → Bool
is_canonical_of notice_id c = elim c.canonical_notice_id [
  | none ↦ false
  | some id ↦ str_eq id notice_id
]

-- The new cluster; a notice is the canonical one of at most one. The drawn identifier is taken to be new.
unfoldable pub insert_cluster : ClusterRow → String → M (Unit {0})
insert_cluster row notice_id db =
    if any (is_canonical_of notice_id) db.clusters
    then raise (integrity_error "tender_clusters_canonical_notice_id_key") db
    else return tt (record db { clusters = db.clusters ++ row ∷ [] })

abbrev pub new_cluster : String → String → ClusterRow
new_cluster id notice_id = record {
  id = id;
  canonical_notice_id = some notice_id;
  confidence = 1000;
  merged_from = [];
}

unfoldable pub enqueue_match : Env → String → M (Option String)
enqueue_match env notice_id =
    enqueue env "notice.match" (("notice_id", text notice_id) ∷ []) notice_id "1"

unfoldable pub join_cluster : {F : Type 0} → (F → ℕ) → String → Joined F → Db → Db
unfolding set_cluster reason_value
join_cluster thousandths notice_id j db =
    let placed = set_cluster notice_id j.cluster_id db in
    record placed {
      clusters =
          update_where (is_cluster j.cluster_id)
            (with_member notice_id (reason_value j.reason) (counted (thousandths j.confidence)))
            db.clusters;
    }

abbrev pub modify : (Db → Db) → M (Unit {0})
modify f db = return tt (f db)

unfoldable pub start_cluster : Env → String → String → M (String × Bool)
unfolding insert_cluster enqueue_match set_cluster
start_cluster env notice_id id = do
  insert_cluster (new_cluster id notice_id) notice_id
  modify (set_cluster notice_id id)
  enqueue_match env notice_id
  return (id, false)

unfoldable pub joining : {F : Type 0} → (F → ℕ) → Env → String → Joined F → M (String × Bool)
unfolding join_cluster enqueue_match
joining thousandths env notice_id j = do
  modify (join_cluster thousandths notice_id j)
  enqueue_match env notice_id
  return (j.cluster_id, true)

-- The result is the cluster with whether the notice was merged.
unfoldable pub place_notice :
    {F : Type 0} → (F → ℕ) → Env → String → Option (Joined F) → M (String × Bool)
unfolding joining start_cluster
place_notice thousandths env notice_id (some j) db = joining thousandths env notice_id j db
place_notice thousandths env notice_id none db =
    start_cluster env notice_id (new_id env "cls" db.drawn) (record db { drawn = db.drawn + 1 })

module _ {F : Type 0} (u : Unicode) (f : Floats F) (thousandths : F → ℕ) where
  unfoldable pub dedupe_loaded : Env → String → Option (CanonicalNotice ℕ) → M (String × Bool)
  unfolding place_notice candidates first_match
  dedupe_loaded env notice_id none db = raise (lookup_error notice_id) db
  dedupe_loaded env notice_id (some n) db =
      place_notice thousandths env notice_id (first_match u f n db (candidates env notice_id n db))
        db

  unfoldable pub run_dedupe : Env → String → M (String × Bool)
  unfolding dedupe_loaded
  run_dedupe env notice_id db = dedupe_loaded env notice_id (load_canonical notice_id db) db
