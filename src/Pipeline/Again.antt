-- ===== src/Pipeline/Again.antt =====
-- A notice that is stored, read back and stored again (pipeline.py: `upsert_notice`, `_load_canonical`).
use bid_pilot.Prelude.{
  ℕ, ◌≡◌, refl, ap, ◌∙◌, Bool, true, false, arith, String, Option, none, some, [], find, eq_refl,
}
use bid_pilot.Prelude.Outcome.{ok}
use bid_pilot.Store.{Env, Db}
use bid_pilot.Store.Rows.{NoticeRow}
use bid_pilot.Canonical.{CanonicalNotice, no_contact, no_address, NoticeStatus, siren_effective}
use bid_pilot.Pipeline.Upsert.{
  is_notice, notice_row, upsert_row, notice_row_id, upsert_notice, write_notice, next_version,
  next_status, previous_hash, is_changed,
}
use bid_pilot.Pipeline.Load.{load_canonical, canonical_of, loaded_from}
use bid_pilot.Pipeline.Amended.{upserted, find-upsert_row, version_of, version_in}

-- A notice without what its row does not hold.
abbrev pub stored_part : String → CanonicalNotice ℕ → CanonicalNotice ℕ
stored_part id n = record n {
  uid = some id;
  cluster_id = none;
  buyer = record {
    name = n.buyer.name;
    siren = siren_effective n.buyer;
    siret = none;
    national_id = none;
    contact = no_contact;
    address = no_address;
  };
  procedure = record {
    type = n.procedure.type;
    national_label = none;
    framework = none;
    reserved_sme = none;
    contract_nature = [];
  };
  amounts = record n.amounts { vat = none };
  dates = record n.dates { visit = record { mandatory = none; dates = [] }; tz = none };
  documents = [];
  requires_account_for_docs = none;
  version = 1;
}

-- A notice, its amounts in whole cents, that is stored for the first time is not an amendment. It is read
-- back as it was, but with the id of its row for its `uid`, without a cluster, with version 1, with the
-- effective siren for all of the buyer's numbers, and without the buyer's contact and address, all of the
-- procedure but its type, the tax mark of the amounts, the visit, the time zone, the documents and the
-- mark that documents need an account.
pub upsert_notice-load :
    (is_alnum : ℕ → Bool) (env : Env) (n : CanonicalNotice ℕ) (hash : Option String) (db : Db)
    → find
        (is_notice (notice_row_id is_alnum n.source_ref.source n.source_ref.external_id))
        db.notices
      ≡ none
    → (id : String) × (db' : Db) × (upsert_notice is_alnum env n hash db ≡ ok ((id, false), db'))
      × (load_canonical id db' ≡ some (stored_part id n))
unfolding upsert_notice load_canonical write_notice is_changed notice_row next_version canonical_of
upsert_notice-load is_alnum env n hash db e =
    let id = notice_row_id is_alnum n.source_ref.source n.source_ref.external_id in
    let x = notice_row env id false 1 n in
    (
      id,
      record db { notices = upsert_row x db.notices },
      rw e refl,
      ap loaded_from (find-upsert_row x db.notices)
          ∙ ap (λ o. some (canonical_of (upserted x o))) e,
    )

is_changed-same : (h : Option String) → is_changed h h ≡ false
unfolding is_changed
is_changed-same none = refl
is_changed-same (some String.[]) = refl
is_changed-same (some (String.◌∷◌ c s)) = ground (arith, eq_refl (String.◌∷◌ c s))

abbrev status_in : Option NoticeRow → Option NoticeStatus
status_in none = none
status_in (some r) = some r.status

abbrev pub status_of : String → Db → Option NoticeStatus
status_of id db = status_in (find (is_notice id) db.notices)

-- The row that a search finds after a write.
find-write :
    (env : Env) (id : String) (n : CanonicalNotice ℕ) (hash : Option String) (o : Option NoticeRow)
    (b : Bool) (db : Db)
    → find (is_notice id) (write_notice env id n hash o b db).notices
      ≡ some (upserted (notice_row env id b (next_version b o) n) (find (is_notice id) db.notices))
unfolding write_notice notice_row
find-write env id n hash o true db =
    find-upsert_row (notice_row env id true (next_version true o) n) db.notices
find-write env id n hash o false db =
    find-upsert_row (notice_row env id false (next_version false o) n) db.notices

-- What the columns of the row are that the next write reads.
columns :
    (env : Env) (id : String) (b : Bool) (version : ℕ) (n : CanonicalNotice ℕ)
    (o : Option NoticeRow)
    → (previous_hash (some (upserted (notice_row env id b version n) o))
        ≡ n.provenance.raw_content_hash)
      × (version_in (some (upserted (notice_row env id b version n) o)) ≡ version)
      × (status_in (some (upserted (notice_row env id b version n) o))
          ≡ some (next_status b n.status))
unfolding notice_row
columns env id b version n none = (refl, refl, refl)
columns env id b version n (some r) = (refl, refl, refl)

same_versions :
    (env : Env) (id : String) (n : CanonicalNotice ℕ) (hash : Option String) (o : Option NoticeRow)
    (db : Db)
    → (write_notice env id n hash o false db).notice_versions ≡ db.notice_versions
unfolding write_notice
same_versions env id n hash o db = refl

stored_version :
    (o : Option NoticeRow) (r : NoticeRow) → o ≡ some r → next_version false o ≡ version_in o
unfolding next_version
stored_version o r e = rw e refl

-- A notice that carries the hash it is stored under: storing it again at once is no amendment, adds no
-- version and keeps the notice's version. The status, which the first time is `amended` after an
-- amendment, is the notice's own after the second.
pub upsert_notice-again :
    (is_alnum : ℕ → Bool) (env env' : Env) (n : CanonicalNotice ℕ) (db : Db)
    → (id : String) × (b : Bool) × (db' : Db) × (db'' : Db) × (upsert_notice is_alnum env n
          n.provenance.raw_content_hash db
        ≡ ok ((id, b), db'))
      × (upsert_notice is_alnum env' n n.provenance.raw_content_hash db' ≡ ok ((id, false), db''))
      × (db''.notice_versions ≡ db'.notice_versions)
      × (version_of id db''.notices ≡ version_of id db'.notices)
      × (status_of id db' ≡ some (next_status b n.status))
      × (status_of id db'' ≡ some n.status)
unfolding upsert_notice
upsert_notice-again is_alnum env env' n db =
    let hash = n.provenance.raw_content_hash in
    let id = notice_row_id is_alnum n.source_ref.source n.source_ref.external_id in
    let o = find (is_notice id) db.notices in
    let b = is_changed (previous_hash o) hash in
    let db' = write_notice env id n hash o b db in
    let found = find-write env id n hash o b db in
    let first = columns env id b (next_version b o) n o in
    let o' = find (is_notice id) db'.notices in
    let db'' = write_notice env' id n hash o' false db' in
    let found' = find-write env' id n hash o' false db' in
    let second = columns env' id false (next_version false o') n o' in
    let same_hash : previous_hash o' ≡ hash = ap previous_hash found ∙ first.0 in
    (
      id,
      b,
      db',
      db'',
      refl,
      rw same_hash (rw (is_changed-same hash) refl),
      same_versions env' id n hash o' db',
      (ap version_in found' ∙ second.1) ∙ stored_version o' _ found,
      ap status_in found ∙ first.2,
      ap status_in found' ∙ second.2,
    )
