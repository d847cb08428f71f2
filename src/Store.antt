-- ===== src/Store.antt =====
-- The database that the services share (services/ingestion/bidpilot_ingestion/db.py and the tables
-- of packages/db/prisma/schema.prisma that the modelled code reads or writes). A table is the list of
-- its rows in the order of insertion. Instants are microseconds since 0001-01-01T00:00 UTC.
-- Columns that no modelled code reads back (`created_at` and `updated_at` of most tables) are left out.
pub mod Rows
use bid_pilot.Prelude.{ℕ, ◌+◌, ◌*◌, ◌++◌, String, Option, List, ◌≡◌, refl}
use bid_pilot.Prelude.Outcome.{Error, Result, ok, err}
use Rows.{
  JobRow, SourceRow, EventRow, RawRow, TenderRow, NotificationRow, EvidenceRow, NoticeRow,
  VersionRow, ClusterRow, WatchProfileRow, CompanyProfileRow, MatchRow, OrgRow, MemberRow,
}

abbrev pub second : ℕ
second = 1000000

abbrev pub day : ℕ
day = 86400 * second

-- What the process reads from its surroundings: the time, the worker's name and the random ULIDs.
pub record Env : Type 0 where
  pub now : ℕ
  pub worker : String
  pub ulid : ℕ → String

-- `orgs` holds the tenants, `org_context` the setting `app.org_id` by which the row policies
-- filter, and `drawn` the number of identifiers that were generated.
pub record Db : Type 0 where
  pub jobs : List JobRow
  pub sources : List SourceRow
  pub events : List EventRow
  pub raw_notices : List RawRow
  pub notices : List NoticeRow
  pub notice_versions : List VersionRow
  pub clusters : List ClusterRow
  pub orgs : List OrgRow
  pub members : List MemberRow
  pub watch_profiles : List WatchProfileRow
  pub company_profiles : List CompanyProfileRow
  pub matches : List MatchRow
  pub tenders : List TenderRow
  pub notifications : List NotificationRow
  pub evidences : List EvidenceRow
  pub org_context : Option String
  pub drawn : ℕ

-- A transaction: an exception rolls the database back, so it comes without a new state.
abbrev pub M {ℓ} : Type ℓ → Type ℓ
M A = Db → Result (A × Db)

module _ {ℓ κ} {A : Type ℓ} {B : Type κ} where
  abbrev pub continue : Result (A × Db) → (A → M B) → Result (B × Db)
  continue (ok (a, db)) f = f a db
  continue (err e) f = err e

  infixl 5 ◌>>=◌ ◌>>◌
  abbrev pub ◌>>=◌ : M A → (A → M B) → M B
  ◌>>=◌ m f db = continue (m db) f

  abbrev pub ◌>>◌ : M A → M B → M B
  m >> k = m >>= λ _. k

module _ {ℓ} {A : Type ℓ} where
  abbrev pub return : A → M A
  return a db = ok (a, db)

  abbrev pub raise : Error → M A
  raise e db = err e

  -- A pure computation that may raise.
  abbrev pub lift : Result A → M A
  lift (ok a) = return a
  lift (err e) = raise e
