-- ===== src/Store/Rows.antt =====
-- The rows of the tables.
use bid_pilot.Prelude.{ℕ, String, Option, List, Bool}
use bid_pilot.Canonical.{
  NoticeType, NoticeStatus, SourceRef, Lot, Urls, Award, Provenance, CanonicalNotice,
}

-- A value of a JSON payload of the queue: the code stores texts, numbers and null only.
pub data Value : Type 0 where
  text : String → Value
  num : ℕ → Value
  null : Value

abbrev pub Payload : Type 0
Payload = List (String × Value)

-- enum JobState; no modelled code writes `failed`.
pub data JobState : Type 0 where
  queued running done failed dead : JobState

pub record JobRow : Type 0 where
  pub id : String
  pub kind : String
  pub payload : Payload
  pub state : JobState
  pub run_at : ℕ
  pub attempts : ℕ
  pub max_attempts : ℕ
  pub idempotency_key : String
  pub locked_by : Option String
  pub locked_at : Option ℕ
  pub last_error : Option String

pub data Tier : Type 0 where
  official_api platform long_tail signals : Tier

pub data Health : Type 0 where
  green degraded silent disabled : Health

pub record SourceRow : Type 0 where
  pub id : String
  pub code : String
  pub country : String
  pub adapter : String
  pub tier : Tier
  pub legal_basis : Option String
  pub cursor_since : Option ℕ
  pub enabled : Bool
  pub schedule : String
  pub health : Health
  pub last_run_at : Option ℕ
  pub last_success_at : Option ℕ
  pub notices_7d : ℕ

pub record EventRow : Type 0 where
  pub id : String
  pub kind : String
  pub entity : String
  pub payload : Payload

pub record RawRow : Type 0 where
  pub id : String
  pub source_id : String
  pub external_id : String
  pub fetched_at : ℕ
  pub payload : String
  pub content_hash : String

pub data TenderStage : Type 0 where
  analysis decision response submitted closed : TenderStage

pub record TenderRow : Type 0 where
  pub id : String
  pub org_id : String
  pub title : Option String
  pub deadline_at : Option ℕ
  pub stage : TenderStage

-- `tender_id`, `title`, `deadline_at` and `offset_working_days` are fields of the JSON payload. The
-- title is the payload's `title`, or its `notice_title` where that is missing or empty.
pub record NotificationRow : Type 0 where
  pub id : String
  pub org_id : String
  pub kind : String
  pub tender_id : Option String
  pub title : String
  pub deadline_at : Option ℕ
  pub offset_working_days : Option ℕ
  pub created_at : ℕ
  pub sent_at : Option ℕ
  pub ack_at : Option ℕ

pub data EvidenceStatus : Type 0 where
  valid expiring expired : EvidenceStatus

-- `expires_at` is a date, counted in days.
pub record EvidenceRow : Type 0 where
  pub id : String
  pub org_id : String
  pub expires_at : Option ℕ
  pub status : EvidenceStatus

-- The columns that `upsert_notice` writes, with the cluster and the time of the insertion. Amounts are
-- counted in cents.
pub record NoticeRow : Type 0 where
  pub id : String
  pub cluster_id : Option String
  pub source_ref : SourceRef
  pub more_refs : List SourceRef
  pub status : NoticeStatus
  pub notice_type : NoticeType
  pub country : String
  pub language : Option String
  pub buyer_name : Option String
  pub buyer_siren : Option String
  pub title : String
  pub description : Option String
  pub cpv : List String
  pub nuts : List String
  pub procedure_type : Option String
  pub amount_est : Option ℕ
  pub currency : Option String
  pub published_at : Option ℕ
  pub deadline_at : Option ℕ
  pub questions_deadline_at : Option ℕ
  pub lots : List (Lot ℕ)
  pub urls : Urls
  pub requires_account : Option Bool
  pub award : Option (Award ℕ)
  pub provenance : Provenance
  pub version : ℕ
  pub created_at : ℕ

-- `previous_hash` and `new_hash` are fields of the JSON diff.
pub record VersionRow : Type 0 where
  pub id : String
  pub notice_id : String
  pub version : ℕ
  pub payload : CanonicalNotice ℕ
  pub previous_hash : Option String
  pub new_hash : Option String

-- The confidence is counted in thousandths; the code rounds to three decimals. An entry of
-- `merged_from` is the id of a notice with the reason.
pub record ClusterRow : Type 0 where
  pub id : String
  pub canonical_notice_id : Option String
  pub confidence : ℕ
  pub merged_from : List (String × String)

-- The keys of the JSON column that the code reads.
pub record FiltersJson : Type 0 where
  pub cpv_families : Option (List String)
  pub countries : Option (List String)
  pub nuts : Option (List String)
  pub min_days_to_deadline : Option ℕ
  pub amount_min : Option ℕ
  pub amount_max : Option ℕ
  pub procedure_types : Option (List String)
  pub keywords_include : Option (List String)
  pub keywords_exclude : Option (List String)

-- `instant_min_score` is a field of the alert policy.
pub record WatchProfileRow : Type 0 where
  pub id : String
  pub org_id : String
  pub filters : FiltersJson
  pub instant_min_score : Option ℕ
  pub enabled : Bool

-- `zones_nuts` and `national` are fields of the zones, and an element of `revenues` is a year with an
-- amount.
pub record CompanyProfileRow : Type 0 where
  pub org_id : String
  pub revenues : List (ℕ × Option ℕ)
  pub zones_nuts : Option (List String)
  pub national : Bool
  pub cpv_families : List String
  pub keywords : List String
  pub negative_keywords : List String

-- enum MatchState
pub data MatchState : Type 0 where
  new shortlisted dismissed pursued : MatchState

pub record MatchRow : Type 0 where
  pub id : String
  pub org_id : String
  pub notice_id : String
  pub watch_profile_id : Option String
  pub score : ℕ
  pub state : MatchState

pub record OrgRow : Type 0 where
  pub id : String
  pub tz : String
  pub locale : String

-- A membership joined with its user.
pub record MemberRow : Type 0 where
  pub org_id : String
  pub role : String
  pub user_id : String
  pub email : String
  pub name : Option String
  pub locale : String
