-- ===== src/Canonical.antt =====
-- The canonical notice (services/ingestion/bidpilot_ingestion/canonical.py), over a type of amounts. Left
-- out are fields that no modelled code reads: a buyer's contact and address, `uid` and `cluster_id`.
pub mod Clean
pub mod Texts
pub mod Stable
use bid_pilot.Prelude.{ℕ, Bool, true, false, String, Option, none, some, List, ◌∷◌}
use bid_pilot.Scheduler.Text.{left}

pub data NoticeType : Type 0 where
  planning competition result : NoticeType

unfoldable pub same_type : NoticeType → NoticeType → Bool
same_type planning planning = true
same_type competition competition = true
same_type result result = true
same_type _ _ = false

pub data NoticeStatus : Type 0 where
  active amended closed awarded cancelled : NoticeStatus

pub record SourceRef : Type 0 where
  pub source : String
  pub external_id : String
  pub url : Option String
  pub fetched_at : Option ℕ

pub record Contact : Type 0 where
  pub email : Option String
  pub phone : Option String
  pub website : Option String

abbrev pub no_contact : Contact
no_contact = record { email = none; phone = none; website = none }

pub record Address : Type 0 where
  pub street : Option String
  pub postcode : Option String
  pub city : Option String
  pub nuts : Option String
  pub country : Option String

abbrev pub no_address : Address
no_address = record { street = none; postcode = none; city = none; nuts = none; country = none }

pub record Buyer : Type 0 where
  pub name : Option String
  pub siren : Option String
  pub siret : Option String
  pub national_id : Option String
  pub contact : Contact
  pub address : Address

-- Whether a text is truthy.
abbrev pub is_text : Option String → Bool
is_text none = false
is_text (some String.[]) = false
is_text (some (String.◌∷◌ c s)) = true

-- `a or b`
unfoldable pub or_text : Option String → Option String → Option String
or_text (some (String.◌∷◌ c s)) b = some (String.◌∷◌ c s)
or_text _ b = b

unfoldable first_nine : Option String → Option String
first_nine (some (String.◌∷◌ c s)) = some (left 9 (String.◌∷◌ c s))
first_nine _ = none

unfoldable pub siren_effective : Buyer → Option String
unfolding first_nine or_text
siren_effective b = or_text b.siren (first_nine b.siret)

-- `type` is the value of the ProcedureType.
pub record Procedure : Type 0 where
  pub type : Option String
  pub national_label : Option String
  pub framework : Option Bool
  pub reserved_sme : Option Bool
  pub contract_nature : List String

pub record Lot (Amount : Type 0) : Type 0 where
  pub lot_id : String
  pub title : Option String
  pub description : Option String
  pub cpv : List String
  pub amount_est : Option Amount
  pub currency : Option String
  pub place_nuts : List String
  pub deadline_at : Option ℕ

pub record Amounts (Amount : Type 0) : Type 0 where
  pub estimated_total : Option Amount
  pub currency : Option String
  pub vat : Option String

pub record Visit : Type 0 where
  pub mandatory : Option Bool
  pub dates : List String

pub record Dates : Type 0 where
  pub published_at : Option ℕ
  pub deadline_at : Option ℕ
  pub questions_deadline_at : Option ℕ
  pub visit : Visit
  pub tz : Option String

pub record DocumentRef : Type 0 where
  pub kind : String
  pub title : Option String
  pub url : Option String

pub record Urls : Type 0 where
  pub notice : Option String
  pub documents : Option String
  pub submission : Option String

pub record Award (Amount : Type 0) : Type 0 where
  pub supplier_name : Option String
  pub supplier_siren : Option String
  pub amount : Option Amount
  pub currency : Option String
  pub signed_at : Option String
  pub duration_months : Option ℕ

pub record Provenance : Type 0 where
  pub adapter : String
  pub normalized_at : ℕ
  pub unmapped_fields : List String
  pub raw_content_hash : Option String

-- `source_refs` has at least one element: `source_ref`, and after it `more_refs`.
pub record CanonicalNotice (Amount : Type 0) : Type 0 where
  pub uid : Option String
  pub cluster_id : Option String
  pub source_ref : SourceRef
  pub more_refs : List SourceRef
  pub notice_type : NoticeType
  pub status : NoticeStatus
  pub country : String
  pub language : Option String
  pub buyer : Buyer
  pub title : String
  pub description : Option String
  pub cpv : List String
  pub nuts : List String
  pub procedure : Procedure
  pub lots : List (Lot Amount)
  pub amounts : Amounts Amount
  pub dates : Dates
  pub documents : List DocumentRef
  pub urls : Urls
  pub requires_account_for_docs : Option Bool
  pub award : Option (Award Amount)
  pub provenance : Provenance
  pub version : ℕ

abbrev pub source_refs : {Amount : Type 0} → CanonicalNotice Amount → List SourceRef
source_refs n = n.source_ref ∷ n.more_refs
