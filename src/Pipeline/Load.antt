-- ===== src/Pipeline/Load.antt =====
-- A stored notice read back (pipeline.py: `_load_canonical`). The validators of the canonical model have
-- run before the row was stored.
use bid_pilot.Prelude.{ℕ, String, Option, none, some, [], find}
use bid_pilot.Store.{Db}
use bid_pilot.Store.Rows.{NoticeRow}
use bid_pilot.Canonical.{CanonicalNotice, no_contact, no_address}
use bid_pilot.Pipeline.Upsert.{is_notice}

-- Fields that the row lacks have the defaults of the model.
unfoldable pub canonical_of : NoticeRow → CanonicalNotice ℕ
canonical_of r = record {
  uid = some r.id;
  cluster_id = none;
  source_ref = r.source_ref;
  more_refs = r.more_refs;
  notice_type = r.notice_type;
  status = r.status;
  country = r.country;
  language = r.language;
  buyer = record {
    name = r.buyer_name;
    siren = r.buyer_siren;
    siret = none;
    national_id = none;
    contact = no_contact;
    address = no_address;
  };
  title = r.title;
  description = r.description;
  cpv = r.cpv;
  nuts = r.nuts;
  procedure = record {
    type = r.procedure_type;
    national_label = none;
    framework = none;
    reserved_sme = none;
    contract_nature = [];
  };
  lots = r.lots;
  amounts = record { estimated_total = r.amount_est; currency = r.currency; vat = none };
  dates = record {
    published_at = r.published_at;
    deadline_at = r.deadline_at;
    questions_deadline_at = r.questions_deadline_at;
    visit = record { mandatory = none; dates = [] };
    tz = none;
  };
  documents = [];
  urls = r.urls;
  requires_account_for_docs = none;
  award = r.award;
  provenance = r.provenance;
  version = r.version;
}

abbrev pub loaded_from : Option NoticeRow → Option (CanonicalNotice ℕ)
loaded_from none = none
loaded_from (some r) = some (canonical_of r)

unfoldable pub load_canonical : String → Db → Option (CanonicalNotice ℕ)
unfolding canonical_of
load_canonical id db = loaded_from (find (is_notice id) db.notices)
