-- ===== src/Examples/Notices.antt =====
-- A notice of BOAMP.
use bid_pilot.Prelude.{ℕ, ◌*◌, none, some, [], ◌∷◌}
use bid_pilot.Store.{day}
use bid_pilot.Canonical.{CanonicalNotice, Lot, competition, active, no_contact, no_address}

abbrev pub lot : Lot ℕ
lot = record {
  lot_id = "1";
  title = none;
  description = none;
  cpv = "48000000" ∷ [];
  amount_est = none;
  currency = none;
  place_nuts = [];
  deadline_at = none;
}

abbrev pub notice_of_boamp : CanonicalNotice ℕ
notice_of_boamp = record {
  uid = none;
  cluster_id = none;
  source_ref = record { source = "boamp"; external_id = "26-1"; url = none; fetched_at = none };
  more_refs = [];
  notice_type = competition;
  status = active;
  country = "FR";
  language = some "fr";
  buyer = record {
    name = some "ville de lyon";
    siren = none;
    siret = none;
    national_id = none;
    contact = no_contact;
    address = no_address;
  };
  title = "infogerance du parc";
  description = some "infogerance";
  cpv = "72212000" ∷ [];
  nuts = [];
  procedure = record {
    type = some "open";
    national_label = none;
    framework = none;
    reserved_sme = none;
    contract_nature = [];
  };
  lots = [];
  amounts = record { estimated_total = none; currency = none; vat = none };
  dates = record {
    published_at = some (60 * day);
    deadline_at = some (70 * day);
    questions_deadline_at = none;
    visit = record { mandatory = none; dates = [] };
    tz = none;
  };
  documents = [];
  urls = record { notice = none; documents = none; submission = none };
  requires_account_for_docs = none;
  award = none;
  provenance = record {
    adapter = "boamp";
    raw_content_hash = some "abc";
    normalized_at = 5;
    unmapped_fields = [];
  };
  version = 1;
}

-- The same tender, as another source published it.
abbrev pub notice_of_ted : CanonicalNotice ℕ
notice_of_ted = record notice_of_boamp {
  source_ref = record { source = "ted"; external_id = "155-553797"; url = none; fetched_at = none };
  buyer = record {
    name = some "lyon";
    siren = none;
    siret = none;
    national_id = none;
    contact = no_contact;
    address = no_address;
  };
  provenance = record {
    adapter = "ted";
    raw_content_hash = some "def";
    normalized_at = 5;
    unmapped_fields = [];
  };
}
