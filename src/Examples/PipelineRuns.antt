-- ===== src/Examples/PipelineRuns.antt =====
-- Runs of the later stages of the pipeline.
use bid_pilot.Prelude.{
  ℕ, ◌*◌, ◌≡◌, refl, true, false, Bool, String, none, some, [], ◌∷◌, length, select, leb, ltb, ◌||◌,
}
use bid_pilot.Prelude.Outcome.{ok}
use bid_pilot.Store.{Db, day}
use bid_pilot.Store.Rows.{NoticeRow, WatchProfileRow}
use bid_pilot.Canonical.{CanonicalNotice, same_type, siren_effective, or_text}
use bid_pilot.Scheduler.Text.{left}
use bid_pilot.Dedupe.Verdict.{within}
use bid_pilot.Pipeline.Upsert.{
  clean_slug, notice_row_id, upsert_notice, write_notice, is_changed, notice_row, upsert_row,
  next_version, next_status, insert_version,
}
use bid_pilot.Pipeline.Load.{load_canonical, canonical_of}
use bid_pilot.Pipeline.Amended.{IsRecorded, Logged, version_of, upsert_notice-IsRecorded}
use bid_pilot.Pipeline.Again.{stored_part, status_of, upsert_notice-load, upsert_notice-again}
use bid_pilot.Pipeline.Cluster.{
  run_dedupe, first_match, candidates, is_candidate, newest_first, insert_newest,
}
use bid_pilot.Pipeline.Placed.{Placed, run_dedupe-Placed}
use bid_pilot.Pipeline.Match.{CompanyProfile, run_match, enabled_profiles, passes}
use bid_pilot.Pipeline.Matched.{Matched, run_match-Matched, run_match-unseen}
use bid_pilot.Examples.Samples.{at, empty}
use bid_pilot.Examples.Notices.{notice_of_boamp}
use bid_pilot.Examples.DedupeRuns.{ascii, thousandths}

program : Unit {0}
unfolding clean_slug notice_row_id left upsert_notice write_notice is_changed notice_row upsert_row
    next_version insert_version load_canonical canonical_of siren_effective or_text first_match
    candidates is_candidate newest_first insert_newest within same_type
program = tt

abbrev ascii_alnum : ℕ → Bool
ascii_alnum c = leb 97 c || leb 48 c

named : notice_row_id ascii_alnum "boamp" "26 1" ≡ "ntc_boamp_26_1"
unfolding program
named = refl

abbrev row : NoticeRow
row = record {
  id = "ntc_boamp_26_1";
  cluster_id = none;
  source_ref = notice_of_boamp.source_ref;
  more_refs = [];
  status = notice_of_boamp.status;
  notice_type = notice_of_boamp.notice_type;
  country = "FR";
  language = none;
  buyer_name = none;
  buyer_siren = none;
  title = "infogerance";
  description = none;
  cpv = "72212000" ∷ [];
  nuts = [];
  procedure_type = none;
  amount_est = none;
  currency = none;
  published_at = none;
  deadline_at = some (70 * day);
  questions_deadline_at = none;
  lots = [];
  urls = notice_of_boamp.urls;
  requires_account = none;
  award = none;
  provenance = record {
    adapter = "boamp";
    raw_content_hash = some "before";
    normalized_at = 5;
    unmapped_fields = [];
  };
  version = 1;
  created_at = 0;
}

abbrev stored : Db
stored = record empty { notices = row ∷ [] }

amended_once :
    (b : Bool) × (db' : Db) × (upsert_notice ascii_alnum
        (at 5)
        (record notice_of_boamp {
          source_ref = record {
            source = "boamp";
            external_id = "26 1";
            url = none;
            fetched_at = none;
          };
        })
        (some "after")
        stored
      ≡ ok (("ntc_boamp_26_1", b), db'))
    × (b ≡ true)
    × (length db'.notice_versions ≡ 1)
unfolding program
amended_once = (true, _, refl, refl, refl)

upsert_notice-IsRecorded_example :
    (id : String) × (b : Bool) × (db' : Db) × (upsert_notice ascii_alnum
        (at 5)
        notice_of_boamp
        (some "abc")
        empty
      ≡ ok ((id, b), db'))
    × IsRecorded db'
    × Logged id b empty db'
upsert_notice-IsRecorded_example =
    upsert_notice-IsRecorded ascii_alnum (at 5) notice_of_boamp (some "abc") empty tt

upsert_notice-load_example :
    (id : String) × (db' : Db) × (upsert_notice ascii_alnum
        (at 5)
        notice_of_boamp
        (some "abc")
        empty
      ≡ ok ((id, false), db'))
    × (load_canonical id db' ≡ some (stored_part id notice_of_boamp))
upsert_notice-load_example =
    upsert_notice-load ascii_alnum (at 5) notice_of_boamp (some "abc") empty refl

upsert_notice-again_example :
    (id : String) × (b : Bool) × (db' : Db) × (db'' : Db) × (upsert_notice ascii_alnum
        (at 5)
        notice_of_boamp
        notice_of_boamp.provenance.raw_content_hash
        stored
      ≡ ok ((id, b), db'))
    × (upsert_notice ascii_alnum
          (at 6)
          notice_of_boamp
          notice_of_boamp.provenance.raw_content_hash
          db'
        ≡ ok ((id, false), db''))
    × (db''.notice_versions ≡ db'.notice_versions)
    × (version_of id db''.notices ≡ version_of id db'.notices)
    × (status_of id db' ≡ some (next_status b notice_of_boamp.status))
    × (status_of id db'' ≡ some notice_of_boamp.status)
upsert_notice-again_example = upsert_notice-again ascii_alnum (at 5) (at 6) notice_of_boamp stored

run_dedupe-Placed_example :
    (cluster : String) × (merged : Bool) × (db' : Db) × (run_dedupe ascii thousandths
        (λ c. c)
        (at 5)
        "ntc_boamp_26_1"
        stored
      ≡ ok ((cluster, merged), db'))
    × Placed "ntc_boamp_26_1" cluster merged stored db'
run_dedupe-Placed_example =
    run_dedupe-Placed ascii thousandths (λ c. c) (at 5) "ntc_boamp_26_1" stored row refl refl
      (tt, tt)

abbrev same_title : String → String
same_title s = s

abbrev sixty : CanonicalNotice ℕ → CompanyProfile → ℕ → ℕ
sixty n company now = 60

abbrev profile : WatchProfileRow
profile = record {
  id = "w1";
  org_id = "o1";
  filters = record {
    cpv_families = none;
    countries = none;
    nuts = none;
    min_days_to_deadline = none;
    amount_min = none;
    amount_max = none;
    procedure_types = none;
    keywords_include = none;
    keywords_exclude = none;
  };
  instant_min_score = some 50;
  enabled = true;
}

abbrev watched : Db
watched = record stored { watch_profiles = profile ∷ []; org_context = some "o1" }

loaded : load_canonical "ntc_boamp_26_1" watched ≡ some (canonical_of row)
unfolding program
loaded = refl

run_match-Matched_example :
    (alerts : ℕ) × (db' : Db) × (run_match false ltb same_title sixty
        (at 5)
        "ntc_boamp_26_1"
        watched
      ≡ ok (
        (
          length (
              select
                (passes ltb same_title sixty (at 5) (canonical_of row))
                (enabled_profiles false watched)),
          alerts,
        ),
        db',
      ))
    × Matched false ltb same_title sixty
        (at 5)
        "ntc_boamp_26_1"
        (canonical_of row)
        (some "o1")
        (enabled_profiles false watched)
        watched
        db'
run_match-Matched_example =
    run_match-Matched false ltb same_title sixty (at 5) "ntc_boamp_26_1" (canonical_of row) watched
      loaded

abbrev unbound : Db
unbound = record watched { org_context = none }

loaded_unbound : load_canonical "ntc_boamp_26_1" unbound ≡ some (canonical_of row)
unfolding program
loaded_unbound = refl

run_match-unseen_example :
    run_match false ltb same_title sixty (at 5) "ntc_boamp_26_1" unbound ≡ ok ((0, 0), unbound)
run_match-unseen_example =
    run_match-unseen ltb same_title sixty (at 5) "ntc_boamp_26_1" (canonical_of row) unbound
      loaded_unbound refl
