-- ===== src/Pipeline/Match.antt =====
-- The fourth stage (pipeline.py: `run_match`). The order of amounts, `normalize_text` and the score of a
-- notice for a company are arguments.
use bid_pilot.Prelude.{
  ℕ, ◌+◌, ◌&&◌, Bool, true, false, String, Option, none, some, List, [], ◌∷◌, find, select, ltb,
  leb, str_eq, or_else, if◌then◌else◌,
}
use Prim.Native.String.{◌++◌ as cat}
use bid_pilot.Prelude.Outcome.{lookup_error}
use bid_pilot.Store.{Env, Db, M, return, raise, ◌>>=◌, ◌>>◌}
use bid_pilot.Store.Rows.{
  Payload, text, WatchProfileRow, CompanyProfileRow, FiltersJson, MatchRow, new,
}
use bid_pilot.Canonical.{CanonicalNotice, competition}
use bid_pilot.Queue.Defs.{new_id, enqueue}
use bid_pilot.Tenancy.{shows}
use bid_pilot.Matching.Filters.{WatchFilters, apply_hard_filters}
use bid_pilot.Matching.Funnel.{is_pass}
use bid_pilot.Pipeline.Load.{load_canonical}

-- The fields of the CompanyProfile that the stage fills; the others keep their defaults.
pub record CompanyProfile : Type 0 where
  pub org_id : String
  pub cpv_families : List String
  pub zones_nuts : List String
  pub national : Bool
  pub keywords : List String
  pub negative_keywords : List String
  pub annual_revenue : Option ℕ

-- The keys of the JSON column with their defaults; the notice types are those of a new WatchFilters.
unfoldable pub filters_of : FiltersJson → WatchFilters ℕ
filters_of json = record {
  cpv_families = or_else json.cpv_families [];
  countries = or_else json.countries [];
  nuts = or_else json.nuts [];
  min_days_to_deadline = json.min_days_to_deadline;
  amount_min = json.amount_min;
  amount_max = json.amount_max;
  procedure_types = or_else json.procedure_types [];
  notice_types = competition ∷ [];
  keywords_include = or_else json.keywords_include [];
  keywords_exclude = or_else json.keywords_exclude [];
}

-- `max(revenues, key=year)`, which is the first of several, after the one before.
unfoldable pub latest_from : ℕ × Option ℕ → List (ℕ × Option ℕ) → Option ℕ
latest_from best [] = best.1
latest_from best (entry ∷ entries) =
    latest_from (if ltb best.0 entry.0 then entry else best) entries

unfoldable pub latest_revenue : List (ℕ × Option ℕ) → Option ℕ
unfolding latest_from
latest_revenue [] = none
latest_revenue (entry ∷ entries) = latest_from entry entries

-- The row of the LEFT JOIN may be missing.
unfoldable pub company_of : String → Option CompanyProfileRow → CompanyProfile
unfolding latest_revenue
company_of org_id none = record {
  org_id = org_id;
  cpv_families = [];
  zones_nuts = [];
  national = false;
  keywords = [];
  negative_keywords = [];
  annual_revenue = none;
}
company_of org_id (some p) = record {
  org_id = org_id;
  cpv_families = p.cpv_families;
  zones_nuts = or_else p.zones_nuts [];
  national = p.national;
  keywords = p.keywords;
  negative_keywords = p.negative_keywords;
  annual_revenue = latest_revenue p.revenues;
}

-- The rows that the policies show. `run_match` does not assert the role, which may bypass them.
abbrev pub enabled_profiles : Bool → Db → List WatchProfileRow
enabled_profiles bypasses db =
    select (λ w. shows bypasses db.org_context w.org_id && w.enabled) db.watch_profiles

abbrev pub visible_company : Bool → Db → String → Option CompanyProfileRow
visible_company bypasses db org_id =
    find (λ p. shows bypasses db.org_context p.org_id && str_eq p.org_id org_id) db.company_profiles

abbrev pub same_match : MatchRow → MatchRow → Bool
same_match a b = str_eq b.org_id a.org_id && str_eq b.notice_id a.notice_id

-- `INSERT … ON CONFLICT (org_id, notice_id) DO UPDATE`
unfoldable pub upsert_match : MatchRow → List MatchRow → List MatchRow
upsert_match row [] = row ∷ []
upsert_match row (m ∷ ms) =
    let rest = upsert_match row ms in
    if same_match row m then record m { score = row.score } ∷ ms else m ∷ rest

abbrev pub match_row : Env → ℕ → String → WatchProfileRow → ℕ → MatchRow
match_row env drawn notice_id w score = record {
  id = new_id env "mch" drawn;
  org_id = w.org_id;
  notice_id = notice_id;
  watch_profile_id = some w.id;
  score = score;
  state = new;
}

unfoldable pub store_match : Env → String → WatchProfileRow → ℕ → M (Unit {0})
unfolding upsert_match
store_match env notice_id w score db = return tt (record db {
  matches = upsert_match (match_row env db.drawn notice_id w score) db.matches;
  drawn = db.drawn + 1;
})

abbrev pub high_score_payload : String → String → Payload
high_score_payload notice_id org_id =
    ("kind", text "match.high_score") ∷ ("notice_id", text notice_id) ∷ ("org_id", text org_id) ∷ []

-- `policy.get("instant_min_score", 80)`
abbrev pub is_instant : WatchProfileRow → ℕ → Bool
is_instant w score = leb (or_else w.instant_min_score 80) score

-- The alert of a high score, and the number of alerts.
unfoldable pub push_instantly : Env → String → WatchProfileRow → Bool → M ℕ
push_instantly env notice_id w false = return 0
push_instantly env notice_id w true = do
  enqueue env "notify.send" (high_score_payload notice_id w.org_id)
      (cat w.org_id (cat ":" notice_id)) "1"
  return 1

module _ (below : ℕ → ℕ → Bool) (normalize : String → String)
    (score : CanonicalNotice ℕ → CompanyProfile → ℕ → ℕ) where
  abbrev pub passes : Env → CanonicalNotice ℕ → WatchProfileRow → Bool
  passes env n w = is_pass (apply_hard_filters below normalize n (filters_of w.filters) env.now)

module _ (bypasses : Bool) (below : ℕ → ℕ → Bool) (normalize : String → String)
    (score : CanonicalNotice ℕ → CompanyProfile → ℕ → ℕ) where
  -- A profile that the filters let pass; the result counts its match and its alert.
  unfoldable pub match_with : Env → String → CanonicalNotice ℕ → WatchProfileRow → Bool → M (ℕ × ℕ)
  unfolding store_match push_instantly company_of
  match_with env notice_id n w false db = return (0, 0) db
  match_with env notice_id n w true db =
      let points = score n (company_of w.org_id (visible_company bypasses db w.org_id)) env.now in
      (store_match env notice_id w points >>= λ _.
      push_instantly env notice_id w (is_instant w points) >>= λ alerts. return (1, alerts))
        db

  -- The loop; the counters are `matches` and `instant_alerts`.
  unfoldable pub match_all :
      Env → String → CanonicalNotice ℕ → ℕ × ℕ → List WatchProfileRow → M (ℕ × ℕ)
  unfolding match_with
  match_all env notice_id n counts [] = return counts
  match_all env notice_id n counts (w ∷ ws) = do
    (created, alerts) ← match_with env notice_id n w (passes below normalize score env n w)
    match_all env notice_id n (counts.0 + created, counts.1 + alerts) ws

  unfoldable pub match_loaded : Env → String → Option (CanonicalNotice ℕ) → M (ℕ × ℕ)
  unfolding match_all
  match_loaded env notice_id none db = raise (lookup_error notice_id) db
  match_loaded env notice_id (some n) db =
      match_all env notice_id n (0, 0) (enabled_profiles bypasses db) db

  unfoldable pub run_match : Env → String → M (ℕ × ℕ)
  unfolding match_loaded
  run_match env notice_id db = match_loaded env notice_id (load_canonical notice_id db) db
