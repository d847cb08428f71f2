-- ===== src/Pipeline/Upsert.antt =====
-- The row of a notice (pipeline.py: `notice_row_id`, `upsert_notice`).
use Prim.Native.Char.{code}
use Prim.Native.String.{◌++◌ as cat}
use bid_pilot.Prelude.{
  ℕ, ◌+◌, ◌==◌, Bool, true, false, ◌&&◌, ◌||◌, not, String, Option, none, some, List, [], ◌∷◌, ◌++◌,
  any, find, str_eq, if◌then◌else◌,
}
use bid_pilot.Scheduler.Text.{left}
use bid_pilot.Store.{Env, Db, M, return}
use bid_pilot.Store.Rows.{NoticeRow, VersionRow}
use bid_pilot.Canonical.{CanonicalNotice, NoticeStatus, amended, siren_effective}
use bid_pilot.Queue.Defs.{new_id}

-- `"".join(ch if ch.isalnum() or ch == "_" else "_" for ch in slug)`, which also does the two
-- replacements before it: a slash and a space are not alphanumeric.
unfoldable pub clean_slug : (ℕ → Bool) → String → String
clean_slug is_alnum String.[] = String.[]
clean_slug is_alnum (String.◌∷◌ c s) =
    let rest = clean_slug is_alnum s in
    if is_alnum (code c) || code c == 95 then String.◌∷◌ c rest else cat "_" rest

unfoldable pub notice_row_id : (ℕ → Bool) → String → String → String
unfolding clean_slug left
notice_row_id is_alnum source_code external_id =
    left 60 (cat "ntc_" (clean_slug is_alnum (cat source_code (cat "_" external_id))))

abbrev pub is_notice : String → NoticeRow → Bool
is_notice id r = str_eq r.id id

-- `bool(existing and previous_hash and content_hash and previous_hash != content_hash)`
unfoldable pub is_changed : Option String → Option String → Bool
is_changed (some (String.◌∷◌ c s)) (some (String.◌∷◌ d t)) =
    not (str_eq (String.◌∷◌ c s) (String.◌∷◌ d t))
is_changed _ _ = false

abbrev pub previous_hash : Option NoticeRow → Option String
previous_hash none = none
previous_hash (some r) = r.provenance.raw_content_hash

unfoldable pub next_version : Bool → Option NoticeRow → ℕ
next_version was_amended none = 1
next_version true (some r) = r.version + 1
next_version false (some r) = r.version

abbrev pub next_status : Bool → NoticeStatus → NoticeStatus
next_status was_amended status = if was_amended then amended else status

-- The values of the statement, which a new row gets.
unfoldable pub notice_row : Env → String → Bool → ℕ → CanonicalNotice ℕ → NoticeRow
unfolding siren_effective
notice_row env id was_amended version n = record {
  id = id;
  cluster_id = none;
  source_ref = n.source_ref;
  more_refs = n.more_refs;
  status = next_status was_amended n.status;
  notice_type = n.notice_type;
  country = n.country;
  language = n.language;
  buyer_name = n.buyer.name;
  buyer_siren = siren_effective n.buyer;
  title = n.title;
  description = n.description;
  cpv = n.cpv;
  nuts = n.nuts;
  procedure_type = n.procedure.type;
  amount_est = n.amounts.estimated_total;
  currency = n.amounts.currency;
  published_at = n.dates.published_at;
  deadline_at = n.dates.deadline_at;
  questions_deadline_at = n.dates.questions_deadline_at;
  lots = n.lots;
  urls = n.urls;
  requires_account = n.requires_account_for_docs;
  award = n.award;
  provenance = n.provenance;
  version = version;
  created_at = env.now;
}

-- The columns that `DO UPDATE SET` leaves out keep their values.
abbrev pub overwritten : NoticeRow → NoticeRow → NoticeRow
overwritten excluded r = record excluded {
  cluster_id = r.cluster_id;
  country = r.country;
  created_at = r.created_at;
}

-- `INSERT … ON CONFLICT (id) DO UPDATE`
unfoldable pub upsert_row : NoticeRow → List NoticeRow → List NoticeRow
upsert_row excluded [] = excluded ∷ []
upsert_row excluded (r ∷ rs) =
    let rest = upsert_row excluded rs in
    if is_notice excluded.id r then overwritten excluded r ∷ rs else r ∷ rest

abbrev pub same_version : VersionRow → VersionRow → Bool
same_version a b = str_eq b.notice_id a.notice_id && b.version == a.version

-- `INSERT … ON CONFLICT (notice_id, version) DO NOTHING`
unfoldable pub insert_version : VersionRow → List VersionRow → List VersionRow
insert_version row versions =
    if any (same_version row) versions then versions else versions ++ row ∷ []

abbrev pub version_row :
    Env → ℕ → String → ℕ → CanonicalNotice ℕ → Option String → Option String → VersionRow
version_row env drawn id version n previous content_hash = record {
  id = new_id env "nvr" drawn;
  notice_id = id;
  version = version;
  payload = n;
  previous_hash = previous;
  new_hash = content_hash;
}

-- The two statements; an identifier is drawn for a version only.
unfoldable pub write_notice :
    Env → String → CanonicalNotice ℕ → Option String → Option NoticeRow → Bool → Db → Db
unfolding upsert_row insert_version notice_row next_version
write_notice env id n content_hash existing false db = record db {
  notices = upsert_row (notice_row env id false (next_version false existing) n) db.notices;
}
write_notice env id n content_hash existing true db = record db {
  notices = upsert_row (notice_row env id true (next_version true existing) n) db.notices;
  notice_versions =
      insert_version
        (version_row env db.drawn id (next_version true existing) n (previous_hash existing)
          content_hash)
        db.notice_versions;
  drawn = db.drawn + 1;
}

-- `is_alnum` is `str.isalnum`. The result is the id with whether the notice was amended.
unfoldable pub upsert_notice :
    (ℕ → Bool) → Env → CanonicalNotice ℕ → Option String → M (String × Bool)
unfolding notice_row_id write_notice is_changed
upsert_notice is_alnum env n content_hash db =
    let id = notice_row_id is_alnum n.source_ref.source n.source_ref.external_id in
    let existing = find (is_notice id) db.notices in
    let was_amended = is_changed (previous_hash existing) content_hash in
    return (id, was_amended) (write_notice env id n content_hash existing was_amended db)
