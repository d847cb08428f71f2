-- ===== src/Pipeline/Amended.antt =====
-- The history of a notice (pipeline.py: `upsert_notice`, the table `notice_versions`).
use bid_pilot.Prelude.{
  ℕ, ◌+◌, ◌≤◌, ◌<◌, ◌≡◌, refl, ap, ◌∙◌, subst, Bool, true, false, arith, String, Option, none, some,
  List, [], ◌∷◌, ◌++◌, any, find, All, All-append, All-imp, Bool-cases, inl, inr, str_eq, eq_iff,
  eq_refl,
}
use bid_pilot.Prelude.Outcome.{ok}
use bid_pilot.Store.{Env, Db}
use bid_pilot.Store.Rows.{NoticeRow, VersionRow}
use bid_pilot.Canonical.{CanonicalNotice}
use bid_pilot.Pipeline.Upsert.{
  is_notice, notice_row, upsert_row, overwritten, notice_row_id, upsert_notice, write_notice,
  insert_version, version_row, same_version, next_version, previous_hash, is_changed,
}

-- The row of an upsert, after which a search for its id finds it.
abbrev pub upserted : NoticeRow → Option NoticeRow → NoticeRow
upserted excluded none = excluded
upserted excluded (some r) = overwritten excluded r

pub find-upsert_row :
    (x : NoticeRow) (rows : List NoticeRow)
    → find (is_notice x.id) (upsert_row x rows) ≡ some (upserted x (find (is_notice x.id) rows))
unfolding upsert_row
find-upsert_row x [] = ground (arith, eq_refl x.id)
find-upsert_row x (r ∷ rs) = elim (Bool-cases (is_notice x.id r)) [
  | inl e ↦ rw (e, eq_refl x.id) refl
  | inr e ↦ rw (e, e) (find-upsert_row x rs)
]

pub find-upsert_row-other :
    (x : NoticeRow) (rows : List NoticeRow) (id : String)
    → str_eq x.id id ≡ false
    → find (is_notice id) (upsert_row x rows) ≡ find (is_notice id) rows
unfolding upsert_row
find-upsert_row-other x [] id h = rw h refl
find-upsert_row-other x (r ∷ rs) id h = elim (Bool-cases (is_notice x.id r)) [
  | inl e ↦ rw e (ground (arith, h, ap (λ k. str_eq k id) ((eq_iff r.id x.id).0 e)))
  | inr e ↦ rw e (ground (arith, find-upsert_row-other x rs id h))
]

-- The version of the row with an id; 0 where there is none.
abbrev pub version_in : Option NoticeRow → ℕ
version_in none = 0
version_in (some r) = r.version

abbrev pub version_of : String → List NoticeRow → ℕ
version_of id rows = version_in (find (is_notice id) rows)

-- The table of versions is in order: no version of a notice is later than the notice's own.
abbrev pub IsRecorded : Db → Type 0
IsRecorded db = All (λ v. v.version ≤ version_of v.notice_id db.notices) db.notice_versions

version_of-upsert_row :
    (x : NoticeRow) (rows : List NoticeRow) → version_of x.id (upsert_row x rows) ≡ x.version
version_of-upsert_row x rows =
    ap version_in (find-upsert_row x rows) ∙ same (find (is_notice x.id) rows)
  where
    same : (o : Option NoticeRow) → version_in (some (upserted x o)) ≡ x.version
    same none = refl
    same (some r) = refl

-- An upsert with a version that is not earlier keeps every bound.
version_of-grows :
    (x : NoticeRow) (rows : List NoticeRow) (id : String)
    → version_of x.id rows ≤ x.version
    → version_of id rows ≤ version_of id (upsert_row x rows)
version_of-grows x rows id h = elim (Bool-cases (str_eq x.id id)) [
  | inl e ↦
      subst (λ k. version_of k rows ≤ version_of k (upsert_row x rows)) ((eq_iff x.id id).0 e)
        (omega (arith, version_of-upsert_row x rows))
  | inr e ↦ omega (arith, other e)
]
  where
    other : str_eq x.id id ≡ false → version_of id (upsert_row x rows) ≡ version_of id rows
    other e = ap version_in (find-upsert_row-other x rows id e)

version_of-found :
    (id : String) (rows : List NoticeRow) (o : Option NoticeRow)
    → find (is_notice id) rows ≡ o
    → version_of id rows ≡ version_in o
version_of-found id rows o e = ap version_in e

-- A version that is later than the notice's is not there yet.
new_version :
    (row : VersionRow) (rows : List NoticeRow) (vs : List VersionRow)
    → All (λ v. v.version ≤ version_of v.notice_id rows) vs
    → version_of row.notice_id rows < row.version
    → any (same_version row) vs ≡ false
new_version row rows [] h k = refl
new_version row rows (v ∷ vs) h k = elim (Bool-cases (str_eq v.notice_id row.notice_id)) [
  | inl e ↦
      let later : v.version ≤ version_of row.notice_id rows =
        subst (λ i. v.version ≤ version_of i rows) ((eq_iff v.notice_id row.notice_id).0 e) h.0 in
      ground (arith, new_version row rows vs h.1 k)
  | inr e ↦ ground (arith, new_version row rows vs h.1 k)
]

-- What an upsert of the notice `id` did to the table of versions: an amendment added one row with the
-- version after the notice's, which the notice now has; otherwise nothing was added.
pub Logged : String → Bool → Db → Db → Type 0
Logged id false db db' = db'.notice_versions ≡ db.notice_versions
Logged id true db db' =
    (v : VersionRow) × (db'.notice_versions ≡ db.notice_versions ++ v ∷ [])
    × (v.notice_id ≡ id)
    × (v.version ≡ version_of id db.notices + 1)
    × (version_of id db'.notices ≡ version_of id db.notices + 1)

IsRecorded-upsert_row :
    (x : NoticeRow) (rows : List NoticeRow) (vs : List VersionRow)
    → version_of x.id rows ≤ x.version
    → All (λ v. v.version ≤ version_of v.notice_id rows) vs
    → All (λ v. v.version ≤ version_of v.notice_id (upsert_row x rows)) vs
IsRecorded-upsert_row x rows vs h =
    All-imp (λ v. v.version ≤ version_of v.notice_id rows)
      (λ v. v.version ≤ version_of v.notice_id (upsert_row x rows))
      (λ v k. omega (arith, version_of-grows x rows v.notice_id h)) vs

write-kept :
    (env : Env) (id : String) (n : CanonicalNotice ℕ) (hash : Option String) (db : Db)
    (existing : Option NoticeRow)
    → find (is_notice id) db.notices ≡ existing
    → IsRecorded db
    → IsRecorded (write_notice env id n hash existing false db)
      × Logged id false db (write_notice env id n hash existing false db)
unfolding write_notice Logged next_version notice_row
write-kept env id n hash db none e h = (
  IsRecorded-upsert_row (notice_row env id false 1 n) db.notices db.notice_versions
      (rw e (omega arith)) h,
  refl,
)
write-kept env id n hash db (some r) e h = (
  IsRecorded-upsert_row (notice_row env id false r.version n) db.notices db.notice_versions
      (rw e (omega arith)) h,
  refl,
)

write-amended :
    (env : Env) (id : String) (n : CanonicalNotice ℕ) (hash : Option String) (db : Db)
    (r : NoticeRow)
    → find (is_notice id) db.notices ≡ some r
    → IsRecorded db
    → IsRecorded (write_notice env id n hash (some r) true db)
      × Logged id true db (write_notice env id n hash (some r) true db)
unfolding write_notice Logged next_version insert_version notice_row
write-amended env id n hash db r e h =
    let x = notice_row env id true (r.version + 1) n in
    let v = version_row env db.drawn id (r.version + 1) n r.provenance.raw_content_hash hash in
    let now : version_of id db.notices ≡ r.version = version_of-found id db.notices (some r) e in
    let after : version_of id (upsert_row x db.notices) ≡ r.version + 1 =
      version_of-upsert_row x db.notices in
    let fresh : any (same_version v) db.notice_versions ≡ false =
      new_version v db.notices db.notice_versions h (omega arith) in
    rw fresh (
      All-append (λ w. w.version ≤ version_of w.notice_id (upsert_row x db.notices))
          db.notice_versions (v ∷ [])
          (IsRecorded-upsert_row x db.notices db.notice_versions (omega arith) h) (omega arith, tt),
      (v, refl, refl, omega arith, omega arith),
    )

-- Only a notice that is stored can be amended.
write-IsRecorded :
    (env : Env) (id : String) (n : CanonicalNotice ℕ) (hash : Option String) (db : Db)
    (existing : Option NoticeRow) (b : Bool)
    → find (is_notice id) db.notices ≡ existing
    → is_changed (previous_hash existing) hash ≡ b
    → IsRecorded db
    → IsRecorded (write_notice env id n hash existing b db)
      × Logged id b db (write_notice env id n hash existing b db)
unfolding is_changed
write-IsRecorded env id n hash db existing false e c h = write-kept env id n hash db existing e h
write-IsRecorded env id n hash db none true e c h = cc
write-IsRecorded env id n hash db (some r) true e c h = write-amended env id n hash db r e h

-- While the table of versions is in order, storing a notice returns and keeps it in order. If the notice
-- was amended, exactly one version row is added, numbered one after the notice's version, which the
-- notice has from then on; otherwise the table of versions is as it was.
pub upsert_notice-IsRecorded :
    (is_alnum : ℕ → Bool) (env : Env) (n : CanonicalNotice ℕ) (hash : Option String) (db : Db)
    → IsRecorded db
    → (id : String) × (b : Bool) × (db' : Db) × (upsert_notice is_alnum env n hash db
        ≡ ok ((id, b), db'))
      × IsRecorded db'
      × Logged id b db db'
unfolding upsert_notice
upsert_notice-IsRecorded is_alnum env n hash db h =
    let id = notice_row_id is_alnum n.source_ref.source n.source_ref.external_id in
    let existing = find (is_notice id) db.notices in
    let b = is_changed (previous_hash existing) hash in
    let (kept, logged) = write-IsRecorded env id n hash db existing b refl refl h in
    (id, b, write_notice env id n hash existing b db, refl, kept, logged)
