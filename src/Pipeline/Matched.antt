-- ===== src/Pipeline/Matched.antt =====
-- What the fourth stage leaves behind (pipeline.py: `run_match`).
use bid_pilot.Prelude.{
  ℕ, ◌+◌, ◌&&◌, ◌≡◌, refl, sym, subst, ap, ◌∙◌, Bool, true, false, not, arith, String, Option, none,
  some, List, [], ◌∷◌, any, select, length, All, All-imp, All-selected, Bool-cases, inl, inr,
  str_eq, eq_refl, eq_iff, if◌then◌else◌,
}
use Prim.Native.String.{◌++◌ as cat}
use bid_pilot.Prelude.Outcome.{ok}
use bid_pilot.Store.{Env, Db}
use bid_pilot.Store.Rows.{WatchProfileRow, MatchRow}
use bid_pilot.Canonical.{CanonicalNotice}
use bid_pilot.Queue.Defs.{is_job_kind}
use bid_pilot.Queue.Enqueued.{enqueue-total}
use bid_pilot.Tenancy.{shows}
use bid_pilot.Pipeline.Load.{load_canonical}
use bid_pilot.Pipeline.Match.{
  CompanyProfile, run_match, match_loaded, match_all, match_with, store_match, push_instantly,
  upsert_match, same_match, match_row, enabled_profiles, passes, company_of, visible_company,
  is_instant, high_score_payload,
}

-- The matches that the context hides.
abbrev pub hidden : Bool → Option String → List MatchRow → List MatchRow
hidden bypasses ctx ms = select (λ m. not (shows bypasses ctx m.org_id)) ms

-- The organisation has a match with the notice.
abbrev pub has_match : String → String → List MatchRow → Bool
has_match org_id notice_id = any (λ m. str_eq m.org_id org_id && str_eq m.notice_id notice_id)

upsert_match-hidden :
    (bypasses : Bool) (ctx : Option String) (row : MatchRow) (ms : List MatchRow)
    → shows bypasses ctx row.org_id ≡ true
    → hidden bypasses ctx (upsert_match row ms) ≡ hidden bypasses ctx ms
unfolding upsert_match
upsert_match-hidden bypasses ctx row [] h = rw h refl
upsert_match-hidden bypasses ctx row (m ∷ ms) h = elim (Bool-cases (same_match row m)) [
  | inl e ↦
      let same : m.org_id ≡ row.org_id = (eq_iff m.org_id row.org_id).0 (ground arith) in
      let seen : shows bypasses ctx m.org_id ≡ true =
        subst (λ k. shows bypasses ctx k ≡ true) (sym same) h in
      rw (e, seen) refl
  | inr e ↦ rw e (ground (arith, upsert_match-hidden bypasses ctx row ms h))
]

upsert_match-has :
    (row : MatchRow) (ms : List MatchRow)
    → has_match row.org_id row.notice_id (upsert_match row ms) ≡ true
unfolding upsert_match
upsert_match-has row [] = ground (arith, eq_refl row.org_id, eq_refl row.notice_id)
upsert_match-has row (m ∷ ms) = elim (Bool-cases (same_match row m)) [
  | inl e ↦ rw e (ground arith)
  | inr e ↦ rw e (ground (arith, upsert_match-has row ms))
]

upsert_match-keeps :
    (row : MatchRow) (org id : String) (ms : List MatchRow)
    → has_match org id ms ≡ true
    → has_match org id (upsert_match row ms) ≡ true
unfolding upsert_match
upsert_match-keeps row org id [] h = cc
upsert_match-keeps row org id (m ∷ ms) h = elim (Bool-cases (same_match row m)) [
  | inl e ↦ rw e (ground arith)
  | inr e ↦ rw e (ground (arith, upsert_match-keeps row org id ms))
]

send_known : is_job_kind "notify.send" ≡ true
unfolding is_job_kind
send_known = refl

-- The push changes jobs and the counter of identifiers only.
push_instantly-total :
    (env : Env) (id : String) (w : WatchProfileRow) (b : Bool) (db : Db)
    → (alerts : ℕ) × (db' : Db) × (push_instantly env id w b db ≡ ok (alerts, db'))
      × (db'.matches ≡ db.matches)
      × (db'.org_context ≡ db.org_context)
unfolding push_instantly
push_instantly-total env id w false db = (0, db, refl, refl, refl)
push_instantly-total env id w true db =
    let (r, jobs, e, stored) =
      enqueue-total env "notify.send" (high_score_payload id w.org_id) (cat w.org_id (cat ":" id))
        "1" db send_known in
    (1, record db { jobs = jobs; drawn = db.drawn + 1 }, rw e refl, refl, refl)

module _ (bypasses : Bool) (below : ℕ → ℕ → Bool) (normalize : String → String)
    (score : CanonicalNotice ℕ → CompanyProfile → ℕ → ℕ) where
  -- The matches after a list of profiles: those that the context hides are as they were, none is
  -- lost, and there is one for the organisation of each profile that passes.
  pub record Matched (env : Env) (id : String) (n : CanonicalNotice ℕ) (ctx : Option String)
      (ws : List WatchProfileRow) (db db' : Db) : Type 0 where
    pub same_context : db'.org_context ≡ db.org_context
    pub apart : hidden bypasses ctx db'.matches ≡ hidden bypasses ctx db.matches
    pub kept :
        (org notice_id : String)
        → has_match org notice_id db.matches ≡ true
        → has_match org notice_id db'.matches ≡ true
    pub each :
        All
          (λ w. has_match w.org_id id db'.matches ≡ true)
          (select (passes below normalize score env n) ws)

  match_with-total :
      (env : Env) (id : String) (n : CanonicalNotice ℕ) (w : WatchProfileRow) (db : Db)
      → (alerts : ℕ) × (db' : Db) × (points : ℕ) × (match_with bypasses below normalize score env id
            n w true db
          ≡ ok ((1, alerts), db'))
        × (db'.matches ≡ upsert_match (match_row env db.drawn id w points) db.matches)
        × (db'.org_context ≡ db.org_context)
  unfolding match_with store_match
  match_with-total env id n w db =
      let points = score n (company_of w.org_id (visible_company bypasses db w.org_id)) env.now in
      let stored : Db = record db {
        matches = upsert_match (match_row env db.drawn id w points) db.matches;
        drawn = db.drawn + 1;
      } in
      let (alerts, db', e, same, ctx) =
        push_instantly-total env id w (is_instant w points) stored in
      (alerts, db', points, rw e refl, same, ctx)

  match_one-Matched :
      (env : Env) (id : String) (n : CanonicalNotice ℕ) (ctx : Option String) (w : WatchProfileRow)
      (db : Db) (b : Bool)
      → passes below normalize score env n w ≡ b
      → shows bypasses ctx w.org_id ≡ true
      → (alerts : ℕ) × (db' : Db) × (match_with bypasses below normalize score env id n w b db
          ≡ ok ((length (if b then w ∷ [] else []), alerts), db'))
        × Matched env id n ctx (w ∷ []) db db'
  unfolding match_with
  match_one-Matched env id n ctx w db false e v = (
    0,
    db,
    refl,
    record { same_context = refl; apart = refl; kept = λ org k h. h; each = rw e tt },
  )
  match_one-Matched env id n ctx w db true e v =
      let (alerts, db', points, returned, ms, same) = match_with-total env id n w db in
      let row = match_row env db.drawn id w points in
      (
        alerts,
        db',
        returned,
        record {
          same_context = same;
          apart = ap (hidden bypasses ctx) ms ∙ upsert_match-hidden bypasses ctx row db.matches v;
          kept = λ org k h. ap (has_match org k) ms ∙ upsert_match-keeps row org k db.matches h;
          each = rw e (ap (has_match w.org_id id) ms ∙ upsert_match-has row db.matches, tt);
        },
      )

  Matched-trans :
      (env : Env) (id : String) (n : CanonicalNotice ℕ) (ctx : Option String) (w : WatchProfileRow)
      (ws : List WatchProfileRow) (b : Bool) {x y z : Db}
      → passes below normalize score env n w ≡ b
      → Matched env id n ctx (w ∷ []) x y
      → Matched env id n ctx ws y z
      → Matched env id n ctx (w ∷ ws) x z
  Matched-trans env id n ctx w ws true e g h = record {
    same_context = h.same_context ∙ g.same_context;
    apart = h.apart ∙ g.apart;
    kept = λ org k m. h.kept org k (g.kept org k m);
    each = rw e (h.kept w.org_id id (rw e at g.each).0, h.each);
  }
  Matched-trans env id n ctx w ws false e g h = record {
    same_context = h.same_context ∙ g.same_context;
    apart = h.apart ∙ g.apart;
    kept = λ org k m. h.kept org k (g.kept org k m);
    each = rw e h.each;
  }

  match_all-Matched :
      (env : Env) (id : String) (n : CanonicalNotice ℕ) (ctx : Option String) (counts : ℕ × ℕ)
      (ws : List WatchProfileRow) (db : Db)
      → All (λ w. shows bypasses ctx w.org_id ≡ true) ws
      → (alerts : ℕ) × (db' : Db) × (match_all bypasses below normalize score env id n counts ws db
          ≡ ok ((counts.0 + length (select (passes below normalize score env n) ws), alerts), db'))
        × Matched env id n ctx ws db db'
  unfolding match_all
  match_all-Matched env id n ctx counts [] db h = (
    counts.1,
    db,
    ap (λ k. ok ((k, counts.1), db)) (omega arith),
    record { same_context = refl; apart = refl; kept = λ org k m. m; each = tt },
  )
  match_all-Matched env id n ctx counts (w ∷ ws) db h =
      let p : WatchProfileRow → Bool = passes below normalize score env n in
      let (a₁, db₁, e₁, g) = match_one-Matched env id n ctx w db (p w) refl h.0 in
      let (a₂, db₂, e₂, k) =
        match_all-Matched env id n ctx
          (counts.0 + length (if p w then w ∷ [] else []), counts.1 + a₁) ws db₁ h.1 in
      (
        a₂,
        db₂,
        rw e₁ (e₂ ∙ ap (λ c. ok ((c, a₂), db₂)) (counted p counts.0)),
        Matched-trans env id n ctx w ws (p w) refl g k,
      )
    where
      counted :
          (p : WatchProfileRow → Bool) (c : ℕ)
          → c + length (if p w then w ∷ [] else []) + length (select p ws)
            ≡ c + length (select p (w ∷ ws))
      counted p c = ground arith

  -- A stored notice is matched: the stage returns, counts as a match each enabled profile that the
  -- context shows and whose filters accept the notice, and leaves a match of the notice for the
  -- organisation of each. No match is lost, and those that the context hides are as they were.
  pub run_match-Matched :
      (env : Env) (id : String) (n : CanonicalNotice ℕ) (db : Db)
      → load_canonical id db ≡ some n
      → (alerts : ℕ) × (db' : Db) × (run_match bypasses below normalize score env id db
          ≡ ok (
            (
              length (select (passes below normalize score env n) (enabled_profiles bypasses db)),
              alerts,
            ),
            db',
          ))
        × Matched env id n db.org_context (enabled_profiles bypasses db) db db'
  unfolding run_match match_loaded
  run_match-Matched env id n db e =
      let seen : All (λ w. shows bypasses db.org_context w.org_id ≡ true)
          (enabled_profiles bypasses db) =
        All-imp (λ w. (shows bypasses db.org_context w.org_id && w.enabled) ≡ true)
          (λ w. shows bypasses db.org_context w.org_id ≡ true) (λ w h. ground arith)
          (enabled_profiles bypasses db)
          (All-selected (λ w. shows bypasses db.org_context w.org_id && w.enabled)
            db.watch_profiles) in
      let (alerts, db', returned, g) =
        match_all-Matched env id n db.org_context (0, 0) (enabled_profiles bypasses db) db seen in
      (alerts, db', rw e (returned ∙ ap (λ c. ok ((c, alerts), db')) (omega arith)), g)

none_visible :
    (ws : List WatchProfileRow) → select (λ w. shows false none w.org_id && w.enabled) ws ≡ []
unfolding shows
none_visible [] = refl
none_visible (w ∷ ws) = none_visible ws

module _ (below : ℕ → ℕ → Bool) (normalize : String → String)
    (score : CanonicalNotice ℕ → CompanyProfile → ℕ → ℕ) where
  -- In a transaction without a context, such as the worker's, and under a role that the row policies
  -- bind, a stored notice gets no match, whatever the profiles: nothing is written.
  pub run_match-unseen :
      (env : Env) (id : String) (n : CanonicalNotice ℕ) (db : Db)
      → load_canonical id db ≡ some n
      → db.org_context ≡ none
      → run_match false below normalize score env id db ≡ ok ((0, 0), db)
  unfolding run_match match_loaded match_all
  run_match-unseen env id n db e c =
      rw
        (
          e,
          subst (λ o. select (λ w. shows false o w.org_id && w.enabled) db.watch_profiles ≡ [])
              (sym c) (none_visible db.watch_profiles),
        )
        refl
