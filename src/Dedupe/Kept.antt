-- ===== src/Dedupe/Kept.antt =====
-- What the clusters of a batch hold (dedupe.py: `cluster_notices`).
use bid_pilot.Prelude.{
  ℕ, suc, ◌≡◌, refl, ◌+◌, Bool, true, false, ◌&&◌, ◌||◌, arith, String, Option, List, [], ◌∷◌, elem,
  any, All, All-imp, length, length-append, Bool-cases, inl, inr, str_eq, eq_iff, subst, sym, ap,
  ◌∙◌,
}
use bid_pilot.Canonical.{CanonicalNotice, NoticeType, planning, competition, result, same_type}
use bid_pilot.Dedupe.Names.{Unicode}
use bid_pilot.Dedupe.Similar.{Floats}
use bid_pilot.Dedupe.Verdict.{
  MatchVerdict, apart, matched, is_matched, external_ids, ref_key, same_tender, shares_publication,
}
use bid_pilot.Dedupe.Merge.{merge}
use bid_pilot.Dedupe.Merged.{elem-merge, HasKeys-refl}
use bid_pilot.Dedupe.Clusters.{
  Cluster, absorb, settle, place, cluster_from, cluster_notices, verdict_of,
}

same_type_refl : (t : NoticeType) → same_type t t ≡ true
unfolding same_type
same_type_refl planning = refl
same_type_refl competition = refl
same_type_refl result = refl

merge-notice_type :
    {Amount : Type 0} (a b : CanonicalNotice Amount) → (merge a b).notice_type ≡ a.notice_type
unfolding merge
merge-notice_type a b = refl

-- Two Boolean tests hold together.
both : (a b : Bool) → a ≡ true → b ≡ true → (a && b) ≡ true
both a b h k = ground arith

pub any-elem :
    (p : String → Bool) (s : String) (xs : List String)
    → elem s xs ≡ true
    → p s ≡ true
    → any p xs ≡ true
any-elem p s [] h k = cc
any-elem p s (x ∷ xs) h k = elim (Bool-cases (str_eq x s)) [
  | inl e ↦ rw (ap p ((eq_iff x s).0 e) ∙ k) refl
  | inr e ↦ ground (arith, any-elem p s xs)
]

module _ {Amount F : Type 0} where
  -- The cluster is of the type and has the key among its source references.
  abbrev pub covers : NoticeType → String → Cluster Amount F → Bool
  covers t key c = same_type c.canonical.notice_type t && elem key (external_ids c.canonical)

  -- Some cluster is.
  abbrev pub is_covered : List (Cluster Amount F) → NoticeType → String → Bool
  is_covered clusters t key = any (covers t key) clusters

  -- The number of notices that the clusters hold.
  abbrev pub notices_in : List (Cluster Amount F) → ℕ
  notices_in [] = 0
  notices_in (c ∷ cs) = 1 + length c.merged_from + notices_in cs

module _ {Amount F : Type 0} (u : Unicode) (f : Floats F) (embeddings : String → Option (List F))
    (cluster_id_of : ℕ → String) where
  matched-same_type :
      (l r : CanonicalNotice Amount) (a b : Option (List F))
      → is_matched (same_tender u f a b l r) ≡ true
      → same_type l.notice_type r.notice_type ≡ true
  unfolding same_tender
  matched-same_type l r a b h = elim (Bool-cases (same_type l.notice_type r.notice_type)) [
    | inl e ↦ e
    | inr e ↦ absurd (rw e at h)
  ]
    where
      absurd : false ≡ true → same_type l.notice_type r.notice_type ≡ true
      absurd q = cc

  pub shared-matched :
      (l r : CanonicalNotice Amount) (a b : Option (List F))
      → same_type l.notice_type r.notice_type ≡ true
      → shares_publication l r ≡ true
      → is_matched (same_tender u f a b l r) ≡ true
  unfolding same_tender
  shared-matched l r a b same shared = rw (same, shared) refl

  covers-merge :
      (t : NoticeType) (key : String) (a b : CanonicalNotice Amount)
      → same_type a.notice_type t ≡ true
      → (elem key (external_ids a) || elem key (external_ids b)) ≡ true
      → (same_type (merge a b).notice_type t && elem key (external_ids (merge a b))) ≡ true
  covers-merge t key a b h k =
      both (same_type (merge a b).notice_type t) (elem key (external_ids (merge a b)))
        (subst (λ t'. same_type t' t ≡ true) (sym (merge-notice_type a b)) h) (elem-merge a b key k)

  settle-is_covered :
      (c : Cluster Amount F) (cs placed : List (Cluster Amount F)) (n : CanonicalNotice Amount)
      (v : MatchVerdict F) (t : NoticeType) (key : String)
      → is_covered (c ∷ cs) t key ≡ true
      → (is_covered cs t key ≡ true → is_covered placed t key ≡ true)
      → is_covered (settle u f embeddings cluster_id_of c cs placed n v) t key ≡ true
  unfolding settle absorb
  settle-is_covered c cs placed n apart t key h k = ground arith
  settle-is_covered c cs placed n (matched reason x) t key h k =
      ground (arith, covers-merge t key c.canonical n)

  -- A cluster that covers a key does so after any notice is placed.
  pub place-is_covered :
      (clusters : List (Cluster Amount F)) (number : ℕ) (n : CanonicalNotice Amount)
      (t : NoticeType) (key : String)
      → is_covered clusters t key ≡ true
      → is_covered (place u f embeddings cluster_id_of clusters number n) t key ≡ true
  unfolding place
  place-is_covered [] number n t key h = cc
  place-is_covered (c ∷ cs) number n t key h =
      settle-is_covered c cs (place u f embeddings cluster_id_of cs number n) n
        (verdict_of u f embeddings cluster_id_of c n) t key h (place-is_covered cs number n t key)

  settle-new :
      (c : Cluster Amount F) (cs placed : List (Cluster Amount F)) (n : CanonicalNotice Amount)
      (v : MatchVerdict F) (key : String)
      → (is_matched v ≡ true → same_type c.canonical.notice_type n.notice_type ≡ true)
      → elem key (external_ids n) ≡ true
      → is_covered placed n.notice_type key ≡ true
      → is_covered (settle u f embeddings cluster_id_of c cs placed n v) n.notice_type key ≡ true
  unfolding settle absorb
  settle-new c cs placed n apart key same h k = ground arith
  settle-new c cs placed n (matched reason x) key same h k =
      ground (arith, covers-merge n.notice_type key c.canonical n (same refl))

  -- A notice that was placed is covered with every key of it.
  place-new :
      (clusters : List (Cluster Amount F)) (number : ℕ) (n : CanonicalNotice Amount) (key : String)
      → elem key (external_ids n) ≡ true
      → is_covered (place u f embeddings cluster_id_of clusters number n) n.notice_type key ≡ true
  unfolding place
  place-new [] number n key h = ground (arith, same_type_refl n.notice_type)
  place-new (c ∷ cs) number n key h =
      settle-new c cs (place u f embeddings cluster_id_of cs number n) n
        (verdict_of u f embeddings cluster_id_of c n) key
        (matched-same_type c.canonical n (embeddings (ref_key c.canonical.source_ref))
          (embeddings (ref_key n.source_ref)))
        h (place-new cs number n key h)

  cluster_from-is_covered :
      (clusters : List (Cluster Amount F)) (ns : List (CanonicalNotice Amount)) (t : NoticeType)
      (key : String)
      → is_covered clusters t key ≡ true
      → is_covered (cluster_from u f embeddings cluster_id_of clusters ns) t key ≡ true
  unfolding cluster_from
  cluster_from-is_covered clusters [] t key h = h
  cluster_from-is_covered clusters (n ∷ ns) t key h =
      cluster_from-is_covered (place u f embeddings cluster_id_of clusters (length clusters) n) ns t
        key (place-is_covered clusters (length clusters) n t key h)

  -- Every key of the notice has a cluster of its type that holds it.
  abbrev pub IsKept : List (Cluster Amount F) → CanonicalNotice Amount → Type 0
  IsKept clusters n = All (λ key. is_covered clusters n.notice_type key ≡ true) (external_ids n)

  place-IsKept :
      (clusters : List (Cluster Amount F)) (ns : List (CanonicalNotice Amount))
      (n : CanonicalNotice Amount)
      → IsKept (cluster_from u f embeddings cluster_id_of clusters (n ∷ ns)) n
  unfolding cluster_from
  place-IsKept clusters ns n =
      All-imp (λ key. elem key (external_ids n) ≡ true)
        (λ key.
          is_covered (cluster_from u f embeddings cluster_id_of clusters (n ∷ ns)) n.notice_type key
          ≡ true)
        (λ key h.
          cluster_from-is_covered (place u f embeddings cluster_id_of clusters (length clusters) n)
            ns n.notice_type key (place-new clusters (length clusters) n key h))
        (external_ids n) (HasKeys-refl (external_ids n))

  pub cluster_from-IsKept :
      (clusters : List (Cluster Amount F)) (ns : List (CanonicalNotice Amount))
      → All (IsKept (cluster_from u f embeddings cluster_id_of clusters ns)) ns
  unfolding cluster_from
  cluster_from-IsKept clusters [] = tt
  cluster_from-IsKept clusters (n ∷ ns) = (
    place-IsKept clusters ns n,
    cluster_from-IsKept (place u f embeddings cluster_id_of clusters (length clusters) n) ns,
  )

  settle-notices_in :
      (c : Cluster Amount F) (cs placed : List (Cluster Amount F)) (n : CanonicalNotice Amount)
      (v : MatchVerdict F)
      → notices_in placed ≡ suc (notices_in cs)
      → notices_in (settle u f embeddings cluster_id_of c cs placed n v) ≡ suc (notices_in (c ∷ cs))
  unfolding settle absorb
  settle-notices_in c cs placed n apart h = omega arith
  settle-notices_in c cs placed n (matched reason x) h =
      omega (arith, length-append c.merged_from (_ ∷ []))

  place-notices_in :
      (clusters : List (Cluster Amount F)) (number : ℕ) (n : CanonicalNotice Amount)
      → notices_in (place u f embeddings cluster_id_of clusters number n)
        ≡ suc (notices_in clusters)
  unfolding place
  place-notices_in [] number n = refl
  place-notices_in (c ∷ cs) number n =
      settle-notices_in c cs (place u f embeddings cluster_id_of cs number n) n
        (verdict_of u f embeddings cluster_id_of c n) (place-notices_in cs number n)

  cluster_from-notices_in :
      (clusters : List (Cluster Amount F)) (ns : List (CanonicalNotice Amount))
      → notices_in (cluster_from u f embeddings cluster_id_of clusters ns)
        ≡ notices_in clusters + length ns
  unfolding cluster_from
  cluster_from-notices_in clusters [] = omega arith
  cluster_from-notices_in clusters (n ∷ ns) = omega (
    arith,
    cluster_from-notices_in (place u f embeddings cluster_id_of clusters (length clusters) n) ns,
    place-notices_in clusters (length clusters) n,
  )

  -- No notice of a batch is lost: the clusters hold as many notices as came in, as first members or in
  -- their lists of merged notices, and every source reference of every notice is one of a cluster of
  -- the notice's type.
  pub cluster_notices-IsKept :
      (ns : List (CanonicalNotice Amount))
      → (notices_in (cluster_notices u f embeddings cluster_id_of ns) ≡ length ns)
        × All (IsKept (cluster_notices u f embeddings cluster_id_of ns)) ns
  unfolding cluster_notices
  cluster_notices-IsKept ns =
      (omega (arith, cluster_from-notices_in [] ns), cluster_from-IsKept [] ns)
