-- ===== src/Dedupe/Replay.antt =====
-- A batch that is read again (dedupe.py: `cluster_notices`, rule 0 of `same_tender`).
use bid_pilot.Prelude.{
  ℕ, suc, ◌≡◌, refl, true, false, arith, String, Option, List, [], ◌∷◌, ◌++◌, elem, All, All-imp,
  length, eq_refl, ap, ◌∙◌,
}
use bid_pilot.Canonical.{CanonicalNotice}
use bid_pilot.Dedupe.Names.{Unicode}
use bid_pilot.Dedupe.Similar.{Floats}
use bid_pilot.Dedupe.Verdict.{MatchVerdict, apart, matched, is_matched, external_ids, ref_key}
use bid_pilot.Dedupe.Kept.{
  any-elem, shared-matched, place-is_covered, cluster_from-IsKept, is_covered, covers, IsKept,
}
use bid_pilot.Dedupe.Clusters.{Cluster, settle, place, cluster_from, cluster_notices, verdict_of}

module _ {Amount F : Type 0} (u : Unicode) (f : Floats F) (embeddings : String → Option (List F))
    (cluster_id_of : ℕ → String) where
  -- Some cluster has the notice's own publication.
  abbrev pub IsKnown : List (Cluster Amount F) → CanonicalNotice Amount → Type 0
  IsKnown clusters n = is_covered clusters n.notice_type (ref_key n.source_ref) ≡ true

  covers-matched :
      (c : Cluster Amount F) (n : CanonicalNotice Amount)
      → covers n.notice_type (ref_key n.source_ref) c ≡ true
      → is_matched (verdict_of u f embeddings cluster_id_of c n) ≡ true
  covers-matched c n h =
      shared-matched u f embeddings cluster_id_of c.canonical n
        (embeddings (ref_key c.canonical.source_ref)) (embeddings (ref_key n.source_ref))
        (ground arith)
        (any-elem (λ key. elem key (external_ids n)) (ref_key n.source_ref)
          (external_ids c.canonical) (ground arith)
          (ground (arith, eq_refl (ref_key n.source_ref))))

  settle-length :
      (c : Cluster Amount F) (cs placed : List (Cluster Amount F)) (n : CanonicalNotice Amount)
      (v : MatchVerdict F)
      → (is_matched v ≡ false → length placed ≡ length cs)
      → length (settle u f embeddings cluster_id_of c cs placed n v) ≡ length (c ∷ cs)
  unfolding settle
  settle-length c cs placed n apart k = ap suc (k refl)
  settle-length c cs placed n (matched reason x) k = refl

  place-length :
      (clusters : List (Cluster Amount F)) (number : ℕ) (n : CanonicalNotice Amount)
      → IsKnown clusters n
      → length (place u f embeddings cluster_id_of clusters number n) ≡ length clusters
  unfolding place
  place-length [] number n h = cc
  place-length (c ∷ cs) number n h =
      settle-length c cs (place u f embeddings cluster_id_of cs number n) n
        (verdict_of u f embeddings cluster_id_of c n)
        (λ e. place-length cs number n (ground (arith, covers-matched c n)))

  cluster_from-length :
      (clusters : List (Cluster Amount F)) (ms : List (CanonicalNotice Amount))
      → All (IsKnown clusters) ms
      → length (cluster_from u f embeddings cluster_id_of clusters ms) ≡ length clusters
  unfolding cluster_from
  cluster_from-length clusters [] h = refl
  cluster_from-length clusters (m ∷ ms) h =
      cluster_from-length (place u f embeddings cluster_id_of clusters (length clusters) m) ms (
        All-imp (IsKnown clusters)
          (IsKnown (place u f embeddings cluster_id_of clusters (length clusters) m))
          (λ n k.
            place-is_covered u f embeddings cluster_id_of clusters (length clusters) m n.notice_type
              (ref_key n.source_ref) k)
          ms h.1)
      ∙ place-length clusters (length clusters) m h.0

  cluster_from-append :
      (clusters : List (Cluster Amount F)) (ns ms : List (CanonicalNotice Amount))
      → cluster_from u f embeddings cluster_id_of clusters (ns ++ ms)
        ≡ cluster_from u f embeddings cluster_id_of
            (cluster_from u f embeddings cluster_id_of clusters ns)
            ms
  unfolding cluster_from
  cluster_from-append clusters [] ms = refl
  cluster_from-append clusters (n ∷ ns) ms =
      cluster_from-append (place u f embeddings cluster_id_of clusters (length clusters) n) ns ms

  -- A batch that is read twice gives as many clusters as read once.
  pub cluster_notices-again :
      (ns : List (CanonicalNotice Amount))
      → length (cluster_notices u f embeddings cluster_id_of (ns ++ ns))
        ≡ length (cluster_notices u f embeddings cluster_id_of ns)
  unfolding cluster_notices
  cluster_notices-again ns =
      ap length (cluster_from-append [] ns ns)
      ∙ cluster_from-length (cluster_from u f embeddings cluster_id_of [] ns) ns (
          All-imp
            (IsKept u f embeddings cluster_id_of (cluster_from u f embeddings cluster_id_of [] ns))
            (IsKnown (cluster_from u f embeddings cluster_id_of [] ns)) (λ n k. k.0) ns
            (cluster_from-IsKept u f embeddings cluster_id_of [] ns))
