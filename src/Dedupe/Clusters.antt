-- ===== src/Dedupe/Clusters.antt =====
-- The clusters of a batch (dedupe.py: `Cluster`, `cluster_notices`).
use bid_pilot.Prelude.{ℕ, ◌+◌, String, Option, List, [], ◌∷◌, ◌++◌, length, if◌then◌else◌}
use bid_pilot.Canonical.{CanonicalNotice}
use bid_pilot.Dedupe.Names.{Unicode}
use bid_pilot.Dedupe.Similar.{Floats}
use bid_pilot.Dedupe.Verdict.{MatchReason, MatchVerdict, apart, matched, ref_key, same_tender}
use bid_pilot.Dedupe.Merge.{merge}

pub record MergedFrom (F : Type 0) : Type 0 where
  pub source : String
  pub external_id : String
  pub reason : MatchReason
  pub confidence : F

pub record Cluster (Amount F : Type 0) : Type 0 where
  pub cluster_id : String
  pub canonical : CanonicalNotice Amount
  pub confidence : F
  pub merged_from : List (MergedFrom F)

-- `min(confidence, verdict.confidence or 1.0)`
unfoldable pub lower_confidence : {F : Type 0} → Floats F → F → F → F
lower_confidence f confidence given =
    let counted = if f.equal given (f.ratio 0 1) then f.ratio 1 1 else given in
    if f.lt counted confidence then counted else confidence

-- `embeddings` by the key of a notice, and `cluster_id_of` the text of a cluster's number.
module _ {Amount F : Type 0} (u : Unicode) (f : Floats F) (embeddings : String → Option (List F))
    (cluster_id_of : ℕ → String) where
  unfoldable pub absorb :
      MatchReason → F → CanonicalNotice Amount → Cluster Amount F → Cluster Amount F
  unfolding lower_confidence
  absorb reason confidence n c = record c {
    canonical = merge c.canonical n;
    merged_from =
        c.merged_from
        ++ record {
          source = n.source_ref.source;
          external_id = n.source_ref.external_id;
          reason = reason;
          confidence = confidence;
        }
          ∷ [];
    confidence = lower_confidence f c.confidence confidence;
  }

  abbrev pub verdict_of : Cluster Amount F → CanonicalNotice Amount → MatchVerdict F
  verdict_of c n =
      same_tender u f (embeddings (ref_key c.canonical.source_ref))
        (embeddings (ref_key n.source_ref)) c.canonical n

  -- A new cluster; `number` clusters are before it.
  abbrev pub fresh : ℕ → CanonicalNotice Amount → Cluster Amount F
  fresh number n = record {
    cluster_id = cluster_id_of (number + 1);
    canonical = n;
    confidence = f.ratio 1 1;
    merged_from = [];
  }

  -- The clusters from one on, which has the verdict, with a notice placed among them.
  unfoldable pub settle :
      Cluster Amount F
      → List (Cluster Amount F)
      → List (Cluster Amount F)
      → CanonicalNotice Amount
      → MatchVerdict F
      → List (Cluster Amount F)
  unfolding absorb
  settle c cs placed n apart = c ∷ placed
  settle c cs placed n (matched reason confidence) = absorb reason confidence n c ∷ cs

  -- The inner loop; `number` is the number of all clusters.
  unfoldable pub place :
      List (Cluster Amount F) → ℕ → CanonicalNotice Amount → List (Cluster Amount F)
  unfolding settle
  place [] number n = fresh number n ∷ []
  place (c ∷ cs) number n = settle c cs (place cs number n) n (verdict_of c n)

  unfoldable pub cluster_from :
      List (Cluster Amount F) → List (CanonicalNotice Amount) → List (Cluster Amount F)
  unfolding place
  cluster_from clusters [] = clusters
  cluster_from clusters (n ∷ ns) = cluster_from (place clusters (length clusters) n) ns

  unfoldable pub cluster_notices : List (CanonicalNotice Amount) → List (Cluster Amount F)
  unfolding cluster_from
  cluster_notices ns = cluster_from [] ns
