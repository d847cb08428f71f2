-- ===== src/Examples/DedupeRuns.antt =====
-- Runs of the canonical notice's validators and of the deduplication. Floating-point numbers are
-- counted in thousandths here, and all texts are ASCII in lower case.
use bid_pilot.Prelude.{
  ℕ, ◌+◌, ◌-◌, ◌*◌, ◌/◌, ◌≡◌, refl, false, String, Option, none, some, List, [], ◌∷◌, ◌++◌, ltb,
  leb, ◌==◌, length, All, ◌⊎◌, arith, ◌&&◌,
}
use bid_pilot.Scheduler.Text.{codes, strip, str, is_digit}
use bid_pilot.Canonical.{CanonicalNotice, same_type, siren_effective}
use bid_pilot.Canonical.Clean.{
  Text, Characters, clean_cpv, clean_nuts, is_region, is_cpv, cpv_digits, clean_from, same_text,
}
use bid_pilot.Canonical.Texts.{IsDistinct}
use bid_pilot.Canonical.Stable.{IsClean, clean_cpv-stable}
use bid_pilot.Matching.Filters.{starts_with}
use bid_pilot.Dedupe.Names.{
  Unicode, normalize_text, strip_noise, normalize_buyer_name, strip_accents, spaced, is_alnum,
  without_suffix, left_of, cut_prefix, cut_suffix, sweep, buyer_noise,
}
use bid_pilot.Dedupe.Core.{IsCore, normalize_buyer_name-IsCore}
use bid_pilot.Dedupe.Similar.{Floats, trigram_similarity, trigrams, windows, distinct_from}
use bid_pilot.Dedupe.Verdict.{
  matched, cross_reference, buyer_deadline_title, same_tender, within, same_key, name_key,
  buyer_key, cross_references, title_confidence, embedding_verdict,
}
use bid_pilot.Dedupe.Symmetric.{same_tender_comm}
use bid_pilot.Dedupe.Merge.{merge}
use bid_pilot.Dedupe.Merged.{Absorbed, merge-Absorbed}
use bid_pilot.Dedupe.Clusters.{cluster_notices, cluster_from, place, settle}
use bid_pilot.Dedupe.Kept.{notices_in, IsKept, cluster_notices-IsKept}
use bid_pilot.Dedupe.Replay.{cluster_notices-again}
use bid_pilot.Examples.Notices.{notice_of_boamp, notice_of_ted}

program : Unit {0}
unfolding normalize_text strip_noise normalize_buyer_name strip_accents spaced is_alnum
    without_suffix left_of cut_prefix cut_suffix sweep trigram_similarity trigrams windows
    distinct_from same_tender within same_key name_key buyer_key cross_references title_confidence
    embedding_verdict starts_with strip same_text same_type siren_effective is_digit str
    cluster_notices cluster_from place settle clean_cpv clean_nuts is_region clean_from
program = tt

abbrev same : Text → Text
same cs = cs

abbrev pub ascii : Unicode
ascii = record { nfkd = same; is_combining = λ c. false; lower = same; upper = same; strip = strip }

abbrev characters : Characters
characters = record {
  is_digit = is_digit;
  is_alpha = λ c. leb 65 c && leb c 90;
  upper = same;
  strip = strip;
}

unfoldable pub sum_from : ℕ → List ℕ → ℕ
sum_from acc [] = acc
sum_from acc (x ∷ xs) = sum_from (acc + x) xs

abbrev pub thousandths : Floats ℕ
thousandths = record {
  ratio = λ a b. a * 1000 / b;
  add = λ a b. a + b;
  sub = λ a b. a - b;
  mul = λ a b. a * b / 1000;
  div = λ a b. a * 1000 / b;
  neg = λ a. 0;
  root = λ a. a;
  lt = ltb;
  le = leb;
  equal = λ a b. a == b;
  round3 = λ a. a;
  sum = sum_from 0;
}

abbrev no_embeddings : String → Option (List ℕ)
no_embeddings key = none

cleaned :
    (clean_cpv characters (codes "72212000-4" ∷ codes "x" ∷ codes "72212000" ∷ [])
      ≡ codes "72212000" ∷ [])
    × (clean_nuts characters (codes " FRK26" ∷ codes "FRA" ∷ codes "FR" ∷ [])
        ≡ codes "FRK26" ∷ codes "FR" ∷ [])
    × (normalize_buyer_name ascii (some (codes "ville de lyon")) ≡ some (codes "lyon"))
    × (normalize_buyer_name ascii (some (codes "chu")) ≡ some (codes "chu"))
unfolding program
cleaned = (refl, refl, refl, refl)

verdicts :
    (same_tender ascii thousandths none none notice_of_boamp notice_of_ted
      ≡ matched buyer_deadline_title 1000)
    × (same_tender ascii thousandths none none notice_of_boamp notice_of_boamp
        ≡ matched cross_reference 1000)
unfolding program
verdicts = (refl, refl)

clustered :
    length
      (cluster_notices ascii thousandths no_embeddings str (notice_of_boamp ∷ notice_of_ted ∷ []))
    ≡ 1
unfolding program
clustered = refl

clean_cpv-stable_example :
    (clean_cpv characters (clean_cpv characters (codes "72212000-4" ∷ []))
      ≡ clean_cpv characters (codes "72212000-4" ∷ []))
    × All
        (IsClean (cpv_digits characters) (is_cpv characters))
        (clean_cpv characters (codes "72212000-4" ∷ []))
    × IsDistinct (clean_cpv characters (codes "72212000-4" ∷ []))
clean_cpv-stable_example = clean_cpv-stable characters (codes "72212000-4" ∷ [])

normalize_buyer_name-IsCore_example :
    (out : Text) × (normalize_buyer_name ascii (some (codes "ville de lyon")) ≡ some out)
    × (((normalize_text ascii (some (codes "ville de lyon")) ≡ []) × (out ≡ []))
        ⊎ IsCore buyer_noise (normalize_text ascii (some (codes "ville de lyon"))) out)
normalize_buyer_name-IsCore_example =
    normalize_buyer_name-IsCore ascii (some (codes "ville de lyon"))

times_comm : (x y : ℕ) → x * y / 1000 ≡ y * x / 1000
times_comm x y = ground arith

same_tender_comm_example :
    same_tender ascii thousandths none none notice_of_boamp notice_of_ted
    ≡ same_tender ascii thousandths none none notice_of_ted notice_of_boamp
same_tender_comm_example =
    same_tender_comm thousandths times_comm ascii none none notice_of_boamp notice_of_ted

merge-Absorbed_example :
    Absorbed notice_of_boamp notice_of_ted (merge notice_of_boamp notice_of_ted)
merge-Absorbed_example = merge-Absorbed notice_of_boamp notice_of_ted

abbrev batch : List (CanonicalNotice ℕ)
batch = notice_of_boamp ∷ notice_of_ted ∷ []

cluster_notices-IsKept_example :
    (notices_in (cluster_notices ascii thousandths no_embeddings str batch) ≡ length batch)
    × All
        (IsKept ascii thousandths no_embeddings str
          (cluster_notices ascii thousandths no_embeddings str batch))
        batch
cluster_notices-IsKept_example = cluster_notices-IsKept ascii thousandths no_embeddings str batch

cluster_notices-again_example :
    length (cluster_notices ascii thousandths no_embeddings str (batch ++ batch))
    ≡ length (cluster_notices ascii thousandths no_embeddings str batch)
cluster_notices-again_example = cluster_notices-again ascii thousandths no_embeddings str batch
