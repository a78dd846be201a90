-- ===== src/Cbom/Agility/Evaluation.antt =====
-- crates/qw-cbom/src/agility.rs: the evaluation of a policy.
use quanta_watch.Prelude.{
  ℕ, zero, suc, ◌-◌, ◌/◌, Text, codes, has_item, Bool, false, not, ◌&&◌, none, some, List, [], ◌∷◌,
  ◌++◌, map, length, leb, ltb, if◌then◌else◌,
}
use quanta_watch.Gateway.CryptoPolicy.{to_string}
use quanta_watch.Scanner.{FindingRecord, category_name, severity_name}
use quanta_watch.Cbom.Agility.{
  CryptoAgilityPolicy, AssetContext, Violation, ℤ, pos, negsuc, PolicyResult, or_else, is_empty,
  selector_matches, match_matches,
}

unfoldable pub fingerprint : FindingRecord → Text
unfolding category_name
fingerprint f =
    f.location ++ (b'|' ∷ category_name f.category ++ (b'|' ∷ or_else f.algorithm (codes "-")))

unfoldable pub violation : FindingRecord → Violation
unfolding category_name to_string severity_name fingerprint
violation f = record {
  finding_id = f.id;
  location = f.location;
  category = category_name f.category;
  pqc_status = to_string f.pqc_status;
  severity = severity_name f.severity;
  algorithm = f.algorithm;
  fingerprint = fingerprint f;
}

unfoldable pub violates : CryptoAgilityPolicy → List AssetContext → FindingRecord → Bool
unfolding selector_matches match_matches
violates policy assets f =
    selector_matches policy.selector f assets && match_matches policy.match_ f

-- The loop over the findings, with the fingerprints that were seen.
unfoldable pub collect :
    CryptoAgilityPolicy → List AssetContext → List FindingRecord → List Text → List Violation
unfolding violates has_item fingerprint violation
collect policy assets [] seen = []
collect policy assets (f ∷ findings) seen =
    let skipped = collect policy assets findings seen in
    let kept = violation f ∷ collect policy assets findings (fingerprint f ∷ seen) in
    if violates policy assets f && not (has_item seen (fingerprint f)) then kept else skipped

abbrev day : ℕ
day = 86_400_000_000_000

abbrev negative : ℕ → ℤ
negative zero = pos 0
negative (suc n) = negsuc n

-- `num_days` of the difference, which is cut towards zero.
unfoldable pub days_between : ℕ → ℕ → ℤ
days_between now d = if leb now d then pos ((d - now) / day) else negative ((now - d) / day)

unfoldable pub evaluate_policy :
    CryptoAgilityPolicy → List FindingRecord → List AssetContext → ℕ → PolicyResult
unfolding collect days_between
evaluate_policy policy findings assets now =
    let violations = collect policy assets findings [] in
    record {
      id = policy.id;
      name = policy.name;
      description = policy.description;
      severity = policy.severity;
      action = policy.action;
      enforcement = policy.enforcement;
      status = if is_empty violations then codes "compliant" else codes "violated";
      violation_count = length violations;
      violations = violations;
      deadline = policy.deadline;
      days_to_deadline = elim policy.deadline [ none ↦ none | some d ↦ some (days_between now d) ];
      deadline_passed = elim policy.deadline [ none ↦ false | some d ↦ ltb d now ];
    }

unfoldable pub fingerprints : PolicyResult → List Text
fingerprints r = map (λ v. v.fingerprint) r.violations

unfoldable pub evaluate_all :
    List CryptoAgilityPolicy → List FindingRecord → List AssetContext → ℕ → List PolicyResult
unfolding evaluate_policy
evaluate_all policies findings assets now =
    map (λ p. evaluate_policy p findings assets now) policies
