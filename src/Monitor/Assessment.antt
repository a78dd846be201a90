-- ===== src/Monitor/Assessment.antt =====
-- crates/qw-monitor/src/types.rs and lib.rs: which prompts and responses are blocked.
use quanta_watch.Prelude.{
  ℕ, ◌≤◌, ◌≡◌, ◌↔◌, ◌⊎◌, refl, sym, ap, le→leb, Bool-cases, inl, inr, In, In-append, Text, true,
  Option, List, [], ◌∷◌, ◌++◌, leb, arith,
}
use quanta_watch.Monitor.{
  Severity, severity_rank, DetectedThreat, later_max, max_severity, from_threats, SecurityMonitor,
  scan_by, scan_some, request_threats, scan_request, response_threats, scan_response,
}

-- Some threat of the list is at least as severe as the threshold.
abbrev pub Reaches : Severity → List DetectedThreat → Type 0
Reaches threshold threats =
    (t : DetectedThreat) × (In t threats × (severity_rank threshold ≤ severity_rank t.severity))

later_max-is : (a b : Severity) → (later_max a b ≡ a) ⊎ (later_max a b ≡ b)
unfolding later_max
later_max-is a b = elim (Bool-cases (leb (severity_rank a) (severity_rank b))) [
  | inl e ↦ inr (rw e refl)
  | inr e ↦ inl (rw e refl)
]

later_max-ge :
    (a b : Severity)
    → (severity_rank a ≤ severity_rank (later_max a b))
      × (severity_rank b ≤ severity_rank (later_max a b))
unfolding later_max
later_max-ge a b = (ground arith, ground arith)

max-or-some :
    (bound : ℕ) (s : Severity) (threats : List DetectedThreat)
    → bound ≤ severity_rank (max_severity s threats)
    → (bound ≤ severity_rank s)
      ⊎ ((t : DetectedThreat) × (In t threats × (bound ≤ severity_rank t.severity)))
unfolding max_severity later_max
max-or-some bound s [] h = inl h
max-or-some bound s (t ∷ threats) h = elim (max-or-some bound (later_max s t.severity) threats h) [
  | inl q ↦ elim (later_max-is s t.severity) [
    | inl e ↦ inl (rw (sym e) q)
    | inr e ↦ inr (t, (inl refl, rw (sym e) q))
  ]
  | inr (u, (i, q)) ↦ inr (u, (inr i, q))
]

max-ge :
    (s : Severity) (threats : List DetectedThreat)
    → severity_rank s ≤ severity_rank (max_severity s threats)
unfolding max_severity
max-ge s [] = omega arith
max-ge s (t ∷ threats) =
    omega (arith, max-ge (later_max s t.severity) threats, (later_max-ge s t.severity).0)

max-ge-In :
    (s : Severity) (threats : List DetectedThreat) (t : DetectedThreat)
    → In t threats
    → severity_rank t.severity ≤ severity_rank (max_severity s threats)
unfolding max_severity
max-ge-In s [] t i = elim i [ ]
max-ge-In s (u ∷ threats) t (inl e) =
    rw e (omega (arith, max-ge (later_max s u.severity) threats, (later_max-ge s u.severity).1))
max-ge-In s (u ∷ threats) t (inr i) = max-ge-In (later_max s u.severity) threats t i

from_threats-blocks :
    (threats : List DetectedThreat) (threshold : Severity)
    → ((from_threats threats threshold).should_block ≡ true) ↔ Reaches threshold threats
unfolding from_threats
from_threats-blocks [] threshold = (λ h. cc, λ (t, (i, q)). elim i [ ])
from_threats-blocks (u ∷ threats) threshold = (
  λ h. elim (max-or-some (severity_rank threshold) u.severity threats (ground arith)) [
    | inl q ↦ (u, (inl refl, q))
    | inr (t, (i, q)) ↦ (t, (inr i, q))
  ],
  λ (t, (i, q)).
      let top = max-ge u.severity threats in
      elim i [
        | inl e ↦
            let p : severity_rank t.severity ≡ severity_rank u.severity =
              ap (λ z. severity_rank z.severity) e in
            le→leb _ _ (omega (arith, p, q, top))
        | inr j ↦ le→leb _ _ (omega (arith, q, max-ge-In u.severity threats t j))
      ],
)

Reaches-left :
    (threshold : Severity) (l m : List DetectedThreat)
    → Reaches threshold l
    → Reaches threshold (l ++ m)
Reaches-left threshold l m (t, (i, q)) = (t, (In-append t l m (inl i), q))

Reaches-right :
    (threshold : Severity) (l m : List DetectedThreat)
    → Reaches threshold m
    → Reaches threshold (l ++ m)
Reaches-right threshold l m (t, (i, q)) = (t, (In-append t l m (inr i), q))

In-split : (t : DetectedThreat) (l m : List DetectedThreat) → In t (l ++ m) → In t l ⊎ In t m
In-split t [] m i = inr i
In-split t (u ∷ l) m (inl e) = inl (inl e)
In-split t (u ∷ l) m (inr i) = elim (In-split t l m i) [ inl j ↦ inl (inr j) | inr j ↦ inr j ]

Reaches-append :
    (threshold : Severity) (l m : List DetectedThreat)
    → Reaches threshold (l ++ m)
    → Reaches threshold l ⊎ Reaches threshold m
Reaches-append threshold l m (t, (i, q)) = elim (In-split t l m i) [
  | inl j ↦ inl (t, (j, q))
  | inr j ↦ inr (t, (j, q))
]

-- One of the reports reaches the threshold.
abbrev pub Any : Severity → List (List DetectedThreat) → Type 0
Any threshold [] = ⊥
Any threshold (l ∷ reports) = Reaches threshold l ⊎ Any threshold reports

abbrev pub joined : List (List DetectedThreat) → List DetectedThreat
joined [] = []
joined (l ∷ []) = l
joined (l ∷ m ∷ reports) = l ++ joined (m ∷ reports)

joined-Any :
    (threshold : Severity) (reports : List (List DetectedThreat))
    → Reaches threshold (joined reports)
    → Any threshold reports
joined-Any threshold [] (t, (i, q)) = i
joined-Any threshold (l ∷ []) h = inl h
joined-Any threshold (l ∷ m ∷ reports) h =
    elim (Reaches-append threshold l (joined (m ∷ reports)) h) [
      | inl r ↦ inl r
      | inr r ↦ inr (joined-Any threshold (m ∷ reports) r)
    ]

Any-joined :
    (threshold : Severity) (reports : List (List DetectedThreat))
    → Any threshold reports
    → Reaches threshold (joined reports)
Any-joined threshold [] h = elim h [ ]
Any-joined threshold (l ∷ []) (inl r) = r
Any-joined threshold (l ∷ []) (inr r) = elim r [ ]
Any-joined threshold (l ∷ m ∷ reports) (inl r) = Reaches-left threshold l (joined (m ∷ reports)) r
Any-joined threshold (l ∷ m ∷ reports) (inr r) =
    Reaches-right threshold l (joined (m ∷ reports)) (Any-joined threshold (m ∷ reports) r)

reports-block :
    (reports : List (List DetectedThreat)) (threshold : Severity)
    → ((from_threats (joined reports) threshold).should_block ≡ true) ↔ Any threshold reports
reports-block reports threshold =
    let blocks = from_threats-blocks (joined reports) threshold in
    (λ h. joined-Any threshold reports (blocks.0 h), λ r. blocks.1 (Any-joined threshold reports r))

abbrev pub request_reports : SecurityMonitor → Text → Option Text → List (List DetectedThreat)
request_reports m text system =
    m.injection text
    ∷ scan_some m.injection system
    ∷ m.pii text
    ∷ m.heuristics text
    ∷ scan_by m.semantic text
    ∷ scan_some (scan_by m.semantic) system
    ∷ []

abbrev pub response_reports : SecurityMonitor → Text → List (List DetectedThreat)
response_reports m text =
    m.exfiltration text ∷ m.pii text ∷ m.heuristics text ∷ scan_by m.semantic text ∷ []

-- A prompt is blocked exactly when the injection detector or the trained one, on the prompt or on the
-- system prompt, or the detector of personal data or the heuristics, on the prompt, report a threat that
-- is at least as severe as the monitor's threshold.
pub scan_request-blocks :
    (m : SecurityMonitor) (text : Text) (system : Option Text)
    → ((scan_request m text system).should_block ≡ true)
      ↔ Any m.blocking_threshold (request_reports m text system)
unfolding scan_request request_threats
scan_request-blocks m text system =
    reports-block (request_reports m text system) m.blocking_threshold

-- A response is blocked exactly when one of the four detectors reports a threat in it that is at least
-- as severe as the monitor's threshold.
pub scan_response-blocks :
    (m : SecurityMonitor) (text : Text)
    → ((scan_response m text).should_block ≡ true)
      ↔ Any m.blocking_threshold (response_reports m text)
unfolding scan_response response_threats
scan_response-blocks m text = reports-block (response_reports m text) m.blocking_threshold
