-- ===== src/Monitor.antt =====
-- crates/qw-monitor/src/types.rs and lib.rs: the assessment of a prompt or a response from what the
-- detectors report. A detector is a parameter, a function from a text to its threats. The confidence
-- of a threat, an `f64` that nothing here computes with, stands as its bits.
pub mod Assessment
use quanta_watch.Prelude.{
  ℕ, Text, Bool, true, false, Option, none, some, List, [], ◌∷◌, ◌++◌, leb, max, map, if◌then◌else◌,
}

pub data Severity : Type 0 where
  no_severity low medium high critical : Severity

-- The derived order.
unfoldable pub severity_rank : Severity → ℕ
severity_rank no_severity = 0
severity_rank low = 1
severity_rank medium = 2
severity_rank high = 3
severity_rank critical = 4

pub data ThreatCategory : Type 0 where
  prompt_injection system_prompt_extraction data_exfiltration pii_exposure jailbreak_attempt
        dangerous_output :
      ThreatCategory

pub record DetectedThreat : Type 0 where
  pub category : ThreatCategory
  pub pattern_name : Text
  pub description : Text
  pub matched_text : Text
  pub severity : Severity
  pub confidence : ℕ

pub record ThreatAssessment : Type 0 where
  pub threats : List DetectedThreat
  pub severity : Severity
  pub should_block : Bool

unfoldable pub clean : ThreatAssessment
clean = record { threats = []; severity = no_severity; should_block = false }

-- `Iterator::max`, of two: the later where they are equal.
unfoldable pub later_max : Severity → Severity → Severity
unfolding severity_rank
later_max a b = if leb (severity_rank a) (severity_rank b) then b else a

unfoldable pub max_severity : Severity → List DetectedThreat → Severity
unfolding later_max
max_severity s [] = s
max_severity s (t ∷ threats) = max_severity (later_max s t.severity) threats

unfoldable pub from_threats : List DetectedThreat → Severity → ThreatAssessment
unfolding clean max_severity severity_rank
from_threats [] blocking_threshold = clean
from_threats (t ∷ threats) blocking_threshold =
    let severity = max_severity t.severity threats in
    record {
      threats = t ∷ threats;
      severity = severity;
      should_block = leb (severity_rank blocking_threshold) (severity_rank severity);
    }

abbrev pub Detector : Type 0
Detector = Text → List DetectedThreat

pub record SecurityMonitor : Type 0 where
  pub injection : Detector
  pub exfiltration : Detector
  pub pii : Detector
  pub heuristics : Detector
  pub semantic : Option Detector
  pub blocking_threshold : Severity

-- A scan by a detector that may be absent, or of a text that may be.
abbrev pub scan_by : Option Detector → Detector
scan_by none text = []
scan_by (some d) text = d text

abbrev pub scan_some : Detector → Option Text → List DetectedThreat
scan_some d none = []
scan_some d (some text) = d text

unfoldable pub request_threats : SecurityMonitor → Text → Option Text → List DetectedThreat
request_threats m text system =
    m.injection text
    ++ (scan_some m.injection system
        ++ (m.pii text
            ++ (m.heuristics text
                ++ (scan_by m.semantic text ++ scan_some (scan_by m.semantic) system))))

unfoldable pub scan_request : SecurityMonitor → Text → Option Text → ThreatAssessment
unfolding request_threats from_threats
scan_request m text system = from_threats (request_threats m text system) m.blocking_threshold

unfoldable pub response_threats : SecurityMonitor → Text → List DetectedThreat
response_threats m text =
    m.exfiltration text ++ (m.pii text ++ (m.heuristics text ++ scan_by m.semantic text))

unfoldable pub scan_response : SecurityMonitor → Text → ThreatAssessment
unfolding response_threats from_threats
scan_response m text = from_threats (response_threats m text) m.blocking_threshold
