-- ===== src/Tests/Monitor.antt =====
-- crates/qw-monitor/src: detectors that report one threat in every text, or none.
use quanta_watch.Prelude.{◌≡◌, ◌↔◌, codes, true, none, [], ◌∷◌}
use quanta_watch.Monitor.{
  Severity, ThreatCategory, Detector, SecurityMonitor, scan_request, scan_response,
}
use quanta_watch.Monitor.Assessment.{
  Any, request_reports, response_reports, scan_request-blocks, scan_response-blocks,
}

abbrev alarm : Detector
alarm text =
    record {
      category = ThreatCategory.prompt_injection;
      pattern_name = codes "p";
      description = [];
      matched_text = text;
      severity = Severity.high;
      confidence = 0;
    }
    ∷ []

abbrev quiet : Detector
quiet text = []

abbrev monitor : SecurityMonitor
monitor = record {
  injection = alarm;
  exfiltration = alarm;
  pii = quiet;
  heuristics = quiet;
  semantic = none;
  blocking_threshold = Severity.high;
}

scan_request-blocks_example :
    ((scan_request monitor (codes "hi") none).should_block ≡ true)
    ↔ Any Severity.high (request_reports monitor (codes "hi") none)
scan_request-blocks_example = scan_request-blocks monitor (codes "hi") none

scan_response-blocks_example :
    ((scan_response monitor (codes "hi")).should_block ≡ true)
    ↔ Any Severity.high (response_reports monitor (codes "hi"))
scan_response-blocks_example = scan_response-blocks monitor (codes "hi")
