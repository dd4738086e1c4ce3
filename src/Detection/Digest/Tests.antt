-- ===== src/Detection/Digest/Tests.antt =====
-- A window with a shown detector, one without RCA and one without findings.

use traceroot.Detection.Run.{Detector, Text}
use traceroot.Billing.Plans.{PlanType}
use traceroot.Detection.Digest.{
  flush_digest, fan_out, DigestEntry, DigestProject, flush_for, send_digest, WindowCount,
}
use traceroot.Detection.Digest.Counts.{IsDigestOf, digest_sent_iff}
use traceroot.Prelude.{true, none, false, List, refl, length, ◌∷◌, some, Option, ◌≡◌, []}

abbrev table : List Detector
table =
    record { id = 1; name = 97 ∷ []; enabled = true; enable_rca = true }
    ∷ record { id = 2; name = 98 ∷ []; enabled = true; enable_rca = false }
    ∷ record { id = 3; name = 99 ∷ []; enabled = true; enable_rca = true }
    ∷ []

abbrev counts : List WindowCount
counts =
    record { detector_id = 1; finding_count = 4; sample_trace_ids = 50 ∷ 49 ∷ [] }
    ∷ record { detector_id = 2; finding_count = 7; sample_trace_ids = [] }
    ∷ record { detector_id = 3; finding_count = 0; sample_trace_ids = [] }
    ∷ []

abbrev project : DigestProject
project = record {
  alert_emails = 5 ∷ [];
  alert_channel = none;
  workspace_channel = some 8;
  bot_token = some 6;
  billing_plan = PlanType.free;
  rca_blocked = true;
}

abbrev no_text : List DigestEntry → Option Text
no_text entries = none

flush_result : length (flush_digest false no_text table counts (some project)).sent ≡ 2
unfolding flush_digest flush_for send_digest fan_out
flush_result = refl

digest_sent_iff_example :
    IsDigestOf false no_text table counts project true
      (flush_digest false no_text table counts (some project))
digest_sent_iff_example = digest_sent_iff false no_text table counts project
