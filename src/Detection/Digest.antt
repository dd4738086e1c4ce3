-- ===== src/Detection/Digest.antt =====
-- `flushDigest` of frontend/worker/src/processors/detector-digest-processor.ts: the digest of one
-- alert window. The window's counts and the text that a model writes are parameters; a channel, a
-- token or an address is a number. A send whose error is caught counts as handed over.
use traceroot.Billing.Plans.{PlanType, free, plan_eq}
pub mod Counts
pub mod Tests
use traceroot.Detection.Run.{Text, Detector}
use traceroot.Prelude.{
  ◌==◌, none, map, Bool, Option, any, some, find, not, ◌&&◌, ◌++◌, keep, [], if◌then◌else◌, is_some,
  ◌∷◌, List, false, ltb, true, sum_by, ℕ,
}

-- one entry of the window's summary, by detector id
pub record WindowCount : Type 0 where
  pub detector_id : ℕ
  pub finding_count : ℕ
  pub sample_trace_ids : List ℕ

pub record DigestProject : Type 0 where
  pub alert_emails : List ℕ
  pub alert_channel : Option ℕ
  pub workspace_channel : Option ℕ
  pub bot_token : Option ℕ
  pub billing_plan : PlanType
  pub rca_blocked : Bool

pub record Recipients : Type 0 where
  pub slack : Option (ℕ × ℕ)  -- the channel and the bot token
  pub email_addresses : List ℕ
  pub billing_plan : PlanType
  pub rca_blocked : Bool

-- the alert's channel, else the workspace's
abbrev slack_channel : DigestProject → Option ℕ
slack_channel p = elim p.alert_channel [ some c ↦ some c | none ↦ p.workspace_channel ]

abbrev both : Option ℕ → Option ℕ → Option (ℕ × ℕ)
both (some c) (some t) = some (c, t)
both _ _ = none

abbrev slack_of : DigestProject → Option (ℕ × ℕ)
slack_of p = both (slack_channel p) p.bot_token

abbrev is_empty : List ℕ → Bool
is_empty [] = true
is_empty (x ∷ xs) = false

-- `none` where the project is gone or nothing is configured
unfoldable pub resolve_recipients : Option DigestProject → Option Recipients
resolve_recipients none = none
resolve_recipients (some p) =
    if not (is_some (slack_of p)) && is_empty p.alert_emails
    then none
    else some (record {
      slack = slack_of p;
      email_addresses = p.alert_emails;
      billing_plan = p.billing_plan;
      rca_blocked = p.rca_blocked;
    })

-- Without a name the id is shown, and without a trace an empty text.
pub record DigestEntry : Type 0 where
  pub detector_id : ℕ
  pub detector_name : Option Text
  pub finding_count : ℕ
  pub latest_trace_id : Option ℕ

pub record DigestContent : Type 0 where
  pub total : ℕ
  pub entries : List DigestEntry
  pub summary : Option Text

pub data Message : Type 0 where
  slack_message : ℕ → ℕ → DigestContent → Message
  email_message : List ℕ → DigestContent → Message

-- What a flush reads and sends.
pub record Flush : Type 0 where
  pub reads_summaries : Bool
  pub generates : Bool
  pub sent : List Message

abbrev first_of : List ℕ → Option ℕ
first_of [] = none
first_of (x ∷ xs) = some x

abbrev name_of : List Detector → ℕ → Option Text
name_of table id = elim (find (λ (d : Detector). d.id == id) table) [
  | none ↦ none
  | some d ↦ some d.name
]

-- the id is one of a detector with its RCA enabled
abbrev pub is_rca_enabled : List Detector → ℕ → Bool
is_rca_enabled table id = any (λ (d : Detector). d.id == id && d.enable_rca) table

-- the counts that are shown: of a detector that triggered and has its RCA enabled
unfoldable pub shown_counts : List Detector → List WindowCount → List WindowCount
shown_counts table counts =
    keep (λ (c : WindowCount). is_rca_enabled table c.detector_id)
      (keep (λ (c : WindowCount). ltb 0 c.finding_count) counts)

unfoldable pub build_entries : List Detector → List WindowCount → List DigestEntry
build_entries table counts =
    map
      (λ (c : WindowCount). record {
        detector_id = c.detector_id;
        detector_name = name_of table c.detector_id;
        finding_count = c.finding_count;
        latest_trace_id = first_of c.sample_trace_ids;
      })
      counts

abbrev slack_part : Option (ℕ × ℕ) → DigestContent → List Message
slack_part none content = []
slack_part (some (channel, token)) content = slack_message channel token content ∷ []

abbrev email_part : List ℕ → DigestContent → List Message
email_part [] content = []
email_part (a ∷ others) content = email_message (a ∷ others) content ∷ []

unfoldable pub fan_out : Recipients → DigestContent → List Message
fan_out r content = slack_part r.slack content ++ email_part r.email_addresses content

-- the kill switch and the gate of the free plan
unfoldable pub summary_allowed : Bool → Recipients → Bool
summary_allowed killed r = not killed && not (r.rca_blocked && plan_eq r.billing_plan PlanType.free)

abbrev nothing_sent : Bool → Flush
nothing_sent reads = record { reads_summaries = reads; generates = false; sent = [] }

abbrev has_counts : List WindowCount → Bool
has_counts [] = false
has_counts (c ∷ cs) = true

unfoldable pub send_digest :
    Bool → (List DigestEntry → Option Text) → List Detector → List WindowCount → Recipients → Flush
unfolding build_entries fan_out
send_digest allowed generate table shown r =
    let entries = build_entries table shown in
    record {
      reads_summaries = allowed;
      generates = allowed;
      sent = fan_out r (record {
        total = sum_by (λ (e : DigestEntry). e.finding_count) entries;
        entries = entries;
        summary = if allowed then generate entries else none;
      });
    }

-- The flush, once the recipients are resolved.
unfoldable pub flush_for :
    Bool
    → (List DigestEntry → Option Text)
    → List Detector
    → List WindowCount
    → Option Recipients
    → Flush
unfolding shown_counts summary_allowed send_digest
flush_for killed generate table counts none = nothing_sent false
flush_for killed generate table counts (some r) =
    if has_counts (shown_counts table counts)
    then send_digest (summary_allowed killed r) generate table (shown_counts table counts) r
    else nothing_sent (summary_allowed killed r)

unfoldable pub flush_digest :
    Bool
    → (List DigestEntry → Option Text)
    → List Detector
    → List WindowCount
    → Option DigestProject
    → Flush
unfolding resolve_recipients flush_for
flush_digest killed generate table counts project =
    flush_for killed generate table counts (resolve_recipients project)
