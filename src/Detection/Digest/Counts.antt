-- ===== src/Detection/Digest/Counts.antt =====
-- When a digest is sent, and what it counts.
use traceroot.Billing.Plans.{PlanType, plan_eq}
use traceroot.Detection.Run.{Text, Detector}
use traceroot.Detection.Digest.{
  summary_allowed, flush_for, send_digest, slack_part, email_part, slack_of, flush_digest, both,
  Flush, is_empty, resolve_recipients, Recipients, fan_out, DigestContent, slack_message, Message,
  build_entries, has_counts, is_rca_enabled, shown_counts, WindowCount, DigestProject,
  email_message, DigestEntry,
}
use traceroot.Prelude.{
  subst, not, Option, inr, ◌∙◌, ◌++◌, sym, inl, Bool-cases, All, arith, none, true, some, false, [],
  Bool, length, sum_by, List, ltb, ◌||◌, if◌then◌else◌, ◌≡◌, ◌&&◌, is_some, refl, ◌∷◌, ℕ,
}

abbrev total_of : Message → ℕ
total_of (slack_message channel token content) = content.total
total_of (email_message to content) = content.total

-- What a digest is about: the findings of the detectors that have their RCA enabled.
abbrev pub rca_findings : List Detector → List WindowCount → ℕ
rca_findings table counts =
    sum_by (λ (c : WindowCount). if is_rca_enabled table c.detector_id then c.finding_count else 0)
      counts

shown_total :
    (table : List Detector) (counts : List WindowCount)
    → sum_by
        (λ (e : DigestEntry). e.finding_count)
        (build_entries table (shown_counts table counts))
      ≡ rca_findings table counts
unfolding build_entries shown_counts
shown_total table [] = refl
shown_total table (c ∷ cs) = ground (arith, shown_total table cs)

-- The channels that a project has configured.
abbrev pub has_channel : DigestProject → Bool
has_channel p =
    (is_some p.bot_token && (is_some p.alert_channel || is_some p.workspace_channel))
    || ltb 0 (length p.alert_emails)

shown_iff :
    (table : List Detector) (counts : List WindowCount)
    → has_counts (shown_counts table counts) ≡ ltb 0 (rca_findings table counts)
unfolding shown_counts
shown_iff table [] = refl
shown_iff table (c ∷ cs) = ground (arith, shown_iff table cs)

both-is_some :
    (own shared token : Option ℕ)
    → is_some (both (elim own [ some c ↦ some c | none ↦ shared ]) token)
      ≡ (is_some token && (is_some own || is_some shared))
both-is_some none none none = refl
both-is_some none none (some t) = refl
both-is_some none (some c) none = refl
both-is_some none (some c) (some t) = refl
both-is_some (some c) shared none = refl
both-is_some (some c) shared (some t) = refl

is_empty-length : (xs : List ℕ) → not (is_empty xs) ≡ ltb 0 (length xs)
is_empty-length [] = refl
is_empty-length (x ∷ xs) = ground arith

channel_lem :
    (p : DigestProject) → (is_some (slack_of p) || not (is_empty p.alert_emails)) ≡ has_channel p
channel_lem p = ground (
  arith,
  both-is_some p.alert_channel p.workspace_channel p.bot_token,
  is_empty-length p.alert_emails,
)

sends :
    (slack : Option (ℕ × ℕ)) (emails : List ℕ) (content : DigestContent)
    → ltb 0 (length (slack_part slack content ++ email_part emails content))
      ≡ (is_some slack || not (is_empty emails))
sends none [] content = refl
sends none (e ∷ es) content = refl
sends (some (channel, token)) [] content = refl
sends (some (channel, token)) (e ∷ es) content = refl

sends_total :
    (slack : Option (ℕ × ℕ)) (emails : List ℕ) (content : DigestContent) (n : ℕ)
    → content.total ≡ n
    → All (λ m. total_of m ≡ n) (slack_part slack content ++ email_part emails content)
sends_total none [] content n h = tt
sends_total none (e ∷ es) content n h = (h, tt)
sends_total (some (channel, token)) [] content n h = (h, tt)
sends_total (some (channel, token)) (e ∷ es) content n h = (h, (h, tt))

-- the recipients, where something is configured
abbrev recipients_of : DigestProject → Recipients
recipients_of p = record {
  slack = slack_of p;
  email_addresses = p.alert_emails;
  billing_plan = p.billing_plan;
  rca_blocked = p.rca_blocked;
}

resolved :
    (p : DigestProject)
    → resolve_recipients (some p) ≡ (if has_channel p then some (recipients_of p) else none)
unfolding resolve_recipients
resolved p = ground (arith, channel_lem p)

module _ (killed : Bool) (generate : List DigestEntry → Option Text) (table : List Detector)
    (counts : List WindowCount) (p : DigestProject) where
  abbrev pub flushed : Flush
  flushed = flush_digest killed generate table counts (some p)

  -- What the claim says of a flush, where `open_channel` says whether there is a channel.
  abbrev pub IsDigestOf : Bool → Flush → Type 0
  IsDigestOf open_channel f =
      (ltb 0 (length f.sent) ≡ (open_channel && ltb 0 (rca_findings table counts)))
      × All (λ m. total_of m ≡ rca_findings table counts) f.sent

  sent_digest :
      (r : Recipients) (allowed : Bool)
      → (is_some r.slack || not (is_empty r.email_addresses)) ≡ true
      → has_counts (shown_counts table counts) ≡ true
      → IsDigestOf true (send_digest allowed generate table (shown_counts table counts) r)
  unfolding send_digest fan_out
  sent_digest r allowed channel shown = (
    sends r.slack r.email_addresses _ ∙ channel ∙ sym shown ∙ shown_iff table counts,
    sends_total r.slack r.email_addresses _ (rca_findings table counts) (shown_total table counts),
  )

  flush_for-IsDigestOf :
      (open_channel : Bool)
      → has_channel p ≡ open_channel
      → IsDigestOf open_channel (
          flush_for killed generate table counts
            (if open_channel then some (recipients_of p) else none))
  unfolding flush_for
  flush_for-IsDigestOf false h = (refl, tt)
  flush_for-IsDigestOf true h = elim (Bool-cases (has_counts (shown_counts table counts))) [
    | inr quiet ↦ rw quiet (sym quiet ∙ shown_iff table counts, tt)
    | inl shown ↦ rw shown (
        sent_digest (recipients_of p) (summary_allowed killed (recipients_of p)) (channel_lem p ∙ h)
          shown)
  ]

  -- A digest is sent exactly when the project has a channel and the window has findings of a
  -- detector with its RCA enabled, and every message that is sent counts just these findings.
  pub digest_sent_iff : IsDigestOf (has_channel p) flushed
  unfolding flush_digest
  digest_sent_iff =
      subst (λ r. IsDigestOf (has_channel p) (flush_for killed generate table counts r))
        (sym (resolved p)) (flush_for-IsDigestOf (has_channel p) refl)

  abbrev pub IsGated : Flush → Type 0
  IsGated f = (f.reads_summaries ≡ false) × (f.generates ≡ false)

  flush_for-IsGated :
      (open_channel : Bool)
      → summary_allowed killed (recipients_of p) ≡ false
      → IsGated (
          flush_for killed generate table counts
            (if open_channel then some (recipients_of p) else none))
  unfolding flush_for send_digest
  flush_for-IsGated false h = (refl, refl)
  flush_for-IsGated true h = elim (Bool-cases (has_counts (shown_counts table counts))) [
    | inr quiet ↦ rw quiet (h, refl)
    | inl shown ↦ rw shown (h, h)
  ]

  forbids :
      (killed || (p.rca_blocked && plan_eq p.billing_plan PlanType.free)) ≡ true
      → summary_allowed killed (recipients_of p) ≡ false
  unfolding summary_allowed
  forbids h = ground (arith, h)

  -- With the kill switch on, or on a free plan whose RCA is blocked, a flush reads no finding
  -- summaries and asks no model for a text.
  pub flush_digest-IsGated :
      (killed || (p.rca_blocked && plan_eq p.billing_plan PlanType.free)) ≡ true → IsGated flushed
  unfolding flush_digest
  flush_digest-IsGated h =
      subst (λ r. IsGated (flush_for killed generate table counts r)) (sym (resolved p))
        (flush_for-IsGated (has_channel p) (forbids h))
