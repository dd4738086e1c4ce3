-- ===== src/Lib.antt =====
-- Verification of the part of the frontend workspace that decides who may do what, what it costs,
-- which model answers, what a detector leaves behind and what a trace shows. Paths are from the repository's root.
--
-- Billing models frontend/packages/core/src/ee/billing and frontend/worker/src/ee/billing.
--   Billing/Plans          plans.ts: quotas, blocking tests, seats, retention, entitlements, price ids
--   Billing/Notifications  usageNotifications.ts of both packages, and the answer of
--                          sendUsageQuotaEmail (frontend/worker/src/notifications/email.ts)
--   Billing/Meters         usageMetering.ts: billable units, and lastReportedUnits of each meter
--   Billing/Stripe         usageMetering.ts: the calls to Stripe, updateStripeQuantity
--   Billing/Overage        usageMetering.ts: getOverageSystemModelCost, over an explicit table
--   Billing/Metering       usageMetering.ts: processWorkspace, one workspace in one run
--   Billing/Subscription   frontend/ui/src/app/api/billing/webhook/route.ts, POST
--   Billing/ChangePlan     frontend/ui/src/app/api/billing/change-plan/route.ts, POST
-- Access models members, roles and invites of a workspace: frontend/packages/core/src/types/index.ts
-- (hasMinRole), frontend/ui/src/lib/auth-helpers.ts, and the handlers under
-- frontend/ui/src/app/api/workspaces/[workspaceId] and frontend/ui/src/app/api/invites.
--   Access                 the tables, the guards, and Step, the early returns of a handler
--   Access/Members, Access/Invites, Access/Requests
--                          the handlers, one definition each, and Reaches, what requests reach
--                          that are served one after another
-- Models is about the language models: frontend/packages/core/src/llm-providers.ts and
-- model-resolver.ts.
--   Models/Catalog         llm-providers.ts: adapters, addresses, protocols, system and curated models
--   Models/Resolve         resolvePiModel, isSystemModelId, getDefaultSystemModel, buildFallbackModel
--   Models/Providers       fetchProviderConfig and its cache, findByokKeyForPiProvider
--   Models/Project         resolveProjectModel of detector-rca-processor.ts
-- Github models the callback of a GitHub installation: packages/github/src/callback-validation.ts and
-- ui/src/app/api/github/callback/route.ts, both under frontend; it asks the guards of Access.
-- Traces models the placeholders (Traces/Pending) and the span tree (Traces/Tree) of the trace view,
-- ui/src/features/traces/utils/index.ts under frontend.
-- Detection models frontend/worker/src/processors and frontend/worker/src/detection.
--   Detection/Run          detector-run-processor.ts: its data, and in Run/Evaluate its steps, from a
--                          quiet trace to rows, finding and RCA job
--   Detection/Rca          detector-rca-processor.ts, processRcaJob: from an RCA job to a digest's flush
--   Detection/Digest       detector-digest-processor.ts: from a flush to the messages
--   Detection/Stream       detector-rca-processor.ts, runRcaSession: the reader of the agent's events
--   Detection/Eval         detection/sandbox-eval.ts, runDetectionForTrace: its data, and in Eval/Attempts
--                          its guards, model, key and attempts
-- The parts meet in the plans: Billing/Metering sets the flags and meters, Access asks canAddSeat, and
-- Detection reads the plan and the flags; Detection/Eval and Models/Project resolve their
-- models by Models/Resolve. The other modules under a component hold its proofs, named
-- for what they prove, and its tests; Table and Prelude hold what the components share.
--
-- Conventions. Ids and times are natural numbers, which the program only compares and subtracts; a
-- quota of Infinity is none. A handler's reply is its HTTP status. A database table is a list of rows,
-- and a table with a unique key that is read by it alone is a function of the key. What an outside
-- service answers is an argument. Where a part's theorems depend on calls that throw, so is whether they
-- do: the calls of Stripe in Billing/ChangePlan, the queries and the upsert of Billing/Notifications,
-- the workspace update of Billing/Meters, and the calls of Detection. Elsewhere the database answers;
-- Billing/Metering gives what a run writes when its queries answer and its update succeeds, and
-- Billing/Meters sums up the runs of a period, of which some skip Stripe or fail to write. A write that
-- throws is taken to have written nothing. One evaluation of a handler is atomic,
-- except in Access/Races, where a role change is split into its reads and its write. Every definition
-- ends by structural recursion; the attempts of Detection/Eval count down from MAX_ATTEMPTS, which is 2,
-- and the recursion of Traces/Tree takes fuel, of which the height of the spans is enough. Prices are
-- doubles in the program; their type and operations are the parameter Double (Billing/Meters) or Cost
-- (Detection/Run). Hashes, the pi-ai library, Stripe, GitHub and the agent's session are parameters too;
-- Detection/Run takes the evaluation of a trace as a parameter, which Detection/Eval models.
-- The subtraction of the meters stops at 0; the program
-- compares the difference with 0 before it uses it. A queue keeps one job for each job id, as BullMQ
-- documents for jobs that it still holds.
--
-- Not modelled: the queries and display fields of the billing job, the text of e-mails and prompts,
-- model pricing, the agent, the checkout route and the other OAuth routes, the rest of the user
-- interface, and the Python backend: they are text, input and output, or a part of its own.
pub mod Prelude
pub mod Table
pub mod Billing
pub mod Access
pub mod Models
pub mod Github
pub mod Traces
pub mod Detection
