-- ===== src/Lib.antt =====
-- MaintainFlow: the rules that decide what happens to uploaded documents.
--
-- The program takes PDF files, bank statements and ZIP archives of documents from its users. A PDF
-- is split into documents by a plan, which the browser previews and the server makes again before
-- it trusts it. A bank statement is extracted into accounts and rows, and is checked against its
-- own totals and balances before a person approves it. An archive is scanned, and refused where
-- its records disagree, before any of its data is inflated.
--
-- PdfSplit is shared/pdf-split.ts, limits, specification and reasons for a refusal. PdfSplit.Plan
--   is `canonicalPdfSplitSpec` and `planPdfSplit`, PdfSplit.Marker is `normalizePdfMarkerText`,
--   `findPdfMarkerRanges` and `verifyPdfMarkerRanges`, PdfSplit.Field is `parsePdfRanges`.
--   PdfSplit.Ranges says what ordered and tiling ranges are.
-- Bank is shared/bank-statements.ts (Bank.Types) and server/core/bank-statement-domain.ts.
--   Bank.Decimal is `exact`, `add`, `negate`, `same`, `decimal` and `canonical`; Bank.Date is
--   `isoDate`; Bank.Identity is `accountIdentity` and `bankAccountKey`; Bank.Amounts is
--   `rowAmounts`, `rowResolved` and `bankTransactionFingerprint`; Bank.Check and Bank.Statement
--   are `checkBankStatement` and `uniqueIssues`. Bank.Statement.Books is an independent reading of
--   an account: sums of whole numbers of hundred-millionths.
-- Archive is server/core/zip-reader.ts, with the limits and reasons of shared/archive-import.ts:
--   Archive.Bytes is `zipCrc32` and the reads of a buffer, Archive.Path is `decodeName`,
--   `safeArchivePath` and the tests for macOS metadata, Archive.Scan.Extras is `extras`,
--   Archive.Scan.Records is a round of the loop of `scanZip`, and Archive.Scan is the rest of
--   `scanZip` and `inflateZipEntry`; Archive.Spec is `archiveImportSpecSchema` and
--   `canonicalArchiveImportSpec`.
-- Csv is `quotedCells` of server/core/csv-values.ts and Csv.Values its `decodeCsvRawValues`;
--   Csv.Quote also has the `quote` of the CSV export of server/integrations/export-format.ts.
-- Export is `exportRows` of server/integrations/export-format.ts, with `safeCell`, `getPath` and
--   `leafPaths`; Export.Text is the CSV branch of `renderExport`, up to its encoding, with the text
--   of a number as a parameter. What it writes is what Csv reads.
-- Retention is server/core/retention.ts: the tables and the release of groups; Retention.Purge is
--   `purgeDocument`, `purgePdfSplit` and `purgeArchiveImport`; Retention.Delete is
--   `deleteStoredFile`, `deleteStoredFiles` and `processOneFileDeletion`.
-- Monitor is scripts/stale-monitor.ts, which judges from the history of its runs whether the
--   operational monitor is alive: Monitor.Instant is `timestamp`, Monitor.Schedule and its child
--   Evaluate are `evaluateSchedule`, Monitor.Transport is `json`, and Monitor.Schedule.Observe is
--   `checkStaleMonitor` and `main`. Monitor.Artifact is scripts/monitor-artifact-state.ts:
--   `runsResponse`, `isStateful` and `artifactResponse`, and in Monitor.Artifact.Jobs
--   `failedBeforeState`, `completedMonitorJob`, `neverAcquiredCheckId` and `proveNeverAcquired`.
--   Monitor.Artifact.Source is `verifySelectorOnlySource` and the proof about a skipped run,
--   Monitor.Artifact.Select is `selectMonitorArtifact`, and Monitor.Artifact.External and
--   Monitor.Artifact.Main are `validateExternalTrigger` and `main`;
--   Monitor.Artifact.Candidates and Monitor.Artifact.Observed read their artifacts and jobs in
--   terms of the answers alone. Monitor.Tick is scripts/monitor-trigger-contract.ts,
--   Monitor.Heartbeat is scripts/monitor-heartbeat.ts, which uses Monitor.Artifact.Jobs to tell an
--   outside watch of a run, and Monitor.Trigger is scripts/monitor-external-trigger.ts, whose POST
--   Monitor.Artifact.External lets through. Monitor.Body is the reading of a body, which these
--   four scripts share.
-- Provider is server/integrations/provider-policy.ts: Provider.Stripe is `stripePriceMatches`,
--   `stripePlan` and `selectStripeSubscription`, with the prices of shared/plans.ts,
--   Provider.Config is `stripeMode`, `requireStripeKey`, `assertStripeCustomerTestClock` and
--   `stripeConfiguration`, Provider.Sheets is `sheetColumn`, `sheetRows` and `sheetRanges`,
--   Provider.Mail is `emailAddress`, `deliveredRecipients` and the other rules for received mail, and
--   Provider.Portal is `stripeCustomerPointer`, `assertStripePortalConfiguration`,
--   `publicProviderError` and the managed probe.
-- Prelude is texts, whole numbers, JSON values and results that the parts share.
--
-- A JavaScript string is the list of its UTF-16 code units. A thrown error is the `err` of a
-- Result. A whole JavaScript number is a natural number, any other page count is `other`; a range
-- field with a number that is too large for a double is refused either way. `JSON.parse` of the
-- canonical text gives back the canonical specification, which has only whole numbers and a
-- marker.
--
-- The schemas' `safeParse` comes from zod and is a parameter (SpecSchema, MarkerSchema,
-- RangesInput), with the schema's own limits as its laws; of the ZIP selection the schema is
-- written out, as the function `parse_archive_import_spec`. Bank.Identity.Platform holds what the
-- runtime supplies: Unicode normalisation, case mapping, the list of currencies and SHA-256.
--
-- The check of a statement is modelled on values that are parsed and bound to their context; the
-- parser, `parseValues`, and `bindIdentities` are not modelled. Of a source only what the check
-- reads is kept. The message of an issue is a function of its code, of whether a transaction is
-- named and of the amount that it quotes, which is the field `detail`.
--
-- A read outside a buffer is an error value of its own, `out_of_range`, as is `out_of_fuel`.
-- Archive.Path.TextHost holds the strict UTF-8 decoder, the length of a text in UTF-8 and NFC; the
-- inflater is a parameter of `inflate_zip_entry`. The map of names is a list with the last name
-- first; no result depends on that order.
--
-- A JSON number is a natural number or the text of another number, and an object has its keys in
-- the order in which they are listed. `JSON.stringify`, `JSON.parse`, the transport of a request
-- and the clock are parameters. An instant is in milliseconds from the year 0. The races of the
-- monitor scripts with their timers are not modelled, nor are bodies that break off. Base64,
-- SHA-256 and HMAC-SHA-256 are parameters, and a digest is its text in hexadecimal digits.
--
-- A table of the database is a list of rows, and a statement of SQL is a function on such lists;
-- an id is a primary key. The private storage is a parameter, which says whether a file is gone.
-- Locks, the audit and the detaching of a setup source are not modelled.
--
-- Fuel: the loop of `extras` has one round more than the field has bytes, and a round takes four
-- bytes at least. The loop over the cells of a page has as many rounds as the page has characters,
-- and a round takes one at least. `digits_of` prints the natural number `n` in `suc n` rounds, and
-- each round divides by ten. The loop over the pages of runs stops by itself before an eleventh
-- page, so the count of the pages that are left is no fuel beyond the program's own limit.
pub mod Prelude
pub mod PdfSplit
pub mod Bank
pub mod Archive
pub mod Csv
pub mod Monitor
pub mod Export
pub mod Retention
pub mod Provider
