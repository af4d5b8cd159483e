-- ===== src/Worker.antt =====
-- ScanProcessor: qa-lab-backend/src/scans/scan.processor.ts. The scanner library, in the process
-- or in a child, is the argument `scanner`; what other requests write while it runs is `during`.
pub mod Slots
pub mod Outcomes
use qa_lab.Base.{
  ℕ, ◌+◌, ◌<◌, Bool, true, false, ◌&&◌, ◌||◌, not, List, [], ◌∷◌, ◌++◌, Option, none, some, Text,
  codes, ◌==◌, if◌then◌else◌, or_default, is_some, ltb, min, length, take,
}
use qa_lab.Base.Rows.{find}
use qa_lab.Schema.{Db, Scan, ScanOptions, ScanStatus, ScanError, Report}
use qa_lab.Program.{
  Action, Outcome, ok, err, pure, throw, gets, or_throw, throw_if, modify, ◌>>=◌, ◌>>◌, Exception,
  bad_request, plain_error, unsafe_url, concurrency_limit, scanner_threw, report_exists,
  invalid_score,
}
use qa_lab.DomainVerify.{load_website}
use qa_lab.Limiter.{acquire, release}
use qa_lab.Scanner.Scoring.{to_integer}
use qa_lab.Scans.{status_eq, find_scan, set_scan, report_of}

pub data ResultStatus : Type 0 where
  completed partial failed cancelled : ResultStatus

-- The score as the scanner hands it over: a number that is not negative, in the units of
-- Scanner/Scoring, or the object that the scanner puts in its place.
pub data ScoreField : Type 0 where
  double : ℕ → ScoreField
  object : ScoreField

-- `LibraryScanResult`, as far as the worker reads it.
pub record ScanResult : Type 0 where
  pub status : ResultStatus
  pub pages_scanned : Option ℕ
  pub error : Option Text
  pub overall_score : Option ScoreField
  pub grade : Option Text
  pub findings : Option (List Text)

pub data ScanRun : Type 0 where
  threw : Text → ScanRun
  returned : ScanResult → ScanRun

-- What the worker takes from outside: the URL check, the scanner, the size of a report's JSON,
-- the limits from the environment, the message of an exception, the writes of other requests
-- while the scanner runs, what Prisma puts into an integer column for NaN (`none` where it throws),
-- and the clock before and after the run.
pub record Env : Type 0 where
  pub safe : Text → Option Text
  pub scanner : Text → ScanOptions → ScanRun
  pub byte_length : ScanResult → ℕ
  pub max_bytes : ℕ
  pub hard_max_pages : ℕ
  pub max_per_org : ℕ
  pub message : Exception → Text
  pub nan_column : Option (Option ℕ)
  pub during : Db → Db
  pub started : ℕ
  pub finished : ℕ

abbrev pub running_at : ℕ → Scan → Scan
running_at now s = record s { status = ScanStatus.running; started_at = some now; error = none }

-- The settings handed to the scanner: those of the row, with the pages capped.
abbrev pub capped : ℕ → ScanOptions → ScanOptions
capped hard o = record o { max_pages = min o.max_pages hard }

-- `text || 'Scan failed'`
abbrev pub reported_error : Option Text → ScanError
reported_error none = ScanError.scan_failed
reported_error (some []) = ScanError.scan_failed
reported_error (some (c ∷ s)) = ScanError.reported (c ∷ s)

abbrev pub stopped_at : ℕ → ScanStatus → ScanResult → Scan → Scan
stopped_at now status r s = record s {
  status = status;
  completed_at = some now;
  pages_scanned = some (or_default r.pages_scanned 0);
  error = some (reported_error r.error);
}

abbrev pub completed_at : ℕ → ScanResult → Scan → Scan
completed_at now r s = record s {
  status = ScanStatus.completed;
  completed_at = some now;
  pages_scanned = some (or_default r.pages_scanned 0);
  error = none;
}

abbrev pub failed_at : ℕ → Text → Scan → Scan
failed_at now message s = record s {
  status = ScanStatus.failed;
  completed_at = some now;
  error = some (ScanError.thrown (take 2000 message));
}

-- `Math.round(result.overallScore ?? 0)`; `none` is NaN.
abbrev pub rounded : Option ScoreField → Option ℕ
rounded none = some 0
rounded (some (double score)) = some (to_integer score)
rounded (some object) = none

-- What the report's column takes, or `none` where it takes nothing.
abbrev pub score_column : Option (Option ℕ) → Option ℕ → Option (Option ℕ)
score_column nan_column none = nan_column
score_column nan_column (some score) = some (some score)

-- The report row, with the findings cut to a hundred where the JSON is too large.
abbrev pub report_for : ℕ → ScanResult → Option ℕ → Bool → Report
report_for scan_id r score too_large =
    let findings = or_default r.findings [] in
    record {
      scan_id = scan_id;
      score = score;
      grade = or_default r.grade (codes "F");
      issue_count = length findings;
      findings = if too_large then take 100 findings else findings;
      truncated = too_large;
      original_finding_count = if too_large then some (length findings) else none;
    }

abbrev pub count_completed : Db → Db
count_completed db = record db { scans_completed = db.scans_completed + 1 }

abbrev pub count_failed : Db → Db
count_failed db = record db { scans_failed = db.scans_failed + 1 }

-- The transaction: the report's row and the scan's, both or neither. A second report of the same
-- scan breaks the unique index.
unfoldable pub store_report : ℕ → ℕ → ScanResult → Report → Action (Unit {0})
store_report now scan_id r report = do
  exists ← gets (λ db. is_some (report_of db scan_id))
  throw_if exists (plain_error report_exists)
  modify (λ db.
      set_scan scan_id (completed_at now r) (record db { reports = db.reports ++ report ∷ [] }))

-- From `result` to the end of the `try`.
unfoldable pub finish : Env → ℕ → ScanResult → ResultStatus → Action (Unit {0})
finish env scan_id r ResultStatus.failed =
    modify (set_scan scan_id (stopped_at env.finished ScanStatus.failed r))
finish env scan_id r ResultStatus.cancelled =
    modify (set_scan scan_id (stopped_at env.finished ScanStatus.cancelled r))
finish env scan_id r other = do
  modify count_completed
  score ←
      or_throw (score_column env.nan_column (rounded r.overall_score)) (plain_error invalid_score)
  store_report env.finished scan_id r
      (report_for scan_id r score (ltb env.max_bytes (env.byte_length r)))

-- `current?.status === ScanStatus.CANCELLED`
abbrev pub is_cancelled : Option Scan → Bool
is_cancelled none = false
is_cancelled (some s) = status_eq s.status ScanStatus.cancelled

-- Behind the scanner's answer.
unfoldable pub conclude : Env → ℕ → ScanRun → Action (Unit {0})
conclude env scan_id (threw text) = throw (plain_error (scanner_threw text))
conclude env scan_id (returned r) = do
  current ← gets (λ db. find_scan scan_id db.scans)
  let done = finish env scan_id r r.status
  λ db. (if is_cancelled current then pure tt else done) db

-- The body of the `try`.
unfoldable pub run_scan : Env → Scan → Text → Action (Unit {0})
run_scan env scan url = do
  modify (set_scan scan.id (running_at env.started))
  checked ← or_throw (env.safe url) (bad_request unsafe_url)
  modify env.during
  conclude env scan.id (env.scanner url (capped env.hard_max_pages scan.options))

-- The `catch`: the row is marked, whatever it says by now, and the exception goes on.
abbrev pub or_fail : Env → ℕ → Outcome (Unit {0}) → Outcome (Unit {0})
or_fail env scan_id (ok x db) = ok x db
or_fail env scan_id (err e db) =
    err e (count_failed (set_scan scan_id (failed_at env.finished (env.message e)) db))

-- The `finally`.
abbrev pub then_release : ℕ → Outcome (Unit {0}) → Outcome (Unit {0})
then_release organization_id (ok x db) = release organization_id db
then_release organization_id (err e db) = (release organization_id >> throw e) db

unfoldable pub guarded_run : Env → Scan → Text → ℕ → Action (Unit {0})
guarded_run env scan url organization_id db =
    then_release organization_id (or_fail env scan.id (run_scan env scan url db))

-- A scan that is CANCELLED or COMPLETED is not run.
abbrev pub is_settled : ScanStatus → Bool
is_settled status = status_eq status ScanStatus.cancelled || status_eq status ScanStatus.completed

unfoldable pub run_if_granted : Env → Scan → Text → ℕ → Bool → Action (Unit {0})
run_if_granted env scan url organization_id granted = do
  throw_if (not granted) (plain_error concurrency_limit)
  guarded_run env scan url organization_id

unfoldable pub start : Env → Scan → Action (Unit {0})
start env scan = do
  loaded ← load_website scan.website_id
  granted ← acquire env.max_per_org loaded.1
  run_if_granted env scan loaded.0.url loaded.1 granted

abbrev pub process_found : Env → Option Scan → Action (Unit {0})
process_found env none = pure tt
process_found env (some scan) = if is_settled scan.status then pure tt else start env scan

unfoldable pub process : Env → ℕ → Action (Unit {0})
process env scan_id = do found ← gets (λ db. find_scan scan_id db.scans); process_found env found
