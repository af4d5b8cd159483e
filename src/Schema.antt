-- ===== src/Schema.antt =====
-- The data model of qa-lab-backend/prisma/schema.prisma: one record for each table that the
-- modelled services read or write, and the state of the whole system, queue and counters included.
-- Identifiers are opaque and only compared, so they are numbers; a time is a number of
-- milliseconds; a digest (bcrypt, sha256, scrypt) is a number; texts are lists of codes.
use qa_lab.Base.{ℕ, Bool, Option, List, Text}

pub data OrganizationRole : Type 0 where
  owner admin member viewer : OrganizationRole

pub data UserStatus : Type 0 where
  active suspended deleted : UserStatus

pub data ScanStatus : Type 0 where
  queued running completed failed cancelled : ScanStatus

pub data ScanTrigger : Type 0 where
  manual scheduled api ci_cd : ScanTrigger

pub record User : Type 0 where
  pub id : ℕ
  pub email : Text
  pub password_hash : ℕ
  pub status : UserStatus
  pub email_verified_at : Option ℕ
  pub failed_login_count : ℕ
  pub locked_until : Option ℕ
  pub email_verify_token_hash : Option ℕ
  pub email_verify_expires_at : Option ℕ
  pub totp_enabled : Bool
  pub totp_secret_enc : Option Text
  pub totp_recovery_hashes : List ℕ

pub record Organization : Type 0 where
  pub id : ℕ
  pub name : Text
  pub slug : Text
  pub max_websites : ℕ
  pub max_pages_per_scan : ℕ
  pub max_scans_per_day : ℕ
  pub min_schedule_interval_hours : ℕ

pub record OrganizationMember : Type 0 where
  pub organization_id : ℕ
  pub user_id : ℕ
  pub role : OrganizationRole

pub record Project : Type 0 where
  pub id : ℕ
  pub organization_id : ℕ
  pub name : Text
  pub slug : Text
  pub description : Option Text

pub record Website : Type 0 where
  pub id : ℕ
  pub project_id : ℕ
  pub name : Text
  pub url : Text
  pub is_active : Bool
  pub domain_verify_token : Option Text
  pub domain_verified_at : Option ℕ

-- The snapshot of the scan settings that a `Scan` row keeps.
pub record ScanOptions : Type 0 where
  pub max_pages : ℕ
  pub max_depth : ℕ
  pub concurrency : ℕ
  pub respect_robots_txt : Bool
  pub check_exposed_paths : Bool
  pub check_assets : Bool

-- Why a scan stands FAILED or CANCELLED; the text of the `error` column.
pub data ScanError : Type 0 where
  failed_to_enqueue cancelled_by_user stuck scan_failed : ScanError
  reported thrown : Text → ScanError

pub record Scan : Type 0 where
  pub id : ℕ
  pub project_id : ℕ
  pub website_id : ℕ
  pub status : ScanStatus
  pub trigger : ScanTrigger
  pub options : ScanOptions
  pub queued_at : ℕ
  pub started_at : Option ℕ
  pub completed_at : Option ℕ
  pub pages_scanned : Option ℕ
  pub error : Option ScanError
  pub created_at : ℕ

pub record Report : Type 0 where
  pub scan_id : ℕ
  pub score : Option ℕ
  pub grade : Text
  pub issue_count : ℕ
  -- `reportJson.findings` and the two entries that truncation adds to `reportJson.summary`
  pub findings : List Text
  pub truncated : Bool
  pub original_finding_count : Option ℕ

pub record RefreshToken : Type 0 where
  pub id : ℕ
  pub user_id : ℕ
  pub token_hash : ℕ
  pub expires_at : ℕ
  pub revoked_at : Option ℕ
  pub family_id : ℕ
  pub replaced_at : Option ℕ

pub record ApiKey : Type 0 where
  pub id : ℕ
  pub organization_id : ℕ
  pub created_by_id : Option ℕ
  pub key_hash : ℕ
  pub scopes : List Text
  pub last_used_at : Option ℕ
  pub expires_at : Option ℕ
  pub revoked_at : Option ℕ

-- The two settings that a schedule keeps; either may be missing from the JSON column.
pub record ScheduleOptions : Type 0 where
  pub max_pages : Option ℕ
  pub max_depth : Option ℕ

pub record ScanSchedule : Type 0 where
  pub id : ℕ
  pub website_id : ℕ
  pub interval_hours : ℕ
  pub enabled : Bool
  pub options : ScheduleOptions
  pub last_run_at : Option ℕ
  pub next_run_at : Option ℕ

pub record PasswordResetToken : Type 0 where
  pub id : ℕ
  pub user_id : ℕ
  pub token_hash : ℕ
  pub expires_at : ℕ
  pub used_at : Option ℕ

-- Every table; the identifiers of the scans whose jobs wait in the queue; the Redis counters of
-- OrgConcurrencyLimiter, by organization; and the two scan counters of observability/metrics.ts.
pub record Db : Type 0 where
  pub users : List User
  pub organizations : List Organization
  pub members : List OrganizationMember
  pub projects : List Project
  pub websites : List Website
  pub scans : List Scan
  pub reports : List Report
  pub refresh_tokens : List RefreshToken
  pub api_keys : List ApiKey
  pub schedules : List ScanSchedule
  pub reset_tokens : List PasswordResetToken
  pub jobs : List ℕ
  pub running : List (ℕ × ℕ)
  pub scans_completed : ℕ
  pub scans_failed : ℕ
