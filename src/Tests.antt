-- ===== src/Tests.antt =====
-- Example data, on which the theorems are applied in the modules below: two organizations, one
-- user of each, a website with a verified domain and one without, and a scan that waits.
pub mod Accounts
pub mod Sites
pub mod Jobs
pub mod Schedules
pub mod Scanner
pub mod Network
pub mod Engine
use qa_lab.Base.{
  ◌*◌, ℕ, ◌+◌, ◌-◌, Bool, true, false, List, [], ◌∷◌, Option, none, some, Text, codes, ◌==◌, ◌&&◌,
  leb, if◌then◌else◌,
}
use qa_lab.Base.Texts.{text_eq}
use qa_lab.Schema.{
  Db, User, UserStatus, Organization, OrganizationMember, owner, viewer, Project, Website, Scan,
  ScanOptions, ScanStatus, ScanTrigger, RefreshToken, PasswordResetToken,
}
use qa_lab.Program.{TextOps}
use qa_lab.Auth.{Crypto, Draw, LoginDto}
use qa_lab.Scanner.Scoring.{one}
use qa_lab.Worker.{Env, ScanResult, ResultStatus, returned, double}
use qa_lab.Scans.{CreateScanDto}

-- ASCII lower case.
abbrev lower_code : ℕ → ℕ
lower_code c = if leb 65 c && leb c 90 then c + 32 else c

abbrev lower : Text → Text
lower [] = []
lower (c ∷ s) = lower_code c ∷ lower s

abbrev trim_front : Text → Text
trim_front [] = []
trim_front (c ∷ s) = elim (c == 32) [ true ↦ trim_front s | false ↦ c ∷ s ]

abbrev pub ascii : TextOps
ascii = record { lower_case = lower; trim = trim_front }

abbrev pub keep_https : Text → Option Text
keep_https url = some url

abbrev pub user_at : ℕ → Text → User
user_at id email = record {
  id = id;
  email = email;
  password_hash = 3;
  status = UserStatus.active;
  email_verified_at = none;
  failed_login_count = 7;
  locked_until = none;
  email_verify_token_hash = none;
  email_verify_expires_at = none;
  totp_enabled = false;
  totp_secret_enc = none;
  totp_recovery_hashes = [];
}

abbrev pub organization_at : ℕ → Organization
organization_at id = record {
  id = id;
  name = codes "Acme";
  slug = codes "acme";
  max_websites = 3;
  max_pages_per_scan = 100;
  max_scans_per_day = 5;
  min_schedule_interval_hours = 6;
}

abbrev pub site_at : ℕ → Option ℕ → Website
site_at id verified = record {
  id = id;
  project_id = 20;
  name = codes "Site";
  url = codes "https://a.test";
  is_active = true;
  domain_verify_token = some (codes "tok");
  domain_verified_at = verified;
}

abbrev pub options : ScanOptions
options = record {
  max_pages = 80;
  max_depth = 2;
  concurrency = 5;
  respect_robots_txt = true;
  check_exposed_paths = false;
  check_assets = true;
}

abbrev pub scan_at : ℕ → ScanStatus → Option ℕ → Scan
scan_at id status started_at = record {
  id = id;
  project_id = 20;
  website_id = 30;
  status = status;
  trigger = ScanTrigger.manual;
  options = options;
  queued_at = 1;
  started_at = started_at;
  completed_at = none;
  pages_scanned = none;
  error = none;
  created_at = 1;
}

abbrev pub project : Project
project = record {
  id = 20;
  organization_id = 10;
  name = codes "Shop";
  slug = codes "shop";
  description = none;
}

abbrev pub token_at : ℕ → ℕ → RefreshToken
token_at id hash = record {
  id = id;
  user_id = 1;
  token_hash = hash;
  expires_at = 900;
  revoked_at = none;
  family_id = 77;
  replaced_at = none;
}

abbrev pub reset_row : PasswordResetToken
reset_row = record { id = 60; user_id = 1; token_hash = 3; expires_at = 900; used_at = none }

abbrev pub db : Db
db = record {
  users = user_at 1 (codes "a@x") ∷ user_at 2 (codes "b@x") ∷ [];
  organizations = organization_at 10 ∷ organization_at 11 ∷ [];
  members =
      record { organization_id = 10; user_id = 1; role = owner }
      ∷ record { organization_id = 11; user_id = 2; role = viewer }
      ∷ [];
  projects = project ∷ [];
  websites = site_at 30 (some 5) ∷ site_at 31 none ∷ [];
  scans = scan_at 50 ScanStatus.queued none ∷ scan_at 51 ScanStatus.running (some 2) ∷ [];
  reports = [];
  refresh_tokens = token_at 70 4 ∷ [];
  api_keys = [];
  schedules = [];
  reset_tokens = reset_row ∷ [];
  jobs = 50 ∷ [];
  running = (10, 1) ∷ [];
  scans_completed = 0;
  scans_failed = 0;
}

-- A digest that tells the texts of the tests apart by their length.
abbrev size : Text → ℕ
size [] = 0
size (c ∷ s) = size s + 1

abbrev pub crypto : Crypto
crypto = record {
  bcrypt_hash = size;
  bcrypt_compare = λ password hash. size password == hash;
  sha256 = size;
  totp_verify = λ secret code. text_eq secret code;
  has_secret = true;
}

abbrev pub draw : Draw
draw = record { raw = codes "new-token"; id = 71; family = 78 }

abbrev pub wrong_login : LoginDto
wrong_login = record { email = codes " A@x"; password = codes "guess"; totp_code = none }

abbrev pub result : ScanResult
result = record {
  status = ResultStatus.completed;
  pages_scanned = some 7;
  error = none;
  overall_score = some (double (93 * one));
  grade = some (codes "A");
  findings = some (codes "slow" ∷ []);
}

abbrev pub env : Env
env = record {
  safe = keep_https;
  scanner = λ url o. returned result;
  byte_length = λ r. 400;
  max_bytes = 1000;
  hard_max_pages = 50;
  max_per_org = 2;
  message = λ e. codes "failed";
  nan_column = some none;
  during = λ d. d;
  started = 100;
  finished = 200;
}

abbrev pub scan_dto : CreateScanDto
scan_dto = record {
  website_id = 30;
  max_pages = none;
  max_depth = none;
  concurrency = none;
  respect_robots_txt = none;
  check_exposed_paths = some true;
  check_assets = none;
}
