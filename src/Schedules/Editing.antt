-- ===== src/Schedules/Editing.antt =====
-- Who creates a schedule, for what, and how often it may run.
use qa_lab.Base.{ℕ, ◌≡◌, refl, ◌≢◌, true, Option, none, Text, or_default}
use qa_lab.Schema.{Db, Website, OrganizationMember, ScanSchedule}
use qa_lab.Program.Rules.{Ends, done, Unchanged, read_rule, or_throw_rule, modify_rule}
use qa_lab.Organizations.Access.{HasAccess, require_membership_rule}
use qa_lab.Projects.{editors}
use qa_lab.DomainVerify.{is_verified}
use qa_lab.DomainVerify.Laws.{assert_verified-Reads}
use qa_lab.Websites.Access.{Reaches, require_website_access-Reads}
use qa_lab.Quotas.Laws.{AdmitsInterval, assert_schedule_interval-Reads}
use qa_lab.Schedules.{create, CreateScheduleDto, new_schedule, insert_schedule}

pub record Created (safe : Text → Option Text) (now new_id user_id : ℕ) (dto : CreateScheduleDto)
    (db d : Db) (r : ScanSchedule) : Type 0 where
  pub loaded : Website × ℕ
  pub reach : Reaches db user_id dto.website_id loaded
  pub editor : OrganizationMember
  pub access : HasAccess db user_id loaded.1 editors editor
  pub proved : is_verified dto.website_id db ≡ true
  pub checked : safe loaded.0.url ≢ none
  pub interval : AdmitsInterval loaded.1 (or_default dto.interval_hours 24) db
  pub row : r ≡ new_schedule now new_id dto
  pub written : d ≡ insert_schedule r db

-- A schedule is created only by an OWNER, ADMIN or MEMBER of the website's organization, for a
-- website with a verified domain whose stored URL passed the SSRF check, at an interval that the
-- plan allows. A refused creation writes nothing.
create_schedule-Ends :
    (safe : Text → Option Text) (now new_id user_id : ℕ) (dto : CreateScheduleDto) (db : Db)
    → Ends
        (λ r d. Created safe now new_id user_id dto db d r)
        (Unchanged db)
        (create safe now new_id user_id dto db)
unfolding create
create_schedule-Ends safe now new_id user_id dto db =
    read_rule _ _ db (require_website_access-Reads user_id dto.website_id db) (λ e. refl)
      λ loaded reach.
        require_membership_rule user_id loaded.1 editors db _ (λ e. refl)
          λ m access.
            read_rule _ _ db (assert_verified-Reads dto.website_id db) (λ e. refl)
              λ _ proved.
                or_throw_rule _ _ _ db (λ _. refl)
                  λ url checked.
                    read_rule _ _ db
                      (assert_schedule_interval-Reads loaded.1 (or_default dto.interval_hours 24)
                        db)
                      (λ e. refl)
                      λ _ interval. modify_rule _ _ db (
                        done _ _ (record {
                          loaded = loaded;
                          reach = reach;
                          editor = m;
                          access = access;
                          proved = proved;
                          checked = λ e. cc;
                          interval = interval;
                          row = refl;
                          written = refl;
                        }))
