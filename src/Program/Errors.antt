-- ===== src/Program/Errors.antt =====
-- The exceptions that the services throw.
use qa_lab.Base.{Text}

-- The HTTP exceptions of @nestjs/common that the services throw, and a plain `Error`. Each
-- carries its message.
pub data Reason : Type 0 where
  not_a_member requires_role cannot_assign_owner no_such_user already_member : Reason
  slug_exhausted organization_not_found project_not_found website_not_found : Reason
  outside_key_organization duplicate_url website_limit daily_scan_limit : Reason
  min_schedule_interval not_verified verification_not_started token_not_found : Reason
  website_inactive scan_not_found cannot_cancel enqueue_failed schedule_not_found : Reason
  unsafe_url key_not_found key_already_revoked missing_scope not_authenticated : Reason
  invalid_api_key invalid_access_token missing_authentication csrf_failed : Reason
  email_taken invalid_credentials account_locked totp_required invalid_totp : Reason
  invalid_refresh refresh_reuse user_not_active invalid_verification : Reason
  invalid_reset wrong_password no_user totp_enabled_already totp_not_set_up : Reason
  secret_not_configured concurrency_limit report_exists invalid_score no_hostname : Reason
  scanner_threw : Text → Reason

pub data Exception : Type 0 where
  bad_request conflict forbidden not_found unauthorized : Reason → Exception
  payment_required too_many_requests plain_error : Reason → Exception
