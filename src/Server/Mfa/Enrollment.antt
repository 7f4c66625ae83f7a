-- ===== src/Server/Mfa/Enrollment.antt =====
-- `MfaEnrollmentService` of auth-provider/server/src/mfa/mfa-enrollment.service.ts.
use seleksi2_labpro.Prelude.{
  ℕ, String, Bool, not, ◌&&◌, List, Option, none, some, ◌==◌, ◌===◌, if◌then◌else◌, length, is_none,
  is_some, some_and, pure, throw, gets, or_throw, throw_if, modify, ◌>>=◌, ◌>>◌,
}
use seleksi2_labpro.Database.{Prisma, find_one, find_many, upsert, transaction}
use seleksi2_labpro.Schema.Sessions.{UserMfaTotp, MfaRecoveryCode, AuditLog}
use seleksi2_labpro.Server.Store.{
  ServerStore, bad_request, conflict, Handler, update_totps, audited,
}
use seleksi2_labpro.Server.Runtime.{Runtime, Call}
use seleksi2_labpro.Server.Mfa.Codes.{validate_token}
use seleksi2_labpro.Server.Mfa.Recovery.{DrawnCode, raw_codes, code_rows, replace_codes}

pub record MfaStatus : Type 0 where
  pub enabled : Bool
  pub enrollment_pending : Bool
  pub recovery_codes_remaining : ℕ

pub record StartedMfaEnrollment : Type 0 where
  pub manual_key : String
  pub provisioning_uri : String
  pub qr_code_data_url : String

-- What `start` draws and asks packages for: a new secret; the secret encrypted for the user;
-- `buildProvisioningUri`, which is TOTP.toString; and QRCode.toDataURL.
pub record NewSecret : Type 0 where
  pub secret : String
  pub encrypted : String
  pub provisioning_uri : String → String → String
  pub to_data_url : String → String

abbrev pub is_factor_of : String → UserMfaTotp → Bool
is_factor_of user_id r = r.user_id === user_id

abbrev pub is_unused_of : String → MfaRecoveryCode → Bool
is_unused_of user_id r = r.user_id === user_id && is_none r.used_at

abbrev pub is_pending_of : String → UserMfaTotp → Bool
is_pending_of user_id r = r.user_id === user_id && is_none r.enabled_at

abbrev pub is_enabled_factor : UserMfaTotp → Bool
is_enabled_factor r = is_some r.enabled_at

abbrev pub new_factor : String → String → UserMfaTotp
new_factor user_id encrypted = record {
  user_id = user_id;
  secret = encrypted;
  enabled_at = none;
  last_used_time_step = none;
}

abbrev pub with_secret : String → UserMfaTotp → UserMfaTotp
with_secret encrypted r = record r { secret = encrypted; last_used_time_step = none }

abbrev pub activated : ℕ → ℕ → UserMfaTotp → UserMfaTotp
activated now step r = record r { enabled_at = some now; last_used_time_step = some step }

abbrev enrolled : Call → String → AuditLog
enrolled c user_id = record {
  event_type = "mfa_enrolled";
  actor_id = some user_id;
  user_id = some user_id;
  application_id = none;
  session_id = none;
  result = "SUCCESS";
  detail = some "totp";
  ip_address = c.ip_address;
}

abbrev rejected : Call → String → AuditLog
rejected c user_id = record {
  event_type = "mfa_failed";
  actor_id = none;
  user_id = some user_id;
  application_id = none;
  session_id = none;
  result = "FAILED";
  detail = some "enrollment_code_rejected";
  ip_address = c.ip_address;
}

module _ ⦃db : Prisma⦄ where
  abbrev pub factor_of : String → ServerStore → Option UserMfaTotp
  factor_of user_id s = find_one (is_factor_of user_id) s.mfa_totps

  -- `getStatus`. Its readings are one.
  unfoldable pub get_status : String → ServerStore → MfaStatus
  get_status user_id s =
      let on = some_and is_enabled_factor (factor_of user_id s) in
      record {
        enabled = on;
        enrollment_pending =
            some_and (λ (r : UserMfaTotp). is_none r.enabled_at) (factor_of user_id s);
        recovery_codes_remaining =
            if on then length (find_many (is_unused_of user_id) s.recovery_codes) else 0;
      }

  -- `userMfaTotp.upsert`
  abbrev pub with_factor : String → String → ServerStore → ServerStore
  with_factor user_id encrypted s = record s {
    mfa_totps =
        upsert (is_factor_of user_id) (new_factor user_id encrypted) (with_secret encrypted)
          s.mfa_totps;
  }

  -- The callback of `start`'s transaction.
  unfoldable pub keep_secret : String → String → Handler (Unit {0})
  keep_secret user_id encrypted = do
    existing ← gets (factor_of user_id)
    throw_if (some_and is_enabled_factor existing) (conflict "MFA_ALREADY_ENABLED")
    modify (with_factor user_id encrypted)

  -- `start`
  unfoldable pub start : NewSecret → String → String → Handler StartedMfaEnrollment
  unfolding keep_secret
  start new user_id email = do
    transaction (keep_secret user_id new.encrypted)
    pure (record {
      manual_key = new.secret;
      provisioning_uri = new.provisioning_uri email new.secret;
      qr_code_data_url = new.to_data_url (new.provisioning_uri email new.secret);
    })

module _ ⦃db : Prisma⦄ (rt : Runtime) (c : Call) where
  -- The time step that a code proves, given the decrypted secret, if it can be decrypted.
  abbrev pub accepted_step : Option String → String → Option ℕ
  accepted_step none code = none
  accepted_step (some secret) code = validate_token rt secret code c.now

  -- The callback of `confirm`'s transaction.
  unfoldable pub activate : String → ℕ → List DrawnCode → Handler (Unit {0})
  unfolding update_totps replace_codes
  activate user_id step drawn = do
    count ← update_totps (is_pending_of user_id) (activated c.now step)
    throw_if (not (count == 1)) (conflict "MFA_ENROLLMENT_NOT_PENDING")
    replace_codes user_id (code_rows rt user_id drawn)
    modify (audited (enrolled c user_id))

  -- `confirm`, once the code was looked at; with `auditFailedConfirmation`.
  unfoldable pub confirm_with : String → List DrawnCode → Option ℕ → Handler (List String)
  unfolding activate
  confirm_with user_id drawn none = do
    modify (audited (rejected c user_id))
    throw (bad_request "MFA_ENROLLMENT_CODE_INVALID")
  confirm_with user_id drawn (some step) = do
    transaction (activate user_id step drawn)
    pure (raw_codes drawn)

  -- `confirm`
  unfoldable pub confirm : String → String → List DrawnCode → Handler (List String)
  unfolding confirm_with
  confirm user_id code drawn = do
    found ← gets (factor_of user_id)
    enrollment ← or_throw found (conflict "MFA_ENROLLMENT_NOT_PENDING")
    throw_if (is_some enrollment.enabled_at) (conflict "MFA_ENROLLMENT_NOT_PENDING")
    confirm_with user_id drawn (accepted_step (rt.decrypt enrollment.secret user_id) code)
