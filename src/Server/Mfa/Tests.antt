-- ===== src/Server/Mfa/Tests.antt =====
-- Runs of the second factor's enrolment and management.
use seleksi2_labpro.Prelude.{
  ◌===◌, ◌&&◌, is_none, length, ◌>>=◌, any, count, update_where, filter, ◌≡◌, refl, true, false,
  none, some, List, [], ◌∷◌, ok, err, All, find_by,
}
use seleksi2_labpro.Database.{reference, reference-IsDocumented}
use seleksi2_labpro.Schema.Sessions.{UserMfaTotp, MfaLoginChallenge, MfaRecoveryCode}
use seleksi2_labpro.Server.Store.{ServerStore, conflict, bad_request}
use seleksi2_labpro.Server.Samples.{plain, call, organisation}
use seleksi2_labpro.Server.Mfa.Codes.{
  hash_recovery_code, validate_token, normalize_recovery_code, is_recovery_char,
}
use seleksi2_labpro.Server.Mfa.Recovery.{DrawnCode, new_code, format, code_rows}
use seleksi2_labpro.Server.Mfa.Enrollment.{NewSecret, get_status, start, confirm, is_factor_of}
use seleksi2_labpro.Server.Mfa.Management.{
  disable, regenerate_recovery_codes, invalid_reauthentication,
}
use seleksi2_labpro.Shared.Pattern.{codes}
use seleksi2_labpro.Server.Runtime.{every}
use seleksi2_labpro.Server.Mfa.Accepted.{shown_accepted}
use seleksi2_labpro.Server.Mfa.Disabled.{disable_ends_factor}
use seleksi2_labpro.Server.Mfa.Replaced.{HasCodes}
use seleksi2_labpro.Server.Mfa.Enrolled.{confirm_enrolls, regenerate_replaces}
use seleksi2_labpro.Server.Mfa.Started.{start_keeps_enabled, start_pends, shown}

abbrev drawn : List DrawnCode
drawn =
    record { id = "a"; compact = "ABCDEFGHJKLM" }
    ∷ record { id = "b"; compact = "NPQRSTUVWXYZ" }
    ∷ []

abbrev new_secret : NewSecret
new_secret = record {
  secret = "n";
  encrypted = "n";
  provisioning_uri = λ email secret. email;
  to_data_url = λ uri. uri;
}

abbrev without_factor : ServerStore
without_factor = record organisation { mfa_totps = [] }

abbrev enrolling : ServerStore
enrolling = (start ⦃db = reference⦄ new_secret "user" "u@x" without_factor).1

format_accepted :
    hash_recovery_code plain "user" (format "ABCDEFGHJKLM") ≡ some "mfa-recovery:user:ABCDEFGHJKLM"
unfolding hash_recovery_code format
format_accepted = refl

long_enough : length (codes "ABCDEFGHJKLM") ≡ 12
long_enough = refl

of_the_alphabet : every is_recovery_char (codes "ABCDEFGHJKLM") ≡ true
unfolding every
of_the_alphabet = refl

shown_accepted_example :
    (normalize_recovery_code plain (format "ABCDEFGHJKLM") ≡ some "ABCDEFGHJKLM")
    × (hash_recovery_code plain "user" (format "ABCDEFGHJKLM")
        ≡ some (new_code plain "user" (record { id = "a"; compact = "ABCDEFGHJKLM" })).code_hash)
shown_accepted_example =
    shown_accepted plain "user" (record { id = "a"; compact = "ABCDEFGHJKLM" }) long_enough
      of_the_alphabet refl

start_refused :
    (start ⦃db = reference⦄ new_secret "user" "u@x" organisation).0
    ≡ err (conflict "MFA_ALREADY_ENABLED")
unfolding start ◌>>=◌ find_by
start_refused = refl

confirm_refused :
    (confirm ⦃db = reference⦄ plain (call 1000 "x") "user" "12345" drawn enrolling).0
    ≡ err (bad_request "MFA_ENROLLMENT_CODE_INVALID")
unfolding start confirm ◌>>=◌ find_by any validate_token
confirm_refused = refl

disable_refused :
    (disable ⦃db = reference⦄ plain (call 1000 "x") "user" "wrong" "123456" organisation).0
    ≡ err invalid_reauthentication
unfolding disable ◌>>=◌ find_by
disable_refused = refl

confirms :
    (confirm ⦃db = reference⦄ plain (call 1000 "x") "user" "123456" drawn enrolling).0
    ≡ ok ("ABCD-EFGH-JKLM" ∷ "NPQR-STUV-WXYZ" ∷ [])
unfolding start confirm format ◌>>=◌ find_by any validate_token count update_where filter
    hash_recovery_code
confirms = refl

confirm_enrolls_example :
    get_status ⦃db = reference⦄ "user"
      (confirm ⦃db = reference⦄ plain (call 1000 "x") "user" "123456" drawn enrolling).1
    ≡ record { enabled = true; enrollment_pending = false; recovery_codes_remaining = 2 }
confirm_enrolls_example =
    confirm_enrolls ⦃db = reference⦄ reference-IsDocumented plain (call 1000 "x") "user" "123456"
      drawn enrolling ("ABCD-EFGH-JKLM" ∷ "NPQR-STUV-WXYZ" ∷ []) confirms

disables :
    (disable ⦃db = reference⦄ plain (call 1000 "x") "user" "pw" "123456" organisation).0 ≡ ok tt
unfolding disable ◌>>=◌ find_by validate_token count update_where filter
disables = refl

abbrev after_disable : ServerStore
after_disable = (disable ⦃db = reference⦄ plain (call 1000 "x") "user" "pw" "123456" organisation).1

disable_ends_factor_example :
    ((get_status ⦃db = reference⦄ "user" after_disable).enabled ≡ false)
    × All (λ (r : MfaRecoveryCode). (r.user_id === "user") ≡ false) after_disable.recovery_codes
    × All
        (λ (r : MfaLoginChallenge). (r.user_id === "user" && is_none r.used_at) ≡ false)
        after_disable.mfa_challenges
disable_ends_factor_example =
    disable_ends_factor ⦃db = reference⦄ reference-IsDocumented plain (call 1000 "x") "user" "pw"
      "123456" organisation tt disables

regenerates :
    (regenerate_recovery_codes ⦃db = reference⦄ plain
      (call 1000 "x")
      "user"
      "pw"
      "123456"
      drawn
      organisation).0
    ≡ ok ("ABCD-EFGH-JKLM" ∷ "NPQR-STUV-WXYZ" ∷ [])
unfolding regenerate_recovery_codes format ◌>>=◌ find_by any validate_token count update_where
    filter
regenerates = refl

regenerate_replaces_example :
    HasCodes "user"
      (code_rows plain "user" drawn)
      (regenerate_recovery_codes ⦃db = reference⦄ plain
        (call 1000 "x")
        "user"
        "pw"
        "123456"
        drawn
        organisation).1
regenerate_replaces_example =
    regenerate_replaces ⦃db = reference⦄ reference-IsDocumented plain (call 1000 "x") "user" "pw"
      "123456" drawn organisation ("ABCD-EFGH-JKLM" ∷ "NPQR-STUV-WXYZ" ∷ []) regenerates

abbrev factor : UserMfaTotp
factor = record { user_id = "user"; secret = "s"; enabled_at = some 1; last_used_time_step = none }

factor_is_there : find_by (is_factor_of "user") organisation.mfa_totps ≡ some factor
unfolding find_by
factor_is_there = refl

start_keeps_enabled_example :
    find_by
      (is_factor_of "user")
      (start ⦃db = reference⦄ new_secret "newcomer" "n@x" organisation).1.mfa_totps
    ≡ some factor
start_keeps_enabled_example =
    start_keeps_enabled ⦃db = reference⦄ reference-IsDocumented new_secret "newcomer" "n@x" "user"
      factor organisation factor_is_there refl

start_pends_example :
    ((start ⦃db = reference⦄ new_secret "user" "u@x" without_factor).0
      ≡ ok (shown new_secret "u@x"))
    × (get_status ⦃db = reference⦄ "user" enrolling
        ≡ record { enabled = false; enrollment_pending = true; recovery_codes_remaining = 0 })
unfolding get_status find_by
start_pends_example =
    start_pends ⦃db = reference⦄ reference-IsDocumented new_secret "user" "u@x" without_factor refl
