-- ===== src/Server/Token/Tests.antt =====
-- Token requests at a small organisation.
use seleksi2_labpro.Prelude.{
  ◌≡◌, ◌≢◌, refl, String, Option, some, ok, err, Result, ◌>>=◌, find_by, count, any, update_where,
}
use seleksi2_labpro.Database.{reference, reference-IsDocumented}
use seleksi2_labpro.Shared.Json.{string}
use seleksi2_labpro.Shared.Pattern.{at_most}
use seleksi2_labpro.Shared.Canonical.{units}
use seleksi2_labpro.Server.Store.{
  ServerStore, ServerError, token_request, update_sessions, update_codes, create_token,
}
use seleksi2_labpro.Server.Runtime.{
  verify_secret, same_bytes, read_bounded_string, is_letter, is_figure, is_url_safe, is_unreserved,
  is_base64_char, every, strip_prefix,
}
use seleksi2_labpro.Server.Samples.{plain, settings, call, opaque, organisation}
use seleksi2_labpro.Server.Token.{
  TokenRequestInput, TokenResult, exchange, redeem, is_verifier, is_base64, split_at_colon,
  parse_basic_credentials, verify_pkce, authenticated, is_usable,
}
use seleksi2_labpro.Server.Token.Rollback.{exchange-err}
use seleksi2_labpro.Server.Token.Once.{exchange_once}

abbrev request : String → TokenRequestInput
request code = record {
  grant_type = some (string "authorization_code");
  code = some (string code);
  redirect_uri = some (string "https://app/callback");
  code_verifier = some (string opaque);
}

abbrev header : Option String
header = some "Basic YXBw"

abbrev issued : TokenResult
issued = record { access_token = "new"; expires_in = 300; scope = "profile" }

exchanged : String → ServerStore → Result ServerError TokenResult × ServerStore
unfolding exchange redeem is_verifier is_base64 split_at_colon parse_basic_credentials verify_pkce
    authenticated is_usable verify_secret same_bytes read_bounded_string is_letter is_figure
    is_url_safe is_unreserved is_base64_char every strip_prefix units at_most ◌>>=◌ update_sessions
    update_codes create_token
exchanged code = exchange ⦃db = reference⦄ plain settings (call 1000 "new") (request code) header

exchange_works : (exchanged "the-code" organisation).0 ≡ ok issued
unfolding exchanged find_by count any update_where
exchange_works = refl

unknown_code : (exchanged "no-code" organisation).0 ≡ err (token_request "invalid_grant")
unfolding exchanged find_by count any update_where
unknown_code = refl

exchange-err_example :
    (exchange ⦃db = reference⦄ plain settings
      (call 1000 "new")
      (request "no-code")
      header
      organisation).1
    ≡ organisation
unfolding exchanged find_by count any update_where
exchange-err_example =
    exchange-err ⦃db = reference⦄ reference-IsDocumented plain settings (call 1000 "new")
      (request "no-code") header organisation (token_request "invalid_grant") unknown_code

after_exchange : ServerStore
unfolding exchanged find_by count any update_where
after_exchange = (exchanged "the-code" organisation).1

exchange_once_example :
    (exchange ⦃db = reference⦄ plain settings
      (call 2000 "newer")
      (request "the-code")
      header
      after_exchange).0
    ≢ ok issued
unfolding after_exchange exchanged find_by count any update_where
exchange_once_example =
    exchange_once ⦃db = reference⦄ reference-IsDocumented plain settings (call 1000 "new")
      (call 2000 "newer") (request "the-code") (request "the-code") header header organisation
      after_exchange issued issued exchange_works refl refl
