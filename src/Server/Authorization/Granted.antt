-- ===== src/Server/Authorization/Granted.antt =====
-- Where `authorize` may send the user (authorization.service.ts).
use seleksi2_labpro.Prelude.{
  ap, subst, arith, none, ◌||◌, is_some, and-true, eq_iff, ℕ, ◌≡◌, refl, String, true, Option, some,
  err, ◌⊎◌, inl, inr, Bool-cases, Option-cases, find_by, ◌>>=◌, ◌===◌,
}
use seleksi2_labpro.Database.{Prisma, reference, IsDocumented, documented}
use mathlib.Core.List.{Memᴰ}
use seleksi2_labpro.Database.Rows.{find_by_sound}
use seleksi2_labpro.Database.Members.{find_by-Memᴰ}
use seleksi2_labpro.Schema.Accounts.{Application, ApplicationRedirectUri}
use seleksi2_labpro.Shared.Json.{Json, string}
use seleksi2_labpro.Server.Store.{ServerStore}
use seleksi2_labpro.Server.Runtime.{Runtime, Settings, Call, Url, read_bounded_string}
use seleksi2_labpro.Server.Authorization.{
  AuthorizationRequestInput, authorize, untrusted, is_supported_redirect_uri, supported_url,
  trusted_uri, registered_uri,
}

-- The request passed the first tests of `authorize`.
record Passes (rt : Runtime) (cfg : Settings) (c : Call) (input : AuthorizationRequestInput)
    (s : ServerStore) : Type 0 where
  client_id : String
  uri : String
  application : Application
  named : read_bounded_string input.client_id 255 ≡ some client_id
  sent_to : trusted_uri rt (read_bounded_string input.redirect_uri 2048) ≡ some uri
  known : find_by (λ (a : Application). a.client_id === client_id) s.applications ≡ some application
  registered : registered_uri ⦃db = reference⦄ rt cfg c application uri s ≡ true

-- The request names an application of the table, and a redirect URI that a row of the table of
-- redirect URIs registers for that application; the URI is one of the web, with neither credentials
-- nor a fragment.
pub record IsTrusted (rt : Runtime) (input : AuthorizationRequestInput) (s : ServerStore)
    : Type 0 where
  pub client_id : String
  pub uri : String
  pub application : Application
  pub row : ApplicationRedirectUri
  pub url : Url
  pub named : input.client_id ≡ some (string client_id)
  pub sent_to : input.redirect_uri ≡ some (string uri)
  pub known : Memᴰ application s.applications × (application.client_id ≡ client_id)
  pub on_record : Memᴰ row s.redirect_uris
  pub of_application : row.application_id ≡ application.id
  pub same_uri : row.redirect_uri ≡ uri
  pub parsed : rt.parse_url uri ≡ some url
  pub web : (url.protocol ≡ "http:") ⊎ (url.protocol ≡ "https:")
  pub bare : (url.username ≡ "") × (url.password ≡ "") × (url.hash ≡ "")

bounded_sound :
    (o : Option Json) (n : ℕ) (s : String) → read_bounded_string o n ≡ some s → o ≡ some (string s)
unfolding read_bounded_string
bounded_sound (some (string t)) n s h = ground arith
bounded_sound _ n s h = ground arith

trusted_sound :
    (rt : Runtime) (o : Option String) (uri : String)
    → trusted_uri rt o ≡ some uri
    → (o ≡ some uri) × (is_supported_redirect_uri rt uri ≡ true)
trusted_sound rt none uri h = ground arith
trusted_sound rt (some u) uri h = elim (Bool-cases (is_supported_redirect_uri rt u)) [
  | inl good ↦
      let same : u ≡ uri = ground (arith, h, good) in
      (ap some same, subst (λ x. is_supported_redirect_uri rt x ≡ true) same good)
  | inr bad ↦ ground (arith, h, bad)
]

url_sound :
    (o : Option Url)
    → supported_url o ≡ true
    → (url : Url) × (o ≡ some url)
      × ((url.protocol ≡ "http:") ⊎ (url.protocol ≡ "https:"))
      × (url.username ≡ "")
      × (url.password ≡ "")
      × (url.hash ≡ "")
url_sound none h = ground arith
url_sound (some u) h =
    let (users, hash) = and-true _ (u.hash === "") h in
    let (names, password) = and-true _ (u.password === "") users in
    let (protocol, user) =
      and-true (u.protocol === "http:" || u.protocol === "https:") (u.username === "") names in
    (
      u,
      refl,
      (elim (Bool-cases (u.protocol === "http:")) [
        | inl plain ↦ inl ((eq_iff u.protocol "http:").0 plain)
        | inr other ↦ inr ((eq_iff u.protocol "https:").0 (ground (arith, protocol, other)))
      ]),
      (eq_iff u.username "").0 user,
      (eq_iff u.password "").0 password,
      (eq_iff u.hash "").0 hash,
    )

registered_sound :
    (o : Option ApplicationRedirectUri)
    → is_some o ≡ true
    → (r : ApplicationRedirectUri) × (o ≡ some r)
registered_sound none h = ground arith
registered_sound (some r) h = (r, refl)

Passes-IsTrusted :
    (rt : Runtime) (cfg : Settings) (c : Call) (input : AuthorizationRequestInput) (s : ServerStore)
    → Passes rt cfg c input s
    → IsTrusted rt input s
unfolding is_supported_redirect_uri
Passes-IsTrusted rt cfg c input s p =
    let (given, supported) = trusted_sound rt _ p.uri p.sent_to in
    let (url, parsed, web, user, password, hash) = url_sound (rt.parse_url p.uri) supported in
    let (row, found) = registered_sound _ p.registered in
    let (mine, same) = and-true _ _ (find_by_sound _ s.redirect_uris row found) in
    record {
      client_id = p.client_id;
      uri = p.uri;
      application = p.application;
      row = row;
      url = url;
      named = bounded_sound input.client_id 255 p.client_id p.named;
      sent_to = bounded_sound input.redirect_uri 2048 p.uri given;
      known = (
        find_by-Memᴰ _ s.applications p.application p.known,
        (eq_iff p.application.client_id p.client_id).0
            (find_by_sound _ s.applications p.application p.known),
      );
      on_record = find_by-Memᴰ _ s.redirect_uris row found;
      of_application = (eq_iff row.application_id p.application.id).0 mine;
      same_uri = (eq_iff row.redirect_uri p.uri).0 same;
      parsed = parsed;
      web = web;
      bare = (user, password, hash);
    }

module _ (rt : Runtime) (cfg : Settings) (c : Call) (input : AuthorizationRequestInput)
    (token : Option String) (s : ServerStore) where
  Passes-or_refused :
      Passes rt cfg c input s
      ⊎ (authorize ⦃db = reference⦄ rt cfg c input token s ≡ (err untrusted, s))
  unfolding authorize ◌>>=◌
  Passes-or_refused = elim (Option-cases (read_bounded_string input.client_id 255)) [
    | inl e ↦ inr (rw e refl)
    | inr (client_id, named) ↦
        elim (Option-cases (trusted_uri rt (read_bounded_string input.redirect_uri 2048))) [
          | inl e ↦ inr (rw (named, e) refl)
          | inr (uri, sent_to) ↦
              elim (Option-cases
                (find_by (λ (a : Application). a.client_id === client_id) s.applications)) [
                  | inl e ↦ inr (rw (named, sent_to, e) refl)
                  | inr (a, known) ↦
                      elim (Bool-cases (registered_uri ⦃db = reference⦄ rt cfg c a uri s)) [
                        | inl registered ↦ inl (record {
                          client_id = client_id;
                          uri = uri;
                          application = a;
                          named = named;
                          sent_to = sent_to;
                          known = known;
                          registered = registered;
                        })
                        | inr e ↦ inr (rw (named, sent_to, known, e) refl)
                      ]
                ]
        ]
  ]

module _ ⦃db : Prisma⦄ (l : IsDocumented db) where
  -- An authorization request either names an application and a web address that is registered as a
  -- redirect URI of that application, or is answered with the error that sends the user nowhere, and
  -- changes nothing.
  pub authorize-IsTrusted :
      (rt : Runtime) (cfg : Settings) (c : Call) (input : AuthorizationRequestInput)
      (token : Option String) (s : ServerStore)
      → IsTrusted rt input s ⊎ (authorize rt cfg c input token s ≡ (err untrusted, s))
  authorize-IsTrusted rt cfg c input token s =
      rw (documented l) (elim (Passes-or_refused rt cfg c input token s) [
        | inl p ↦ inl (Passes-IsTrusted rt cfg c input s p)
        | inr refused ↦ inr refused
      ])
