-- ===== src/Server/UserInfo/Entitled.antt =====
-- Who gets a profile (userinfo.service.ts).
use mathlib.Core.List.{Memᴰ}
use seleksi2_labpro.Prelude.{
  ℕ, ◌<◌, ◌≡◌, refl, subst, String, Bool, true, ◌&&◌, List, Option, none, some, ok, arith,
  Bool-cases, Option-cases, inl, inr, some_and, is_some, is_none, any, ltb, find_by, eq_iff,
  and-true, ◌===◌, ◌>>=◌,
}
use seleksi2_labpro.Database.{Prisma, reference, IsDocumented, documented}
use seleksi2_labpro.Database.Rows.{find_by_sound}
use seleksi2_labpro.Database.Members.{find_by-Memᴰ, any-Memᴰ}
use seleksi2_labpro.Schema.Accounts.{
  User, Application, UserGroup, ApplicationGroupPolicy, ActivityStatus, is_enabled,
}
use seleksi2_labpro.Schema.Sessions.{AccessToken, SsoSession, SessionStatus, is_active}
use seleksi2_labpro.Server.Store.{ServerStore}
use seleksi2_labpro.Server.Runtime.{Runtime, Call, hash_secret}
use seleksi2_labpro.Server.UserInfo.{
  UserInfoResult, get_profile, read_profile, is_valid, is_allowed, is_token_hash, scopes_of,
  parse_bearer_token,
}
use seleksi2_labpro.Server.UserInfo.Access.{refused}

-- The status ACTIVE, no revocation, and time left.
pub record IsLive (now : ℕ) (status : SessionStatus) (revoked_at : Option ℕ) (expires_at : ℕ)
    : Type 0 where
  pub active : status ≡ SessionStatus.active
  pub unrevoked : revoked_at ≡ none
  pub unexpired : now < expires_at

-- A policy of the token's application for a group that the token's user is a member of.
pub record IsPermitted (t : AccessToken) (s : ServerStore) : Type 0 where
  pub policy : ApplicationGroupPolicy
  pub member : UserGroup
  pub on_record : Memᴰ policy s.policies × Memᴰ member s.user_groups
  pub of_application : policy.application_id ≡ t.application_id
  pub of_user : member.user_id ≡ t.user_id
  pub same_group : member.group_id ≡ policy.group_id

-- Everything that a token needs.
pub record IsEntitled (now : ℕ) (t : AccessToken) (s : ServerStore) : Type 0 where
  pub token : IsLive now t.status t.revoked_at t.expires_at
  pub user :
      (u : User) × (find_by (λ (x : User). x.id === t.user_id) s.users ≡ some u)
      × (u.status ≡ ActivityStatus.active)
  pub application :
      (a : Application) × (find_by (λ (x : Application). x.id === t.application_id) s.applications
        ≡ some a)
      × (a.status ≡ ActivityStatus.active)
  pub session :
      (r : SsoSession) × (find_by (λ (x : SsoSession). x.id === t.sso_session_id) s.sso_sessions
        ≡ some r)
      × IsLive now r.status r.revoked_at r.expires_at
  pub scope : (scopes : List String) × (t.scopes ≡ some scopes) × Memᴰ "profile" scopes
  pub permitted : IsPermitted t s

some_and_sound :
    {A : Type 0} (p : A → Bool) (o : Option A)
    → some_and p o ≡ true
    → (a : A) × (o ≡ some a) × (p a ≡ true)
some_and_sound p none h = ground arith
some_and_sound p (some a) h = (a, refl, h)

is_active_sound : (k : SessionStatus) → is_active k ≡ true → k ≡ SessionStatus.active
is_active_sound SessionStatus.active h = refl
is_active_sound SessionStatus.expired h = ground arith
is_active_sound SessionStatus.revoked h = ground arith

is_enabled_sound : (k : ActivityStatus) → is_enabled k ≡ true → k ≡ ActivityStatus.active
is_enabled_sound ActivityStatus.active h = refl
is_enabled_sound ActivityStatus.inactive h = ground arith

is_none_sound : (o : Option ℕ) → is_none o ≡ true → o ≡ none
is_none_sound none h = refl
is_none_sound (some n) h = ground arith

is_some_sound : {A : Type 0} (o : Option A) → is_some o ≡ true → (a : A) × (o ≡ some a)
is_some_sound none h = ground arith
is_some_sound (some a) h = (a, refl)

live_sound :
    (now : ℕ) (k : SessionStatus) (o : Option ℕ) (until : ℕ)
    → (is_active k && is_none o && ltb now until) ≡ true
    → IsLive now k o until
live_sound now k o until h = record {
  active = is_active_sound k (ground (arith, h));
  unrevoked = is_none_sound o (ground (arith, h));
  unexpired = ground (arith, h);
}

allowed_sound :
    (t : AccessToken) (s : ServerStore)
    → is_allowed ⦃db = reference⦄ t.application_id t.user_id s ≡ true
    → IsPermitted t s
unfolding is_allowed
allowed_sound t s h =
    let (p, found) = is_some_sound _ h in
    let fits = find_by_sound _ s.policies p found in
    let (m, at, mine) =
      any-Memᴰ (λ (m : UserGroup). m.user_id === t.user_id && m.group_id === p.group_id)
        s.user_groups (ground (arith, fits)) in
    record {
      policy = p;
      member = m;
      on_record = (find_by-Memᴰ _ s.policies p found, at);
      of_application = (eq_iff p.application_id t.application_id).0 (ground (arith, fits));
      of_user = (eq_iff m.user_id t.user_id).0 (ground (arith, mine));
      same_group = (eq_iff m.group_id p.group_id).0 (ground (arith, mine));
    }

scope_sound :
    (o : Option (List String))
    → any (λ x. x === "profile") (scopes_of o) ≡ true
    → (scopes : List String) × (o ≡ some scopes) × Memᴰ "profile" scopes
unfolding any
scope_sound none h = ground arith
scope_sound (some l) h =
    let (x, at, same) = any-Memᴰ (λ x. x === "profile") l h in
    (l, refl, subst (λ y. Memᴰ y l) ((eq_iff x "profile").0 same) at)

module _ (rt : Runtime) (c : Call) (s : ServerStore) (t : AccessToken) where
  entitled :
      is_valid ⦃db = reference⦄ rt c t s ≡ true
      → is_allowed ⦃db = reference⦄ t.application_id t.user_id s ≡ true
      → IsEntitled c.now t s
  entitled valid allowed =
      let (sessions, scope) = and-true _ _ valid in
      let (applications, session) = and-true _ _ sessions in
      let (users, application) = and-true _ _ applications in
      let (live, user) = and-true _ _ users in
      let (u, u_found, u_on) = some_and_sound _ _ user in
      let (a, a_found, a_on) = some_and_sound _ _ application in
      let (r, r_found, r_live) = some_and_sound _ _ session in
      record {
        token = live_sound c.now t.status t.revoked_at t.expires_at live;
        user = (u, u_found, is_enabled_sound u.status u_on);
        application = (a, a_found, is_enabled_sound a.status a_on);
        session = (r, r_found, live_sound c.now r.status r.revoked_at r.expires_at r_live);
        scope = scope_sound t.scopes scope;
        permitted = allowed_sound t s allowed;
      }

  profile-IsEntitled :
      (header : Option String) (token : String) (p : UserInfoResult)
      → parse_bearer_token header ≡ some token
      → find_by (is_token_hash (hash_secret rt token)) s.access_tokens ≡ some t
      → (get_profile ⦃db = reference⦄ rt c header s).0 ≡ ok p
      → IsEntitled c.now t s
  profile-IsEntitled header token p parsed found done =
      elim (Bool-cases (
        is_valid ⦃db = reference⦄ rt c t s
        && is_allowed ⦃db = reference⦄ t.application_id t.user_id s)) [
          | inl both ↦ let (valid, allowed) = and-true _ _ both in entitled valid allowed
          | inr lacking ↦ ground (arith, done, refused rt c s t header token parsed found lacking)
        ]

-- The token whose profile it is.
pub record IsGranted (rt : Runtime) (c : Call) (header : Option String) (s : ServerStore)
    : Type 0 where
  pub token : String
  pub row : AccessToken
  pub presented : parse_bearer_token header ≡ some token
  pub found :
      find_by (λ (x : AccessToken). x.token_hash === hash_secret rt token) s.access_tokens
      ≡ some row
  pub entitled : IsEntitled c.now row s

profile-IsGranted :
    (rt : Runtime) (c : Call) (s : ServerStore) (header : Option String) (p : UserInfoResult)
    → (get_profile ⦃db = reference⦄ rt c header s).0 ≡ ok p
    → IsGranted rt c header s
unfolding get_profile read_profile ◌>>=◌
profile-IsGranted rt c s header p done = elim (Option-cases (parse_bearer_token header)) [
  | inl nothing ↦ ground (arith, rw nothing at done)
  | inr (token, parsed) ↦
      elim (Option-cases (find_by (is_token_hash (hash_secret rt token)) s.access_tokens)) [
        | inl missing ↦ ground (arith, rw (parsed, missing) at done)
        | inr (t, found) ↦ record {
          token = token;
          row = t;
          presented = parsed;
          found = found;
          entitled = profile-IsEntitled rt c s t header token p parsed found done;
        }
      ]
]

module _ ⦃db : Prisma⦄ (l : IsDocumented db) where
  -- Whoever gets a profile presented a bearer token whose row is ACTIVE, not revoked and not run out,
  -- with the scope `profile`; its session is so too; its user and its application are ACTIVE; and a
  -- policy of the application allows a group that the user is a member of.
  pub get_profile-IsGranted :
      (rt : Runtime) (c : Call) (s : ServerStore) (header : Option String) (p : UserInfoResult)
      → (get_profile rt c header s).0 ≡ ok p
      → IsGranted rt c header s
  get_profile-IsGranted rt c s header p done =
      profile-IsGranted rt c s header p (rw (documented l) at done)
