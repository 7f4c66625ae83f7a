-- ===== src/Server/Token/Once.antt =====
-- A code is exchanged at most once (token.service.ts).

use seleksi2_labpro.Prelude.{
  ◌≢◌, sym, subst, ◌≡◌, refl, String, true, Option, some, List, ok, arith, Bool-cases, same_text,
  Option-cases, inl, inr, is_some, find_by, ◌>>=◌, update_where,
}
use seleksi2_labpro.Database.{Prisma, reference, IsDocumented, documented}
use seleksi2_labpro.Prelude.Ensures.{
  Ensures, Ensures-throw_if, Ensures-or_throw, Ensures-gets, Ensures-pure,
}
use seleksi2_labpro.Database.Transactions.{Ensures-transaction}
use seleksi2_labpro.Database.Rows.{find_by-update_where}
use seleksi2_labpro.Schema.Accounts.{Application}
use seleksi2_labpro.Schema.Sessions.{AuthorizationCode}
use seleksi2_labpro.Server.Store.{ServerStore}
use seleksi2_labpro.Server.Runtime.{Runtime, Settings, Call, hash_secret, read_bounded_string}
use seleksi2_labpro.Server.Token.{
  TokenRequestInput, TokenResult, exchange, redeem, is_code_hash, is_usable, is_unused, use_up,
}

-- The code that the request carries has been used.
abbrev pub IsUsed : Runtime → String → List AuthorizationCode → Type 0
IsUsed rt code t =
    (r : AuthorizationCode) × (find_by (is_code_hash (hash_secret rt code)) t ≡ some r)
    × (is_some r.used_at ≡ true)

module _ (rt : Runtime) (cfg : Settings) (c : Call) (a : Application)
    (code uri verifier : String) where
  redeem_used :
      (s : ServerStore)
      → IsUsed rt code s.authorization_codes
      → (redeem ⦃db = reference⦄ rt cfg c a code uri verifier s).0 ≢ ok tt
  unfolding redeem is_usable ◌>>=◌
  redeem_used s (r, found, used) x = ground arith

  IsUsed-use_up :
      (r : AuthorizationCode) (t : List AuthorizationCode)
      → find_by (is_code_hash (hash_secret rt code)) t ≡ some r
      → is_unused r a c.now r ≡ true
      → IsUsed rt code (update_where (is_unused r a c.now) (use_up c.now) t)
  IsUsed-use_up r t found fits = (
    use_up c.now r,
    ground (
      arith,
      find_by-update_where (is_code_hash (hash_secret rt code)) (is_unused r a c.now) (use_up c.now)
          t (λ x. refl),
    ),
    refl,
  )

  usable-unused :
      (r : AuthorizationCode)
      → is_usable rt c.now a uri verifier r ≡ true
      → is_unused r a c.now r ≡ true
  unfolding is_usable
  usable-unused r h = ground (arith, same_text r.id)

  redeem_uses :
      (s : ServerStore)
      → (redeem ⦃db = reference⦄ rt cfg c a code uri verifier s).0 ≡ ok tt
      → IsUsed rt code
          (redeem ⦃db = reference⦄ rt cfg c a code uri verifier s).1.authorization_codes
  unfolding redeem ◌>>=◌
  redeem_uses s x =
      elim (Option-cases (find_by (is_code_hash (hash_secret rt code)) s.authorization_codes)) [
        | inl missing ↦ ground arith
        | inr (r, found) ↦ elim (Bool-cases (is_usable rt c.now a uri verifier r)) [
          | inl fits ↦
              ground (arith, IsUsed-use_up r s.authorization_codes found (usable-unused r fits))
          | inr unfit ↦ ground arith
        ]
      ]

-- What a successful exchange has done to the code of the request: it was unused, and is used.
abbrev pub Consumes : Runtime → TokenRequestInput → ServerStore → ServerStore → Type 0
Consumes rt input s s' =
    (code : String) × (read_bounded_string input.code 512 ≡ some code)
    × (¬ IsUsed rt code s.authorization_codes)
    × IsUsed rt code s'.authorization_codes

module _ (rt : Runtime) (cfg : Settings) (c : Call) (input : TokenRequestInput)
    (header : Option String) where
  redeem-Consumes :
      (a : Application) (code uri verifier : String)
      → read_bounded_string input.code 512 ≡ some code
      → Ensures (Consumes rt input) (redeem ⦃db = reference⦄ rt cfg c a code uri verifier)
  redeem-Consumes a code uri verifier e = record {
    at = λ s u x. (
      code,
      e,
      (λ used. redeem_used rt cfg c a code uri verifier s used x),
      redeem_uses rt cfg c a code uri verifier s x,
    );
  }

  pub exchange-Consumes :
      Ensures (Consumes rt input) (exchange ⦃db = reference⦄ rt cfg c input header)
  unfolding exchange
  exchange-Consumes = Ensures-throw_if _ _ _ (
      Ensures-or_throw _ _ _ λ code e. Ensures-or_throw _ _ _ λ uri _.
        Ensures-or_throw _ _ _ λ verifier _. Ensures-or_throw _ _ _ λ cred _.
          Ensures-gets _ _ λ found. Ensures-or_throw _ _ _ λ a _.
            Ensures-pure _ _ (Ensures-transaction _ _ (redeem-Consumes a code uri verifier e)))

module _ ⦃db : Prisma⦄ (l : IsDocumented db) where
  -- A code that was exchanged once is never exchanged again, by whatever later request, as long as
  -- the table of codes is the one that the exchange left.
  pub exchange_once :
      (rt : Runtime) (cfg : Settings) (c c' : Call) (input input' : TokenRequestInput)
      (header header' : Option String) (s s' : ServerStore) (token token' : TokenResult)
      → (exchange rt cfg c input header s).0 ≡ ok token
      → s'.authorization_codes ≡ (exchange rt cfg c input header s).1.authorization_codes
      → input'.code ≡ input.code
      → (exchange rt cfg c' input' header' s').0 ≢ ok token'
  exchange_once rt cfg c c' input input' header header' s s' token token' first kept same second =
      let (code, e, _, used) =
        (exchange-Consumes rt cfg c input header).at s token (rw (documented l) at first) in
      let (code', e', unused, _) =
        (exchange-Consumes rt cfg c' input' header').at s' token' (rw (documented l) at second) in
      let here : code' ≡ code = ground (arith, same) in
      unused (
        subst (λ k. IsUsed rt k s'.authorization_codes) (sym here)
          (subst (IsUsed rt code) (sym (rw (documented l) at kept)) used))
