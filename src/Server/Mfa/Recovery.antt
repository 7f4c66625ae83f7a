-- ===== src/Server/Mfa/Recovery.antt =====
-- New recovery codes: `generate` of auth-provider/server/src/mfa/mfa-recovery-code.service.ts, and the
-- writes that put them in the place of the old ones (mfa-enrollment.service.ts and
-- mfa-management.service.ts beside it).
use Prim.Native.String
use seleksi2_labpro.Prelude.{
  ℕ, zero, suc, ◌-◌, String, List, [], ◌∷◌, Option, none, some, ◌===◌, gets, or_throw, modify,
  ◌>>=◌, ◌>>◌, map,
}
use seleksi2_labpro.Database.{Prisma, create, delete_many}
use seleksi2_labpro.Schema.Sessions.{MfaRecoveryCode}
use seleksi2_labpro.Server.Store.{ServerStore, Handler, unique_constraint}
use seleksi2_labpro.Server.Runtime.{Runtime}
use seleksi2_labpro.Server.Mfa.Codes.{hash_recovery_code}

-- A code that `randomInt` drew, with the identifier that its row gets.
pub record DrawnCode : Type 0 where
  pub id : String
  pub compact : String

abbrev pub take_text : ℕ → String → String
take_text zero s = ""
take_text (suc n) String.[] = ""
take_text (suc n) (String.◌∷◌ c s) = String.◌∷◌ c (take_text n s)

abbrev pub drop_text : ℕ → String → String
drop_text zero s = s
drop_text (suc n) String.[] = ""
drop_text (suc n) (String.◌∷◌ c s) = drop_text n s

-- `slice`
abbrev pub slice : ℕ → ℕ → String → String
slice from to s = take_text (to - from) (drop_text from s)

abbrev join_text : String → String → String
join_text = String.◌++◌

-- `format`
unfoldable pub format : String → String
format code =
    join_text (slice 0 4 code)
      (join_text "-" (join_text (slice 4 8 code) (join_text "-" (slice 8 12 code))))

-- `as string`: a code that was drawn has the pattern, so that its hash is there.
abbrev pub as_text : Option String → String
as_text none = ""
as_text (some s) = s

abbrev pub new_code : Runtime → String → DrawnCode → MfaRecoveryCode
new_code rt user_id d = record {
  id = d.id;
  user_id = user_id;
  code_hash = as_text (hash_recovery_code rt user_id (format d.compact));
  used_at = none;
}

-- `generate`, for the codes that its loop draws: the codes that the user is shown, and the rows.
abbrev pub raw_codes : List DrawnCode → List String
raw_codes = map (λ (d : DrawnCode). format d.compact)

abbrev pub code_rows : Runtime → String → List DrawnCode → List MfaRecoveryCode
code_rows rt user_id = map (new_code rt user_id)

module _ ⦃db : Prisma⦄ where
  abbrev pub create_next : List MfaRecoveryCode → MfaRecoveryCode → Option (List MfaRecoveryCode)
  create_next t r = create (λ (x : MfaRecoveryCode). x.code_hash === r.code_hash) r t

  -- `createMany`: all the rows or, where a hash is taken, none.
  unfoldable pub create_rows :
      List MfaRecoveryCode → List MfaRecoveryCode → Option (List MfaRecoveryCode)
  create_rows [] t = some t
  create_rows (r ∷ rs) t = elim (create_next t r) [ none ↦ none | some t' ↦ create_rows rs t' ]

  abbrev pub without_codes : String → ServerStore → ServerStore
  without_codes user_id s = record s {
    recovery_codes =
        (delete_many (λ (r : MfaRecoveryCode). r.user_id === user_id) s.recovery_codes).0;
  }

  -- `deleteMany` and `createMany` in a row.
  unfoldable pub replace_codes : String → List MfaRecoveryCode → Handler (Unit {0})
  unfolding create_rows
  replace_codes user_id rows = do
    modify (without_codes user_id)
    made ← gets (λ s. create_rows rows s.recovery_codes)
    t ← or_throw made unique_constraint
    modify (λ s. record s { recovery_codes = t })
