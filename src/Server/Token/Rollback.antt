-- ===== src/Server/Token/Rollback.antt =====
-- A refused token request leaves no trace (token.service.ts).
use seleksi2_labpro.Prelude.{◌≡◌, String, Option, err}
use seleksi2_labpro.Prelude.Atomic.{Atomic, atomic_rules}
use seleksi2_labpro.Database.{Prisma, reference, IsDocumented, documented}
use seleksi2_labpro.Database.Transactions.{Atomic-transaction}
use seleksi2_labpro.Server.Store.{ServerStore, ServerError}
use seleksi2_labpro.Server.Runtime.{Runtime, Settings, Call}
use seleksi2_labpro.Server.Token.{TokenRequestInput, exchange}

exchange-Atomic :
    (rt : Runtime) (cfg : Settings) (c : Call) (input : TokenRequestInput) (header : Option String)
    → Atomic (exchange ⦃db = reference⦄ rt cfg c input header)
unfolding exchange
exchange-Atomic rt cfg c input header = search (atomic_rules, Atomic-transaction) depth 24

module _ ⦃db : Prisma⦄ (l : IsDocumented db) where
  -- A token request that is answered with an error has changed nothing, wherever it failed.
  pub exchange-err :
      (rt : Runtime) (cfg : Settings) (c : Call) (input : TokenRequestInput)
      (header : Option String) (s : ServerStore) (e : ServerError)
      → (exchange rt cfg c input header s).0 ≡ err e
      → (exchange rt cfg c input header s).1 ≡ s
  exchange-err rt cfg c input header s e x =
      rw (documented l) ((exchange-Atomic rt cfg c input header).at s e (rw (documented l) at x))
