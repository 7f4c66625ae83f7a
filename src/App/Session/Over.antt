-- ===== src/App/Session/Over.antt =====
-- A session that is over, and that resolving and revoking sessions bring none back (local-session.ts).
use seleksi2_labpro.Prelude.{
  ℕ, ◌≡◌, ◌≢◌, refl, sym, subst, String, Bool, true, false, List, Option, none, some, arith, inl,
  inr, Bool-cases, find_by, update_where, ◌≤◌, modify, any, ◌>>=◌,
}
use seleksi2_labpro.Prelude.Moves.{
  Moves, IsPreorder, Moves-modify, Moves-if, Moves-bind, moves_rules,
}
use seleksi2_labpro.Database.{reference}
use seleksi2_labpro.Database.Transactions.{Moves-transaction}
use seleksi2_labpro.Database.Rows.{find_by-update_where, find_by-kept}
use seleksi2_labpro.App.Store.{
  AppStore, AppError, LocalSession, LocalSessionStatus, ProfileCache, ActivityLog, logged,
  update_sessions, update_and_return_sessions, create_session,
}
use seleksi2_labpro.App.Session.{
  classify, is_session_token, resolve, resolve_hash, resolve_found, resolve_by, mark_expired,
  keep_alive, revoke_local_session, revoke_found, revoke, touch, expire,
}

-- From `now` on, the session of the token's hash is not active.
abbrev pub IsOver : String → ℕ → List LocalSession → Type 0
IsOver h now t =
    (r : LocalSession) × (find_by (is_session_token h) t ≡ some r)
    × ((at : ℕ) → now ≤ at → classify r at ≢ LocalSessionStatus.active)

-- A write that brings no session back, and leaves the hashes alone.
pub record IsForward (f : LocalSession → LocalSession) : Type 0 where
  pub hash : (h : String) (r : LocalSession) → is_session_token h (f r) ≡ is_session_token h r
  pub stays :
      (r : LocalSession) (at : ℕ)
      → classify (f r) at ≡ LocalSessionStatus.active
      → classify r at ≡ LocalSessionStatus.active

pub touch-IsForward : (now : ℕ) → IsForward (touch now)
unfolding classify
touch-IsForward now = record { hash = λ h r. refl; stays = λ r at x. x }

pub expire-IsForward : IsForward expire
unfolding classify
expire-IsForward = record { hash = λ h r. refl; stays = λ r at x. ground arith }

pub revoke-IsForward : (now : ℕ) (reason : String) → IsForward (revoke now reason)
unfolding classify
revoke-IsForward now reason = record { hash = λ h r. refl; stays = λ r at x. ground arith }

module _ (h : String) (now : ℕ) where
  abbrev pub KeepsOver : AppStore → AppStore → Type 0
  KeepsOver s s' = IsOver h now s.local_sessions → IsOver h now s'.local_sessions

  pub KeepsOver-preorder : IsPreorder KeepsOver
  KeepsOver-preorder = record { stays = λ s k. k; joins = λ s t u a b k. b (a k) }

  IsOver-update_where :
      (p : LocalSession → Bool) (f : LocalSession → LocalSession) (t : List LocalSession)
      → IsForward f
      → IsOver h now t
      → IsOver h now (update_where p f t)
  IsOver-update_where p f t forward (r, found, over) = elim (Bool-cases (p r)) [
    | inl hit ↦ (
      f r,
      ground (arith, find_by-update_where (is_session_token h) p f t (forward.hash h)),
      λ at k x. over at k (forward.stays r at x),
    )
    | inr miss ↦
        (r, ground (arith, find_by-update_where (is_session_token h) p f t (forward.hash h)), over)
  ]

  pub Over-update :
      (p : LocalSession → Bool) (f : LocalSession → LocalSession)
      → IsForward f
      → Moves KeepsOver (update_sessions ⦃db = reference⦄ p f)
  unfolding update_sessions
  Over-update p f forward = record { at = λ s. IsOver-update_where p f s.local_sessions forward }

  pub Over-update_and_return :
      (p : LocalSession → Bool) (f : LocalSession → LocalSession)
      → IsForward f
      → Moves KeepsOver (update_and_return_sessions ⦃db = reference⦄ p f)
  unfolding update_and_return_sessions
  Over-update_and_return p f forward = record {
    at = λ s. IsOver-update_where p f s.local_sessions forward;
  }

  pub Over-create_session :
      (r : LocalSession) (clash : LocalSession → Bool)
      → Moves KeepsOver (create_session ⦃db = reference⦄ r clash)
  unfolding create_session ◌>>=◌
  Over-create_session r clash = record { at = λ s k. made s k (any clash s.local_sessions) refl }
    where
      made :
          (s : AppStore)
          → IsOver h now s.local_sessions
          → (b : Bool) → any clash s.local_sessions ≡ b
          → IsOver h now (create_session ⦃db = reference⦄ r clash s).1.local_sessions
      made s k true e = rw e k
      made s (x, found, over) false e =
          rw e (x, find_by-kept (is_session_token h) s.local_sessions r x found, over)

  pub Over-modify :
      (f : AppStore → AppStore)
      → ((s : AppStore) → (f s).local_sessions ≡ s.local_sessions)
      → Moves KeepsOver (modify {E = AppError} f)
  Over-modify f same = Moves-modify KeepsOver-preorder f (λ s. subst (IsOver h now) (sym (same s)))

  pub Over-logged :
      (a : ActivityLog) → Moves KeepsOver (modify {E = AppError} (logged ⦃db = reference⦄ a))
  Over-logged a = Over-modify (logged ⦃db = reference⦄ a) (λ s. refl)

pub ruleset over_rules = (
  KeepsOver-preorder, moves_rules, Moves-transaction, Over-update, Over-update_and_return,
  Over-create_session, Over-logged, touch-IsForward, expire-IsForward, revoke-IsForward,
)

module _ (h : String) (now : ℕ) where
  abbrev pub Keeps : AppStore → AppStore → Type 0
  Keeps = KeepsOver h now

  mark_expired-Keeps :
      (r : LocalSession) (at : ℕ) → Moves Keeps (mark_expired ⦃db = reference⦄ r at)
  unfolding mark_expired
  mark_expired-Keeps r at = search over_rules depth 8

  keep_alive-Keeps :
      (r : LocalSession) (p : ProfileCache) (at : ℕ)
      → Moves Keeps (keep_alive ⦃db = reference⦄ r p at)
  unfolding keep_alive
  keep_alive-Keeps r p at = search over_rules depth 8

  resolve_by-Keeps :
      (k : LocalSessionStatus) (r : LocalSession) (p : ProfileCache) (at : ℕ)
      → Moves Keeps (resolve_by ⦃db = reference⦄ k r p at)
  unfolding resolve_by
  resolve_by-Keeps LocalSessionStatus.active r p at = keep_alive-Keeps r p at
  resolve_by-Keeps LocalSessionStatus.expired r p at = mark_expired-Keeps r at
  resolve_by-Keeps LocalSessionStatus.revoked r p at = search over_rules

  resolve_found-Keeps :
      (o : Option LocalSession) (p : Option ProfileCache) (at : ℕ)
      → Moves Keeps (resolve_found ⦃db = reference⦄ o p at)
  unfolding resolve_found
  resolve_found-Keeps none p at = search over_rules
  resolve_found-Keeps (some r) none at = search over_rules
  resolve_found-Keeps (some r) (some p) at = resolve_by-Keeps (classify r at) r p at

  pub resolve-Keeps :
      (hash : String → String) (token : String) (at : ℕ)
      → Moves Keeps (resolve ⦃db = reference⦄ hash token at)
  unfolding resolve resolve_hash
  resolve-Keeps hash token at = search (over_rules, resolve_found-Keeps) depth 8

  revoke_found-Keeps :
      (o : Option LocalSession) (request_id : String) (at : ℕ)
      → Moves Keeps (revoke_found ⦃db = reference⦄ o request_id at)
  unfolding revoke_found
  revoke_found-Keeps none request_id at = search over_rules
  revoke_found-Keeps (some r) request_id at = search over_rules depth 10

  pub revoke_local_session-Keeps :
      (hash : String → String) (token request_id : String) (at : ℕ)
      → Moves Keeps (revoke_local_session ⦃db = reference⦄ hash token request_id at)
  unfolding revoke_local_session
  revoke_local_session-Keeps hash token request_id at =
      search (over_rules, revoke_found-Keeps) depth 8
