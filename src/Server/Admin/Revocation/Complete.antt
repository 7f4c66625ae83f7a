-- ===== src/Server/Admin/Revocation/Complete.antt =====
-- What a revocation leaves of a user's sessions, tokens and challenges
-- (admin-revocation.service.ts): nothing that is still good.
use seleksi2_labpro.Prelude.{
  ◌≡◌, refl, sym, eq_iff, subst, String, true, false, ◌&&◌, List, [], ◌∷◌, arith, is_none, any,
  ◌===◌, All, modify, ◌>>=◌, filter, map, pure,
}
use seleksi2_labpro.Prelude.Moves.{Moves, Moves-modify, moves_rules}
use seleksi2_labpro.Prelude.Ensures.{Ensures, Ensures-always, Ensures-keeps, Keeps-preorder}
use seleksi2_labpro.Database.{reference}
use seleksi2_labpro.Database.Members.{All-cleared}
use seleksi2_labpro.Schema.Sessions.{
  SsoSession, AccessToken, MfaLoginChallenge, is_active, AuditLog,
}
use seleksi2_labpro.Server.Store.{ServerStore, ServerError, audited}
use seleksi2_labpro.Server.Runtime.{Runtime}
use seleksi2_labpro.Server.Outbox.{NewRevocationEvent, enqueue_many, event_of}
use seleksi2_labpro.Server.Outbox.Appended.{enqueue_all_lem}
use seleksi2_labpro.Server.Admin.{AdminCall, unique, numbered}
use seleksi2_labpro.Server.Admin.Revocation.{
  is_one_of, is_session_of, is_token_of, is_challenge_of, revoke_all, revoke_security_state,
  revoke_users_for_deactivation, revoke_users_for_password_change, password_event,
}

-- The user has no session and no token that is not revoked, and no open challenge.
pub record IsSignedOut (id : String) (s : ServerStore) : Type 0 where
  pub sessions :
      All
        (λ (r : SsoSession).
          (r.user_id === id && is_active r.status && is_none r.revoked_at) ≡ false)
        s.sso_sessions
  pub tokens :
      All
        (λ (r : AccessToken).
          (r.user_id === id && is_active r.status && is_none r.revoked_at) ≡ false)
        s.access_tokens
  pub challenges :
      All
        (λ (r : MfaLoginChallenge). (r.user_id === id && is_none r.used_at) ≡ false)
        s.mfa_challenges

same_text_sym : (s t : String) → (s === t) ≡ true → (t === s) ≡ true
same_text_sym s t h = (eq_iff t s).1 (sym ((eq_iff s t).0 h))

-- The list has the identifier.
abbrev pub HasId : List String → String → Type 0
HasId ids id = (x : String) → (x === id) ≡ true → is_one_of ids x ≡ true

single-HasId : (id : String) → HasId (id ∷ []) id
unfolding is_one_of any
single-HasId id x h = rw (same_text_sym x id h) refl

module _ (rt : Runtime) (c : AdminCall) (id : String) where
  revoke_all-IsSignedOut :
      (ids : List String) (reason : String)
      → HasId ids id
      → Ensures (λ s s'. IsSignedOut id s') (revoke_all ⦃db = reference⦄ rt c ids reason)
  unfolding revoke_all ◌>>=◌
  revoke_all-IsSignedOut ids reason mine = Ensures-always _ λ s. record {
    sessions =
        All-cleared _ (is_session_of ids) _ s.sso_sessions (λ r h. ground (arith, mine r.user_id))
          (λ r. ground arith);
    tokens =
        All-cleared _ (is_token_of ids) _ s.access_tokens (λ r h. ground (arith, mine r.user_id))
          (λ r. ground arith);
    challenges =
        All-cleared _ (is_challenge_of ids) _ s.mfa_challenges
          (λ r h. ground (arith, mine r.user_id)) (λ r. ground arith);
  }

  single_signs_out :
      (reason : String)
      → Ensures
          (λ s s'. IsSignedOut id s')
          (revoke_security_state ⦃db = reference⦄ rt c (id ∷ []) reason)
  unfolding revoke_security_state unique filter
  single_signs_out reason = revoke_all-IsSignedOut (id ∷ []) reason (single-HasId id)

  pub audited-Keeps :
      (a : AuditLog)
      → Moves
          (λ s s'. IsSignedOut id s → IsSignedOut id s')
          (modify {E = ServerError} (audited ⦃db = reference⦄ a))
  audited-Keeps a =
      Moves-modify (Keeps-preorder (IsSignedOut id)) (audited ⦃db = reference⦄ a)
        λ s h. record { sessions = h.sessions; tokens = h.tokens; challenges = h.challenges }

  enqueue_many-Keeps :
      (inputs : List (String × NewRevocationEvent))
      → Moves
          (λ s s'. IsSignedOut id s → IsSignedOut id s')
          (enqueue_many ⦃db = reference⦄ rt inputs)
  unfolding enqueue_many ◌>>=◌
  enqueue_many-Keeps inputs = record {
    at = λ s h.
        subst (IsSignedOut id) (sym (enqueue_all_lem rt (map (event_of rt) inputs) s))
          (record { sessions = h.sessions; tokens = h.tokens; challenges = h.challenges });
  }

  enqueued-Keeps :
      (inputs : List (String × NewRevocationEvent))
      → Moves
          (λ s s'. IsSignedOut id s → IsSignedOut id s')
          (enqueue_many ⦃db = reference⦄ rt inputs >>= λ events. pure {A = Unit {0}} tt)
  enqueued-Keeps inputs =
      search (Keeps-preorder (IsSignedOut id), moves_rules, enqueue_many-Keeps) depth 8

  pub deactivation_signs_out :
      Ensures
        (λ s s'. IsSignedOut id s')
        (revoke_users_for_deactivation ⦃db = reference⦄ rt c (id ∷ []))
  unfolding revoke_users_for_deactivation
  deactivation_signs_out =
      Ensures-keeps (IsSignedOut id) _ _ (single_signs_out "user_deactivated")
        λ rows. enqueued-Keeps _

  pub password_change_signs_out :
      Ensures
        (λ s s'. IsSignedOut id s')
        (revoke_users_for_password_change ⦃db = reference⦄ rt c (id ∷ []))
  unfolding revoke_users_for_password_change unique filter
  password_change_signs_out =
      Ensures-keeps (IsSignedOut id) _ _ (single_signs_out "password_changed")
        λ rows. enqueued-Keeps (numbered c.event_id 0 (map (password_event c.now) (id ∷ [])))
