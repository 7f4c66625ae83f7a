-- ===== src/Server/Admin/Directory.antt =====
-- Revocations, events and the audit log leave the users, the groups and the memberships alone
-- (admin-revocation.service.ts).
use seleksi2_labpro.Prelude.{
  ◌≡◌, refl, sym, subst, ◌∙◌, String, Bool, List, [], ◌∷◌, modify, ◌>>=◌, map,
}
use seleksi2_labpro.Prelude.Moves.{Moves, IsPreorder, Moves-modify, moves_rules}
use seleksi2_labpro.Database.{reference}
use seleksi2_labpro.Schema.Sessions.{SsoSession, AccessToken, MfaLoginChallenge, AuditLog}
use seleksi2_labpro.Server.Store.{
  ServerStore, ServerError, update_tokens, update_challenges, audited,
}
use seleksi2_labpro.Server.Runtime.{Runtime}
use seleksi2_labpro.Server.Outbox.{NewRevocationEvent, enqueue_many, event_of}
use seleksi2_labpro.Server.Outbox.Appended.{enqueue_all_lem}
use seleksi2_labpro.Server.Admin.{AdminCall, unique}
use seleksi2_labpro.Server.Admin.Rows.{update_and_return_sessions}
use seleksi2_labpro.Server.Admin.Revocation.{
  revoke_all, revoke_security_state, revoke_unless_empty, revoke_users_for_deactivation,
  revoke_users_who_lost_access,
}

pub record SameDirectory (s s' : ServerStore) : Type 0 where
  pub users : s'.users ≡ s.users
  pub groups : s'.groups ≡ s.groups
  pub user_groups : s'.user_groups ≡ s.user_groups

pub SameDirectory-preorder : IsPreorder SameDirectory
SameDirectory-preorder = record {
  stays = λ s. record { users = refl; groups = refl; user_groups = refl };
  joins = λ s t u h k. record {
    users = k.users ∙ h.users;
    groups = k.groups ∙ h.groups;
    user_groups = k.user_groups ∙ h.user_groups;
  };
}

module _ (p : SsoSession → Bool) (f : SsoSession → SsoSession) where
  pub Same-sessions : Moves SameDirectory (update_and_return_sessions ⦃db = reference⦄ p f)
  unfolding update_and_return_sessions
  Same-sessions = record { at = λ s. record { users = refl; groups = refl; user_groups = refl } }

module _ (p : AccessToken → Bool) (f : AccessToken → AccessToken) where
  pub Same-tokens : Moves SameDirectory (update_tokens ⦃db = reference⦄ p f)
  unfolding update_tokens
  Same-tokens = record { at = λ s. record { users = refl; groups = refl; user_groups = refl } }

module _ (p : MfaLoginChallenge → Bool) (f : MfaLoginChallenge → MfaLoginChallenge) where
  pub Same-challenges : Moves SameDirectory (update_challenges ⦃db = reference⦄ p f)
  unfolding update_challenges
  Same-challenges = record { at = λ s. record { users = refl; groups = refl; user_groups = refl } }

pub Same-audited :
    (a : AuditLog) → Moves SameDirectory (modify {E = ServerError} (audited ⦃db = reference⦄ a))
Same-audited a =
    Moves-modify SameDirectory-preorder (audited ⦃db = reference⦄ a)
      λ s. record { users = refl; groups = refl; user_groups = refl }

pub Same-enqueue_many :
    (rt : Runtime) (inputs : List (String × NewRevocationEvent))
    → Moves SameDirectory (enqueue_many ⦃db = reference⦄ rt inputs)
unfolding enqueue_many ◌>>=◌
Same-enqueue_many rt inputs = record {
  at = λ s.
      subst (SameDirectory s) (sym (enqueue_all_lem rt (map (event_of rt) inputs) s))
        (record { users = refl; groups = refl; user_groups = refl });
}

pub ruleset directory_rules = (
  SameDirectory-preorder, moves_rules, Same-sessions, Same-tokens, Same-challenges, Same-audited,
  Same-enqueue_many,
)

module _ (rt : Runtime) (c : AdminCall) where
  revoke_unless_empty-Same :
      (ids : List String) (reason : String)
      → Moves SameDirectory (revoke_unless_empty ⦃db = reference⦄ rt c ids reason)
  unfolding revoke_all
  revoke_unless_empty-Same [] reason = search directory_rules
  revoke_unless_empty-Same (id ∷ ids) reason = search directory_rules depth 8

  revoke_security_state-Same :
      (ids : List String) (reason : String)
      → Moves SameDirectory (revoke_security_state ⦃db = reference⦄ rt c ids reason)
  unfolding revoke_security_state
  revoke_security_state-Same ids reason = revoke_unless_empty-Same (unique ids) reason

  pub deactivation-Same :
      (ids : List String)
      → Moves SameDirectory (revoke_users_for_deactivation ⦃db = reference⦄ rt c ids)
  unfolding revoke_users_for_deactivation
  deactivation-Same ids = search (directory_rules, revoke_security_state-Same) depth 8

  pub lost_access-Same :
      (ids applications : List String)
      → Moves SameDirectory (revoke_users_who_lost_access ⦃db = reference⦄ rt c ids applications)
  unfolding revoke_users_who_lost_access
  lost_access-Same ids applications = search (directory_rules, revoke_security_state-Same) depth 8
