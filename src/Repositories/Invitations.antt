-- ===== src/Repositories/Invitations.antt =====
-- src/repositories/group-invitation.repository.ts, and the `findOne` by which the service reads.
use messinger_backend.Prelude.{Bool, ◌&&◌, Option, [], ◌∷◌, ◌==◌}
use messinger_backend.Types.{Uuid, Date, GroupInvitationStatus, pending, accepted, rejected}
use messinger_backend.Entities.{GroupInvitation}
use messinger_backend.Orm.{Orm}
use messinger_backend.Store.{Action, gets, modify, generate, ◌>>=◌, or_fail}
use messinger_backend.Store.Constraints.{admits_invitation}

-- `Partial<GroupInvitation>`
pub record NewInvitation : Type 0 where
  pub conversation_id : Uuid
  pub actor_id : Uuid
  pub target_id : Uuid
  pub expires_at : Date

-- `{ conversationId, targetId }`
abbrev pub same_invitation : Uuid → Uuid → GroupInvitation → Bool
same_invitation conversation_id target_id i =
    i.conversation_id == conversation_id && i.target_id == target_id

module _ ⦃o : Orm⦄ where
  unfoldable pub create_invitation : NewInvitation → Action (Unit {0})
  create_invitation i = do
    id ← generate
    inserted ← gets (λ s.
        o.insert _ (admits_invitation s.conversations s.users)
          (record {
            id = id;
            conversation_id = i.conversation_id;
            actor_id = i.actor_id;
            target_id = i.target_id;
            status = pending;
            expires_at = i.expires_at;
            created_at = s.clock;
            updated_at = s.clock;
          }
            ∷ [])
          s.invitations)
    table ← or_fail inserted
    modify (λ s. record s { invitations = table })

  unfoldable pub find_invitation : Uuid → Uuid → Action (Option GroupInvitation)
  find_invitation conversation_id target_id =
      gets (λ s. o.find_one _ (same_invitation conversation_id target_id) s.invitations)

  -- `repository.update({ conversationId, targetId }, { status })`
  abbrev set_status : Uuid → Uuid → GroupInvitationStatus → Action (Unit {0})
  set_status conversation_id target_id status = modify (λ s. record s {
    invitations =
        o.update _ (same_invitation conversation_id target_id)
          (λ i. record i { status = status; updated_at = s.clock }) s.invitations;
  })

  unfoldable pub accept_invitation : Uuid → Uuid → Action (Unit {0})
  accept_invitation conversation_id target_id = set_status conversation_id target_id accepted

  unfoldable pub reject_invitation : Uuid → Uuid → Action (Unit {0})
  reject_invitation conversation_id target_id = set_status conversation_id target_id rejected

  unfoldable pub mark_invitation_as_expired : Uuid → Uuid → Action (Unit {0})
  mark_invitation_as_expired conversation_id target_id =
      set_status conversation_id target_id accepted
