-- ===== src/Conversation/Effects/Membership.antt =====
-- The same for the operations that add members: invitations and new conversations.
use messinger_backend.Prelude.{
  ◌≡◌, true, false, ◌++◌, List, [], ◌∷◌, none, some, String, arith, map_where, any,
}
use messinger_backend.Types.{Uuid, Date, group, owner, member}
use messinger_backend.Entities.{Conversation, ConversationMember}
use messinger_backend.Orm.{Orm, IsOrm, orm-eq-table_orm}
use messinger_backend.Packages.{Packages}
use messinger_backend.Store.{Store}
use messinger_backend.Store.Constraints.{same_member, conversation_exists}
use messinger_backend.Repositories.{new_member, saved}
use messinger_backend.Conversation.Invitation.{
  validate_group_invitation, accept_group_invitation, reject_group_invitation,
}
use messinger_backend.Conversation.Group.{create_group}
use messinger_backend.Conversation.Effects.{After}

abbrev pub show_member : Uuid → Uuid → Date → List ConversationMember → List ConversationMember
show_member c u now =
    map_where (same_member c u) (λ m. record m { soft_deleted_at = none; restored_at = some now })

abbrev pub joined : Store → Uuid → Uuid → ConversationMember
joined s c u = new_member s (record { conversation_id = c; user_id = u; role = member })

abbrev pub founder : Store → Uuid → Uuid → ConversationMember
founder s c u = new_member s (record { conversation_id = c; user_id = u; role = owner })

module _ ⦃o : Orm⦄ (l : IsOrm o) (P : List Conversation → List ConversationMember → Type 0)
    (s : Store) where
  pub create_group-After :
      (owner_id : Uuid) (name : String)
      → After l P s s
      → (let id = o.uuid s.serial in
          conversation_exists s.conversations id ≡ false
          → any (same_member id owner_id) s.members ≡ false
          → P
              (s.conversations
                ++ saved s id (record { type = group; private_key = none; name = some name }) ∷ [])
              (s.members ++ founder s id owner_id ∷ []))
      → After l P s (create_group owner_id name s).1
  create_group-After =
      rw (orm-eq-table_orm l) (unfold create_group in λ u name same made. ground arith)

  module _ ⦃k : Packages⦄ where
    pub validate_group_invitation-After :
        (actor_id conversation_id target_user_id : Uuid)
        → After l P s s
        → After l P s (validate_group_invitation actor_id conversation_id target_user_id s).1
    validate_group_invitation-After =
        rw (orm-eq-table_orm l) (unfold validate_group_invitation in λ a c t same. ground arith)

    pub reject_group_invitation-After :
        (conversation_id user_id : Uuid)
        → After l P s s
        → After l P s (reject_group_invitation conversation_id user_id s).1
    reject_group_invitation-After =
        rw (orm-eq-table_orm l) (unfold reject_group_invitation in λ c u same. ground arith)

    pub accept_group_invitation-After :
        (conversation_id user_id : Uuid)
        → After l P s s
        → P s.conversations (show_member conversation_id user_id s.clock s.members)
        → (conversation_exists s.conversations conversation_id ≡ true
            → any (same_member conversation_id user_id) s.members ≡ false
            → P s.conversations (s.members ++ joined s conversation_id user_id ∷ []))
        → After l P s (accept_group_invitation conversation_id user_id s).1
    accept_group_invitation-After =
        rw (orm-eq-table_orm l)
          (unfold accept_group_invitation in λ c u same shown added. ground arith)
