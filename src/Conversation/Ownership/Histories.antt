-- ===== src/Conversation/Ownership/Histories.antt =====
-- The invariant over any history of calls.
use messinger_backend.Prelude.{
  ◌≡◌, refl, subst, Bool, none, true, false, not, ◌&&◌, List, [], ◌∷◌, ◌++◌, map, arith, ◌==◌, some,
  Any,
}
use messinger_backend.Prelude.Rows.{all, any_of_Any, all_of_Any}
use messinger_backend.Types.{Uuid, Date, private, is_owner, is_group}
use messinger_backend.Entities.{Conversation, ConversationMember}
use messinger_backend.Orm.{Orm, IsOrm, Found}
use messinger_backend.Packages.{Packages}
use messinger_backend.Store.{Store}
use messinger_backend.Store.Constraints.{same_member, admits_member}
use messinger_backend.Repositories.{new_member, same_conversation, saved}
use messinger_backend.Conversation.Private.{
  get_member_role, sort, normalize_members, generate_private_key,
}
use messinger_backend.Conversation.Calls.{
  Call, open_private, create, invite, accept, reject, leave, transfer, remove, delete,
  delete_private, reset_unread, perform, run,
}
use messinger_backend.Conversation.Effects.{
  leave_group-After, transfer_group_ownership-After, remove_group_member-After, delete_group-After,
  delete_private_conversation-After, hide_member, reset_unread_messages_count-After,
}
use messinger_backend.Conversation.Effects.Membership.{
  create_group-After, validate_group_invitation-After, accept_group_invitation-After,
  reject_group_invitation-After, founder, joined,
}
use messinger_backend.Conversation.Effects.Creation.{
  get_or_create_private_conversation-After, insert_rows-eq-some, with_roles,
}
use messinger_backend.Conversation.Ownership.{
  WellOwned, IsOwnedBy, fits_owner, private_row, in_conversation,
}
use messinger_backend.Conversation.Ownership.Keys.{insert_rows-is_keyed}
use messinger_backend.Conversation.Ownership.Changes.{
  hide_member-WellOwned, show_member-WellOwned, reset_unread-WellOwned, drop-WellOwned,
  join-WellOwned,
}
use messinger_backend.Conversation.Ownership.HandOver.{hand_over-WellOwned}
use messinger_backend.Conversation.Ownership.Founding.{new_group-WellOwned, new_private-WellOwned}

-- The members of a new private conversation are in it, and none is an owner.
with_roles_private :
    (s : Store) (creator_id id : Uuid) (users : List Uuid)
    → all
        (λ m. in_conversation id m && not (is_owner m.role))
        (map (new_member s) (with_roles private creator_id id users))
      ≡ true
unfolding get_member_role
with_roles_private s creator_id id [] = refl
with_roles_private s creator_id id (u ∷ us) = ground (arith, with_roles_private s creator_id id us)

module _ ⦃o : Orm⦄ (l : IsOrm o) where
  -- What `findOne` returned, as rows.
  found :
      {R : Type 0} (p : R → Bool) (t : List R) (r : R)
      → o.find_one R p t ≡ some r
      → (p r ≡ true) × Any (λ x. x ≡ r) t
  found {R} p t r e = subst (Found p t) e (l.find_one-Found R p t)

  -- A member who is no owner is not the owner.
  not_the_owner :
      (c d u : Uuid) (s : Store) (m : ConversationMember)
      → o.find_one _ (same_member d u) s.members ≡ some m
      → is_owner m.role ≡ false
      → (v : Uuid) → IsOwnedBy c v s.conversations s.members
      → (d == c && u == v) ≡ false
  not_the_owner c d u s m e r v h =
      let (key, at) = found (same_member d u) s.members m e in
      ground (arith, all_of_Any (fits_owner c v) s.members m at)

  not_a_group :
      (c d u : Uuid) (s : Store) (x : Conversation)
      → o.find_one _ (same_conversation d) s.conversations ≡ some x
      → is_group x.type ≡ false
      → (v : Uuid) → IsOwnedBy c v s.conversations s.members
      → (d == c && u == v) ≡ false
  not_a_group c d u s x e r v h =
      let (key, at) = found (same_conversation d) s.conversations x e in
      ground (arith, any_of_Any (private_row c) s.conversations x at)

module _ ⦃o : Orm⦄ ⦃k : Packages⦄ (l : IsOrm o) (c : Uuid) where
  abbrev Good : Store → Type 0
  Good s = WellOwned c s.conversations s.members

  perform-WellOwned : (call : Call) (s : Store) → Good s → Good (perform call s)
  unfolding perform
  perform-WellOwned (open_private u us) s w =
      get_or_create_private_conversation-After l (WellOwned c) s u us w λ new t let_in.
        let users = sort (normalize_members u us) in
        let d = saved s (o.uuid s.serial) (record {
          type = private;
          private_key = some (generate_private_key (normalize_members u us));
          name = none;
        }) in
        let rows = map (new_member s) (with_roles private u (o.uuid s.serial) users) in
        let e =
          insert_rows-eq-some (admits_member (s.conversations ++ d ∷ []) s.users) rows s.members
            let_in in
        rw e (
          new_private-WellOwned c s.conversations s.members d rows new
            (rw (← e)
              (insert_rows-is_keyed (s.conversations ++ d ∷ []) s.users rows s.members let_in w.0))
            (with_roles_private s u (o.uuid s.serial) users) refl w)
  perform-WellOwned (create u name) s w = create_group-After l (WellOwned c) s u name w λ new fresh.
      new_group-WellOwned c s.conversations s.members _ (founder s (o.uuid s.serial) u) new fresh
        refl refl refl w
  perform-WellOwned (invite a d t) s w = validate_group_invitation-After l (WellOwned c) s a d t w
  perform-WellOwned (accept d u) s w =
      accept_group_invitation-After l (WellOwned c) s d u w
        (show_member-WellOwned c s.conversations s.members d u s.clock w)
        (λ known new. join-WellOwned c s.conversations s.members (joined s d u) refl known new w)
  perform-WellOwned (reject d u) s w = reject_group_invitation-After l (WellOwned c) s d u w
  perform-WellOwned (leave u d) s w = leave_group-After l (WellOwned c) s u d w λ m e r.
      hide_member-WellOwned c s.conversations s.members d u s.clock (not_the_owner l c d u s m e r)
        w
  perform-WellOwned (transfer p d n) s w =
      transfer_group_ownership-After l (WellOwned c) s p d n w λ m x ne em ex own live.
        hand_over-WellOwned c s.conversations s.members d p n m x
          (found l (same_member d p) s.members m em) own (found l (same_member d n) s.members x ex)
          live w
  perform-WellOwned (remove u d t) s w =
      remove_group_member-After l (WellOwned c) s u d t w λ m e r.
        hide_member-WellOwned c s.conversations s.members d t s.clock
          (not_the_owner l c d t s m e r) w
  perform-WellOwned (delete u d) s w =
      delete_group-After l (WellOwned c) s u d w (drop-WellOwned c s.conversations s.members d w)
  perform-WellOwned (delete_private u d) s w =
      delete_private_conversation-After l (WellOwned c) s u d w (λ x e priv. hidden x e priv)
        (λ x e priv. drop-WellOwned c s.conversations _ d (hidden x e priv))
    where
      hidden :
          (x : Conversation)
          → o.find_one _ (same_conversation d) s.conversations ≡ some x
          → is_group x.type ≡ false
          → WellOwned c s.conversations (hide_member d u s.clock s.members)
      hidden x e priv =
          hide_member-WellOwned c s.conversations s.members d u s.clock
            (not_a_group l c d u s x e priv) w
  perform-WellOwned (reset_unread u d) s w =
      reset_unread_messages_count-After l (WellOwned c) s u d
        (reset_unread-WellOwned c s.conversations s.members d u w)

  -- A store in which a conversation is well owned (unknown and without members, private and without
  -- an owner, or a group with exactly one owner, who is active; no two member rows with one key)
  -- stays so under every history of calls of the conversation service, at any times.
  pub run-WellOwned :
      (calls : List (Date × Call)) (s : Store)
      → WellOwned c s.conversations s.members
      → WellOwned c (run calls s).conversations (run calls s).members
  unfolding run
  run-WellOwned [] s w = w
  run-WellOwned ((now, call) ∷ calls) s w =
      run-WellOwned calls (perform call (record s { clock = now }))
        (perform-WellOwned call (record s { clock = now }) w)
