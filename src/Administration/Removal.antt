-- ===== src/Administration/Removal.antt =====
-- What is left after a user is deleted.
use messinger_backend.Prelude.{
  map_where, Option-cases, Bool-cases, ==_iff, ℕ, ◌≡◌, refl, sym, ◌∙◌, Bool, true, false, not, ◌&&◌,
  ◌||◌, none, List, [], ◌∷◌, arith, map, any, filter, includes, ◌==◌, ap, inl, inr, subst,
}
use messinger_backend.Prelude.Rows.{any-filter_out, includes-eq}
use messinger_backend.Types.{Uuid}
use messinger_backend.Exceptions.{Result, ok}
use messinger_backend.Entities.{Conversation, ConversationMember, GroupInvitation, Message, User}
use messinger_backend.Orm.{Orm, IsOrm, orm-eq-table_orm}
use messinger_backend.R2.{R2, IsUp}
use messinger_backend.Store.{Store, back}
use messinger_backend.Store.Constraints.{conversation_exists, user_exists}
use messinger_backend.Storage.Batches.{delete_files_lem}
use messinger_backend.Jobs.{storage_keys}
use messinger_backend.Administration.{
  has_only, sent_by, drop_users, delete_orphans, delete_memberships, remove_user, delete_user,
}

-- The conversations that are left when some are deleted by their ids.
exists-dropped :
    (ids : List Uuid) (rows : List Conversation) (c : Uuid)
    → conversation_exists (filter (λ d. not (includes ids d.id)) rows) c
      ≡ (not (includes ids c) && conversation_exists rows c)
exists-dropped ids [] c = ground arith
exists-dropped ids (d ∷ rows) c = ground (arith, exists-dropped ids rows c, includes-eq d.id c ids)

-- The ids of the rows that a test on the id picks.
includes-picked :
    (q : Uuid → Bool) (rows : List Conversation) (c : Uuid)
    → includes (map (λ d. d.id) (filter (λ d. q d.id) rows)) c ≡ (q c && conversation_exists rows c)
includes-picked q [] c = ground arith
includes-picked q (d ∷ rows) c = ground (arith, includes-picked q rows c, same)
  where
    same : d.id ≡ c → q d.id ≡ q c
    same e = ap q e

includes-memberships :
    (u c : Uuid) (rows : List ConversationMember)
    → includes (map (λ m. m.conversation_id) (filter (λ m. m.user_id == u) rows)) c
      ≡ any (λ m. m.user_id == u && m.conversation_id == c) rows
includes-memberships u c [] = refl
includes-memberships u c (m ∷ rows) = ground (arith, includes-memberships u c rows)

any-gone :
    (u a : Uuid) (rows : List User)
    → any (λ v. v.id == u && v.id == a) rows ≡ (a == u && user_exists rows u)
any-gone u a [] = ground arith
any-gone u a (v ∷ rows) = ground (arith, any-gone u a rows)

none_sent :
    (u : Uuid) (gone : Uuid → Bool) (rows : List Message)
    → gone u ≡ true
    → any
        (sent_by (λ id. id == u))
        (map_where (sent_by gone) (λ m. record m { sender_id = none }) rows)
      ≡ false
none_sent u gone [] h = refl
none_sent u gone (m ∷ rows) h = elim (Option-cases m.sender_id) [
  | inl nobody ↦ ground (arith, none_sent u gone rows h)
  | inr (id, somebody) ↦ elim (Bool-cases (id == u)) [
    | inl same ↦
        let gone_id : gone id ≡ true = subst (λ a. gone a ≡ true) (sym ((==_iff id u).0 same)) h in
        ground (arith, none_sent u gone rows h)
    | inr other ↦ elim (Bool-cases (gone id)) [
      | inl t ↦ ground (arith, none_sent u gone rows h)
      | inr f ↦ ground (arith, none_sent u gone rows h)
    ]
  ]
]

-- The invitation is from the user or for the user.
abbrev pub invites : Uuid → GroupInvitation → Bool
invites u i = i.actor_id == u || i.target_id == u

-- No session, pending upload, push subscription or invitation names the user.
abbrev pub is_forgotten : Uuid → Store → Bool
is_forgotten u s =
    not (any (λ t. t.user_id == u) s.sessions)
    && not (any (λ t. t.user_id == u) s.uploads)
    && not (any (λ t. t.user_id == u) s.subscriptions)
    && not (any (invites u) s.invitations)

-- The user has a row in the conversation, and no other user has one.
abbrev pub is_last : Uuid → List ConversationMember → Uuid → Bool
is_last u rows c = any (λ m. m.user_id == u && m.conversation_id == c) rows && has_only u rows c

module _ ⦃o : Orm⦄ ⦃r : R2⦄ where
  -- What is known after the conversations are deleted.
  abbrev Dropped : (Uuid → Bool) → Store → Result (Unit {0}) × Store → Type 0
  Dropped q s after =
      (after.0 ≡ ok tt)
      × (after.1.users ≡ s.users)
      × ((c : Uuid)
          → conversation_exists after.1.conversations c
            ≡ (not (q c) && conversation_exists s.conversations c))

  delete_orphans-Dropped :
      (l : IsOrm o) (up : IsUp r) (ids : List Uuid) (s : Store)
      → Dropped (includes ids) s (delete_orphans ids s)
  unfolding delete_orphans
  delete_orphans-Dropped l up [] s = (refl, refl, λ c. ground arith)
  delete_orphans-Dropped l up (id ∷ ids) s =
      let keys : List ℕ =
        storage_keys (o.find Message (λ m. includes (id ∷ ids) m.conversation_id) s.messages)
          s.attachments in
      let sent = delete_files_lem up keys s in
      (
        ground (arith, sent),
        ground (arith, sent),
        λ c. ground (
          arith,
          sent,
          l.delete_lem Conversation (λ d. includes (id ∷ ids) d.id) s.conversations,
          exists-dropped (id ∷ ids) s.conversations c,
        ),
      )

  delete_memberships-Dropped :
      (l : IsOrm o) (up : IsUp r) (u : Uuid) (ids : List Uuid) (s : Store)
      → Dropped (λ c. includes ids c && has_only u s.members c) s (delete_memberships u ids s)
  unfolding delete_memberships
  delete_memberships-Dropped l up u [] s = (refl, refl, λ c. ground arith)
  delete_memberships-Dropped l up u (id ∷ ids) s =
      let q : Uuid → Bool = λ c. includes (id ∷ ids) c && has_only u s.members c in
      let orphans : List Uuid =
        map (λ d. d.id) (o.find Conversation (λ d. q d.id) s.conversations) in
      let (done, users, rows) = delete_orphans-Dropped l up orphans s in
      (
        done,
        users,
        λ c.
            rows c
            ∙ ground (
              arith,
              l.find_lem Conversation (λ d. q d.id) s.conversations,
              includes-picked q s.conversations c,
            ),
      )

  -- When the user is deleted at last, no row of these tables names the user any more, and the
  -- conversations stay.
  drop_users_lem :
      (l : IsOrm o) (u : Uuid) (s : Store)
      → user_exists s.users u ≡ true
      → let after : Store = (drop_users (λ v. v.id == u) s).1 in
        (user_exists after.users u ≡ false)
        × (any (λ m. m.user_id == u) after.members ≡ false)
        × (any (sent_by (λ id. id == u)) after.messages ≡ false)
        × (is_forgotten u after ≡ true)
        × (after.conversations ≡ s.conversations)
  drop_users_lem l u s h = rw (orm-eq-table_orm l) (
    any-filter_out (λ v. v.id == u) (λ v. not (v.id == u)) s.users (λ v t. ground arith),
    any-filter_out (λ m. m.user_id == u)
        (λ m. not (any (λ v. v.id == u && v.id == m.user_id) s.users)) s.members
        (λ m t. ground (arith, any-gone u m.user_id s.users)),
    none_sent u (λ id. any (λ v. v.id == u && v.id == id) s.users) s.messages
        (ground (arith, any-gone u u s.users)),
    ground (
      arith,
      any-filter_out (λ t. t.user_id == u)
          (λ t. not (any (λ v. v.id == u && v.id == t.user_id) s.users)) s.sessions
          (λ x t. ground (arith, any-gone u x.user_id s.users)),
      any-filter_out (λ t. t.user_id == u)
          (λ t. not (any (λ v. v.id == u && v.id == t.user_id) s.users)) s.uploads
          (λ x t. ground (arith, any-gone u x.user_id s.users)),
      any-filter_out (λ t. t.user_id == u)
          (λ t. not (any (λ v. v.id == u && v.id == t.user_id) s.users)) s.subscriptions
          (λ x t. ground (arith, any-gone u x.user_id s.users)),
      any-filter_out (invites u)
          (λ i. not (
            any (λ v. v.id == u && v.id == i.actor_id) s.users
            || any (λ v. v.id == u && v.id == i.target_id) s.users))
          s.invitations
          (λ x t. ground (arith, any-gone u x.actor_id s.users, any-gone u x.target_id s.users)),
    ),
    refl,
  )

  -- While the bucket accepts every request within its limit: deleting an existing user is fulfilled,
  -- no user, member row, message, session, pending upload, push subscription or invitation names the
  -- user afterwards, and a conversation is still there exactly when it was there and was not one that
  -- the user alone had a member row in.
  pub delete_user_lem :
      (l : IsOrm o) (up : IsUp r) (u c : Uuid) (s : Store)
      → user_exists s.users u ≡ true
      → ((delete_user u s).0 ≡ ok tt)
        × (user_exists (delete_user u s).1.users u ≡ false)
        × (any (λ m. m.user_id == u) (delete_user u s).1.members ≡ false)
        × (any (sent_by (λ id. id == u)) (delete_user u s).1.messages ≡ false)
        × (is_forgotten u (delete_user u s).1 ≡ true)
        × (conversation_exists (delete_user u s).1.conversations c
            ≡ (not (is_last u s.members c) && conversation_exists s.conversations c))
  unfolding delete_user remove_user
  delete_user_lem l up u c s h =
      let rows : List ConversationMember =
        o.find ConversationMember (λ m. m.user_id == u) s.members in
      let ids : List Uuid = map (λ m. m.conversation_id) rows in
      let committed = l.transaction_lem Store (Unit {0}) back (remove_user u) s in
      let (done, users, kept) = delete_memberships-Dropped l up u ids s in
      let (no_user, no_member, no_sender, no_other, same) =
        drop_users_lem l u (delete_memberships u ids s).1
          (subst (λ us. user_exists us u ≡ true) (sym users) h) in
      (
        ground (arith, committed, done),
        ground (arith, committed, done, no_user),
        ground (arith, committed, done, no_member),
        ground (arith, committed, done, no_sender),
        ground (arith, committed, done, no_other),
        ground (
          arith,
          committed,
          done,
          same,
          kept c,
          l.find_lem ConversationMember (λ m. m.user_id == u) s.members,
          includes-memberships u c s.members,
        ),
      )
