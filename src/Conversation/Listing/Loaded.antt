-- ===== src/Conversation/Listing/Loaded.antt =====
-- The page that the bootstrap of the conversations returns.
use mathlib.Core.Option
use messinger_backend.Prelude.{
  Bool, true, some, filter, ◌==◌, ◌||◌, ◌&&◌, ℕ, suc, ◌≡◌, ◌<◌, refl, Option, none, List, [], ◌∷◌,
  arith, map, take, length, ltb, is_some, ◌∙◌, ap, sym,
}
use messinger_backend.Prelude.Cuts.{take-map, ltb-length}
use messinger_backend.Types.{Uuid}
use messinger_backend.Exceptions.{Result, ok, err}
use messinger_backend.Entities.{Conversation}
use messinger_backend.Orm.{Orm, IsOrm}
use messinger_backend.Cipher.{Cipher}
use messinger_backend.Store.{Store, Action, continue, pure, ◌>>=◌}
use messinger_backend.Repositories.{
  ListedConversation, behind, read_conversation, listed_conversation, get_conversation_list,
  cursor_conversation,
}
use messinger_backend.Messages.History.{get_conversation_messages}
use messinger_backend.Pagination.{paginate, is_some-cursor}
use messinger_backend.Conversation.Listing.{
  BootstrapConversation, Bootstrap, bootstrap_conversation, bootstrap_page,
  get_conversation_bootstrap, bootstrap_members,
}
use messinger_backend.Conversation.Listing.Rows.{
  HasKeys, own_conversations, from_cursor, get_conversation_list_lem,
}

-- A chain that succeeds has gone through its first part.
continue_ok :
    {A B : Type 0} (f : A → Action B) (r : Result A × Store) (b : B)
    → (continue f r).0 ≡ ok b
    → (a : A) × (s : Store) × (r ≡ (ok a, s)) × ((f a s).0 ≡ ok b)
continue_ok f (ok a, s) b h = (a, s, refl, h)
continue_ok f (err x, s) b h = absurd (ground arith)

-- The conversation follows the row in the order, or there is no row.
abbrev pub comes_after : Option Conversation → Conversation → Bool
comes_after none c = true
comes_after (some k) c =
    ltb c.updated_at k.updated_at || (c.updated_at == k.updated_at && ltb c.id k.id)

filter-behind_same :
    (found : Option Conversation) (xs : List Conversation)
    → filter (behind found) xs ≡ filter (comes_after found) xs
filter-behind_same none xs = refl
filter-behind_same (some k) xs = refl

module _ ⦃o : Orm⦄ where
  -- The row of the cursor, as it is read.
  abbrev pub row_of : Option Uuid → Store → Option Conversation
  row_of none s = none
  row_of (some id) s =
      Option.map read_conversation (o.find_one Conversation (λ c. c.id == id) s.conversations)

  cursor_conversation-row_of :
      (cursor : Option Uuid) (s : Store) → cursor_conversation cursor s ≡ (ok (row_of cursor s), s)
  unfolding cursor_conversation
  cursor_conversation-row_of none s = refl
  cursor_conversation-row_of (some id) s = refl

module _ ⦃o : Orm⦄ ⦃e : Cipher⦄ where
  bootstrap_conversation-id :
      (u : Uuid) (c : ListedConversation) (s : Store) (b : BootstrapConversation)
      → (bootstrap_conversation u c s).0 ≡ ok b
      → b.id ≡ c.id
  unfolding bootstrap_conversation
  bootstrap_conversation-id u c s b h =
      let (history, s1, read, g) = continue_ok _ (get_conversation_messages u c.id 20 none s) b h in
      let (members, s2, done, k) = continue_ok _ (bootstrap_members c.members s1) b g in
      ground arith

  bootstrap_page-ids :
      (u : Uuid) (cs : List ListedConversation) (s : Store) (bs : List BootstrapConversation)
      → (bootstrap_page u cs s).0 ≡ ok bs
      → map (λ b. b.id) bs ≡ map (λ c. c.id) cs
  unfolding bootstrap_page
  bootstrap_page-ids u [] s bs h = ground arith
  bootstrap_page-ids u (c ∷ cs) s bs h =
      let (b, s1, first, g) = continue_ok _ (bootstrap_conversation u c s) bs h in
      let (rest, s2, others, k) = continue_ok _ (bootstrap_page u cs s1) bs g in
      ground (
        arith,
        bootstrap_conversation-id u c s b (ap (λ r. r.0) first),
        bootstrap_page-ids u cs s1 rest (ap (λ r. r.0) others),
      )

  map-ids :
      (s : Store) (cs : List Conversation)
      → map (λ c. c.id) (map (listed_conversation s) cs) ≡ map (λ c. c.id) cs
  unfolding listed_conversation
  map-ids s [] = refl
  map-ids s (c ∷ cs) = ap (◌∷◌ c.id) (map-ids s cs)

  bootstrap-ids :
      (u : Uuid) (cursor : Option Uuid) (limit : ℕ) (s : Store) (got : List ListedConversation)
      (b : Bootstrap)
      → get_conversation_list u cursor limit s ≡ (ok got, s)
      → (get_conversation_bootstrap u cursor limit s).0 ≡ ok b
      → (map (λ c. c.id) b.page ≡ map (λ c. c.id) (paginate got limit).page)
        × (b.next_cursor ≡ (paginate got limit).next_cursor)
  unfolding get_conversation_bootstrap
  bootstrap-ids u cursor limit s got b f h =
      let finish : List BootstrapConversation → Action Bootstrap =
        λ page. pure (record { page = page; next_cursor = (paginate got limit).next_cursor }) in
      let load : List ListedConversation → Action Bootstrap = λ cs.
        bootstrap_page u (paginate cs limit).page >>= λ page.
        pure (record { page = page; next_cursor = (paginate cs limit).next_cursor }) in
      let g : (continue finish (bootstrap_page u (paginate got limit).page s)).0 ≡ ok b =
        sym (ap (λ r. (continue load r).0) f) ∙ h in
      let (page, s2, loaded, k) =
        continue_ok finish (bootstrap_page u (paginate got limit).page s) b g in
      let ids : map (λ c. c.id) page ≡ map (λ c. c.id) (paginate got limit).page =
        bootstrap_page-ids u (paginate got limit).page s page (ap (λ r. r.0) loaded) in
      (ground arith, ground arith)

  -- In a table with distinct ids: when the call succeeds, its page has the ids of the first `limit`
  -- of the user's conversations, in their order, that come after the row of the cursor with its date
  -- read in milliseconds, which are those updated before this date and those of a lesser id updated
  -- at it, or of all of them if there is no cursor or no row of it; and it has a cursor exactly when
  -- more of them are left.
  pub get_conversation_bootstrap_lem :
      (l : IsOrm o) (u : Uuid) (cursor : Option Uuid) (limit : ℕ) (s : Store) (b : Bootstrap)
      → HasKeys s
      → 0 < limit
      → (get_conversation_bootstrap u cursor limit s).0 ≡ ok b
      → let rest : List Conversation =
          filter (comes_after (row_of cursor s)) (own_conversations u s) in
        (map (λ c. c.id) b.page ≡ map (λ c. c.id) (take limit rest))
        × (is_some b.next_cursor ≡ ltb limit (length rest))
  unfolding paginate
  get_conversation_bootstrap_lem l u cursor limit s b d p h =
      let found : Option Conversation = row_of cursor s in
      let rows : List Conversation = from_cursor u found s in
      let same : rows ≡ filter (comes_after found) (own_conversations u s) =
        filter-behind_same found (own_conversations u s) in
      let fetched : List ListedConversation = map (listed_conversation s) (take (suc limit) rows) in
      let (ids, next) =
        bootstrap-ids u cursor limit s fetched b
          (get_conversation_list_lem l u cursor limit found s d
            (cursor_conversation-row_of cursor s))
          h in
      (
        ids
            ∙ ap (map (λ c. c.id)) (take-map (listed_conversation s) limit rows)
            ∙ map-ids s (take limit rows)
            ∙ ap (λ xs. map (λ c. c.id) (take limit xs)) same,
        ap is_some next
            ∙ is_some-cursor fetched limit p
            ∙ ltb-length (listed_conversation s) limit rows
            ∙ ap (λ xs. ltb limit (length xs)) same,
      )
