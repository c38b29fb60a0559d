-- ===== src/Conversation/Listing/Rows.antt =====
-- What `getConversationList` returns.
use messinger_backend.Prelude.{
  ℕ, suc, ◌≤◌, ◌≡◌, refl, Bool, true, false, ltb, Bool-cases, ==_iff, not, ◌&&◌, Option, none, some,
  List, [], ◌∷◌, arith, filter, map, take, any, ◌==◌, All, Any, inl, inr, ◌∙◌, sym, ap, subst,
}
use messinger_backend.Prelude.Rows.{all, all_of_Any, any_of_Any}
use messinger_backend.Prelude.Latest.{distinct, sort_latest, filter-sort_latest, All-sort_latest}
use messinger_backend.Prelude.Keys.{
  filter-and, distinct-filter, All-filter_self, All-take, All-imp, All-both, All-members,
  distinct-same,
}
use messinger_backend.Types.{Uuid, Date}
use messinger_backend.Exceptions.{ok}
use messinger_backend.Entities.{Conversation}
use messinger_backend.Orm.{Orm, IsOrm, Found}
use messinger_backend.Store.{Store}
use messinger_backend.Repositories.{
  read_conversation, same_conversation, ListedConversation, takes_part, behind, row_by_id,
  ordered_rows, listed_conversation, cursor_conversation, list_ids, get_conversation_list,
}

-- The id is the primary key of the table.
abbrev pub HasKeys : Store → Type 0
HasKeys s = distinct (λ c. c.id) s.conversations ≡ true

-- The user's conversations, the latest first.
unfoldable pub own_conversations : Uuid → Store → List Conversation
own_conversations user_id s =
    sort_latest (λ c. c.updated_at) (λ c. c.id) (filter (takes_part user_id s) s.conversations)

-- What follows the row of a cursor in the user's conversations.
abbrev pub from_cursor : Uuid → Option Conversation → Store → List Conversation
from_cursor user_id found s = filter (behind found) (own_conversations user_id s)

filter_same :
    (p q : Conversation → Bool) (xs : List Conversation)
    → All (λ x. p x ≡ q x) xs
    → filter p xs ≡ filter q xs
filter_same p q [] h = refl
filter_same p q (x ∷ xs) h = ground (arith, h.0, filter_same p q xs h.1)

module _ ⦃o : Orm⦄ where
  no_row :
      (s : Store) (q : Conversation → Bool) (id : Uuid) (xs : List Conversation)
      → all (λ x. not (x.id == id)) xs ≡ true
      → filter (λ r. r.id == id) (map (listed_conversation s) (filter q xs)) ≡ []
  unfolding listed_conversation
  no_row s q id [] h = refl
  no_row s q id (x ∷ xs) h = ground (arith, no_row s q id xs)

  row_by_id-listed_conversation :
      (s : Store) (q : Conversation → Bool) (xs : List Conversation) (c : Conversation)
      → distinct (λ x. x.id) xs ≡ true
      → Any (λ x. x ≡ c) xs
      → q c ≡ true
      → row_by_id (map (listed_conversation s) (filter q xs)) c.id ≡ some (listed_conversation s c)
  unfolding listed_conversation
  row_by_id-listed_conversation s q [] c d h e = absurd h
  row_by_id-listed_conversation s q (x ∷ xs) c d (inl h) e =
      subst
        (λ k.
          q k ≡ true
          → row_by_id (map (listed_conversation s) (filter q (x ∷ xs))) k.id
            ≡ some (listed_conversation s k))
        h (λ holds. ground (arith, no_row s q x.id xs)) e
  row_by_id-listed_conversation s q (x ∷ xs) c d (inr h) e =
      ground
        (arith, all_of_Any (λ y. not (y.id == x.id)) xs c h, row_by_id-listed_conversation s q xs c)

  ordered_rows_lem :
      (rows : List ListedConversation) (s : Store) (cs : List Conversation)
      → All (λ c. row_by_id rows c.id ≡ some (listed_conversation s c)) cs
      → ordered_rows rows cs s ≡ (ok (map (listed_conversation s) cs), s)
  unfolding ordered_rows
  ordered_rows_lem rows s [] h = refl
  ordered_rows_lem rows s (c ∷ cs) h = rw h.0 (rw (ordered_rows_lem rows s cs h.1) refl)

  list_ids_lem :
      (l : IsOrm o) (u : Uuid) (limit : ℕ) (found : Option Conversation) (s : Store)
      → HasKeys s
      → list_ids u limit found s ≡ (ok (take (suc limit) (from_cursor u found s)), s)
  unfolding list_ids own_conversations
  list_ids_lem l u limit found s d =
      let p : Conversation → Bool = takes_part u s in
      let t : List Conversation = s.conversations in
      let same : o.find_latest Conversation (λ c. p c && behind found c) (λ c. c.updated_at)
            (λ c. c.id) t
          ≡ from_cursor u found s =
        l.find_latest_lem Conversation (λ c. p c && behind found c) (λ c. c.updated_at) (λ c. c.id)
          t d
        ∙ ap (sort_latest (λ c. c.updated_at) (λ c. c.id)) (filter-and p (behind found) t)
        ∙ sym (
            filter-sort_latest (λ c. c.updated_at) (λ c. c.id) (behind found) (filter p t)
              (distinct-filter (λ c. c.id) p t d)) in
      rw same refl

  pub All-stored :
      (u : Uuid) (limit : ℕ) (found : Option Conversation) (s : Store)
      → All (λ c. Any (λ x. x ≡ c) s.conversations) (take limit (from_cursor u found s))
  unfolding own_conversations
  All-stored u limit found s =
      let Stored : Conversation → Type 0 = λ c. Any (λ x. x ≡ c) s.conversations in
      let own : List Conversation = filter (takes_part u s) s.conversations in
      All-take Stored limit (from_cursor u found s) (
        All-filter_self Stored (behind found) (own_conversations u s) (
          All-sort_latest (λ c. c.updated_at) (λ c. c.id) Stored own
            (All-filter_self Stored (takes_part u s) s.conversations
              (All-members s.conversations))))

  pub get_conversation_list_lem :
      (l : IsOrm o) (u : Uuid) (cursor : Option Uuid) (limit : ℕ) (found : Option Conversation)
      (s : Store)
      → HasKeys s
      → cursor_conversation cursor s ≡ (ok found, s)
      → get_conversation_list u cursor limit s
        ≡ (ok (map (listed_conversation s) (take (suc limit) (from_cursor u found s))), s)
  unfolding get_conversation_list
  get_conversation_list_lem l u cursor limit found s d f =
      let ids : List Conversation = take (suc limit) (from_cursor u found s) in
      let Selected : Conversation → Type 0 = λ c. any (λ k. k.id == c.id) ids ≡ true in
      let Stored : Conversation → Type 0 = λ c. Any (λ x. x ≡ c) s.conversations in
      let q : Conversation → Bool = λ c. any (λ k. k.id == c.id) ids in
      let rows : List ListedConversation =
        map (listed_conversation s) (o.find Conversation q s.conversations) in
      let selected : All Selected ids =
        All-imp (λ c. Any (λ x. x ≡ c) ids) Selected ids
          (λ c h. any_of_Any (λ k. k.id == c.id) ids c h (ground arith)) (All-members ids) in
      let both : All (λ c. Stored c × Selected c) ids =
        All-both Stored Selected ids (All-stored u (suc limit) found s) selected in
      let complete : All (λ c. row_by_id rows c.id ≡ some (listed_conversation s c)) ids =
        All-imp (λ c. Stored c × Selected c)
          (λ c. row_by_id rows c.id ≡ some (listed_conversation s c)) ids
          (λ c h.
            rw (l.find_lem Conversation q s.conversations)
              (row_by_id-listed_conversation s q s.conversations c d h.0 h.1))
          both in
      ground (arith, f, list_ids_lem l u limit found s d, ordered_rows_lem rows s ids complete)

  Found-stored :
      (c : Conversation) (t : List Conversation) (r : Option Conversation)
      → distinct (λ x. x.id) t ≡ true
      → Any (λ x. x ≡ c) t
      → Found (same_conversation c.id) t r
      → r ≡ some c
  Found-stored c t none d h f = absurd (ground (arith, any_of_Any (same_conversation c.id) t c h))
  Found-stored c t (some r) d h f = ap some (distinct-same (λ x. x.id) t r c d f.1 h (ground arith))

  -- The cursor of a conversation that is stored finds it, with its dates as they are read.
  pub cursor_conversation-stored :
      (l : IsOrm o) (c : Conversation) (s : Store)
      → HasKeys s
      → Any (λ x. x ≡ c) s.conversations
      → cursor_conversation (some c.id) s ≡ (ok (some (read_conversation c)), s)
  unfolding cursor_conversation
  cursor_conversation-stored l c s d h =
      rw
        (Found-stored c s.conversations
          (o.find_one Conversation (same_conversation c.id) s.conversations) d h
          (l.find_one-Found Conversation (same_conversation c.id) s.conversations))
        refl

  -- No two of the user's conversations are updated within the same millisecond.
  abbrev pub HasMoments : Uuid → Store → Type 0
  HasMoments u s = distinct (λ c. o.read_date c.updated_at) (own_conversations u s) ≡ true

  -- A date of another millisecond compares alike with a date and with what is read of it.
  read_date-same :
      (l : IsOrm o) (d e : Date)
      → (o.read_date d == o.read_date e) ≡ false
      → (ltb d (o.read_date e) ≡ ltb d e) × ((d == o.read_date e) ≡ false) × ((d == e) ≡ false)
  read_date-same l d e h =
      let below = l.read_date_le d in
      let below' = l.read_date_le e in
      let up : o.read_date e ≤ d → o.read_date e ≤ o.read_date d =
        l.read_date_latest d (o.read_date e) (l.read_date_whole e) in
      let up' : o.read_date d ≤ e → o.read_date d ≤ o.read_date e =
        l.read_date_latest e (o.read_date d) (l.read_date_whole d) in
      let same : d ≡ o.read_date e → o.read_date d ≡ o.read_date e =
        λ q. ap o.read_date q ∙ l.read_date_whole e in
      let same' : d ≡ e → o.read_date d ≡ o.read_date e = λ q. ap o.read_date q in
      (ground arith, ground arith, ground arith)

  -- For such conversations, it makes no difference that the row of the cursor is read with
  -- milliseconds only.
  pub from_cursor-read_conversation :
      (l : IsOrm o) (u : Uuid) (c : Conversation) (s : Store)
      → HasMoments u s
      → Any (λ x. x ≡ c) (own_conversations u s)
      → from_cursor u (some (read_conversation c)) s ≡ from_cursor u (some c) s
  from_cursor-read_conversation l u c s d h =
      filter_same (behind (some (read_conversation c))) (behind (some c)) (own_conversations u s) (
        All-imp (λ x. Any (λ y. y ≡ x) own) Alike own
          (λ x g. elim (Bool-cases (o.read_date x.updated_at == o.read_date c.updated_at)) [
            | inl equal ↦
                subst Alike
                  (sym (
                    distinct-same (λ x. o.read_date x.updated_at) own x c d g h
                      ((==_iff (o.read_date x.updated_at) (o.read_date c.updated_at)).0 equal)))
                  (ground (arith, l.read_date_le c.updated_at))
            | inr other ↦ ground (arith, read_date-same l x.updated_at c.updated_at other)
          ])
          (All-members own))
    where
      own : List Conversation
      own = own_conversations u s

      Alike : Conversation → Type 0
      Alike x = behind (some (read_conversation c)) x ≡ behind (some c) x
