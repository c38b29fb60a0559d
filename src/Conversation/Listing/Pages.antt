-- ===== src/Conversation/Listing/Pages.antt =====
-- A client that follows the cursors of the conversation list.
use mathlib.Core.Option
use messinger_backend.Prelude.{
  ℕ, zero, suc, ◌≡◌, ◌<◌, refl, true, Option, none, some, List, [], ◌∷◌, ◌++◌, arith, filter, map,
  take, drop, length, ltb, get_last?, Any, Option-cases, inl, inr, ◌∙◌, sym, ap, subst, false,
  Bool-cases, take-append-drop,
}
use messinger_backend.Prelude.Latest.{
  is_latest_first, sort_latest-is_latest_first, filter-get_last?, all-get_last?, filter-sort_latest,
  distinct,
}
use messinger_backend.Prelude.Sort.{all-filter_self}
use messinger_backend.Prelude.Keys.{distinct-filter, All-take, All-filter_self, All-members}
use messinger_backend.Prelude.Cuts.{
  take-map, ltb-length, get_last?-map, map-append, take_all, length-drop, All-get_last?, no_last,
}
use messinger_backend.Types.{Uuid}
use messinger_backend.Exceptions.{Result, ok, err}
use messinger_backend.Entities.{Conversation}
use messinger_backend.Orm.{Orm, IsOrm}
use messinger_backend.Store.{Store}
use messinger_backend.Repositories.{
  ListedConversation, takes_part, behind, listed_conversation, cursor_conversation,
  get_conversation_list, read_conversation,
}
use messinger_backend.Pagination.{Paginated, paginate}
use messinger_backend.Conversation.Listing.Rows.{
  HasKeys, HasMoments, from_cursor-read_conversation, own_conversations, from_cursor,
  get_conversation_list_lem, cursor_conversation-stored, All-stored,
}

abbrev pub the_id : Option ListedConversation → Option Uuid
the_id none = none
the_id (some c) = some c.id

-- A page, and what the client gets with its cursor.
abbrev joined :
    Paginated ListedConversation → (Uuid → List ListedConversation) → List ListedConversation
joined p next = elim p.next_cursor [ none ↦ p.page | some last ↦ p.page ++ next last.id ]

abbrev rows_of : Result (List ListedConversation) → List ListedConversation
rows_of (ok rows) = rows
rows_of (err e) = []

module _ ⦃o : Orm⦄ where
  -- At most `fuel` pages, each asked for with the id of the last conversation of the one before.
  unfoldable pub follow : ℕ → Uuid → Option Uuid → ℕ → Store → List ListedConversation
  unfolding get_conversation_list paginate
  follow zero user_id cursor limit s = []
  follow (suc fuel) user_id cursor limit s =
      joined (paginate (rows_of (get_conversation_list user_id cursor limit s).0) limit)
        (λ last. follow fuel user_id (some last) limit s)

filter_all : (xs : List Conversation) → filter (behind none) xs ≡ xs
filter_all [] = refl
filter_all (x ∷ xs) = ap (◌∷◌ x) (filter_all xs)

-- Whatever comes after a row that is behind the cursor is behind the cursor.
filter-behind :
    (found : Option Conversation) (c : Conversation) (xs : List Conversation)
    → behind found c ≡ true
    → filter (behind (some c)) (filter (behind found) xs) ≡ filter (behind (some c)) xs
filter-behind found c [] h = refl
filter-behind none c (x ∷ xs) h = ground (arith, filter-behind none c xs)
filter-behind (some k) c (x ∷ xs) h = ground (arith, filter-behind (some k) c xs)

own_conversations-is_latest_first :
    (u : Uuid) (found : Option Conversation) (s : Store)
    → HasKeys s
    → is_latest_first (λ c. c.updated_at) (λ c. c.id) (from_cursor u found s) ≡ true
unfolding own_conversations
own_conversations-is_latest_first u found s d =
    let own : List Conversation = filter (takes_part u s) s.conversations in
    let keys : distinct (λ c. c.id) own ≡ true =
      distinct-filter (λ c. c.id) (takes_part u s) s.conversations d in
    subst (λ xs. is_latest_first (λ c. c.updated_at) (λ c. c.id) xs ≡ true)
      (sym (filter-sort_latest (λ c. c.updated_at) (λ c. c.id) (behind found) own keys))
      (sort_latest-is_latest_first (λ c. c.updated_at) (λ c. c.id) (filter (behind found) own)
        (distinct-filter (λ c. c.id) (behind found) own keys))

-- What follows the last row of a page is what the page leaves.
from_last :
    (u : Uuid) (found : Option Conversation) (limit : ℕ) (c : Conversation) (s : Store)
    → HasKeys s
    → get_last? (take limit (from_cursor u found s)) ≡ some c
    → from_cursor u (some c) s ≡ drop limit (from_cursor u found s)
from_last u found limit c s d e =
    let rows : List Conversation = from_cursor u found s in
    sym (
      filter-behind found c (own_conversations u s) (
        all-get_last? (behind found) limit rows c e
          (all-filter_self (behind found) (own_conversations u s))))
    ∙ filter-get_last? (λ x. x.updated_at) (λ x. x.id) limit rows c
        (own_conversations-is_latest_first u found s d) e

module _ ⦃o : Orm⦄ where
  last_stored :
      (u : Uuid) (found : Option Conversation) (limit : ℕ) (c : Conversation) (s : Store)
      → get_last? (take limit (from_cursor u found s)) ≡ some c
      → Any (λ x. x ≡ c) s.conversations
  last_stored u found limit c s e =
      All-get_last? (λ k. Any (λ x. x ≡ k) s.conversations) (take limit (from_cursor u found s)) c
        (All-stored u limit found s) e

  last_own :
      (u : Uuid) (found : Option Conversation) (limit : ℕ) (c : Conversation) (s : Store)
      → get_last? (take limit (from_cursor u found s)) ≡ some c
      → Any (λ x. x ≡ c) (own_conversations u s)
  last_own u found limit c s e =
      let Own : Conversation → Type 0 = λ k. Any (λ x. x ≡ k) (own_conversations u s) in
      All-get_last? Own (take limit (from_cursor u found s)) c
        (All-take Own limit (from_cursor u found s) (
          All-filter_self Own (behind found) (own_conversations u s)
            (All-members (own_conversations u s))))
        e

  joined_last :
      (limit : ℕ) (rows : List Conversation) (next : Uuid → List ListedConversation) (s : Store)
      → ltb limit (length rows) ≡ false
      → joined (paginate (map (listed_conversation s) (take (suc limit) rows)) limit) next
        ≡ map (listed_conversation s) rows
  unfolding paginate
  joined_last limit rows next s h = ground (
    arith,
    take-map (listed_conversation s) limit rows,
    ltb-length (listed_conversation s) limit rows,
    take_all limit rows,
  )

  joined_more :
      (limit : ℕ) (rows : List Conversation) (next : Uuid → List ListedConversation) (s : Store)
      (c : Conversation)
      → ltb limit (length rows) ≡ true
      → get_last? (take limit rows) ≡ some c
      → joined (paginate (map (listed_conversation s) (take (suc limit) rows)) limit) next
        ≡ map (listed_conversation s) (take limit rows) ++ next c.id
  unfolding paginate listed_conversation
  joined_more limit rows next s c h e = ground (
    arith,
    take-map (listed_conversation s) limit rows,
    ltb-length (listed_conversation s) limit rows,
    get_last?-map (listed_conversation s) (take limit rows) c,
  )

  follow_from :
      (l : IsOrm o) (fuel : ℕ) (u : Uuid) (cursor : Option Uuid) (limit : ℕ)
      (found : Option Conversation) (s : Store)
      → HasKeys s
      → HasMoments u s
      → 0 < limit
      → cursor_conversation cursor s ≡ (ok (Option.map read_conversation found), s)
      → from_cursor u (Option.map read_conversation found) s ≡ from_cursor u found s
      → length (from_cursor u found s) < fuel
      → follow fuel u cursor limit s ≡ map (listed_conversation s) (from_cursor u found s)
  unfolding follow
  follow_from l zero u cursor limit found s d m p f same h = absurd (omega arith)
  follow_from l (suc fuel) u cursor limit found s d m p f same h =
      let rows : List Conversation = from_cursor u found s in
      let fetched : (get_conversation_list u cursor limit s).0
          ≡ ok (map (listed_conversation s) (take (suc limit) rows)) =
        ap (λ r. r.0)
          (get_conversation_list_lem l u cursor limit (Option.map read_conversation found) s d f)
        ∙ ap (λ xs. ok (map (listed_conversation s) (take (suc limit) xs))) same in
      elim (Bool-cases (ltb limit (length rows))) [
        | inl there ↦ elim (Option-cases (get_last? (take limit rows))) [
          | inl nothing ↦ absurd (ground (arith, no_last limit rows p nothing))
          | inr (c, last) ↦
              let next : Uuid → List ListedConversation = λ k. follow fuel u (some k) limit s in
              let rest : from_cursor u (some c) s ≡ drop limit rows =
                from_last u found limit c s d last in
              let follows : next c.id ≡ map (listed_conversation s) (drop limit rows) =
                follow_from l fuel u (some c.id) limit (some c) s d m p
                  (cursor_conversation-stored l c s d (last_stored u found limit c s last))
                  (from_cursor-read_conversation l u c s m (last_own u found limit c s last))
                  (subst (λ xs. length xs < fuel) (sym rest)
                    (ground (arith, length-drop limit rows p)))
                ∙ ap (map (listed_conversation s)) rest in
              ap (λ r. joined (paginate (rows_of r) limit) next) fetched
              ∙ joined_more limit rows next s c there last
              ∙ ap (◌++◌ (map (listed_conversation s) (take limit rows))) follows
              ∙ sym (map-append (listed_conversation s) (take limit rows) (drop limit rows))
              ∙ ap (map (listed_conversation s)) (take-append-drop limit rows)
        ]
        | inr over ↦
            ap (λ r. joined (paginate (rows_of r) limit) (λ k. follow fuel u (some k) limit s))
              fetched
            ∙ joined_last limit rows (λ k. follow fuel u (some k) limit s) s over
      ]

  -- With distinct ids in the table, a positive limit, and no two of the user's conversations updated
  -- within the same millisecond, more pages than the user has conversations are enough: a client that starts without a cursor and then follows the cursors gets each
  -- conversation in which the user has a row that is not removed once, with its members, the latest
  -- `updated_at` first.
  pub follow_lem :
      (l : IsOrm o) (fuel : ℕ) (u : Uuid) (limit : ℕ) (s : Store)
      → HasKeys s
      → HasMoments u s
      → 0 < limit
      → length (own_conversations u s) < fuel
      → follow fuel u none limit s ≡ map (listed_conversation s) (own_conversations u s)
  unfolding cursor_conversation
  follow_lem l fuel u limit s d m p h =
      let whole : from_cursor u none s ≡ own_conversations u s =
        filter_all (own_conversations u s) in
      follow_from l fuel u none limit none s d m p refl refl
        (subst (λ xs. length xs < fuel) (sym whole) h)
      ∙ ap (map (listed_conversation s)) whole
