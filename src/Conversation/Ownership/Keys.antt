-- ===== src/Conversation/Ownership/Keys.antt =====
-- The primary key of the table of members.
use messinger_backend.Prelude.{
  ◌≡◌, refl, Bool, true, false, not, ◌&&◌, ◌||◌, List, [], ◌∷◌, ◌++◌, some, arith, any, map_where,
  filter, Any, Bool-cases, inl, inr,
}
use messinger_backend.Prelude.Rows.{
  all, any-map_where, any-filter, any-append, all_and, all_of_none, any_of_Any,
}
use messinger_backend.Types.{Uuid}
use messinger_backend.Entities.{Conversation, ConversationMember, User}
use messinger_backend.Orm.{insert_rows}
use messinger_backend.Store.Constraints.{same_member, admits_member}

abbrev pub is_keyed : List ConversationMember → Bool
is_keyed [] = true
is_keyed (m ∷ ms) = not (any (same_member m.conversation_id m.user_id) ms) && is_keyed ms

pub map_where-is_keyed :
    (q : ConversationMember → Bool) (f : ConversationMember → ConversationMember)
    (ms : List ConversationMember)
    → ((m : ConversationMember)
        → ((f m).conversation_id ≡ m.conversation_id) × ((f m).user_id ≡ m.user_id))
    → is_keyed ms ≡ true
    → is_keyed (map_where q f ms) ≡ true
map_where-is_keyed q f [] same h = refl
map_where-is_keyed q f (m ∷ ms) same h = ground (
  arith,
  same m,
  any-map_where (same_member m.conversation_id m.user_id) q f ms (λ x. ground (arith, same x)),
  map_where-is_keyed q f ms same,
)

pub filter-is_keyed :
    (q : ConversationMember → Bool) (ms : List ConversationMember)
    → is_keyed ms ≡ true
    → is_keyed (filter q ms) ≡ true
filter-is_keyed q [] h = refl
filter-is_keyed q (m ∷ ms) h =
    ground (arith, any-filter (same_member m.conversation_id m.user_id) q ms, filter-is_keyed q ms)

pub append-is_keyed :
    (ms : List ConversationMember) (m : ConversationMember)
    → is_keyed ms ≡ true
    → any (same_member m.conversation_id m.user_id) ms ≡ false
    → is_keyed (ms ++ m ∷ []) ≡ true
append-is_keyed [] m h e = refl
append-is_keyed (x ∷ ms) m h e =
    ground (
      arith,
      any-append (same_member x.conversation_id x.user_id) ms (m ∷ []),
      append-is_keyed ms m,
    )

pub insert_rows-is_keyed :
    (conversations : List Conversation) (users : List User) (rows ms : List ConversationMember)
    {ms' : List ConversationMember}
    → insert_rows (admits_member conversations users) rows ms ≡ some ms'
    → is_keyed ms ≡ true
    → is_keyed ms' ≡ true
insert_rows-is_keyed cs us [] ms e h = ground arith
insert_rows-is_keyed cs us (r ∷ rows) ms {ms'} e h = elim (Bool-cases (admits_member cs us ms r)) [
  | inl let_in ↦
      insert_rows-is_keyed cs us rows (ms ++ r ∷ []) (rw let_in at e)
        (ground (arith, append-is_keyed ms r))
  | inr refused ↦ ground arith
]

-- Rows with the key of a given row are that row.
all_with_own_key :
    (f : ConversationMember → Bool) (r : ConversationMember) (ms : List ConversationMember)
    → is_keyed ms ≡ true
    → Any (λ x. x ≡ r) ms
    → f r ≡ true
    → all (λ m. not (same_member r.conversation_id r.user_id m) || f m) ms ≡ true
all_with_own_key f r [] k h e = absurd h
all_with_own_key f r (m ∷ ms) k (inl same) e = ground (
  arith,
  all_of_none (same_member r.conversation_id r.user_id)
      (λ m. not (same_member r.conversation_id r.user_id m) || f m) ms (ground arith)
      (λ x d. ground arith),
)
all_with_own_key f r (m ∷ ms) k (inr later) e = ground (
  arith,
  all_with_own_key f r ms (ground arith) later e,
  any_of_Any (same_member m.conversation_id m.user_id) ms r later,
)

pub all_with_key :
    (f : ConversationMember → Bool) (c u : Uuid) (r : ConversationMember)
    (ms : List ConversationMember)
    → is_keyed ms ≡ true
    → (same_member c u r ≡ true) × Any (λ x. x ≡ r) ms
    → f r ≡ true
    → all (λ m. not (same_member c u m) || f m) ms ≡ true
all_with_key f c u r ms k (key, h) e =
    let own = all_with_own_key f r ms k h e in
    all_and _ _ (λ m. not (same_member c u m) || f m) ms (λ x a b. ground arith) own own
