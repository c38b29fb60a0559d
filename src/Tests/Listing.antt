-- ===== src/Tests/Listing.antt =====
-- The listing of the conversations and the push subscriptions, on the small database.
use messinger_backend.Prelude.{
  ℕ, ◌≡◌, refl, none, some, [], ◌∷◌, ◌++◌, map, take, length, ltb, is_some, filter, arith, ◌==◌,
  if◌then◌else◌,
}
use messinger_backend.Types.{Uuid, web, web_push, group, private}
use messinger_backend.Exceptions.{Result, ok, err}
use messinger_backend.Entities.{PushSubscription}
use messinger_backend.Orm.{first_orm, first_orm-IsOrm}
use messinger_backend.Cipher.{plain_cipher}
use messinger_backend.Store.{Store}
use messinger_backend.Repositories.{listed_conversation, WebPushSubscription}
use messinger_backend.Conversation.Listing.{Bootstrap, get_conversation_bootstrap}
use messinger_backend.Conversation.Listing.Rows.{HasMoments, own_conversations}
use messinger_backend.Conversation.Listing.Pages.{follow, follow_lem}
use messinger_backend.Conversation.Listing.Loaded.{
  comes_after, row_of, get_conversation_bootstrap_lem,
}
use messinger_backend.Push.{
  WebPush, PushPayload, delivered, web_push_error, send_to_user, subscribe_web,
}
use messinger_backend.Push.Sending.{endpoints, kept, send_to_user_lem}
use messinger_backend.Push.Subscribing.{HasUniqueEndpoints, subscribe_web-HasUniqueEndpoints}
use messinger_backend.Tests.Data.{store, conversation_row}

-- The private conversation was updated after the group.
abbrev updated : Store
updated = record store {
  conversations =
      conversation_row 1 group ∷ record (conversation_row 2 private) { updated_at = 30 } ∷ [];
}

moments : HasMoments ⦃o = first_orm⦄ 10 updated
unfolding own_conversations
moments = refl

-- Two pages of one conversation each.
follow_lem_example :
    follow ⦃o = first_orm⦄ 3 10 none 1 updated
    ≡ map (listed_conversation ⦃o = first_orm⦄ updated) (own_conversations 10 updated)
unfolding own_conversations
follow_lem_example =
    follow_lem ⦃o = first_orm⦄ first_orm-IsOrm 3 10 1 updated refl moments (ground arith)
      (ground arith)

abbrev loaded_from : Result Bootstrap → Bootstrap
loaded_from (ok b) = b
loaded_from (err e) = record { page = []; next_cursor = none }

-- What comes after the private conversation.
abbrev next_page : Bootstrap
next_page =
    loaded_from
      (get_conversation_bootstrap ⦃o = first_orm⦄ ⦃e = plain_cipher⦄ 10 (some 2) 1 updated).0

get_conversation_bootstrap_lem_example :
    let rest =
      filter
        (comes_after (row_of ⦃o = first_orm⦄ (some 2) updated))
        (own_conversations 10 updated) in
    (map (λ c. c.id) next_page.page ≡ map (λ c. c.id) (take 1 rest))
    × (is_some next_page.next_cursor ≡ ltb 1 (length rest))
unfolding get_conversation_bootstrap
get_conversation_bootstrap_lem_example =
    get_conversation_bootstrap_lem ⦃o = first_orm⦄ ⦃e = plain_cipher⦄ first_orm-IsOrm 10 (some 2) 1
      updated next_page refl (ground arith) refl

abbrev subscription : Uuid → Uuid → ℕ → PushSubscription
subscription id user_id endpoint = record {
  id = id;
  user_id = user_id;
  platform = web;
  provider = web_push;
  endpoint = some endpoint;
  p256dh = none;
  auth = none;
  token = none;
  created_at = 0;
  updated_at = 0;
}

-- The user 10 has two browsers, of which the first is gone.
abbrev subscribed : Store
subscribed = record store {
  subscriptions = subscription 1 10 70 ∷ subscription 2 11 71 ∷ subscription 3 10 72 ∷ [];
}

abbrev push_service : WebPush
push_service = record {
  send_notification = λ p payload. if p.id == 1 then web_push_error 410 else delivered;
}

abbrev payload_of_hello : PushPayload
payload_of_hello = record {
  title = some "Ann";
  body = "hello";
  icon = none;
  conversation_id = 2;
  message_id = 90;
}

send_to_user_lem_example :
    ((send_to_user ⦃o = first_orm⦄ ⦃w = push_service⦄ 10 payload_of_hello subscribed).1.pushed
      ≡ subscribed.pushed ++ endpoints (filter (λ p. p.user_id == 10) subscribed.subscriptions))
    × ((send_to_user ⦃o = first_orm⦄ ⦃w = push_service⦄ 10 payload_of_hello
          subscribed).1.subscriptions
        ≡ kept ⦃w = push_service⦄
            (filter (λ p. p.user_id == 10) subscribed.subscriptions)
            payload_of_hello
            subscribed.subscriptions)
send_to_user_lem_example =
    send_to_user_lem ⦃o = first_orm⦄ ⦃w = push_service⦄ first_orm-IsOrm 10 payload_of_hello
      subscribed

gone_is_removed :
    kept ⦃w = push_service⦄
      (filter (λ p. p.user_id == 10) subscribed.subscriptions)
      payload_of_hello
      subscribed.subscriptions
    ≡ subscription 2 11 71 ∷ subscription 3 10 72 ∷ []
gone_is_removed = refl

abbrev browser : WebPushSubscription
browser = record { endpoint = 72; p256dh = "key"; auth = "secret" }

unique_endpoints : HasUniqueEndpoints subscribed.subscriptions
unique_endpoints k = ground arith

subscribe_web-HasUniqueEndpoints_example :
    HasUniqueEndpoints (subscribe_web ⦃o = first_orm⦄ 11 browser subscribed).1.subscriptions
subscribe_web-HasUniqueEndpoints_example =
    subscribe_web-HasUniqueEndpoints ⦃o = first_orm⦄ first_orm-IsOrm 11 browser subscribed
      unique_endpoints
