-- ===== src/Push.antt =====
-- src/services/push-subscription.service.ts, push-notification.service.ts and web-push.service.ts.
pub mod Sending
pub mod Subscribing
use messinger_backend.Prelude.{
  ℕ, Bool, true, false, Option, none, some, List, [], ◌∷◌, ◌++◌, String, ◌==◌, ◌||◌,
}
use messinger_backend.Types.{Uuid}
use messinger_backend.Exceptions.{Result, ok, err, request_failed}
use messinger_backend.Entities.{PushSubscription}
use messinger_backend.Orm.{Orm}
use messinger_backend.Store.{Store, Action, pure, modify, transaction, ◌>>=◌, ◌>>◌, or_throw}
use messinger_backend.Repositories.{
  WebPushSubscription, create_subscription, find_by_endpoint, update_subscription, find_by_user_id,
  delete_by_endpoint,
}

-- `PushNotificationPayload`; a title that is not there is undefined.
pub record PushPayload : Type 0 where
  pub title : Option String
  pub body : String
  pub icon : Option String
  pub conversation_id : Uuid
  pub message_id : Uuid

-- How `webPush.sendNotification` ends: it resolves, rejects with a `WebPushError` that carries the
-- status of the response, or rejects with another error.
pub data Sent : Type 0 where
  delivered : Sent
  web_push_error : ℕ → Sent
  other_error : Sent

-- The package web-push, with the keys of the server.
pub record WebPush : Type 0 where
  pub send_notification : PushSubscription → PushPayload → Sent

-- `error.statusCode === 404 || error.statusCode === 410`
abbrev pub is_gone : Sent → Bool
is_gone delivered = false
is_gone (web_push_error status) = status == 404 || status == 410
is_gone other_error = false

-- The rejection that `Promise.all` passes on: the others have run by then, or run on.
abbrev pub first_error : Result (Unit {0}) → Result (Unit {0}) → Result (Unit {0})
first_error (ok a) r = r
first_error (err e) r = err e

module _ ⦃o : Orm⦄ where
  -- The body of the transaction.
  unfoldable pub subscribe : Uuid → WebPushSubscription → Action (Unit {0})
  unfolding find_by_endpoint update_subscription create_subscription
  subscribe user_id dto = do
    found ← find_by_endpoint dto.endpoint
    elim found [
      | some subscription ↦ update_subscription subscription dto
      | none ↦ do create_subscription user_id dto; pure tt
    ]

  unfoldable pub subscribe_web : Uuid → WebPushSubscription → Action (Unit {0})
  unfolding subscribe
  subscribe_web user_id dto = transaction (subscribe user_id dto)

  unfoldable pub unsubscribe_web : ℕ → Action (Unit {0})
  unfolding delete_by_endpoint
  unsubscribe_web endpoint = delete_by_endpoint endpoint

  unfoldable pub remove_invalid_subscription : ℕ → Action (Unit {0})
  unfolding delete_by_endpoint
  remove_invalid_subscription endpoint = delete_by_endpoint endpoint

module _ ⦃o : Orm⦄ ⦃w : WebPush⦄ where
  -- The `catch` block.
  unfoldable pub after_sending : Sent → ℕ → Action (Unit {0})
  unfolding remove_invalid_subscription
  after_sending delivered endpoint = pure tt
  after_sending (web_push_error status) endpoint = elim (is_gone (web_push_error status)) [
    | true ↦ remove_invalid_subscription endpoint
    | false ↦ λ s. (err request_failed, s)
  ]
  after_sending other_error endpoint = λ s. (err request_failed, s)

  -- The column may be null, but every row that the code writes has an endpoint.
  unfoldable pub send_push : PushSubscription → PushPayload → Action (Unit {0})
  unfolding after_sending
  send_push subscription payload = do
    endpoint ← or_throw subscription.endpoint request_failed
    modify (λ s. record s { pushed = s.pushed ++ endpoint ∷ [] })
    after_sending (w.send_notification subscription payload) endpoint

  -- `Promise.all(subscriptions.map(…))`
  unfoldable pub send_all : List PushSubscription → PushPayload → Action (Unit {0})
  unfolding send_push
  send_all [] payload s = (ok tt, s)
  send_all (p ∷ ps) payload s =
      let (sent, s1) = send_push p payload s in
      let (rest, s2) = send_all ps payload s1 in (first_error sent rest, s2)

  unfoldable pub send_to_user : Uuid → PushPayload → Action (Unit {0})
  unfolding find_by_user_id send_all
  send_to_user user_id payload = do
    subscriptions ← find_by_user_id user_id
    send_all subscriptions payload
