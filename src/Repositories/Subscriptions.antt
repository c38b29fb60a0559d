-- ===== src/Repositories/Subscriptions.antt =====
-- src/repositories/push-subscription.repository.ts.
use messinger_backend.Prelude.{ℕ, Bool, Option, none, some, List, [], ◌∷◌, String, ◌==◌, option_eq}
use messinger_backend.Types.{Uuid, Date, web, web_push}
use messinger_backend.Entities.{PushSubscription}
use messinger_backend.Orm.{Orm}
use messinger_backend.Store.{Action, pure, gets, modify, generate, ◌>>=◌, ◌>>◌, or_fail}
use messinger_backend.Store.Constraints.{admits_subscription}

-- `WebPushSubscriptionDto`, with the keys.
pub record WebPushSubscription : Type 0 where
  pub endpoint : ℕ
  pub p256dh : String
  pub auth : String

abbrev pub new_subscription : Uuid → Date → Uuid → WebPushSubscription → PushSubscription
new_subscription id now user_id dto = record {
  id = id;
  user_id = user_id;
  platform = web;
  provider = web_push;
  endpoint = some dto.endpoint;
  p256dh = some dto.p256dh;
  auth = some dto.auth;
  token = none;
  created_at = now;
  updated_at = now;
}

abbrev pub has_endpoint : ℕ → PushSubscription → Bool
has_endpoint endpoint p = option_eq p.endpoint (some endpoint)

module _ ⦃o : Orm⦄ where
  unfoldable pub create_subscription : Uuid → WebPushSubscription → Action PushSubscription
  create_subscription user_id dto = do
    id ← generate
    row ← gets (λ s. new_subscription id s.clock user_id dto)
    inserted ← gets (λ s. o.insert _ (admits_subscription s.users) (row ∷ []) s.subscriptions)
    table ← or_fail inserted
    modify (λ s. record s { subscriptions = table })
    pure row

  unfoldable pub find_by_endpoint : ℕ → Action (Option PushSubscription)
  find_by_endpoint endpoint = gets (λ s. o.find_one _ (has_endpoint endpoint) s.subscriptions)

  -- `save` of a row that was found: the columns that the code has set, and the update date.
  unfoldable pub update_subscription : PushSubscription → WebPushSubscription → Action (Unit {0})
  update_subscription subscription dto = modify (λ s. record s {
    subscriptions =
        o.update _ (λ p. p.id == subscription.id)
          (λ p. record p { p256dh = some dto.p256dh; auth = some dto.auth; updated_at = s.clock })
          s.subscriptions;
  })

  unfoldable pub find_by_user_id : Uuid → Action (List PushSubscription)
  find_by_user_id user_id = gets (λ s. o.find _ (λ p. p.user_id == user_id) s.subscriptions)

  unfoldable pub delete_by_endpoint : ℕ → Action (Unit {0})
  delete_by_endpoint endpoint =
      modify (λ s. record s { subscriptions = o.delete _ (has_endpoint endpoint) s.subscriptions })
