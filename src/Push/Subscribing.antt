-- ===== src/Push/Subscribing.antt =====
-- What subscribing a browser keeps of the table of the subscriptions.
use messinger_backend.Prelude.{
  ℕ, ◌≡◌, ◌≤◌, refl, Bool, false, Option, some, List, [], ◌∷◌, ◌++◌, arith, filter, any, length,
  map_where, ◌==◌, Bool-cases, Option-cases, inl, inr, sym, subst,
}
use messinger_backend.Prelude.Sort.{any_count}
use messinger_backend.Types.{Uuid}
use messinger_backend.Exceptions.{Result-cases}
use messinger_backend.Entities.{PushSubscription}
use messinger_backend.Orm.{Orm, IsOrm, Found}
use messinger_backend.Store.{Store, back}
use messinger_backend.Store.Constraints.{admits_subscription}
use messinger_backend.Repositories.{
  WebPushSubscription, has_endpoint, new_subscription, find_by_endpoint, create_subscription,
  update_subscription,
}
use messinger_backend.Push.{subscribe, subscribe_web}

-- How many rows have the endpoint.
abbrev pub rows_with : ℕ → List PushSubscription → ℕ
rows_with endpoint rows = length (filter (has_endpoint endpoint) rows)

-- No endpoint stands in two rows.
abbrev pub HasUniqueEndpoints : List PushSubscription → Type 0
HasUniqueEndpoints rows = (endpoint : ℕ) → rows_with endpoint rows ≤ 1

rows_with-map_where :
    (k : ℕ) (q : PushSubscription → Bool) (f : PushSubscription → PushSubscription)
    (rows : List PushSubscription)
    → ((p : PushSubscription) → (f p).endpoint ≡ p.endpoint)
    → rows_with k (map_where q f rows) ≡ rows_with k rows
rows_with-map_where k q f [] h = refl
rows_with-map_where k q f (p ∷ ps) h = ground (arith, h p, rows_with-map_where k q f ps h)

rows_with-append :
    (k : ℕ) (rows : List PushSubscription) (p : PushSubscription)
    → rows_with k (rows ++ p ∷ []) ≡ rows_with k (p ∷ rows)
rows_with-append k [] p = refl
rows_with-append k (q ∷ qs) p = ground (arith, rows_with-append k qs p)

-- A row with a new endpoint.
HasUniqueEndpoints-append :
    (rows : List PushSubscription) (p : PushSubscription) (e : ℕ)
    → p.endpoint ≡ some e
    → any (has_endpoint e) rows ≡ false
    → HasUniqueEndpoints rows
    → HasUniqueEndpoints (rows ++ p ∷ [])
HasUniqueEndpoints-append rows p e f new h k = elim (Bool-cases (k == e)) [
  | inl same ↦ ground (arith, rows_with-append k rows p, any_count (has_endpoint e) rows)
  | inr other ↦ ground (arith, rows_with-append k rows p, h k)
]

module _ ⦃o : Orm⦄ where
  update_subscription-HasUniqueEndpoints :
      (l : IsOrm o) (p : PushSubscription) (dto : WebPushSubscription) (s : Store)
      → HasUniqueEndpoints s.subscriptions
      → HasUniqueEndpoints (update_subscription p dto s).1.subscriptions
  unfolding update_subscription
  update_subscription-HasUniqueEndpoints l p dto s h k =
      let patch : PushSubscription → PushSubscription =
        λ q. record q { p256dh = some dto.p256dh; auth = some dto.auth; updated_at = s.clock } in
      rw (l.update_lem PushSubscription (λ q. q.id == p.id) patch s.subscriptions) (
        subst (λ n. n ≤ 1)
          (sym (rows_with-map_where k (λ q. q.id == p.id) patch s.subscriptions (λ q. refl))) (h k))

  create_subscription-HasUniqueEndpoints :
      (l : IsOrm o) (u : Uuid) (dto : WebPushSubscription) (s : Store)
      → any (has_endpoint dto.endpoint) s.subscriptions ≡ false
      → HasUniqueEndpoints s.subscriptions
      → HasUniqueEndpoints (create_subscription u dto s).1.subscriptions
  unfolding create_subscription
  create_subscription-HasUniqueEndpoints l u dto s new h k =
      let row : PushSubscription = new_subscription (o.uuid s.serial) s.clock u dto in
      let inserted =
        l.insert_lem PushSubscription (admits_subscription s.users) (row ∷ []) s.subscriptions in
      elim (Bool-cases (admits_subscription s.users s.subscriptions row)) [
        | inl admitted ↦ ground (
          arith,
          inserted,
          HasUniqueEndpoints-append s.subscriptions row dto.endpoint refl new h k,
        )
        | inr refused ↦ ground (arith, inserted, h k)
      ]

  subscribe-HasUniqueEndpoints :
      (l : IsOrm o) (u : Uuid) (dto : WebPushSubscription) (s : Store)
      → HasUniqueEndpoints s.subscriptions
      → HasUniqueEndpoints (subscribe u dto s).1.subscriptions
  unfolding subscribe find_by_endpoint
  subscribe-HasUniqueEndpoints l u dto s h k =
      let found : Option PushSubscription =
        o.find_one PushSubscription (has_endpoint dto.endpoint) s.subscriptions in
      let answer = l.find_one-Found PushSubscription (has_endpoint dto.endpoint) s.subscriptions in
      elim (Option-cases found) [
        | inl missing ↦ ground (
          arith,
          create_subscription-HasUniqueEndpoints l u dto s
              (subst (Found (has_endpoint dto.endpoint) s.subscriptions) missing answer) h k,
        )
        | inr (p, known) ↦ ground (arith, update_subscription-HasUniqueEndpoints l p dto s h k)
      ]

  -- When no endpoint stands in two rows, then so it is after a browser has been subscribed, whether
  -- its endpoint was known or not and whether the call succeeds or not.
  pub subscribe_web-HasUniqueEndpoints :
      (l : IsOrm o) (u : Uuid) (dto : WebPushSubscription) (s : Store)
      → HasUniqueEndpoints s.subscriptions
      → HasUniqueEndpoints (subscribe_web u dto s).1.subscriptions
  unfolding subscribe_web
  subscribe_web-HasUniqueEndpoints l u dto s h k =
      let committed = l.transaction_lem Store (Unit {0}) back (subscribe u dto) s in
      elim (Result-cases (subscribe u dto s).0) [
        | inl (a, done) ↦ ground (arith, committed, subscribe-HasUniqueEndpoints l u dto s h k)
        | inr (e, failed) ↦ ground (arith, committed, h k)
      ]
