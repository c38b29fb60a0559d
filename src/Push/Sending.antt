-- ===== src/Push/Sending.antt =====
-- What sending to a user leaves in the table of the subscriptions.
use messinger_backend.Prelude.{
  ℕ, ◌≡◌, refl, Bool, true, not, ◌&&◌, none, some, List, [], ◌∷◌, ◌++◌, arith, filter, any, ◌==◌,
  option_eq, Bool-cases, Option-cases, inl, inr, ◌∙◌, ap, sym, is_some,
}
use messinger_backend.Prelude.Keys.{filter-and}
use messinger_backend.Types.{Uuid}
use messinger_backend.Entities.{PushSubscription}
use messinger_backend.Orm.{Orm, IsOrm}
use messinger_backend.Store.{Store}
use messinger_backend.Repositories.{has_endpoint, delete_by_endpoint, find_by_user_id}
use messinger_backend.Push.{
  PushPayload, WebPush, is_gone, after_sending, send_push, send_all, send_to_user,
  remove_invalid_subscription,
}

-- The endpoints of the subscriptions, in their order.
abbrev pub endpoints : List PushSubscription → List ℕ
endpoints [] = []
endpoints (p ∷ ps) = elim p.endpoint [ none ↦ endpoints ps | some e ↦ e ∷ endpoints ps ]

abbrev pub same_endpoint : PushSubscription → PushSubscription → Bool
same_endpoint p q = is_some p.endpoint && option_eq q.endpoint p.endpoint

module _ ⦃w : WebPush⦄ where
  -- The server of the endpoint says that one of the subscriptions is gone, and it has the endpoint.
  abbrev pub is_dropped : List PushSubscription → PushPayload → PushSubscription → Bool
  is_dropped ps payload q =
      any (λ p. is_gone (w.send_notification p payload) && same_endpoint p q) ps

  -- The rows that a sending leaves.
  abbrev pub kept :
      List PushSubscription → PushPayload → List PushSubscription → List PushSubscription
  kept ps payload rows = filter (λ q. not (is_dropped ps payload q)) rows

append_nil : {A : Type 0} (xs : List A) → xs ++ [] ≡ xs
append_nil [] = refl
append_nil (x ∷ xs) = ap (◌∷◌ x) (append_nil xs)

append_assoc : {A : Type 0} (xs ys zs : List A) → (xs ++ ys) ++ zs ≡ xs ++ (ys ++ zs)
append_assoc [] ys zs = refl
append_assoc (x ∷ xs) ys zs = ap (◌∷◌ x) (append_assoc xs ys zs)

endpoints-cons :
    (p : PushSubscription) (ps : List PushSubscription)
    → endpoints (p ∷ ps) ≡ endpoints (p ∷ []) ++ endpoints ps
endpoints-cons p ps = elim (Option-cases p.endpoint) [
  | inl missing ↦ ground arith
  | inr (e, found) ↦ ground arith
]

module _ {R : Type 0} where
  filter_eq : (p q : R → Bool) (xs : List R) → ((x : R) → p x ≡ q x) → filter p xs ≡ filter q xs
  filter_eq p q [] h = refl
  filter_eq p q (x ∷ xs) h = ground (arith, h x, filter_eq p q xs h)

  filter_nothing : (p : R → Bool) (xs : List R) → ((x : R) → p x ≡ true) → filter p xs ≡ xs
  filter_nothing p [] h = refl
  filter_nothing p (x ∷ xs) h = ground (arith, h x, filter_nothing p xs h)

module _ ⦃o : Orm⦄ ⦃w : WebPush⦄ where
  send_push-subscriptions :
      (l : IsOrm o) (p : PushSubscription) (payload : PushPayload) (s : Store)
      → (send_push p payload s).1.subscriptions ≡ kept (p ∷ []) payload s.subscriptions
  unfolding send_push after_sending remove_invalid_subscription delete_by_endpoint
  send_push-subscriptions l p payload s =
      let test : PushSubscription → Bool = λ q. not (is_dropped (p ∷ []) payload q) in
      elim (Option-cases p.endpoint) [
        | inl missing ↦ ground (arith, filter_nothing test s.subscriptions (λ q. ground arith))
        | inr (e, found) ↦ elim (Bool-cases (is_gone (w.send_notification p payload))) [
          | inl gone ↦ ground (
            arith,
            l.delete_lem PushSubscription (has_endpoint e) s.subscriptions,
            filter_eq test (λ q. not (has_endpoint e q)) s.subscriptions (λ q. ground arith),
          )
          | inr fine ↦ ground (arith, filter_nothing test s.subscriptions (λ q. ground arith))
        ]
      ]

  send_push-pushed :
      (p : PushSubscription) (payload : PushPayload) (s : Store)
      → (send_push p payload s).1.pushed ≡ s.pushed ++ endpoints (p ∷ [])
  unfolding send_push after_sending remove_invalid_subscription delete_by_endpoint
  send_push-pushed p payload s = elim (Option-cases p.endpoint) [
    | inl missing ↦ ground (arith, append_nil s.pushed)
    | inr (e, found) ↦ elim (Bool-cases (is_gone (w.send_notification p payload))) [
      | inl gone ↦ ground arith
      | inr fine ↦ ground arith
    ]
  ]

  kept-cons :
      (p : PushSubscription) (ps : List PushSubscription) (payload : PushPayload)
      (rows : List PushSubscription)
      → kept (p ∷ ps) payload rows ≡ kept ps payload (kept (p ∷ []) payload rows)
  kept-cons p ps payload rows =
      let one : PushSubscription → Bool = λ q. not (is_dropped (p ∷ []) payload q) in
      let others : PushSubscription → Bool = λ q. not (is_dropped ps payload q) in
      filter_eq (λ q. not (is_dropped (p ∷ ps) payload q)) (λ q. one q && others q) rows
        (λ q. ground arith)
      ∙ filter-and one others rows

  send_all-subscriptions :
      (l : IsOrm o) (ps : List PushSubscription) (payload : PushPayload) (s : Store)
      → (send_all ps payload s).1.subscriptions ≡ kept ps payload s.subscriptions
  unfolding send_all
  send_all-subscriptions l [] payload s =
      sym (filter_nothing (λ q. not (is_dropped [] payload q)) s.subscriptions (λ q. refl))
  send_all-subscriptions l (p ∷ ps) payload s =
      let s1 : Store = (send_push p payload s).1 in
      send_all-subscriptions l ps payload s1
      ∙ ap (kept ps payload) (send_push-subscriptions l p payload s)
      ∙ sym (kept-cons p ps payload s.subscriptions)

  send_all-pushed :
      (ps : List PushSubscription) (payload : PushPayload) (s : Store)
      → (send_all ps payload s).1.pushed ≡ s.pushed ++ endpoints ps
  unfolding send_all
  send_all-pushed [] payload s = sym (append_nil s.pushed)
  send_all-pushed (p ∷ ps) payload s =
      let s1 : Store = (send_push p payload s).1 in
      send_all-pushed ps payload s1
      ∙ ap (λ xs. xs ++ endpoints ps) (send_push-pushed p payload s)
      ∙ append_assoc s.pushed (endpoints (p ∷ [])) (endpoints ps)
      ∙ ap (◌++◌ s.pushed) (sym (endpoints-cons p ps))

  -- Sending to a user calls the push service once for every subscription of the user, in the order
  -- of the rows, whatever it answers to the others; afterwards a subscription, of whatever user, is
  -- gone exactly when the service has answered 404 or 410 for a subscription of the user with the
  -- same endpoint.
  pub send_to_user_lem :
      (l : IsOrm o) (u : Uuid) (payload : PushPayload) (s : Store)
      → ((send_to_user u payload s).1.pushed
          ≡ s.pushed ++ endpoints (filter (λ p. p.user_id == u) s.subscriptions))
        × ((send_to_user u payload s).1.subscriptions
            ≡ kept (filter (λ p. p.user_id == u) s.subscriptions) payload s.subscriptions)
  unfolding send_to_user find_by_user_id
  send_to_user_lem l u payload s =
      rw (l.find_lem PushSubscription (λ p. p.user_id == u) s.subscriptions) (
        send_all-pushed (filter (λ p. p.user_id == u) s.subscriptions) payload s,
        send_all-subscriptions l (filter (λ p. p.user_id == u) s.subscriptions) payload s,
      )
