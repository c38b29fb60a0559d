-- ===== src/Auth/Authorization.antt =====
-- src/middlewares/authorization.ts. A middleware calls `next` without an argument, which passes the
-- request on, or with an exception.
use messinger_backend.Prelude.{
  Bool, true, false, not, ◌||◌, ◌≡◌, refl, sym, List, [], ◌∷◌, Option, none, some, is_some, any,
  arith,
}
use messinger_backend.Types.{UserRole, same_role}
use messinger_backend.Exceptions.{Exception, forbidden}

-- `roles` is `res.locals.roles`.
unfoldable pub authorize : List UserRole → List UserRole → Option Exception
authorize allowed [] = some (forbidden "Forbidden, user hasn't privileges")
authorize allowed (role ∷ roles) =
    elim (any (λ r. any (λ a. same_role a r) allowed) (role ∷ roles)) [
      | true ↦ none
      | false ↦ some (forbidden "Forbidden, user hasn't enough privileges")
    ]

-- An allowed role that the user has.
abbrev pub is_permitted : List UserRole → List UserRole → Bool
is_permitted [] roles = false
is_permitted (a ∷ allowed) roles = any (λ r. same_role a r) roles || is_permitted allowed roles

is_permitted-nil : (allowed : List UserRole) → is_permitted allowed [] ≡ false
is_permitted-nil [] = refl
is_permitted-nil (a ∷ allowed) = is_permitted-nil allowed

is_permitted-cons :
    (allowed : List UserRole) (role : UserRole) (roles : List UserRole)
    → is_permitted allowed (role ∷ roles)
      ≡ (any (λ a. same_role a role) allowed || is_permitted allowed roles)
is_permitted-cons [] role roles = refl
is_permitted-cons (a ∷ allowed) role roles = ground (arith, is_permitted-cons allowed role roles)

any-is_permitted :
    (allowed roles : List UserRole)
    → any (λ r. any (λ a. same_role a r) allowed) roles ≡ is_permitted allowed roles
any-is_permitted allowed [] = sym (is_permitted-nil allowed)
any-is_permitted allowed (role ∷ roles) =
    ground (arith, is_permitted-cons allowed role roles, any-is_permitted allowed roles)

-- For all lists of allowed roles and of the user's roles, the request passes exactly when some
-- allowed role is one of the user's, and a user with no role never passes.
pub authorize_iff :
    (allowed roles : List UserRole)
    → is_some (authorize allowed roles) ≡ not (is_permitted allowed roles)
unfolding authorize
authorize_iff allowed [] = rw (is_permitted-nil allowed) refl
authorize_iff allowed (role ∷ roles) = ground (arith, any-is_permitted allowed (role ∷ roles))
