-- ===== src/Tests/Sessions.antt =====
-- The theorems on sessions and on pages, on the small database.
use messinger_backend.Prelude.{
  ◌≡◌, ◌⊎◌, refl, true, false, [], ◌∷◌, any, none, some, not, ◌&&◌, ◌==◌, filter, arith,
}
use messinger_backend.Types.{user}
use messinger_backend.Exceptions.{IsOk, ok}
use messinger_backend.Orm.{first_orm, first_orm-IsOrm}
use messinger_backend.Repositories.{rotate_session, TokenPair, session_of}
use messinger_backend.Auth.Middleware.{
  set, Response, authenticate, refresh, renew, rotate, check_access, refuses, cleared, passes,
}
use messinger_backend.Auth.Service.{signin, sign_out, get_ws_session, compare_key}
use messinger_backend.Auth.Rotation.{
  at, rotate_again_within_grace, rotate_again_after_grace, rotate_with_new_token, new_pair,
}
use messinger_backend.Auth.Access.{Admitted, authenticate_passes}
use messinger_backend.Auth.Revocation.{
  bare, open_session, authenticate_opens_nothing, reuse_revokes_all,
}
use messinger_backend.Auth.Ending.{sign_out_closes_websockets, signin_opens_session}
use messinger_backend.Tokens.{Tokens}
use messinger_backend.Entities.{User, Session}
use messinger_backend.Store.{continue}
use messinger_backend.Repositories.{create_session, save_user}
use messinger_backend.Auth.Accounts.{signup}
use messinger_backend.Auth.Signup.{signed_up, signin-signup}
use messinger_backend.Tests.Data.{store, session_row, claims, plain_tokens, user_row}

-- The answer to the current refresh token of the open session.
abbrev answer : Response
answer = record (passes 10 (user ∷ [])) {
  cookies = set (record { access_token = 1050; refresh_token = 2050 });
}

answered : (authenticate ⦃o = first_orm⦄ ⦃t = plain_tokens⦄ (bare 7 false) store).0 ≡ ok answer
unfolding authenticate refresh renew rotate check_access rotate_session
answered = refl

authenticate_passes_example :
    Admitted ⦃o = first_orm⦄ ⦃t = plain_tokens⦄ (bare 7 false) store answer
authenticate_passes_example =
    authenticate_passes ⦃o = first_orm⦄ ⦃t = plain_tokens⦄ first_orm-IsOrm (bare 7 false) store
      answer answered refl

-- A forged token, whose digest is that of the revoked session, opens nothing.
authenticate_opens_nothing_example :
    any
      (open_session 61)
      (authenticate ⦃o = first_orm⦄ ⦃t = plain_tokens⦄ (bare 8 true) store).1.sessions
    ≡ false
authenticate_opens_nothing_example =
    authenticate_opens_nothing ⦃o = first_orm⦄ ⦃t = plain_tokens⦄ first_orm-IsOrm (bare 8 true) 61
      store refl

reuse_revokes_all_example :
    (any
        (λ r. r.user_id == 10 && not r.is_revoked)
        (authenticate ⦃o = first_orm⦄ ⦃t = plain_tokens⦄ (bare 8 true) store).1.sessions
      ≡ false)
    × (filter
          (λ r. not (r.user_id == 10))
          (authenticate ⦃o = first_orm⦄ ⦃t = plain_tokens⦄ (bare 8 true) store).1.sessions
        ≡ filter (λ r. not (r.user_id == 10)) store.sessions)
    × ((authenticate ⦃o = first_orm⦄ ⦃t = plain_tokens⦄ (bare 8 true) store).0
        ≡ ok (refuses cleared "SUSPICIOUS_ACTIVITY_DETECTED"))
reuse_revokes_all_example =
    reuse_revokes_all ⦃o = first_orm⦄ ⦃t = plain_tokens⦄ first_orm-IsOrm 8 claims
      (session_row 61 8 true) store true refl refl refl

rotate_again_within_grace_example :
    rotate_session ⦃o = first_orm⦄ ⦃t = plain_tokens⦄ 60 [] 7
      (at 60 (rotate_session ⦃o = first_orm⦄ ⦃t = plain_tokens⦄ 60 (user ∷ []) 7 store).1)
    ≡ (
      (rotate_session ⦃o = first_orm⦄ ⦃t = plain_tokens⦄ 60 (user ∷ []) 7 store).0,
      at 60 (rotate_session ⦃o = first_orm⦄ ⦃t = plain_tokens⦄ 60 (user ∷ []) 7 store).1,
    )
rotate_again_within_grace_example =
    rotate_again_within_grace ⦃o = first_orm⦄ ⦃t = plain_tokens⦄ first_orm-IsOrm 60 (user ∷ []) [] 7
      store (session_row 60 7 false) 60 refl refl refl refl

rotate_again_after_grace_example :
    rotate_session ⦃o = first_orm⦄ ⦃t = plain_tokens⦄ 60 [] 7
      (at 6000 (rotate_session ⦃o = first_orm⦄ ⦃t = plain_tokens⦄ 60 (user ∷ []) 7 store).1)
    ≡ (
      ok none,
      at 6000 (rotate_session ⦃o = first_orm⦄ ⦃t = plain_tokens⦄ 60 (user ∷ []) 7 store).1,
    )
rotate_again_after_grace_example =
    rotate_again_after_grace ⦃o = first_orm⦄ ⦃t = plain_tokens⦄ first_orm-IsOrm 60 (user ∷ []) [] 7
      store (session_row 60 7 false) 6000 refl refl refl refl (ground arith)

rotate_with_new_token_example :
    let again =
      rotate_session ⦃o = first_orm⦄ ⦃t = plain_tokens⦄ 60 []
        (new_pair ⦃o = first_orm⦄ ⦃t = plain_tokens⦄
          (session_row 60 7 false)
          (user ∷ [])
          50).refresh_token
        (at 9000 (rotate_session ⦃o = first_orm⦄ ⦃t = plain_tokens⦄ 60 (user ∷ []) 7 store).1) in
    (r' : Session) × (first_orm.find_one Session
        (session_of 60)
        (rotate_session ⦃o = first_orm⦄ ⦃t = plain_tokens⦄ 60 (user ∷ []) 7 store).1.sessions
      ≡ some r')
    × ((again.0 ≡ ok (some (new_pair ⦃o = first_orm⦄ ⦃t = plain_tokens⦄ r' [] 9000)))
        ⊎ (again.0
            ≡ ok (
                some (
                  new_pair ⦃o = first_orm⦄ ⦃t = plain_tokens⦄
                    (session_row 60 7 false)
                    (user ∷ [])
                    50))))
rotate_with_new_token_example =
    rotate_with_new_token ⦃o = first_orm⦄ ⦃t = plain_tokens⦄ first_orm-IsOrm 60 (user ∷ []) [] 7
      store (session_row 60 7 false) 9000 refl refl refl

sign_out_closes_websockets_example :
    ¬ IsOk
      (get_ws_session ⦃o = first_orm⦄ ⦃t = plain_tokens⦄ 9
        (at 70 (sign_out ⦃o = first_orm⦄ ⦃t = plain_tokens⦄ 7 store).1)).0
sign_out_closes_websockets_example =
    sign_out_closes_websockets ⦃o = first_orm⦄ ⦃t = plain_tokens⦄ first_orm-IsOrm 7 9
      (session_row 60 7 false) claims 70 store refl refl refl refl

abbrev pair : TokenPair
pair = record { access_token = 1050; refresh_token = 2050 }

signed_in :
    (signin ⦃o = first_orm⦄ ⦃t = plain_tokens⦄ "key" "agent" none store).0 ≡ ok (user_row 10, pair)
unfolding signin
signed_in = refl

signin_opens_session_example :
    (any
        (λ r. r.user_id == 10 && r.refresh_token_hash == 2050 && not r.is_revoked)
        (signin ⦃o = first_orm⦄ ⦃t = plain_tokens⦄ "key" "agent" none store).1.sessions
      ≡ true)
    × (compare_key ⦃o = first_orm⦄ ⦃t = plain_tokens⦄ "key" (some 77) ≡ true)
signin_opens_session_example =
    signin_opens_session ⦃o = first_orm⦄ ⦃t = plain_tokens⦄ first_orm-IsOrm "key" "agent" none store
      (user_row 10) pair signed_in

-- Tokens under which the key of a new user is new.
abbrev fresh_tokens : Tokens
fresh_tokens = record plain_tokens { login_key_lookup = λ key. 999 }

abbrev newcomer : User
newcomer = signed_up ⦃o = first_orm⦄ ⦃t = fresh_tokens⦄ "ana" user "CODE" "KEY" store

signed :
    (signup ⦃o = first_orm⦄ ⦃t = fresh_tokens⦄ "ana" user "CODE" "KEY" store).0
    ≡ ok (newcomer, "KEY")
unfolding signup save_user
signed = refl

signin-signup_example :
    signin ⦃o = first_orm⦄ ⦃t = fresh_tokens⦄ "KEY" "agent" none
      (signup ⦃o = first_orm⦄ ⦃t = fresh_tokens⦄ "ana" user "CODE" "KEY" store).1
    ≡ continue
        (λ pair later. (ok (newcomer, pair), later))
        (create_session ⦃o = first_orm⦄ ⦃t = fresh_tokens⦄
          (record {
            user_id = newcomer.id;
            roles = user ∷ [];
            user_agent = "agent";
            ip_address = none;
          })
          (signup ⦃o = first_orm⦄ ⦃t = fresh_tokens⦄ "ana" user "CODE" "KEY" store).1)
signin-signup_example =
    signin-signup ⦃o = first_orm⦄ ⦃t = fresh_tokens⦄ first_orm-IsOrm (λ k. refl) "ana" user "CODE"
      "KEY" store newcomer "KEY" "agent" none signed
