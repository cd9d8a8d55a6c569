-- ===== src/Login.antt =====
-- The login state machine: `AuthenticationState` of native/src/client.rs and the handlers
-- `request_login_code`, `sign_in`, `check_password` and `sign_out` of native/src/ops/auth.rs. A
-- handler takes what Telegram answers as an argument, a function of the token that it is asked with.
pub mod History
pub mod Tokens
pub mod Branches
mod Examples
use kotlogram.Base.{ℕ, List, Option, some, none}
use kotlogram.Error.{
  Error, Result, ok, err, login_code_required, password_not_requested, invalid_login_code,
}
use kotlogram.Exec.{Exec, Mutex, locked, write, fail, lift, pure, reads, modify, ◌>>=◌, ◌>>◌}

-- The tokens and the account are grammers' values.
module _ (Token PasswordToken User : Type 0) where
  pub data AuthenticationState : Type 0 where
    idle : AuthenticationState
    login_code : Token → AuthenticationState
    password : PasswordToken → AuthenticationState

  -- Result<User, SignInError>
  pub data SignIn : Type 0 where
    authorized : User → SignIn
    password_required : PasswordToken → SignIn
    invalid_code : SignIn
    failed : Error → SignIn

  -- The documents that the handlers answer.
  pub data Answer : Type 0 where
    code_sent signed_out : Answer
    signed_in : User → Answer
    needs_password : PasswordToken → Answer

  abbrev pub Login : Type 0 → Type 0
  Login A = Exec (Mutex AuthenticationState) A

  -- *authentication.lock()? = state
  unfoldable pub store : AuthenticationState → Login (Unit {0})
  store state = do reads (λ (m : Mutex AuthenticationState). locked m); modify (λ m. write m state)

  -- std::mem::replace(&mut *authentication.lock()?, AuthenticationState::Idle)
  unfoldable pub take_state : Login AuthenticationState
  take_state = do
    state ← reads (λ (m : Mutex AuthenticationState). locked m)
    modify (λ m. write m idle)
    pure state

  unfoldable pub request_login_code : Result Token → Login Answer
  request_login_code answer = do token ← lift answer; store (login_code token); pure code_sent

  unfoldable pub signed : Token → SignIn → Login Answer
  signed token (authorized user) = pure (signed_in user)
  signed token (password_required password_token) = do
    store (password password_token)
    pure (needs_password password_token)
  signed token invalid_code = do store (login_code token); fail invalid_login_code
  signed token (failed e) = fail e

  unfoldable pub sign_in_from : (Token → SignIn) → AuthenticationState → Login Answer
  sign_in_from telegram (login_code token) = signed token (telegram token)
  sign_in_from telegram state = fail login_code_required

  unfoldable pub sign_in : (Token → SignIn) → Login Answer
  sign_in telegram = do state ← take_state; sign_in_from telegram state

  unfoldable pub check_password_from :
      (PasswordToken → Result User) → AuthenticationState → Login Answer
  check_password_from telegram (password token) = do
    user ← lift (telegram token)
    pure (signed_in user)
  check_password_from telegram state = fail password_not_requested

  unfoldable pub check_password : (PasswordToken → Result User) → Login Answer
  check_password telegram = do state ← take_state; check_password_from telegram state

  unfoldable pub sign_out : Result (Unit {0}) → Login Answer
  sign_out answer = do lift answer; store idle; pure signed_out
