-- ===== src/Login/History.antt =====
-- Login calls one after another, each with what Telegram answers it.
use kotlogram.Base.{List, [], ◌∷◌}
use kotlogram.Error.{Result}
use kotlogram.Exec.{Mutex, unlocked}
use kotlogram.Login.{
  AuthenticationState, idle, SignIn, Answer, request_login_code, sign_in, check_password, sign_out,
}

module _ (Token PasswordToken User : Type 0) where
  pub data Call : Type 0 where
    requests : Result Token → Call
    signs_in : (Token → SignIn Token PasswordToken User) → Call
    checks : (PasswordToken → Result User) → Call
    signs_out : Result (Unit {0}) → Call

  abbrev pub State : Type 0
  State = Mutex (AuthenticationState Token PasswordToken User)

  unfoldable pub call : State → Call → Result (Answer Token PasswordToken User) × State
  call m (requests answer) = request_login_code Token PasswordToken User answer m
  call m (signs_in telegram) = sign_in Token PasswordToken User telegram m
  call m (checks telegram) = check_password Token PasswordToken User telegram m
  call m (signs_out answer) = sign_out Token PasswordToken User answer m

  abbrev pub initial : State
  initial = unlocked idle

  -- The states that a client can be in, and the calls that led there, the latest first.
  pub data Reach : State → List Call → Type 0 where
    start : Reach initial []
    further :
        {m : State} {calls : List Call} (c : Call) → Reach m calls → Reach (call m c).1 (c ∷ calls)
