-- ===== src/Login/Branches.antt =====
-- What a sign-in and a password check do, on every branch.
use kotlogram.Base.{◌≡◌, refl, false}
use kotlogram.Error.{Result, ok, err, login_code_required, invalid_login_code}
use kotlogram.Login.{
  AuthenticationState, idle, login_code, password, SignIn, authorized, password_required,
  invalid_code, failed, Answer, signed_in, needs_password, store, take_state, signed, sign_in_from,
  sign_in,
}
use kotlogram.Login.History.{State}

module _ (Token PasswordToken User : Type 0) where
  abbrev pub Outcome : Type 0
  Outcome = Result (Answer Token PasswordToken User) × AuthenticationState Token PasswordToken User

  -- What a sign-in answers and leaves, by what Telegram answers to the login token held.
  abbrev pub after_sign_in : Token → SignIn Token PasswordToken User → Outcome
  after_sign_in t (authorized u) = (ok (signed_in u), idle)
  after_sign_in t (password_required p) = (ok (needs_password p), password p)
  after_sign_in t invalid_code = (err invalid_login_code, login_code t)
  after_sign_in t (failed e) = (err e, idle)

  abbrev pub sign_in_outcome :
      (Token → SignIn Token PasswordToken User)
      → AuthenticationState Token PasswordToken User
      → Outcome
  sign_in_outcome telegram (login_code t) = after_sign_in t (telegram t)
  sign_in_outcome telegram other = (err login_code_required, idle)

  abbrev pub unpoisoned :
      AuthenticationState Token PasswordToken User → State Token PasswordToken User
  unpoisoned s = record { is_poisoned = false; value = s }

  signed_lem :
      (t : Token) (a : SignIn Token PasswordToken User)
      → signed Token PasswordToken User t a (unpoisoned idle)
        ≡ ((after_sign_in t a).0, unpoisoned (after_sign_in t a).1)
  unfolding signed store
  signed_lem t (authorized u) = refl
  signed_lem t (password_required p) = refl
  signed_lem t invalid_code = refl
  signed_lem t (failed e) = refl

  sign_in_from_lem :
      (telegram : (Token → SignIn Token PasswordToken User))
      (s : AuthenticationState Token PasswordToken User)
      → sign_in_from Token PasswordToken User telegram s (unpoisoned idle)
        ≡ ((sign_in_outcome telegram s).0, unpoisoned (sign_in_outcome telegram s).1)
  unfolding sign_in_from
  sign_in_from_lem telegram idle = refl
  sign_in_from_lem telegram (login_code t) = signed_lem t (telegram t)
  sign_in_from_lem telegram (password p) = refl

  -- Where the lock is not poisoned: a sign-in uses the login token that is held, and keeps it only when
  -- the code was wrong. It turns it into a password token where Telegram asks for a password, and is idle
  -- after any other answer. In any other state it fails and is idle, whatever token was held.
  pub sign_in_lem :
      (telegram : (Token → SignIn Token PasswordToken User)) (m : State Token PasswordToken User)
      → m.is_poisoned ≡ false
      → sign_in Token PasswordToken User telegram m
        ≡ ((sign_in_outcome telegram m.value).0, unpoisoned (sign_in_outcome telegram m.value).1)
  unfolding sign_in take_state
  sign_in_lem telegram m sound = rw sound (sign_in_from_lem telegram m.value)
