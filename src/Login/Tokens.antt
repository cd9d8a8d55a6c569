-- ===== src/Login/Tokens.antt =====
-- Where the tokens of the login flow come from, and what each call does with the one it holds.
use kotlogram.Base.{List, ◌∷◌, ◌≡◌, inl, inr, refl, false, Bool-cases, arith}
use kotlogram.Error.{Result, ok, err, Result-cases}
use kotlogram.Login.{
  AuthenticationState, idle, login_code, password, SignIn, authorized, password_required,
  invalid_code, failed, signed_in, store, take_state, request_login_code, signed, sign_in_from,
  sign_in, check_password_from, check_password, sign_out,
}
use kotlogram.Login.History.{
  Call, requests, signs_in, checks, signs_out, State, call, Reach, start, further,
}

module _ (Token PasswordToken User : Type 0) where
  pub data Occurs (c : Call Token PasswordToken User)
      : List (Call Token PasswordToken User) → Type 0 where
    here : {calls : List (Call Token PasswordToken User)} → Occurs c (c ∷ calls)
    there :
        {d : Call Token PasswordToken User} {calls : List (Call Token PasswordToken User)}
        → Occurs c calls
        → Occurs c (d ∷ calls)

  -- A login token was answered to a request, and a password token to a sign-in with a login token
  -- that was.
  abbrev pub Origin :
      AuthenticationState Token PasswordToken User → List (Call Token PasswordToken User) → Type 0
  Origin idle calls = Unit
  Origin (login_code t) calls = Occurs (requests (ok t)) calls
  Origin (password p) calls =
      (t : Token) × (telegram : (Token → SignIn Token PasswordToken User)) × (telegram t
        ≡ password_required p)
      × Occurs (signs_in telegram) calls
      × Occurs (requests (ok t)) calls

  later :
      (s : AuthenticationState Token PasswordToken User) (c : Call Token PasswordToken User)
      (calls : List (Call Token PasswordToken User))
      → Origin s calls
      → Origin s (c ∷ calls)
  later idle c calls o = o
  later (login_code t) c calls o = there o
  later (password p) c calls (t, telegram, asked, signed, requested) =
      (t, telegram, asked, there signed, there requested)

  -- The state after a call from the unpoisoned state `s`.
  abbrev Follows : List (Call Token PasswordToken User) → State Token PasswordToken User → Type 0
  Follows calls m = (m.is_poisoned ≡ false) × Origin m.value calls

  signed-Follows :
      (telegram : (Token → SignIn Token PasswordToken User)) (t : Token)
      (a : SignIn Token PasswordToken User) (calls : List (Call Token PasswordToken User))
      → telegram t ≡ a
      → Occurs (requests (ok t)) calls
      → Follows
          (signs_in telegram ∷ calls)
          (signed Token PasswordToken User t a (record { is_poisoned = false; value = idle })).1
  unfolding signed store
  signed-Follows telegram t (authorized u) calls h o = (refl, tt)
  signed-Follows telegram t (password_required p) calls h o =
      (refl, (t, telegram, h, here, there o))
  signed-Follows telegram t invalid_code calls h o = (refl, there o)
  signed-Follows telegram t (failed e) calls h o = (refl, tt)

  signs_in-Follows :
      (telegram : (Token → SignIn Token PasswordToken User))
      (s : AuthenticationState Token PasswordToken User)
      (calls : List (Call Token PasswordToken User))
      → Origin s calls
      → Follows
          (signs_in telegram ∷ calls)
          (sign_in_from Token PasswordToken User telegram s
            (record { is_poisoned = false; value = idle })).1
  unfolding sign_in_from
  signs_in-Follows telegram idle calls o = (refl, tt)
  signs_in-Follows telegram (password p) calls o = (refl, tt)
  signs_in-Follows telegram (login_code t) calls o =
      signed-Follows telegram t (telegram t) calls refl o

  checks-Follows :
      (telegram : (PasswordToken → Result User)) (s : AuthenticationState Token PasswordToken User)
      (calls : List (Call Token PasswordToken User))
      → Follows calls
          (check_password_from Token PasswordToken User telegram s
            (record { is_poisoned = false; value = idle })).1
  unfolding check_password_from
  checks-Follows telegram idle calls = (refl, tt)
  checks-Follows telegram (login_code t) calls = (refl, tt)
  checks-Follows telegram (password p) calls = elim (Result-cases (telegram p)) [
    | inl (u, a) ↦ rw a (refl, tt)
    | inr (x, a) ↦ rw a (refl, tt)
  ]

  call-Follows :
      (m : State Token PasswordToken User) (c : Call Token PasswordToken User)
      (calls : List (Call Token PasswordToken User))
      → Follows calls m
      → Follows (c ∷ calls) (call Token PasswordToken User m c).1
  unfolding call request_login_code store sign_in check_password take_state sign_out
  call-Follows m (requests (ok t)) calls (sound, o) = rw sound (refl, here)
  call-Follows m (requests (err e)) calls (sound, o) =
      (sound, later m.value (requests (err e)) calls o)
  call-Follows m (signs_in telegram) calls (sound, o) =
      rw sound (signs_in-Follows telegram m.value calls o)
  call-Follows m (checks telegram) calls (sound, o) =
      rw sound (checks-Follows telegram m.value (checks telegram ∷ calls))
  call-Follows m (signs_out (ok done)) calls (sound, o) = rw sound (refl, tt)
  call-Follows m (signs_out (err e)) calls (sound, o) =
      (sound, later m.value (signs_out (err e)) calls o)

  -- In every history of login calls, each token that the client holds was answered by Telegram: a
  -- login token to a request of the history, and a password token to a sign-in of the history with
  -- such a login token.
  pub token-Origin :
      {m : State Token PasswordToken User} {calls : List (Call Token PasswordToken User)}
      → Reach Token PasswordToken User m calls
      → (m.is_poisoned ≡ false) × Origin m.value calls
  token-Origin start = (refl, tt)
  token-Origin (further {m} {calls} c r) = call-Follows m c calls (token-Origin r)

  -- What signed a user in: the token held, and Telegram's answer to it.
  abbrev pub Admits :
      AuthenticationState Token PasswordToken User → Call Token PasswordToken User → User → Type 0
  Admits (login_code t) (signs_in telegram) u = telegram t ≡ authorized u
  Admits (password p) (checks telegram) u = telegram p ≡ ok u
  Admits other c u = ⊥

  signed-Admits :
      (t : Token) (a : SignIn Token PasswordToken User) (m : State Token PasswordToken User)
      (u : User)
      → (signed Token PasswordToken User t a m).0 ≡ ok (signed_in u)
      → a ≡ authorized u
  unfolding signed store
  signed-Admits t (authorized v) m u h = cc
  signed-Admits t (password_required p) m u h = ground arith
  signed-Admits t invalid_code m u h = ground arith
  signed-Admits t (failed e) m u h = cc

  sign_in_from-Admits :
      (telegram : (Token → SignIn Token PasswordToken User))
      (s : AuthenticationState Token PasswordToken User) (m : State Token PasswordToken User)
      (u : User)
      → (sign_in_from Token PasswordToken User telegram s m).0 ≡ ok (signed_in u)
      → Admits s (signs_in telegram) u
  unfolding sign_in_from
  sign_in_from-Admits telegram idle m u h = cc
  sign_in_from-Admits telegram (login_code t) m u h = signed-Admits t (telegram t) m u h
  sign_in_from-Admits telegram (password p) m u h = cc

  check_password_from-Admits :
      (telegram : (PasswordToken → Result User)) (s : AuthenticationState Token PasswordToken User)
      (m : State Token PasswordToken User) (u : User)
      → (check_password_from Token PasswordToken User telegram s m).0 ≡ ok (signed_in u)
      → Admits s (checks telegram) u
  unfolding check_password_from
  check_password_from-Admits telegram idle m u h = cc
  check_password_from-Admits telegram (login_code t) m u h = cc
  check_password_from-Admits telegram (password p) m u h = elim (Result-cases (telegram p)) [
    | inl (v, a) ↦ cc (rw a at h)
    | inr (x, a) ↦ cc (rw a at h)
  ]

  -- A call answers that a user is signed in only if it is a sign-in with the login token held, or a
  -- password check with the password token held, and Telegram answered that user to that token.
  pub signed_in-Admits :
      (m : State Token PasswordToken User) (c : Call Token PasswordToken User) (u : User)
      → (call Token PasswordToken User m c).0 ≡ ok (signed_in u)
      → Admits m.value c u
  unfolding call request_login_code store sign_in check_password take_state sign_out
  signed_in-Admits m (requests (ok t)) u h = ground arith
  signed_in-Admits m (requests (err e)) u h = cc
  signed_in-Admits m (signs_in telegram) u h = elim (Bool-cases m.is_poisoned) [
    | inl broken ↦ absurd (cc (rw broken at h))
    | inr sound ↦
        sign_in_from-Admits telegram m.value (record { is_poisoned = false; value = idle }) u
          (rw sound at h)
  ]
  signed_in-Admits m (checks telegram) u h = elim (Bool-cases m.is_poisoned) [
    | inl broken ↦ absurd (cc (rw broken at h))
    | inr sound ↦
        check_password_from-Admits telegram m.value (record { is_poisoned = false; value = idle }) u
          (rw sound at h)
  ]
  signed_in-Admits m (signs_out (ok done)) u h = ground arith
  signed_in-Admits m (signs_out (err e)) u h = cc
