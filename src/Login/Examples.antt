-- ===== src/Login/Examples.antt =====
-- A login with tokens 5 and 9 of account 1, and the theorems at its steps.
use kotlogram.Base.{ℕ, ◌+◌, List, [], ◌∷◌, ◌≡◌, refl, false}
use kotlogram.Error.{ok}
use kotlogram.Exec.{unlocked}
use kotlogram.Login.{
  login_code, password, SignIn, password_required, signed_in, request_login_code, store, sign_in,
  take_state, sign_in_from, signed, check_password, check_password_from,
}
use kotlogram.Login.History.{Call, requests, signs_in, checks, State, call, Reach, start, further}
use kotlogram.Login.Tokens.{Origin, token-Origin, Admits, signed_in-Admits}
use kotlogram.Login.Branches.{unpoisoned, sign_in_outcome, sign_in_lem}

abbrev asks_password : ℕ → SignIn ℕ ℕ ℕ
asks_password token = password_required (token + 4)

abbrev code_requested : State ℕ ℕ ℕ
code_requested = unlocked (login_code 5)

abbrev password_wanted : State ℕ ℕ ℕ
password_wanted = unlocked (password 9)

abbrev two_calls : List (Call ℕ ℕ ℕ)
two_calls = signs_in asks_password ∷ requests (ok 5) ∷ []

reaches_password : Reach ℕ ℕ ℕ password_wanted two_calls
unfolding call request_login_code store sign_in take_state sign_in_from signed
reaches_password = further (signs_in asks_password) (further (requests (ok 5)) start)

token-Origin_example :
    (password_wanted.is_poisoned ≡ false) × Origin ℕ ℕ ℕ password_wanted.value two_calls
token-Origin_example = token-Origin ℕ ℕ ℕ reaches_password

passes : (call ℕ ℕ ℕ password_wanted (checks (λ p. ok 1))).0 ≡ ok (signed_in 1)
unfolding call check_password take_state check_password_from
passes = refl

signed_in-Admits_example : Admits ℕ ℕ ℕ password_wanted.value (checks (λ p. ok 1)) 1
signed_in-Admits_example = signed_in-Admits ℕ ℕ ℕ password_wanted (checks (λ p. ok 1)) 1 passes

sign_in_example :
    sign_in ℕ ℕ ℕ asks_password code_requested
    ≡ ((sign_in_outcome ℕ ℕ ℕ asks_password (login_code 5)).0, unpoisoned ℕ ℕ ℕ (password 9))
sign_in_example = sign_in_lem ℕ ℕ ℕ asks_password code_requested refl
