-- ===== src/Dispatch/Examples.antt =====
-- Dispatch at two names, one declared and one not.
use mathlib.Core.List.{flatten}
use kotlogram.Base.{String, Bool, true, ◌≡◌, refl, some, All}
use kotlogram.Error.{Result, ok, err, unsupported_operation}
use kotlogram.Dispatch.Handlers.{Handler, sign_in}
use kotlogram.Dispatch.Table.{is_some, contains, match_arms}
use kotlogram.Dispatch.{routes, route, find_route, all_operations, dispatch}
use kotlogram.Dispatch.Auth
use kotlogram.Dispatch.Account
use kotlogram.Dispatch.Inventory.{
  route-all_operations, Agrees, routes-Agrees, dispatch-declared, dispatch-undeclared,
}

routes_sign_in : route "signIn" ≡ some sign_in
unfolding route find_route Account.route Auth.route match_arms
routes_sign_in = refl

route-all_operations_example : is_some (route "signIn") ≡ contains all_operations "signIn"
route-all_operations_example = route-all_operations "signIn"

routes-Agrees_example : All (Agrees "getMe") routes
routes-Agrees_example = routes-Agrees "getMe"

abbrev echo : Handler → Bool → String → Result String
echo handler native payload = ok payload

dispatch-declared_example :
    (h : Handler) × (route "getMe" ≡ some h) × (dispatch echo true "getMe" "{}" ≡ ok "{}")
unfolding all_operations flatten
dispatch-declared_example = dispatch-declared echo true "getMe" "{}" refl

dispatch-undeclared_example :
    dispatch echo true "signUp" "{}" ≡ err (unsupported_operation "signUp")
unfolding all_operations flatten
dispatch-undeclared_example = dispatch-undeclared echo true "signUp" "{}" refl
