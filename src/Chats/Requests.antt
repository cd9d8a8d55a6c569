-- ===== src/Chats/Requests.antt =====
-- What a rights request sends depends on nothing but what the caller asked for.
use kotlogram.Base.{ℕ, ◌≡◌, refl, ap, true, false, List, Option, none, some, arith}
use kotlogram.Base.Int.{ℤ, pos, negsuc}
use kotlogram.Error.{Result, ok}
use kotlogram.Base.Dates.{to_millis, div_thousand, IsDate}
use kotlogram.Chats.Types.{
  ChatAdminRights, ChatBannedRights, ChatPermissionsDto, ChatRestrictionsDto,
}
use kotlogram.Chats.Rights.{
  as_i32, admin_rights_of, restrictions_of, banned_rights_of, merge_admin, merge_banned,
}
use kotlogram.Chats.{
  PeerKind, user, chat, channel, Request, banned_rights, set_banned_rights, admin_rights,
  set_admin_rights,
}

merge_admin-requested :
    (current requested : ChatAdminRights) → merge_admin current requested ≡ requested
unfolding merge_admin
merge_admin-requested current requested = refl

merge_banned-requested :
    (current requested : ChatBannedRights) → merge_banned current requested ≡ requested
unfolding merge_banned
merge_banned-requested current requested = refl

-- Loading the rights that a member holds never changes a ban: whatever rights the load answers,
-- the operation sends, and answers, what it would without loading.
pub set_banned_rights-loaded :
    (invoke : (Request → Result (Unit {0}))) (kind : PeerKind) (held : Option ChatBannedRights)
    (loaded : Result (Option ChatBannedRights)) (dto : ChatRestrictionsDto)
    → set_banned_rights invoke kind true (ok held) dto
      ≡ set_banned_rights invoke kind false loaded dto
unfolding set_banned_rights banned_rights
set_banned_rights-loaded invoke channel (some held) loaded dto =
    rw (merge_banned-requested held (banned_rights_of dto))
set_banned_rights-loaded invoke channel none loaded dto = refl
set_banned_rights-loaded invoke chat held loaded dto = refl
set_banned_rights-loaded invoke user held loaded dto = refl

-- Loading the rights that a member holds never changes a grant of admin rights: whatever rights
-- the load answers, the operation sends, and answers, what it would without loading.
pub set_admin_rights-loaded :
    (invoke : (Request → Result (Unit {0}))) (kind : PeerKind) (held : Option ChatAdminRights)
    (loaded : Result (Option ChatAdminRights)) (dto : ChatPermissionsDto) (rank : List ℕ)
    → set_admin_rights invoke kind true (ok held) dto rank
      ≡ set_admin_rights invoke kind false loaded dto rank
unfolding set_admin_rights admin_rights
set_admin_rights-loaded invoke channel (some held) loaded dto rank =
    rw (merge_admin-requested held (admin_rights_of dto))
set_admin_rights-loaded invoke channel none loaded dto rank = refl
set_admin_rights-loaded invoke chat held loaded dto rank = refl
set_admin_rights-loaded invoke user held loaded dto rank = refl

date_back : (date : ℤ) → IsDate date → as_i32 (div_thousand (to_millis date)) ≡ date
unfolding as_i32 div_thousand to_millis
date_back (pos n) h = ground arith
date_back (negsuc n) h = ground arith

-- The restrictions that a document stands for are those it was made of: every flag, and every
-- date that an `i32` can hold, past the epoch or before it.
pub banned_rights_of-restrictions_of :
    (rights : ChatBannedRights)
    → IsDate rights.until_date
    → banned_rights_of (restrictions_of rights) ≡ rights
unfolding banned_rights_of restrictions_of
banned_rights_of-restrictions_of rights h =
    ap (λ date. record rights { until_date = date }) (date_back rights.until_date h)
