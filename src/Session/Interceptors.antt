-- ===== src/Session/Interceptors.antt =====
-- jwtInterceptor and errorInterceptor (frontend/src/app/core/interceptors).
use save_box.Prelude.{ℕ, Bool, true, not, ◌&&◌, Option, some, none, ◌==◌, if◌then◌else◌}
use save_box.Session.App
use save_box.Session.Token.{Text}
use save_box.Session.State.{Session, logout}

-- What the interceptor reads of a request, and what it sets.
pub record Outgoing : Type 0 where
  pub to_google_apis : Bool
  pub authorization : Option Text
  pub with_credentials : Bool

unfoldable pub jwt_interceptor : Session → Outgoing → Outgoing
jwt_interceptor s req = if req.to_google_apis then req else elim s.jwt [
  | none ↦ req
  | some token ↦ record req { authorization = some token; with_credentials = true }
]

-- A failed request: its status, whether its url holds "/share/", and BYPASS_LOGOUT.
pub record Failed : Type 0 where
  pub status : ℕ
  pub public_share : Bool
  pub bypass : Bool

unfoldable pub error_interceptor : Session → Failed → Session
unfolding logout App.lock
error_interceptor s f =
    if (f.status == 401) && (not f.bypass && not f.public_share)
    then logout s
    else if (f.status == 403) && not f.public_share
    then record s { app = App.lock s.app }
    else s
