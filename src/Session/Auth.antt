-- ===== src/Session/Auth.antt =====
-- AuthService (frontend/src/app/core/auth/auth.service.ts). A request's outcome is an argument;
-- a failed one passes through errorInterceptor before the service sees it.
use text.Mathlib.Text.{◌==◌ as str_eq}
use save_box.Prelude.{
  ℕ, Bool, true, false, Option, some, none, String, Result, ok, throw, if◌then◌else◌,
}
use save_box.Session.App
use save_box.Session.Token.{Text, Decoders, decode_user, is_vault_initialized}
use save_box.Session.State.{
  Session, Message, access_denied, no_token, google_failed, link_failed, server_says, login_page,
  home, setup, home_linked,
}
use save_box.Session.Interceptors.{Failed, error_interceptor}

-- `err.error?.error`, the server's message, if it is not empty.
pub record HttpError : Type 0 where
  pub status : ℕ
  pub message : Option String

abbrev failed : HttpError → Bool → Failed
failed e bypass = record { status = e.status; public_share = false; bypass = bypass }

abbrev reported : Message → Option String → Message
reported default none = default
reported default (some m) = if str_eq m "" then default else server_says m

-- null and the empty string are both rejected.
abbrev given : {A : Type 0} → Option String → (String → A) → A → A
given none f d = d
given (some s) f d = if str_eq s "" then d else f s

module _ (d : Decoders) where
  -- The response's token is stored, and the user and the flag are read from it.
  unfoldable pub accept_token : Session → Text → Session
  unfolding App.login
  accept_token s token = record s {
    jwt = some token;
    app = App.login s.app (decode_user d token) (is_vault_initialized d token);
  }

  unfoldable pub restore_session : Session → Result HttpError Text → Session × Bool
  unfolding accept_token error_interceptor App.logout
  restore_session s (ok token) = (accept_token s token, true)
  restore_session s (throw e) =
      let s' = error_interceptor s (failed e true) in (record s' { app = App.logout s'.app }, false)

  -- The answer to POST /api/auth/google.
  unfoldable pub google_login : Session → Result HttpError Text → Session
  unfolding accept_token error_interceptor
  google_login s (ok token) = record (accept_token s token) {
    loading = false;
    page = some (if is_vault_initialized d token then home else setup);
  }
  google_login s (throw e) = record (error_interceptor s (failed e false)) {
    error = some (reported google_failed e.message);
    loading = false;
    page = some login_page;
  }

  -- The parameters `id_token`, `state` and `error` of the fragment.
  unfoldable pub handle_oauth_callback :
      Session → Option String → Option String → Option String → Result HttpError Text → Session
  unfolding google_login
  handle_oauth_callback s id_token nonce error reply =
      let missing = record s {
        error = some (
            given error (λ m. if str_eq m "access_denied" then access_denied else no_token)
              no_token);
        page = some login_page;
      } in
      given id_token
        (λ _.
          given nonce (λ _. google_login (record s { loading = true; error = none }) reply) missing)
        missing

  unfoldable pub login_with_credentials : Session → Result HttpError Text → Session × Bool
  unfolding accept_token error_interceptor
  login_with_credentials s (ok token) = (accept_token s token, true)
  login_with_credentials s (throw e) = (error_interceptor s (failed e false), false)

  -- The profile is stored first, and then the session is restored; a failure there is ignored.
  unfoldable pub update_profile :
      Session → Result HttpError (Unit {0}) → Result HttpError Text → Session × Bool
  unfolding restore_session error_interceptor
  update_profile s (throw e) refresh = (error_interceptor s (failed e false), false)
  update_profile s (ok _) refresh = ((restore_session s refresh).0, true)

unfoldable pub link_google_drive : Session → Result HttpError (Unit {0}) → Session
unfolding error_interceptor
link_google_drive s (ok _) = record s { loading = false; error = none; page = some home_linked }
link_google_drive s (throw e) =
    record (error_interceptor (record s { loading = true; error = none }) (failed e false)) {
      error = some (reported link_failed e.message);
      loading = false;
    }
