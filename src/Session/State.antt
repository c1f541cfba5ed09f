-- ===== src/Session/State.antt =====
-- The services of a session together, and AuthService's `logout` and `logoutGlobal`
-- (frontend/src/app/core/auth/auth.service.ts).
use save_box.Prelude.{Bool, false, Option, some, none, List, [], ◌∷◌, String}
use save_box.Drive.Navigation
use save_box.Session.App
use save_box.Session.App.{AppState}
use save_box.Session.Token.{Text}
use save_box.Session.Vault
use save_box.Session.Vault.{Vault}

pub data Page : Type 0 where
  login_page home setup home_linked : Page

pub data Message : Type 0 where
  access_denied no_token google_failed link_failed : Message
  server_says : String → Message

pub data Request : Type 0 where
  logout_request logout_global_request : Text → Request

-- `app` is AppStateService, `vault` CryptoService, `jwt`, `loading` and `error` AuthService; `page`
-- is the last page that was navigated to, and `sent` the requests that a logout has sent. `drive` is what
-- DriveStore shows.
pub record Session : Type 0 where
  pub app : AppState
  pub vault : Vault
  pub jwt : Option Text
  pub loading : Bool
  pub error : Option Message
  pub page : Option Page
  pub sent : List Request
  pub drive : Navigation.State

abbrev pub initial : Session
initial = record {
  app = App.initial;
  vault = Vault.initial;
  jwt = none;
  loading = false;
  error = none;
  page = none;
  sent = [];
  drive = record { files = []; current = none; back = []; forward = []; selected = [] };
}

-- A request that goes out only with a token.
abbrev with_token : (Text → Request) → Option Text → List Request → List Request
with_token request none sent = sent
with_token request (some token) sent = request token ∷ sent

unfoldable pub logout : Session → Session
unfolding App.logout Vault.lock_vault
logout s = record s {
  app = App.logout s.app;
  vault = Vault.lock_vault s.vault;
  jwt = none;
  page = some login_page;
  sent = with_token logout_request s.jwt s.sent;
}

unfoldable pub logout_global : Session → Session
unfolding App.logout Vault.lock_vault
logout_global s = record s {
  app = App.logout s.app;
  vault = Vault.lock_vault s.vault;
  jwt = none;
  page = some login_page;
  sent = with_token logout_global_request s.jwt s.sent;
}
