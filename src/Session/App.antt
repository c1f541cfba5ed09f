-- ===== src/Session/App.antt =====
-- AppStateService (frontend/src/app/core/state/app-state.service.ts).
use save_box.Prelude.{Bool, true, false, Option, some, none, String, if◌then◌else◌}

pub data AppStatus : Type 0 where
  loading unauthenticated onboarding locked unlocked : AppStatus

-- `email` is undefined if the token has none.
pub record UserInfo : Type 0 where
  pub email : Option String
  pub name : String
  pub picture : String

pub record AppState : Type 0 where
  pub status : AppStatus
  pub user : Option UserInfo

abbrev pub initial : AppState
initial = record { status = loading; user = none }

unfoldable pub is_authenticated : AppState → Bool
is_authenticated s = elim s.status [ unauthenticated ↦ false | loading ↦ false | _ ↦ true ]

unfoldable pub login : AppState → UserInfo → Bool → AppState
login s user is_vault_initialized = record {
  status = if is_vault_initialized then locked else onboarding;
  user = some user;
}

unfoldable pub lock : AppState → AppState
lock s = record s { status = locked }

unfoldable pub unlock : AppState → AppState
unlock s = record s { status = unlocked }

unfoldable pub logout : AppState → AppState
logout s = record { status = unauthenticated; user = none }
