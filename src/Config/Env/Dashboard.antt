-- ===== src/Config/Env/Dashboard.antt =====
-- The checks of the dashboard's credentials.
use queue_worker_kit.Prelude.{
  ◌≤◌, length, Text, any, text_eq, List, [], ◌∷◌, ◌++◌, Bool, true, false, Option, none, some, ◌≡◌,
  refl, arith,
}
use queue_worker_kit.Config.Env.{
  Env, dashboard_issues, username_issues, password_issues, is_production, insecure_passwords,
  min_production_password_length, lower,
}

abbrev pub PasswordFits : Bool → Text → Type 0
PasswordFits false password = Unit
PasswordFits true password =
    (any (text_eq (lower password)) insecure_passwords ≡ false)
    × (min_production_password_length ≤ length password)

-- What the dashboard needs, if it is on.
abbrev pub DashboardFits : Bool → Env → Type 0
DashboardFits false env = Unit
DashboardFits true env =
    (name : Text) × (password : Text) × (env.bull_board_username ≡ some name)
    × (env.bull_board_password ≡ some password)
    × PasswordFits (is_production env) password

password_issues-nil :
    (production : Bool) (o : Option Text)
    → password_issues production o ≡ []
    → (password : Text) × (o ≡ some password) × PasswordFits production password
unfolding password_issues
password_issues-nil production none h = cc
password_issues-nil false (some password) h = (password, refl, tt)
password_issues-nil true (some password) h = (password, refl, ground arith)

username_issues-nil : (o : Option Text) → username_issues o ≡ [] → (name : Text) × (o ≡ some name)
unfolding username_issues
username_issues-nil none h = cc
username_issues-nil (some name) h = (name, refl)

append-nil_parts : {A : Type 0} (xs ys : List A) → xs ++ ys ≡ [] → (xs ≡ []) × (ys ≡ [])
append-nil_parts [] ys h = (refl, h)
append-nil_parts (x ∷ xs) ys h = cc

pub dashboard_issues-nil :
    (env : Env) (on : Bool)
    → env.enable_bull_board ≡ on
    → dashboard_issues env ≡ []
    → DashboardFits on env
unfolding dashboard_issues
dashboard_issues-nil env false e h = tt
dashboard_issues-nil env true e h =
    let (names, passwords) =
      append-nil_parts (username_issues env.bull_board_username)
        (password_issues (is_production env) env.bull_board_password) (rw e at h) in
    let (name, has_name) = username_issues-nil env.bull_board_username names in
    let (password, has_password, fits) =
      password_issues-nil (is_production env) env.bull_board_password passwords in
    (name, password, has_name, has_password, fits)
