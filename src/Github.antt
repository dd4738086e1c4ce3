-- ===== src/Github.antt =====
-- The callback of a GitHub installation: frontend/packages/github/src/callback-validation.ts and
-- frontend/ui/src/app/api/github/callback/route.ts. What GitHub answers and the URL parser are
-- parameters. A path is its list of code points; the workspace cookie holds a workspace's id.
pub mod Installs
pub mod State
pub mod Tests
use traceroot.Prelude.{
  ◌||◌, Option, true, ◌∷◌, ◌==◌, [], none, str_eq, keep, some, ◌&&◌, not, find, Bool, false,
  if◌then◌else◌, String, is_some, non_empty, List, coalesce, ℕ,
}
use traceroot.Access.{
  viewer, member, admin, go, stop, Member, Db, User, Step, ◌>>=◌, ◌>>◌, guard, or_stop,
  require_auth, require_workspace_membership,
}

pub record CallbackParams : Type 0 where
  pub code : Option String
  pub state : Option String
  pub installation_id : Option String
  pub setup_action : Option String
  pub stored_state : Option String

pub data ParamsError : Type 0 where
  missing_code_or_state invalid_state : ParamsError

pub record ValidationResult : Type 0 where
  pub error : Option ParamsError  -- `valid` is its absence
  pub is_direct_install : Bool

abbrev pub same_opt : Option String → Option String → Bool
same_opt none none = true
same_opt (some a) (some b) = str_eq a b
same_opt _ _ = false

abbrev is_given : Option String → Bool
is_given s = is_some (non_empty s)

unfoldable pub is_direct_github_install : CallbackParams → Bool
is_direct_github_install p =
    same_opt p.setup_action (some "install")
    && is_given p.installation_id
    && not (is_given p.stored_state)
    && not (is_given p.state)

abbrev refused : ParamsError → ValidationResult
refused e = record { error = some e; is_direct_install = false }

abbrev accepted : Bool → ValidationResult
accepted direct = record { error = none; is_direct_install = direct }

unfoldable pub validate_callback_params : CallbackParams → ValidationResult
unfolding is_direct_github_install
validate_callback_params p =
    if not (is_given p.code)
    then refused missing_code_or_state
    else if is_direct_github_install p
    then accepted true
    else if not (is_given p.state)
    then refused missing_code_or_state
    else if not (is_given p.stored_state) || not (same_opt p.stored_state p.state)
    then refused invalid_state
    else accepted false

-- the stored state that the route compares with, of its two cookies
unfoldable pub stored_state : Option String → Option String → Option String → Option String
stored_state state auth_state install_state =
    if same_opt state auth_state
    then auth_state
    else if same_opt state install_state
    then install_state
    else none

pub record UserInstallation : Type 0 where
  pub id : String
  pub app_id : String
  pub login : String

-- a row of the workspaces' installations
pub record InstallationRow : Type 0 where
  pub workspace_id : ℕ
  pub installation_id : String
  pub account_login : String
  pub installed_by : ℕ

pub record GithubEnv : Type 0 where
  pub app_id : String
  pub exchange : String → Option (Option String)  -- the access token; `none` if the call throws
  pub installations : String → Option (List UserInstallation)  -- `none` if the call throws

pub record CallbackRequest : Type 0 where
  pub session : Option User
  pub workspace_cookie : Option ℕ
  pub return_to : Option (List ℕ)

pub data Redirect : Type 0 where
  to_path : List ℕ → Redirect
  to_install : List ℕ → Redirect  -- the install route, with the path to return to

pub record Attached : Type 0 where
  pub rows : List InstallationRow
  pub redirect : Redirect
  pub clears_all_cookies : Bool

abbrev is_row : ℕ → String → InstallationRow → Bool
is_row w id r = r.workspace_id == w && str_eq r.installation_id id

-- `gitHubInstallation.upsert` by its unique key
unfoldable pub upsert_installation :
    ℕ → UserInstallation → ℕ → List InstallationRow → List InstallationRow
upsert_installation w i user [] =
    record {
      workspace_id = w;
      installation_id = i.id;
      account_login = i.login;
      installed_by = user;
    }
    ∷ []
upsert_installation w i user (r ∷ rows) =
    if is_row w i.id r
    then record r { account_login = i.login } ∷ rows
    else r ∷ upsert_installation w i user rows

abbrev first_of {ℓ} : {A : Type ℓ} → List A → Option A
first_of [] = none
first_of (x ∷ xs) = some x

-- the installations of the program's own app
abbrev my_installs : GithubEnv → List UserInstallation → List UserInstallation
my_installs env installs = keep (λ (i : UserInstallation). str_eq i.app_id env.app_id) installs

unfoldable pub choose_install :
    Option String → List UserInstallation → Step (Option UserInstallation)
choose_install claimed mine = elim (non_empty claimed) [
  | none ↦ go (first_of mine)
  | some id ↦ do i ← or_stop (find (λ (x : UserInstallation). str_eq x.id id) mine) 403; go (some i)
]

abbrev first_workspace : Db → ℕ → Option ℕ
first_workspace db user = elim (find (λ (m : Member). m.user_id == user) db.members) [
  | some m ↦ some m.workspace_id
  | none ↦ none
]

-- the workspace of the cookie, or the user's first membership; `members` are in their order of age
unfoldable pub target_workspace : Db → CallbackRequest → ℕ → Option ℕ
target_workspace db r user = coalesce r.workspace_cookie (first_workspace db user)

-- only a path with one slash in front
unfoldable pub safe_return_to : Option (List ℕ) → List ℕ
safe_return_to none = 47 ∷ []
safe_return_to (some []) = 47 ∷ []
safe_return_to (some (c ∷ [])) = 47 ∷ []
safe_return_to (some (c ∷ d ∷ path)) = if c == 47 && not (d == 47) then c ∷ d ∷ path else 47 ∷ []

unfoldable pub attach :
    Db
    → List InstallationRow
    → CallbackRequest
    → User
    → Option UserInstallation
    → Option ℕ
    → Step Attached
unfolding upsert_installation safe_return_to
attach db rows r user (some i) (some w) = do
  own ← require_workspace_membership db user.id w (some admin)
  go (record {
    rows = upsert_installation w i user.id rows;
    redirect = to_path (safe_return_to r.return_to);
    clears_all_cookies = true;
  })
attach db rows r user i w = go (record {
  rows = rows;
  redirect = to_install (safe_return_to r.return_to);
  clears_all_cookies = false;
})

unfoldable pub process_github_callback :
    GithubEnv → Db → List InstallationRow → CallbackRequest → String → Option String → Step Attached
unfolding choose_install target_workspace attach
process_github_callback env db rows r code claimed = do
  answer ← or_stop (env.exchange code) 500
  token ← or_stop (non_empty answer) 500
  user ← require_auth r.session
  installs ← or_stop (env.installations token) 500
  chosen ← choose_install claimed (my_installs env installs)
  attach db rows r user chosen (target_workspace db r user.id)

-- The answer of the GET handler: the confirm page, a refusal, or the callback's.
pub data GetAnswer : Type 0 where
  to_confirm : GetAnswer
  processed : Step Attached → GetAnswer

abbrev params_status : ParamsError → ℕ
params_status missing_code_or_state = 400
params_status invalid_state = 403

unfoldable pub get :
    GithubEnv → Db → List InstallationRow → CallbackRequest → CallbackParams → GetAnswer
unfolding validate_callback_params process_github_callback
get env db rows r p = elim (validate_callback_params p).error [
  | some e ↦ processed (stop (params_status e))
  | none ↦
      if (validate_callback_params p).is_direct_install
      then to_confirm
      else elim (non_empty p.code) [
        | none ↦ processed (stop 400)
        | some code ↦ processed (process_github_callback env db rows r code p.installation_id)
      ]
]

-- The POST handler of the confirm page; an origin that does not parse is `none`.
unfoldable pub post :
    GithubEnv
    → String
    → Option String
    → Db
    → List InstallationRow
    → CallbackRequest
    → Option String
    → Option String
    → Step Attached
unfolding process_github_callback
post env own_origin origin db rows r code claimed = do
  guard (same_opt origin (some own_origin)) 403
  c ← or_stop (non_empty code) 400
  process_github_callback env db rows r c claimed
