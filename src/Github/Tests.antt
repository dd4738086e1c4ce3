-- ===== src/Github/Tests.antt =====
-- An admin who installs the app from GitHub, with a stale cookie, and a callback with a state.

use traceroot.Prelude.{List, [], String, refl, some, ◌≡◌, ◌∷◌, none, ◌⊎◌, ℕ, true}
use traceroot.Github.{
  process_github_callback, UserInstallation, GithubEnv, CallbackRequest, is_given, CallbackParams,
  safe_return_to, Attached, to_path, to_confirm, processed, stored_state, get,
}
use traceroot.Access.{require_auth, require_workspace_membership, admin, go, stop, Member, Db, User}
use traceroot.Github.Installs.{IsAttached, installs_authorised}
use traceroot.Github.State.{get_needs_state, direct_ignores_cookies}

abbrev ann : User
ann = record { id = 1; email = none }

abbrev db : Db
db = record {
  members = record { id = 5; workspace_id = 7; user_id = 1; role = admin } ∷ [];
  invites = [];
  users = ann ∷ [];
  workspaces = [];
}

abbrev ours : UserInstallation
ours = record { id = "42"; app_id = "app"; login = "acme" }

abbrev github : GithubEnv
github = record {
  app_id = "app";
  exchange = λ code. some (some "token");
  installations = λ token. some (record { id = "41"; app_id = "other"; login = "x" } ∷ ours ∷ []);
}

abbrev request : CallbackRequest
request = record { session = some ann; workspace_cookie = none; return_to = some (47 ∷ 97 ∷ []) }

abbrev attached : Attached
attached = record {
  rows =
      record { workspace_id = 7; installation_id = "42"; account_login = "acme"; installed_by = 1 }
      ∷ [];
  redirect = to_path (47 ∷ 97 ∷ []);
  clears_all_cookies = true;
}

attached_result : process_github_callback github db [] request "c" (some "42") ≡ go attached
unfolding process_github_callback require_auth require_workspace_membership
attached_result = refl

foreign_result : process_github_callback github db [] request "c" (some "41") ≡ stop 403
unfolding process_github_callback require_auth
foreign_result = refl

-- a path that a browser reads as another host's, behind a backslash
backslash_result : safe_return_to (some (47 ∷ 92 ∷ 101 ∷ [])) ≡ 47 ∷ 92 ∷ 101 ∷ []
unfolding safe_return_to
backslash_result = refl

installs_authorised_example :
    (attached.rows ≡ [])
    ⊎ ((user : User) × (w : ℕ) × (i : UserInstallation) × (own : Member) × (token : String)
        × (installs : List UserInstallation) × IsAttached github db [] request "c"
            (some "42")
            attached.rows
            user
            w
            i
            own
            token
            installs)
installs_authorised_example =
    installs_authorised github db [] request "c" (some "42") attached attached_result

abbrev with_state : CallbackParams
with_state = record {
  code = some "c";
  state = some "s";
  installation_id = some "42";
  setup_action = some "install";
  stored_state = stored_state (some "s") (some "old") (some "s");
}

get_result : get github db [] request with_state ≡ processed (go attached)
unfolding get stored_state require_auth require_workspace_membership
get_result = refl

get_needs_state_example :
    (is_given with_state.state ≡ true)
    × ((with_state.state ≡ some "old") ⊎ (with_state.state ≡ some "s"))
get_needs_state_example =
    get_needs_state github db [] request with_state (some "old") (some "s") attached refl get_result

abbrev stateless : CallbackParams
stateless = record with_state {
  state = none;
  stored_state = stored_state none (some "old") (some "s");
}

direct_ignores_cookies_example : get github db [] request stateless ≡ to_confirm
direct_ignores_cookies_example =
    direct_ignores_cookies github db [] request stateless (some "old") (some "s") refl refl refl
      refl refl
