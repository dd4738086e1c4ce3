-- ===== src/Github/Installs.antt =====
-- Which installation a callback attaches, and to which workspace.
use traceroot.Billing.ChangePlan.{reply}
use traceroot.Prelude.{
  IsIn-keep_iff, refl, ℕ, String, ◌≡◌, ◌∙◌, eq_iff, sym, some, Option-cases, str_eq, [], ◌∷◌, inl,
  Option, ap, inr, subst, ◌⊎◌, List, arith, find, none, non_empty, IsIn,
}
use traceroot.Github.{
  target_workspace, attach, upsert_installation, InstallationRow, Attached, CallbackRequest,
  process_github_callback, my_installs, first_of, UserInstallation, GithubEnv, choose_install,
}
use traceroot.Access.{
  Db, require_workspace_membership, User, admin, Member, require_auth, get_workspace_membership, go,
  or_stop,
}
use traceroot.Access.Guards.{min_role_sound, IsAdminCall, go_injective, >>=-eq-go, or_stop-eq-go}
use traceroot.Table.{find_sound}

first_of-IsIn :
    (xs : List UserInstallation) (i : UserInstallation) → first_of xs ≡ some i → IsIn i xs
first_of-IsIn [] i h = cc
first_of-IsIn (x ∷ xs) i h = inl cc

some_of : (claimed : Option String) (id : String) → non_empty claimed ≡ some id → claimed ≡ some id
some_of none id h = cc
some_of (some s) id h = ground arith

-- the choice is one of the app's installations, and the one that is claimed
choose_install-own :
    (claimed : Option String) (mine : List UserInstallation) (i : UserInstallation)
    → choose_install claimed mine ≡ go (some i)
    → IsIn i mine × ((non_empty claimed ≡ none) ⊎ (claimed ≡ some i.id))
unfolding choose_install
choose_install-own claimed mine i h = elim (Option-cases (non_empty claimed)) [
  | inl e ↦ (first_of-IsIn mine i (go_injective (rw (choose_install, e) at h)), inl e)
  | inr (id, e) ↦
      let (x, found, same) =
        >>=-eq-go (or_stop (find (λ (y : UserInstallation). str_eq y.id id) mine) 403)
          (λ y. go (some y)) (rw (choose_install, e) at h) in
      let is_i : x ≡ i = cc (go_injective same) in
      let (listed, named) =
        find_sound (λ (y : UserInstallation). str_eq y.id id) mine x (or_stop-eq-go _ 403 found) in
      (
        subst (λ (y : UserInstallation). IsIn y mine) is_i listed,
        inr (
            some_of claimed id e
            ∙ ap some (sym ((eq_iff x.id id).0 named))
            ∙ ap (λ (y : UserInstallation). some y.id) is_i),
      )
]

-- What an installation that is written owes to: a caller who is an admin of the workspace, and an
-- installation of the app that GitHub lists for the token that it exchanges the code for, the claimed
-- one if one is claimed.
pub record IsAttached (env : GithubEnv) (db : Db) (rows : List InstallationRow)
    (r : CallbackRequest) (code : String) (claimed : Option String) (new : List InstallationRow)
    (user : User) (w : ℕ) (i : UserInstallation) (own : Member) (token : String)
    (installs : List UserInstallation) : Type 0 where
  pub caller : IsAdminCall db r.session w user own
  pub exchanged : env.exchange code ≡ some (some token)
  pub listed : env.installations token ≡ some installs
  pub is_listed : IsIn i installs
  pub app : i.app_id ≡ env.app_id
  pub claim : (non_empty claimed ≡ none) ⊎ (claimed ≡ some i.id)
  pub written : new ≡ upsert_installation w i user.id rows

attach-rows :
    (db : Db) (rows : List InstallationRow) (r : CallbackRequest) (user : User)
    (chosen : Option UserInstallation) (w : Option ℕ) (a : Attached)
    → attach db rows r user chosen w ≡ go a
    → (a.rows ≡ rows)
      ⊎ ((i : UserInstallation) × (v : ℕ) × (own : Member) × (chosen ≡ some i)
          × (get_workspace_membership db user.id v ≡ some own)
          × (own.role ≡ admin)
          × (a.rows ≡ upsert_installation v i user.id rows))
unfolding attach
attach-rows db rows r user (some i) (some w) a h =
    let (own, allowed, same) =
      >>=-eq-go (require_workspace_membership db user.id w (some admin)) _ h in
    let (found, role) = min_role_sound db user.id w own allowed in
    inr (i, w, own, refl, found, role, ap (λ (b : Attached). b.rows) (sym (go_injective same)))
attach-rows db rows r user none w a h = inl (ap (λ (b : Attached). b.rows) (sym (go_injective h)))
attach-rows db rows r user (some i) none a h =
    inl (ap (λ (b : Attached). b.rows) (sym (go_injective h)))

app_installs :
    (env : GithubEnv) (installs : List UserInstallation) (i : UserInstallation)
    → IsIn i (my_installs env installs)
    → IsIn i installs × (i.app_id ≡ env.app_id)
app_installs env installs i h =
    let (listed, same) =
      (IsIn-keep_iff (λ (x : UserInstallation). str_eq x.app_id env.app_id) i installs).0 h in
    (listed, (eq_iff i.app_id env.app_id).0 same)

-- A callback changes the installations only by writing one row, for a workspace that the signed-in
-- caller is an admin of and an installation of the program's app that GitHub lists for the token it
-- exchanges the request's code for, which is the claimed one where the request claims one.
pub installs_authorised :
    (env : GithubEnv) (db : Db) (rows : List InstallationRow) (r : CallbackRequest) (code : String)
    (claimed : Option String) (a : Attached)
    → process_github_callback env db rows r code claimed ≡ go a
    → (a.rows ≡ rows)
      ⊎ ((user : User) × (w : ℕ) × (i : UserInstallation) × (own : Member) × (token : String)
          × (installs : List UserInstallation) × IsAttached env db rows r code claimed a.rows user w
              i own token installs)
unfolding process_github_callback require_auth
installs_authorised env db rows r code claimed a h =
    let (reply, came, h1) = >>=-eq-go (or_stop (env.exchange code) 500) _ h in
    let (token, given, h2) = >>=-eq-go (or_stop (non_empty reply) 500) _ h1 in
    let (user, signed, h3) = >>=-eq-go (or_stop r.session 401) _ h2 in
    let (installs, listed, h4) = >>=-eq-go (or_stop (env.installations token) 500) _ h3 in
    let (chosen, picked, h5) = >>=-eq-go (choose_install claimed (my_installs env installs)) _ h4 in
    elim (attach-rows db rows r user chosen (target_workspace db r user.id) a h5) [
      | inl e ↦ inl e
      | inr (i, w, own, is_i, found, role, written) ↦
          let (mine, claim) =
            choose_install-own claimed (my_installs env installs) i (picked ∙ ap go is_i) in
          let (is_listed, app) = app_installs env installs i mine in
          inr (
            user,
            w,
            i,
            own,
            token,
            installs,
            record {
              caller = record {
                signed_in = or_stop-eq-go r.session 401 signed;
                membership = found;
                role = role;
              };
              exchanged =
                  or_stop-eq-go (env.exchange code) 500 came
                  ∙ ap some (some_of reply token (or_stop-eq-go (non_empty reply) 500 given));
              listed = or_stop-eq-go (env.installations token) 500 listed;
              is_listed = is_listed;
              app = app;
              claim = claim;
              written = written;
            },
          )
    ]
