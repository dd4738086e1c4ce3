-- ===== src/Access/Members.antt =====
-- The handlers that write members:
-- frontend/ui/src/app/api/workspaces/[workspaceId]/members/route.ts (POST) and
-- members/[userId]/route.ts (PUT, DELETE). A body that does not parse is `none`; the id of a new row
-- (`crypto.randomUUID()`) is an argument.
use traceroot.Table.{delete_by_id, update_by_id}
use traceroot.Access.{
  go, ◌>>◌, ◌>>=◌, Db, respond, require_workspace_membership, User, admin_count, is_admin, or_stop,
  get_workspace_membership, require_auth, Answer, guard, Member, Role, admin, Step,
}
use traceroot.Prelude.{not, Option, ◌==◌, leb, some, ◌&&◌, ◌∷◌, any, is_none, ℕ}

abbrev pub member_id : Member → ℕ
member_id m = m.id

-- the admin that asks
abbrev pub require_admin : Db → Option User → ℕ → Step User
require_admin db session workspace_id = do
  user ← require_auth session
  own ← require_workspace_membership db user.id workspace_id (some admin)
  go user

-- PUT: set the role of a member
unfoldable pub update_member_step : Db → Option User → ℕ → ℕ → Option Role → Step Answer
unfolding require_auth require_workspace_membership get_workspace_membership update_by_id
update_member_step db session workspace_id target_user_id body = do
  user ← require_admin db session workspace_id
  new_role ← or_stop body 400
  target ← or_stop (get_workspace_membership db target_user_id workspace_id) 404
  guard
      (not (
        user.id == target_user_id
        && is_admin target.role
        && not (is_admin new_role)
        && leb (admin_count db workspace_id) 1))
      400
  go (record {
    db = record db {
      members = update_by_id member_id target.id (λ m. record m { role = new_role }) db.members;
    };
    status = 200;
  })

unfoldable pub update_member : Db → Option User → ℕ → ℕ → Option Role → Answer
unfolding respond update_member_step
update_member db session workspace_id target_user_id body =
    respond db (update_member_step db session workspace_id target_user_id body)

-- DELETE: remove a member
unfoldable pub remove_member_step : Db → Option User → ℕ → ℕ → Step Answer
unfolding require_auth require_workspace_membership get_workspace_membership delete_by_id
remove_member_step db session workspace_id target_user_id = do
  user ← require_admin db session workspace_id
  target ← or_stop (get_workspace_membership db target_user_id workspace_id) 404
  guard
      (not
        (user.id == target_user_id && is_admin target.role && leb (admin_count db workspace_id) 1))
      400
  go (record {
    db = record db { members = delete_by_id member_id target.id db.members };
    status = 200;
  })

unfoldable pub remove_member : Db → Option User → ℕ → ℕ → Answer
unfolding respond remove_member_step
remove_member db session workspace_id target_user_id =
    respond db (remove_member_step db session workspace_id target_user_id)

-- the body of POST
pub record NewMember : Type 0 where
  pub user_id : ℕ
  pub role : Role

-- POST: add a user to the workspace
unfoldable pub add_member_step : ℕ → Db → Option User → ℕ → Option NewMember → Step Answer
unfolding require_auth require_workspace_membership get_workspace_membership
add_member_step new_id db session workspace_id body = do
  user ← require_admin db session workspace_id
  wanted ← or_stop body 400
  guard (any (λ (u : User). u.id == wanted.user_id) db.users) 404
  guard (is_none (get_workspace_membership db wanted.user_id workspace_id)) 409
  go (record {
    db = record db {
      members =
          record {
            id = new_id;
            workspace_id = workspace_id;
            user_id = wanted.user_id;
            role = wanted.role;
          }
          ∷ db.members;
    };
    status = 201;
  })

unfoldable pub add_member : ℕ → Db → Option User → ℕ → Option NewMember → Answer
unfolding respond add_member_step
add_member new_id db session workspace_id body =
    respond db (add_member_step new_id db session workspace_id body)
