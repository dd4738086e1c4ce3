-- ===== src/Access/Invites.antt =====
-- The handlers that write invites:
-- frontend/ui/src/app/api/workspaces/[workspaceId]/invites/route.ts (POST),
-- invites/[inviteId]/route.ts (DELETE) and frontend/ui/src/app/api/invites/[inviteId]/accept/route.ts.
-- The e-mail that follows an invite changes no table and cannot fail the request.
use traceroot.Billing.Plans.{can_add_seat}
use traceroot.Access.Members.{require_admin}
use traceroot.Access.{
  ◌>>=◌, ◌>>◌, go, Db, require_workspace_membership, get_workspace_membership, User, same_text,
  Role, invite_count, to_lower_case, Answer, member_count, Invite, require_auth, WorkspaceRow,
  respond, Step, or_stop, EmailAddress, guard,
}
use traceroot.Table.{delete_by_id}
use traceroot.Prelude.{
  none, not, is_some, false, any, Option, ◌&&◌, some, Bool, if◌then◌else◌, ◌∷◌, ◌+◌, ◌==◌, find, ℕ,
}

abbrev pub invite_id : Invite → ℕ
invite_id i = i.id

-- the body of POST
pub record NewInvite : Type 0 where
  pub email : EmailAddress
  pub role : Role

abbrev pub find_workspace : Db → ℕ → Option WorkspaceRow
find_workspace db workspace_id = find (λ (w : WorkspaceRow). w.id == workspace_id) db.workspaces

abbrev has_email : EmailAddress → User → Bool
has_email email u = elim u.email [ none ↦ false | some e ↦ same_text e email ]

-- whether the user with that address, if there is one, is a member
unfoldable pub is_member_email : Db → ℕ → EmailAddress → Bool
unfolding get_workspace_membership
is_member_email db workspace_id email = elim (find (has_email email) db.users) [
  | none ↦ false
  | some u ↦ is_some (get_workspace_membership db u.id workspace_id)
]

-- POST: invite an address
unfoldable pub create_invite_step : Bool → ℕ → Db → Option User → ℕ → Option NewInvite → Step Answer
unfolding require_auth require_workspace_membership is_member_email can_add_seat
create_invite_step billing new_id db session workspace_id body = do
  user ← require_admin db session workspace_id
  wanted ← or_stop body 400
  let email = to_lower_case wanted.email
  guard (not (is_member_email db workspace_id email)) 409
  guard
      (not (
        any (λ (i : Invite). same_text i.email email && i.workspace_id == workspace_id) db.invites))
      409
  workspace ← or_stop (find_workspace db workspace_id) 404
  guard
      (can_add_seat billing workspace.billing_plan
        (member_count db workspace_id + invite_count db workspace_id))
      403
  go (record {
    db = record db {
      invites =
          record {
            id = new_id;
            email = email;
            workspace_id = workspace_id;
            role = wanted.role;
            invited_by_user_id = user.id;
          }
          ∷ db.invites;
    };
    status = 201;
  })

unfoldable pub create_invite : Bool → ℕ → Db → Option User → ℕ → Option NewInvite → Answer
unfolding respond create_invite_step
create_invite billing new_id db session workspace_id body =
    respond db (create_invite_step billing new_id db session workspace_id body)

-- DELETE: cancel an invite
unfoldable pub cancel_invite_step : Db → Option User → ℕ → ℕ → Step Answer
unfolding require_auth require_workspace_membership delete_by_id
cancel_invite_step db session workspace_id id = do
  user ← require_admin db session workspace_id
  invite ←
      or_stop (find (λ (i : Invite). i.id == id && i.workspace_id == workspace_id) db.invites) 404
  go (record { db = record db { invites = delete_by_id invite_id id db.invites }; status = 200 })

unfoldable pub cancel_invite : Db → Option User → ℕ → ℕ → Answer
unfolding respond cancel_invite_step
cancel_invite db session workspace_id id =
    respond db (cancel_invite_step db session workspace_id id)

-- the case-insensitive comparison of the invite's address with the user's
abbrev pub is_for : Invite → User → Bool
is_for invite user = elim user.email [
  | none ↦ false
  | some e ↦ same_text (to_lower_case invite.email) (to_lower_case e)
]

-- POST accept for a user who is a member already: the invite is dropped.
abbrev pub drop_invite : Db → Invite → Answer
drop_invite db invite = record {
  db = record db { invites = delete_by_id invite_id invite.id db.invites };
  status = 409;
}

-- POST accept for a new member, in a free seat.
abbrev pub take_seat : Bool → ℕ → Db → User → Invite → WorkspaceRow → Step Answer
take_seat billing new_id db user invite workspace = do
  guard (can_add_seat billing workspace.billing_plan (member_count db invite.workspace_id)) 403
  go (record {
    db = record db {
      members =
          record {
            id = new_id;
            workspace_id = invite.workspace_id;
            user_id = user.id;
            role = invite.role;
          }
          ∷ db.members;
      invites = delete_by_id invite_id invite.id db.invites;
    };
    status = 200;
  })

-- The rest of POST accept, once the invite is known to be for the user.
unfoldable pub join_workspace : Bool → ℕ → Db → User → Invite → WorkspaceRow → Step Answer
unfolding get_workspace_membership can_add_seat delete_by_id
join_workspace billing new_id db user invite workspace =
    if is_some (get_workspace_membership db user.id invite.workspace_id)
    then go (drop_invite db invite)
    else take_seat billing new_id db user invite workspace

-- POST accept: join the workspace of an invite. The invite's workspace exists, by the foreign key.
unfoldable pub accept_invite_step : Bool → ℕ → Db → Option User → ℕ → Step Answer
unfolding require_auth join_workspace
accept_invite_step billing new_id db session id = do
  user ← require_auth session
  invite ← or_stop (find (λ (i : Invite). i.id == id) db.invites) 404
  workspace ← or_stop (find_workspace db invite.workspace_id) 404
  guard (is_for invite user) 403
  join_workspace billing new_id db user invite workspace

unfoldable pub accept_invite : Bool → ℕ → Db → Option User → ℕ → Answer
unfolding respond accept_invite_step
accept_invite billing new_id db session id =
    respond db (accept_invite_step billing new_id db session id)
