-- ===== src/Access/Requests.antt =====
-- The requests that write members and invites, as steps, and the states they reach.

use traceroot.Table.{has_id, UniqueIds}
use traceroot.Access.Invites.{create_invite, accept_invite, cancel_invite, NewInvite}
use traceroot.Access.Members.{add_member, member_id, update_member, remove_member, NewMember}
use traceroot.Access.{Db, Answer, Member, User, is_member_of, Role}
use traceroot.Prelude.{Bool, count_if, List, ◌≡◌, ◌≤◌, false, Option, ℕ}

-- One request with its body, where `none` is a body that does not parse.
pub data Request : Type 0 where
  update_member_request : ℕ → ℕ → Option Role → Request
  remove_member_request : ℕ → ℕ → Request
  add_member_request : ℕ → Option NewMember → Request
  create_invite_request : ℕ → Option NewInvite → Request
  cancel_invite_request : ℕ → ℕ → Request
  accept_invite_request : ℕ → Request

-- the route that serves a request; `new_id` is the id of the row it creates, if it creates one
unfoldable pub handle : Bool → ℕ → Db → Option User → Request → Answer
unfolding update_member remove_member add_member create_invite cancel_invite accept_invite
handle billing new_id db session (update_member_request ws user body) =
    update_member db session ws user body
handle billing new_id db session (remove_member_request ws user) = remove_member db session ws user
handle billing new_id db session (add_member_request ws body) = add_member new_id db session ws body
handle billing new_id db session (create_invite_request ws body) =
    create_invite billing new_id db session ws body
handle billing new_id db session (cancel_invite_request ws id) = cancel_invite db session ws id
handle billing new_id db session (accept_invite_request id) =
    accept_invite billing new_id db session id

-- Ids are unique, and so is the row of a user in a workspace (`@@unique([workspaceId, userId])`).
pub record IsWellFormed (members : List Member) : Type 0 where
  pub keys : UniqueIds member_id members
  pub one : (ws user_id : ℕ) → count_if (is_member_of ws user_id) members ≤ 1

-- What requests reach from a state, by whoever sends them. `crypto.randomUUID()` gives an id that
-- no member has.
pub data Reaches (billing : Bool) (from : Db) : Db → Type 0 where
  start : Reaches billing from from
  next :
      (db : Db) (new_id : ℕ) (session : Option User) (r : Request)
      → Reaches billing from db
      → has_id member_id new_id db.members ≡ false
      → Reaches billing from (handle billing new_id db session r).db
