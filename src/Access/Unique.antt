-- ===== src/Access/Unique.antt =====
-- Every request keeps the members well formed: unique ids, one row for a user and a workspace.

use traceroot.Access.{Db, is_member_of, get_workspace_membership, Member, Role, Answer, User}
use traceroot.Access.Members.{
  update_member_step, update_member, remove_member, remove_member_step, member_id, add_member_step,
  add_member,
}
use traceroot.Table.{
  find_sound, UniqueIds-update, count_if-delete, UniqueIds-delete, find-none, has_id, update_by_id,
  count_if-update, delete_by_id,
}
use traceroot.Access.Invites.{
  accept_invite_step, accept_invite, create_invite_step, create_invite, cancel_invite,
  cancel_invite_step,
}
use traceroot.Access.Requests.{
  Reaches, cancel_invite_request, create_invite_request, Request, accept_invite_request, handle,
  add_member_request, next, remove_member_request, update_member_request, IsWellFormed, start,
}
use traceroot.Access.Guards.{
  remove_member_step-IsRemoval, respond_keeps, update_member_step-IsUpdate,
}
use traceroot.Access.Joins.{
  cancel_invite_step-IsCancellation, accept_invite_step-IsAcceptance, add_member_step-IsJoin,
  create_invite_step-IsInvitation,
}
use traceroot.Prelude.{
  find, Bool-cases, refl, true, Bool, Option, inl, false, arith, List, IsIn, ◌≡◌, sym, subst, none,
  ◌∷◌, inr, ℕ,
}

update_wf :
    (members : List Member) (target : Member) (role : Role)
    → IsIn target members
    → IsWellFormed members
    → IsWellFormed
        (update_by_id member_id target.id (λ (m : Member). record m { role = role }) members)
update_wf members target role found w = record {
  keys =
      UniqueIds-update member_id target.id (λ (m : Member). record m { role = role }) members
        (λ m. refl) w.keys;
  one = λ ws user_id. ground (
    arith,
    w.one ws user_id,
    count_if-update member_id (is_member_of ws user_id) (λ (m : Member). record m { role = role })
        target members w.keys found,
  );
}

delete_wf :
    (members : List Member) (target : Member)
    → IsIn target members
    → IsWellFormed members
    → IsWellFormed (delete_by_id member_id target.id members)
delete_wf members target found w = record {
  keys = UniqueIds-delete member_id target.id members w.keys;
  one = λ ws user_id. ground (
    arith,
    w.one ws user_id,
    count_if-delete member_id (is_member_of ws user_id) target members w.keys found,
  );
}

same_key :
    (ws user_id : ℕ) (m : Member)
    → is_member_of ws user_id m ≡ true
    → (m.workspace_id ≡ ws) × (m.user_id ≡ user_id)
same_key ws user_id m h = ground (arith, h)

join_wf :
    (members : List Member) (joined : Member)
    → has_id member_id joined.id members ≡ false
    → find (is_member_of joined.workspace_id joined.user_id) members ≡ none
    → IsWellFormed members
    → IsWellFormed (joined ∷ members)
join_wf members joined fresh absent w = record {
  keys = (fresh, w.keys);
  one = λ ws user_id. elim (Bool-cases (is_member_of ws user_id joined)) [
    | inl own ↦
        let (same_ws, same_user) = same_key ws user_id joined own in
        let absent_here =
          subst (λ v. find (is_member_of v user_id) members ≡ none) same_ws
            (subst (λ u. find (is_member_of joined.workspace_id u) members ≡ none) same_user
              absent) in
        ground (arith, own, find-none (is_member_of ws user_id) members absent_here)
    | inr other ↦ ground (arith, other, w.one ws user_id)
  ];
}

-- What an admitted request leaves is well formed.
handle_wf :
    (billing : Bool) (new_id : ℕ) (db : Db) (session : Option User) (r : Request)
    → has_id member_id new_id db.members ≡ false
    → IsWellFormed db.members
    → IsWellFormed (handle billing new_id db session r).db.members
unfolding handle update_member remove_member add_member create_invite cancel_invite accept_invite
    get_workspace_membership
handle_wf billing new_id db session (update_member_request ws user body) fresh w =
    respond_keeps (λ d. IsWellFormed d.members) db (update_member_step db session ws user body) w
      (λ a h.
        let r = update_member_step-IsUpdate db session ws user body a h in
        subst (λ (b : Answer). IsWellFormed b.db.members) (sym r.written)
          (update_wf db.members r.target r.new_role
            (find_sound (is_member_of ws user) db.members r.target r.found).0 w))
handle_wf billing new_id db session (remove_member_request ws user) fresh w =
    respond_keeps (λ d. IsWellFormed d.members) db (remove_member_step db session ws user) w
      (λ a h.
        let r = remove_member_step-IsRemoval db session ws user a h in
        subst (λ (b : Answer). IsWellFormed b.db.members) (sym r.written)
          (delete_wf db.members r.target
            (find_sound (is_member_of ws user) db.members r.target r.found).0 w))
handle_wf billing new_id db session (add_member_request ws body) fresh w =
    respond_keeps (λ d. IsWellFormed d.members) db (add_member_step new_id db session ws body) w
      (λ a h.
        let r = add_member_step-IsJoin new_id db session ws body a h in
        subst IsWellFormed (sym r.members) (
          join_wf db.members r.joined
            (subst (λ i. has_id member_id i db.members ≡ false) (sym r.own_id) fresh) r.was_none w))
handle_wf billing new_id db session (create_invite_request ws body) fresh w =
    respond_keeps (λ d. IsWellFormed d.members) db
      (create_invite_step billing new_id db session ws body) w
      (λ a h.
        subst IsWellFormed
          (sym (create_invite_step-IsInvitation billing new_id db session ws body a h).members) w)
handle_wf billing new_id db session (cancel_invite_request ws id) fresh w =
    respond_keeps (λ d. IsWellFormed d.members) db (cancel_invite_step db session ws id) w
      (λ a h.
        subst IsWellFormed (sym (cancel_invite_step-IsCancellation db session ws id a h).members) w)
handle_wf billing new_id db session (accept_invite_request id) fresh w =
    respond_keeps (λ d. IsWellFormed d.members) db (accept_invite_step billing new_id db session id)
      w
      (λ a h.
        let r = accept_invite_step-IsAcceptance billing new_id db session id a h in
        elim r.outcome.1 [
          | inl kept ↦ subst IsWellFormed (sym kept.1) w
          | inr new ↦
              let (served, seat, absent, members) = new in
              subst IsWellFormed (sym members) (
                join_wf db.members
                  (record {
                    id = new_id;
                    workspace_id = r.invite.workspace_id;
                    user_id = r.user.id;
                    role = r.invite.role;
                  })
                  fresh absent w)
        ])

-- In every state that requests, served one after another, reach from a well-formed one, member ids
-- are unique and no user has two rows in a workspace.
pub Reaches-IsWellFormed :
    (billing : Bool) (from to : Db)
    → Reaches billing from to
    → IsWellFormed from.members
    → IsWellFormed to.members
Reaches-IsWellFormed billing from to start w = w
Reaches-IsWellFormed billing from to (next db new_id session r before fresh) w =
    handle_wf billing new_id db session r fresh (Reaches-IsWellFormed billing from db before w)
