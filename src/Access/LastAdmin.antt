-- ===== src/Access/LastAdmin.antt =====
-- No request leaves a workspace without an admin.
use traceroot.Access.Unique.{Reaches-IsWellFormed}
use traceroot.Access.Invites.{
  cancel_invite, create_invite_step, cancel_invite_step, accept_invite, accept_invite_step,
  create_invite,
}
use traceroot.Access.Requests.{
  handle, IsWellFormed, update_member_request, Reaches, add_member_request, start,
  cancel_invite_request, accept_invite_request, create_invite_request, remove_member_request, next,
  Request,
}
use traceroot.Access.Joins.{
  cancel_invite_step-IsCancellation, add_member_step-IsJoin, accept_invite_step-IsAcceptance,
  create_invite_step-IsInvitation,
}
use traceroot.Access.Members.{
  add_member, add_member_step, remove_member_step, update_member, update_member_step, remove_member,
  member_id,
}
use traceroot.Access.Guards.{
  respond_keeps, update_member_step-IsUpdate, remove_member_step-IsRemoval, IsRemoval, IsUpdate,
  IsAdminCall,
}
use traceroot.Access.{
  Role, member, is_admin, viewer, Db, admin, User, is_member_of, Answer, admin_count,
  get_workspace_membership, is_admin_of, Member,
}
use traceroot.Table.{count_if-update, count_if-delete, two_rows, UniqueIds, find_sound}
use traceroot.Prelude.{
  count_if, ◌∷◌, Bool, List, ap, leb, Bool-cases, sym, subst, true, ◌≡◌, refl, Option, ◌==◌, inr,
  some, false, inl, arith, ◌≤◌, ℕ,
}

abbrev pub HasAdmin : Db → ℕ → Type 0
HasAdmin db workspace_id = 1 ≤ admin_count db workspace_id

is_admin_eq : (r : Role) → is_admin r ≡ true → r ≡ admin
is_admin_eq viewer h = cc
is_admin_eq member h = cc
is_admin_eq admin h = refl

module _ (db : Db) (session : Option User) (ws target_user_id : ℕ)
    (unique : UniqueIds member_id db.members) where
  -- An admin that acts on another member is one of two rows.
  other_admin :
      (user : User) (own target : Member)
      → IsAdminCall db session ws user own
      → get_workspace_membership db target_user_id ws ≡ some target
      → (user.id == target_user_id) ≡ false
      → target.role ≡ admin
      → 2 ≤ admin_count db ws
  unfolding get_workspace_membership
  other_admin user own target call found differ role =
      let (own_in, own_key) = find_sound (is_member_of ws user.id) db.members own call.membership in
      let (target_in, target_key) =
        find_sound (is_member_of ws target_user_id) db.members target found in
      two_rows member_id (is_admin_of ws) own target db.members unique own_in target_in
        (λ e. ground (arith, ap (λ (m : Member). m.user_id) e, own_key, target_key, differ))
        (ground (arith, call.role)) (ground arith)

  -- The row that a request takes the admin role from is not the only admin of its workspace.
  not_only_admin :
      (user : User) (own target : Member) (w : ℕ)
      → IsAdminCall db session ws user own
      → get_workspace_membership db target_user_id ws ≡ some target
      → is_admin_of w target ≡ true
      → ((user.id == target_user_id) ≡ true
          → target.role ≡ admin
          → leb (admin_count db ws) 1 ≡ false)
      → 2 ≤ admin_count db w
  unfolding get_workspace_membership
  not_only_admin user own target w call found p last =
      let (target_in, target_key) =
        find_sound (is_member_of ws target_user_id) db.members target found in
      let role = is_admin_eq target.role (ground (arith, p)) in
      let same_ws : w ≡ ws = ground (arith, p, target_key) in
      subst (λ v. 2 ≤ admin_count db v) (sym same_ws)
        (elim (Bool-cases (user.id == target_user_id)) [
          | inl self ↦ ground (arith, last self role)
          | inr differ ↦ other_admin user own target call found differ role
        ])

  -- A role change or a removal keeps an admin: `left` is what the write leaves of the count.
  update_keeps :
      (body : Option Role) (w : ℕ) (a : Answer)
      → HasAdmin db w
      → IsUpdate db session ws target_user_id body a
      → HasAdmin a.db w
  unfolding get_workspace_membership
  update_keeps body w a has r =
      let (target_in, target_key) =
        find_sound (is_member_of ws target_user_id) db.members r.target r.found in
      let left =
        count_if-update member_id (is_admin_of w) (λ m. record m { role = r.new_role }) r.target
          db.members unique target_in in
      let only = not_only_admin r.user r.own r.target w r.asked r.found in
      subst (λ b. HasAdmin b.db w) (sym r.written)
        (elim (Bool-cases (is_admin r.new_role)) [
          | inl promoted ↦ ground (arith, left, promoted, has)
          | inr demoted ↦ elim (Bool-cases (is_admin_of w r.target)) [
            | inl was ↦ ground (
              arith,
              left,
              demoted,
              was,
              only was (λ self role. ground (arith, r.not_last, self, role, demoted)),
            )
            | inr other ↦ ground (arith, left, other, has)
          ]
        ])

  remove_keeps :
      (w : ℕ) (a : Answer)
      → HasAdmin db w
      → IsRemoval db session ws target_user_id a
      → HasAdmin a.db w
  unfolding get_workspace_membership
  remove_keeps w a has r =
      let (target_in, target_key) =
        find_sound (is_member_of ws target_user_id) db.members r.target r.found in
      let left = count_if-delete member_id (is_admin_of w) r.target db.members unique target_in in
      let only = not_only_admin r.user r.own r.target w r.asked r.found in
      subst (λ b. HasAdmin b.db w) (sym r.written)
        (elim (Bool-cases (is_admin_of w r.target)) [
          | inl was ↦
              ground
                (arith, left, was, only was (λ self role. ground (arith, r.not_last, self, role)))
          | inr other ↦ ground (arith, left, other, has)
        ])

  -- Changing a role leaves every workspace that has an admin with one.
  pub update_member-HasAdmin :
      (body : Option Role) (w : ℕ)
      → HasAdmin db w
      → HasAdmin (update_member db session ws target_user_id body).db w
  unfolding update_member
  update_member-HasAdmin body w has =
      respond_keeps (λ d. HasAdmin d w) db (update_member_step db session ws target_user_id body)
        has
        (λ a h.
          update_keeps body w a has
            (update_member_step-IsUpdate db session ws target_user_id body a h))

  -- Removing a member leaves every workspace that has an admin with one.
  pub remove_member-HasAdmin :
      (w : ℕ) → HasAdmin db w → HasAdmin (remove_member db session ws target_user_id).db w
  unfolding remove_member
  remove_member-HasAdmin w has =
      respond_keeps (λ d. HasAdmin d w) db (remove_member_step db session ws target_user_id) has
        (λ a h.
          remove_keeps w a has (remove_member_step-IsRemoval db session ws target_user_id a h))

grow_keeps :
    (w : ℕ) (before later : List Member) (joined : Member)
    → later ≡ joined ∷ before
    → 1 ≤ count_if (is_admin_of w) before
    → 1 ≤ count_if (is_admin_of w) later
grow_keeps w before later joined e has =
    subst (λ ms. 1 ≤ count_if (is_admin_of w) ms) (sym e) (ground (arith, has))

same_keeps :
    (w : ℕ) (before later : List Member)
    → later ≡ before
    → 1 ≤ count_if (is_admin_of w) before
    → 1 ≤ count_if (is_admin_of w) later
same_keeps w before later e has = subst (λ ms. 1 ≤ count_if (is_admin_of w) ms) (sym e) has

handle_keeps :
    (billing : Bool) (new_id : ℕ) (db : Db) (session : Option User) (r : Request) (w : ℕ)
    → UniqueIds member_id db.members
    → HasAdmin db w
    → HasAdmin (handle billing new_id db session r).db w
unfolding handle add_member create_invite cancel_invite accept_invite
handle_keeps billing new_id db session (update_member_request ws user body) w unique has =
    update_member-HasAdmin db session ws user unique body w has
handle_keeps billing new_id db session (remove_member_request ws user) w unique has =
    remove_member-HasAdmin db session ws user unique w has
handle_keeps billing new_id db session (add_member_request ws body) w unique has =
    respond_keeps (λ d. HasAdmin d w) db (add_member_step new_id db session ws body) has
      (λ a h.
        let r = add_member_step-IsJoin new_id db session ws body a h in
        grow_keeps w db.members a.db.members r.joined r.members has)
handle_keeps billing new_id db session (create_invite_request ws body) w unique has =
    respond_keeps (λ d. HasAdmin d w) db (create_invite_step billing new_id db session ws body) has
      (λ a h.
        same_keeps w db.members a.db.members
          (create_invite_step-IsInvitation billing new_id db session ws body a h).members has)
handle_keeps billing new_id db session (cancel_invite_request ws id) w unique has =
    respond_keeps (λ d. HasAdmin d w) db (cancel_invite_step db session ws id) has
      (λ a h.
        same_keeps w db.members a.db.members
          (cancel_invite_step-IsCancellation db session ws id a h).members has)
handle_keeps billing new_id db session (accept_invite_request id) w unique has =
    respond_keeps (λ d. HasAdmin d w) db (accept_invite_step billing new_id db session id) has
      (λ a h.
        let r = accept_invite_step-IsAcceptance billing new_id db session id a h in
        elim r.outcome.1 [
          | inl kept ↦ same_keeps w db.members a.db.members kept.1 has
          | inr new ↦
              let (served, seat, absent, members) = new in
              grow_keeps w db.members a.db.members _ members has
        ])

-- In every state that requests, served one after another, reach from a well-formed one, whoever
-- sends them, a workspace that had an admin has one.
pub Reaches-HasAdmin :
    (billing : Bool) (from to : Db) (w : ℕ)
    → Reaches billing from to
    → IsWellFormed from.members
    → HasAdmin from w
    → HasAdmin to w
Reaches-HasAdmin billing from to w start wf has = has
Reaches-HasAdmin billing from to w (next db new_id session r before fresh) wf has =
    handle_keeps billing new_id db session r w (Reaches-IsWellFormed billing from db before wf).keys
      (Reaches-HasAdmin billing from db w before wf has)
