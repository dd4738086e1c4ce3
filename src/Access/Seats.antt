-- ===== src/Access/Seats.antt =====
-- The seat limit of a plan, on the handlers that invite and add members.
use traceroot.Access.Members.{NewMember, add_member_step, add_member}
use traceroot.Access.{
  require_workspace_membership, Invite, role_index, require_auth, has_min_role,
  get_workspace_membership, Db, invite_count, User, WorkspaceRow, member_count, Member,
}
use traceroot.Access.Joins.{accept_invite_step-IsAcceptance, create_invite_step-IsInvitation}
use traceroot.Access.Guards.{IsAdminCall, respond_keeps}
use traceroot.Access.Invites.{
  create_invite_step, accept_invite_step, accept_invite, find_workspace, create_invite, NewInvite,
}
use traceroot.Billing.Plans.{PlanType, seat_limit, can_add_seat}
use traceroot.Prelude.{
  refl, any, ==_self, Bool-cases, none, sym, suc, ◌==◌, some, ◌≤◌, count_if, subst, inr, true,
  Option, ◌≡◌, arith, ◌+◌, inl, ℕ,
}

-- With billing on, the seats that a workspace may fill: `limit` members.
abbrev pub WithinSeats : Db → ℕ → ℕ → Type 0
WithinSeats db ws limit = member_count db ws ≤ limit

-- The workspace exists, and its plan has that limit.
abbrev pub IsLimited : Db → ℕ → ℕ → Type 0
IsLimited db ws limit =
    (row : WorkspaceRow) × (find_workspace db ws ≡ some row)
    × (seat_limit row.billing_plan ≡ some limit)

seat_free :
    (plan : PlanType) (count limit : ℕ)
    → seat_limit plan ≡ some limit
    → can_add_seat true plan count ≡ true
    → suc count ≤ limit
unfolding can_add_seat
seat_free plan count limit l h = ground arith

seat_free_of :
    (db : Db) (ws v limit count : ℕ) (row : WorkspaceRow)
    → IsLimited db ws limit
    → v ≡ ws
    → find_workspace db v ≡ some row
    → can_add_seat true row.billing_plan count ≡ true
    → suc count ≤ limit
seat_free_of db ws v limit count row (limited, housed, l) same found h =
    let again : find_workspace db ws ≡ some row =
      subst (λ u. find_workspace db u ≡ some row) same found in
    let one : limited ≡ row = cc in
    seat_free row.billing_plan count limit
      (subst (λ (w : WorkspaceRow). seat_limit w.billing_plan ≡ some limit) one l) h

-- POST accept fills no workspace with a limited plan beyond its limit, where billing is on.
pub accept_invite-WithinSeats :
    (new_id : ℕ) (db : Db) (session : Option User) (id ws limit : ℕ)
    → IsLimited db ws limit
    → WithinSeats db ws limit
    → WithinSeats (accept_invite true new_id db session id).db ws limit
unfolding accept_invite
accept_invite-WithinSeats new_id db session id ws limit (row, housed, l) has =
    respond_keeps (λ d. WithinSeats d ws limit) db (accept_invite_step true new_id db session id)
      has
      (λ a h.
        let r = accept_invite_step-IsAcceptance true new_id db session id a h in
        elim r.outcome.1 [
          | inl kept ↦
              subst (λ ms. count_if (λ (m : Member). m.workspace_id == ws) ms ≤ limit) (sym kept.1)
                has
          | inr new ↦
              let (served, seat, absent, members) = new in
              subst (λ ms. count_if (λ (m : Member). m.workspace_id == ws) ms ≤ limit) (sym members)
                (elim (Bool-cases (r.invite.workspace_id == ws)) [
                  | inl here ↦
                      let same : r.invite.workspace_id ≡ ws = ground (arith, here) in
                      let room =
                        seat_free_of db ws r.invite.workspace_id limit _ r.workspace
                          (row, housed, l) same r.housed seat in
                      ground (arith, here, subst (λ v. suc (member_count db v) ≤ limit) same room)
                  | inr elsewhere ↦ ground (arith, elsewhere, has)
                ])
        ])

-- POST invites counts members and pending invites against the limit, where billing is on.
pub create_invite-seats :
    (new_id : ℕ) (db : Db) (session : Option User) (ws : ℕ) (body : Option NewInvite) (limit : ℕ)
    → IsLimited db ws limit
    → member_count db ws + invite_count db ws ≤ limit
    → member_count (create_invite true new_id db session ws body).db ws
        + invite_count (create_invite true new_id db session ws body).db ws
      ≤ limit
unfolding create_invite
create_invite-seats new_id db session ws body limit (row, housed, l) has =
    respond_keeps (λ d. member_count d ws + invite_count d ws ≤ limit) db
      (create_invite_step true new_id db session ws body) has
      (λ a h.
        let r = create_invite_step-IsInvitation true new_id db session ws body a h in
        let room =
          seat_free_of db ws ws limit _ r.workspace (row, housed, l) refl r.housed r.seat in
        subst
          (λ ms. count_if (λ (m : Member). m.workspace_id == ws) ms + invite_count a.db ws ≤ limit)
          (sym r.members)
          (subst
            (λ is. member_count db ws + count_if (λ (i : Invite). i.workspace_id == ws) is ≤ limit)
            (sym r.invites) (ground (arith, room, r.of_workspace))))

-- POST members asks for no seat: with any plan and any number of members, an admin's request for a
-- user who is no member adds one.
pub add_member_ignores_seats :
    (new_id : ℕ) (db : Db) (user : User) (own : Member) (ws : ℕ) (wanted : NewMember)
    → IsAdminCall db (some user) ws user own
    → any (λ (u : User). u.id == wanted.user_id) db.users ≡ true
    → get_workspace_membership db wanted.user_id ws ≡ none
    → ((add_member new_id db (some user) ws (some wanted)).status ≡ 201)
      × (member_count (add_member new_id db (some user) ws (some wanted)).db ws
          ≡ suc (member_count db ws))
unfolding add_member add_member_step require_auth require_workspace_membership has_min_role
    role_index
add_member_ignores_seats new_id db user own ws wanted call exists absent =
    ground (arith, call.membership, call.role, exists, absent, ==_self ws)
