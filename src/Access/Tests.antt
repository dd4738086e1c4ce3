-- ===== src/Access/Tests.antt =====
-- A workspace with two admins and a viewer, and what requests do to it.
use traceroot.Access.Races.{update_member_write, update_member_checks, two_demotions}
use traceroot.Access.Unique.{Reaches-IsWellFormed}
use traceroot.Access.Seats.{add_member_ignores_seats, accept_invite-WithinSeats, WithinSeats}
use traceroot.Access.Guards.{IsAdminCall}
use traceroot.Access.Authority.{IsRefused, only_admins}
use traceroot.Access.Requests.{
  IsWellFormed, Reaches, accept_invite_request, handle, update_member_request, start, next,
  remove_member_request,
}
use traceroot.Access.Invites.{join_workspace, accept_invite_step, accept_invite}
use traceroot.Access.LastAdmin.{HasAdmin, Reaches-HasAdmin}
use traceroot.Table.{delete_by_id, UniqueIds}
use traceroot.Access.Members.{
  remove_member, update_member_step, update_member, add_member, remove_member_step, member_id,
}
use traceroot.Access.{
  go, admin_count, require_workspace_membership, has_min_role, get_workspace_membership,
  require_auth, member_count, viewer, Db, member, Member, User, Role, admin,
}
use traceroot.Billing.Plans.{seat_limit, PlanType}
use traceroot.Prelude.{none, true, ◌≡◌, length, arith, some, ◌∷◌, refl, [], ℕ}

abbrev alice : User
alice = record { id = 1; email = some (97 ∷ []) }

abbrev carol : User
carol = record { id = 3; email = some (99 ∷ []) }

abbrev row : ℕ → ℕ → Role → Member
row id user_id role = record { id = id; workspace_id = 1; user_id = user_id; role = role }

abbrev team : Db
team = record {
  members = row 11 1 admin ∷ row 12 2 admin ∷ row 13 3 viewer ∷ [];
  invites =
      record { id = 21; email = 100 ∷ []; workspace_id = 2; role = member; invited_by_user_id = 1 }
      ∷ [];
  users = alice ∷ carol ∷ record { id = 4; email = some (68 ∷ []) } ∷ [];
  workspaces =
      record { id = 1; billing_plan = PlanType.pro }
      ∷ record { id = 2; billing_plan = PlanType.free }
      ∷ [];
}

abbrev dave : User
dave = record { id = 4; email = some (68 ∷ []) }

team-keys : UniqueIds member_id team.members
team-keys = (refl, (refl, (refl, tt)))

team-IsWellFormed : IsWellFormed team.members
team-IsWellFormed = record { keys = team-keys; one = λ ws user_id. ground arith }

abbrev bob_leaves : Db
bob_leaves = (handle true 31 team (some alice) (remove_member_request 1 2)).db

abbrev dave_joins : Db
dave_joins = (handle true 32 bob_leaves (some dave) (accept_invite_request 21)).db

abbrev alice_steps_down : Db
alice_steps_down =
    (handle true 33 dave_joins (some alice) (update_member_request 1 1 (some member))).db

-- Bob is removed, Dave joins another workspace, and Alice, now the only admin, may not step down.
three_requests : Reaches true team alice_steps_down
unfolding handle remove_member remove_member_step accept_invite accept_invite_step join_workspace
    require_auth require_workspace_membership get_workspace_membership has_min_role delete_by_id
three_requests =
    next dave_joins 33 (some alice) (update_member_request 1 1 (some member))
      (next bob_leaves 32 (some dave) (accept_invite_request 21)
        (next team 31 (some alice) (remove_member_request 1 2) start refl) refl)
      refl

three_requests_result :
    ((handle true 33 dave_joins (some alice) (update_member_request 1 1 (some member))).status
      ≡ 400)
    × (length alice_steps_down.members ≡ 3)
unfolding handle remove_member remove_member_step accept_invite accept_invite_step join_workspace
    require_auth require_workspace_membership get_workspace_membership has_min_role delete_by_id
    update_member update_member_step
three_requests_result = (refl, refl)

Reaches-HasAdmin_example : HasAdmin alice_steps_down 1
Reaches-HasAdmin_example =
    Reaches-HasAdmin true team alice_steps_down 1 three_requests team-IsWellFormed (omega arith)

Reaches-IsWellFormed_example : IsWellFormed alice_steps_down.members
Reaches-IsWellFormed_example =
    Reaches-IsWellFormed true team alice_steps_down three_requests team-IsWellFormed

-- Carol is a viewer.
no_admin_call : (user : User) (own : Member) → IsAdminCall team (some carol) 1 user own → ⊥
unfolding get_workspace_membership
no_admin_call user own call = ground (arith, call.signed_in, call.membership, call.role)

only_admins_example : IsRefused team (handle true 31 team (some carol) (remove_member_request 1 1))
only_admins_example =
    only_admins true 31 team (some carol) (remove_member_request 1 1) 1 refl no_admin_call

accept_invite-WithinSeats_example : WithinSeats (accept_invite true 31 team (some dave) 21).db 2 2
unfolding seat_limit
accept_invite-WithinSeats_example =
    accept_invite-WithinSeats 31 team (some dave) 21 2 2
      (record { id = 2; billing_plan = PlanType.free }, refl, refl) (omega arith)

-- Alice is the only member of a free workspace.
abbrev pair : Db
pair = record team {
  members = record { id = 11; workspace_id = 2; user_id = 1; role = admin } ∷ [];
  invites = [];
}

-- The free workspace is full.
abbrev full : Db
full = record pair {
  members =
      record { id = 11; workspace_id = 2; user_id = 1; role = admin }
      ∷ record { id = 12; workspace_id = 2; user_id = 3; role = member }
      ∷ [];
}

alice_is_admin :
    IsAdminCall full
      (some alice)
      2
      alice
      (record { id = 11; workspace_id = 2; user_id = 1; role = admin })
unfolding get_workspace_membership
alice_is_admin = record { signed_in = refl; membership = refl; role = refl }

add_member_ignores_seats_example :
    ((add_member 31 full (some alice) 2 (some (record { user_id = 4; role = viewer }))).status
      ≡ 201)
    × (member_count
          (add_member 31 full (some alice) 2 (some (record { user_id = 4; role = viewer }))).db
          2
        ≡ 3)
unfolding get_workspace_membership
add_member_ignores_seats_example =
    add_member_ignores_seats 31 full alice
      (record { id = 11; workspace_id = 2; user_id = 1; role = admin }) 2
      (record { user_id = 4; role = viewer }) alice_is_admin refl refl

abbrev bob : User
bob = record { id = 2; email = none }

alice_call : IsAdminCall team (some alice) 1 alice (row 11 1 admin)
unfolding get_workspace_membership
alice_call = record { signed_in = refl; membership = refl; role = refl }

bob_call : IsAdminCall team (some bob) 1 bob (row 12 2 admin)
unfolding get_workspace_membership
bob_call = record { signed_in = refl; membership = refl; role = refl }

two_demotions_example :
    (update_member_checks team (some alice) 1 1 (some member)
      ≡ go (record { id = 11; role = member }))
    × (update_member_checks team (some bob) 1 2 (some member)
        ≡ go (record { id = 12; role = member }))
    × (admin_count
          (update_member_write
            (record { id = 12; role = member })
            (update_member_write (record { id = 11; role = member }) team))
          1
        ≡ 0)
two_demotions_example =
    two_demotions team 1 alice bob (row 11 1 admin) (row 12 2 admin) team-keys alice_call bob_call
      refl refl
