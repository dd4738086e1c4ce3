-- ===== src/Access/Joins.antt =====
-- What a success of the handlers that add a member shows: POST members and POST accept.
use traceroot.Table.{delete_by_id}
use traceroot.Billing.Plans.{can_add_seat}
use traceroot.Access.Members.{add_member_step, NewMember, require_admin}
use traceroot.Access.Guards.{
  require_admin_sound, not-eq-true, or_stop-eq-go, IsAdminCall, >>=-eq-go, guard-eq-go,
  go_injective,
}
use traceroot.Access.{
  go, Db, same_text, to_lower_case, invite_count, require_auth, or_stop, member_count, WorkspaceRow,
  User, Answer, Member, get_workspace_membership, Invite, guard,
}
use traceroot.Access.Invites.{
  cancel_invite_step, take_seat, drop_invite, is_member_email, is_for, NewInvite,
  create_invite_step, find_workspace, accept_invite_step, join_workspace, invite_id,
}
use traceroot.Prelude.{
  not, none, any, subst, ◌+◌, inl, inr, ◌&&◌, if◌then◌else◌, is_none, sym, ◌⊎◌, ◌∷◌, find, ◌==◌,
  some, ap, false, refl, true, Bool, is_some, ◌≡◌, Option, ℕ,
}

-- One more member, that was none, under a new id.
pub record IsJoin (new_id : ℕ) (db : Db) (a : Answer) : Type 0 where
  pub joined : Member
  pub own_id : joined.id ≡ new_id
  pub was_none : get_workspace_membership db joined.user_id joined.workspace_id ≡ none
  pub members : a.db.members ≡ joined ∷ db.members

is_none_eq : {A : Type 0} (o : Option A) → is_none o ≡ true → o ≡ none
is_none_eq none h = refl
is_none_eq (some a) h = cc

is_some_eq : {A : Type 0} (o : Option A) → is_some o ≡ false → o ≡ none
is_some_eq none h = refl
is_some_eq (some a) h = cc

pub add_member_step-IsJoin :
    (new_id : ℕ) (db : Db) (session : Option User) (ws : ℕ) (body : Option NewMember) (a : Answer)
    → add_member_step new_id db session ws body ≡ go a
    → IsJoin new_id db a
unfolding add_member_step
add_member_step-IsJoin new_id db session ws body a h =
    let (user, asked, h1) = >>=-eq-go (require_admin db session ws) _ h in
    let (wanted, parsed, h2) = >>=-eq-go (or_stop body 400) _ h1 in
    let (u, exists, h3) =
      >>=-eq-go (guard (any (λ (u : User). u.id == wanted.user_id) db.users) 404) _ h2 in
    let (v, absent, h4) =
      >>=-eq-go (guard (is_none (get_workspace_membership db wanted.user_id ws)) 409) _ h3 in
    record {
      joined = record {
        id = new_id;
        workspace_id = ws;
        user_id = wanted.user_id;
        role = wanted.role;
      };
      own_id = refl;
      was_none = is_none_eq _ (guard-eq-go _ 409 absent);
      members = ap (λ (r : Answer). r.db.members) (sym (go_injective h4));
    }

if-eq :
    {A : Type 0} (b : Bool) (x y : A) {z : A}
    → (if b then x else y) ≡ z
    → ((b ≡ true) × (x ≡ z)) ⊎ ((b ≡ false) × (y ≡ z))
if-eq true x y h = inl (refl, h)
if-eq false x y h = inr (refl, h)

-- The invite is gone, and its user is a member: as before (409), or newly, in a free seat (200).
abbrev pub Joins : Bool → ℕ → Db → User → Invite → WorkspaceRow → Answer → Type 0
Joins billing new_id db user invite workspace a =
    (a.db.invites ≡ delete_by_id invite_id invite.id db.invites)
    × (((a.status ≡ 409) × (a.db.members ≡ db.members))
        ⊎ ((a.status ≡ 200)
            × (can_add_seat billing workspace.billing_plan (member_count db invite.workspace_id)
                ≡ true)
            × (get_workspace_membership db user.id invite.workspace_id ≡ none)
            × (a.db.members
                ≡ record {
                  id = new_id;
                  workspace_id = invite.workspace_id;
                  user_id = user.id;
                  role = invite.role;
                }
                  ∷ db.members)))

join_workspace-Joins :
    (billing : Bool) (new_id : ℕ) (db : Db) (user : User) (invite : Invite)
    (workspace : WorkspaceRow) (a : Answer)
    → join_workspace billing new_id db user invite workspace ≡ go a
    → Joins billing new_id db user invite workspace a
unfolding join_workspace
join_workspace-Joins billing new_id db user invite workspace a h =
    elim (if-eq (is_some (get_workspace_membership db user.id invite.workspace_id))
      (go (drop_invite db invite)) (take_seat billing new_id db user invite workspace) h) [
        | inl (was, e) ↦
            subst (Joins billing new_id db user invite workspace) (go_injective e)
              (refl, inl (refl, refl))
        | inr (absent, e) ↦
            let (u, seat, e1) =
              >>=-eq-go
                (guard
                  (can_add_seat billing workspace.billing_plan
                    (member_count db invite.workspace_id))
                  403)
                _ e in
            subst (Joins billing new_id db user invite workspace) (go_injective e1)
              (refl, inr (refl, guard-eq-go _ 403 seat, is_some_eq _ absent, refl))
      ]

-- What a success of POST accept has checked and written.
pub record IsAcceptance (billing : Bool) (new_id : ℕ) (db : Db) (session : Option User) (id : ℕ)
    (a : Answer) : Type 0 where
  pub user : User
  pub invite : Invite
  pub workspace : WorkspaceRow
  pub signed_in : session ≡ some user
  pub found : find (λ (i : Invite). i.id == id) db.invites ≡ some invite
  pub housed : find_workspace db invite.workspace_id ≡ some workspace
  pub addressed : is_for invite user ≡ true
  pub outcome : Joins billing new_id db user invite workspace a

pub accept_invite_step-IsAcceptance :
    (billing : Bool) (new_id : ℕ) (db : Db) (session : Option User) (id : ℕ) (a : Answer)
    → accept_invite_step billing new_id db session id ≡ go a
    → IsAcceptance billing new_id db session id a
unfolding accept_invite_step require_auth
accept_invite_step-IsAcceptance billing new_id db session id a h =
    let (user, signed, h1) = >>=-eq-go (or_stop session 401) _ h in
    let (invite, found, h2) =
      >>=-eq-go (or_stop (find (λ (i : Invite). i.id == id) db.invites) 404) _ h1 in
    let (workspace, housed, h3) =
      >>=-eq-go (or_stop (find_workspace db invite.workspace_id) 404) _ h2 in
    let (u, addressed, h4) = >>=-eq-go (guard (is_for invite user) 403) _ h3 in
    record {
      user = user;
      invite = invite;
      workspace = workspace;
      signed_in = or_stop-eq-go _ 401 signed;
      found = or_stop-eq-go _ 404 found;
      housed = or_stop-eq-go _ 404 housed;
      addressed = guard-eq-go _ 403 addressed;
      outcome = join_workspace-Joins billing new_id db user invite workspace a h4;
    }

-- What a success of POST invites has checked and written.
pub record IsInvitation (billing : Bool) (new_id : ℕ) (db : Db) (session : Option User) (ws : ℕ)
    (a : Answer) : Type 0 where
  pub user : User
  pub own : Member
  pub workspace : WorkspaceRow
  pub invite : Invite
  pub asked : IsAdminCall db session ws user own
  pub housed : find_workspace db ws ≡ some workspace
  pub seat :
      can_add_seat billing workspace.billing_plan (member_count db ws + invite_count db ws) ≡ true
  pub of_workspace : invite.workspace_id ≡ ws
  pub fresh :
      any (λ (i : Invite). same_text i.email invite.email && i.workspace_id == ws) db.invites
      ≡ false
  pub members : a.db.members ≡ db.members
  pub invites : a.db.invites ≡ invite ∷ db.invites

pub create_invite_step-IsInvitation :
    (billing : Bool) (new_id : ℕ) (db : Db) (session : Option User) (ws : ℕ)
    (body : Option NewInvite) (a : Answer)
    → create_invite_step billing new_id db session ws body ≡ go a
    → IsInvitation billing new_id db session ws a
unfolding create_invite_step
create_invite_step-IsInvitation billing new_id db session ws body a h =
    let (user, asked, h1) = >>=-eq-go (require_admin db session ws) _ h in
    let (wanted, parsed, h2) = >>=-eq-go (or_stop body 400) _ h1 in
    let email = to_lower_case wanted.email in
    let (u, absent, h3) = >>=-eq-go (guard (not (is_member_email db ws email)) 409) _ h2 in
    let (v, fresh, h4) =
      >>=-eq-go
        (guard
          (not (any (λ (i : Invite). same_text i.email email && i.workspace_id == ws) db.invites))
          409)
        _ h3 in
    let (workspace, housed, h5) = >>=-eq-go (or_stop (find_workspace db ws) 404) _ h4 in
    let (t, seat, h6) =
      >>=-eq-go
        (guard
          (can_add_seat billing workspace.billing_plan (member_count db ws + invite_count db ws))
          403)
        _ h5 in
    let (own, call) = require_admin_sound db session ws user asked in
    record {
      user = user;
      own = own;
      workspace = workspace;
      invite = record {
        id = new_id;
        email = email;
        workspace_id = ws;
        role = wanted.role;
        invited_by_user_id = user.id;
      };
      asked = call;
      housed = or_stop-eq-go _ 404 housed;
      seat = guard-eq-go _ 403 seat;
      of_workspace = refl;
      fresh = not-eq-true _ (guard-eq-go _ 409 fresh);
      members = ap (λ (r : Answer). r.db.members) (sym (go_injective h6));
      invites = ap (λ (r : Answer). r.db.invites) (sym (go_injective h6));
    }

-- What a success of DELETE invites has checked and written.
pub record IsCancellation (db : Db) (session : Option User) (ws id : ℕ) (a : Answer) : Type 0 where
  pub user : User
  pub own : Member
  pub invite : Invite
  pub asked : IsAdminCall db session ws user own
  pub found : find (λ (i : Invite). i.id == id && i.workspace_id == ws) db.invites ≡ some invite
  pub members : a.db.members ≡ db.members
  pub invites : a.db.invites ≡ delete_by_id invite_id id db.invites

pub cancel_invite_step-IsCancellation :
    (db : Db) (session : Option User) (ws id : ℕ) (a : Answer)
    → cancel_invite_step db session ws id ≡ go a
    → IsCancellation db session ws id a
unfolding cancel_invite_step
cancel_invite_step-IsCancellation db session ws id a h =
    let (user, asked, h1) = >>=-eq-go (require_admin db session ws) _ h in
    let (invite, found, h2) =
      >>=-eq-go (or_stop (find (λ (i : Invite). i.id == id && i.workspace_id == ws) db.invites) 404)
        _ h1 in
    let (own, call) = require_admin_sound db session ws user asked in
    record {
      user = user;
      own = own;
      invite = invite;
      asked = call;
      found = or_stop-eq-go _ 404 found;
      members = ap (λ (r : Answer). r.db.members) (sym (go_injective h2));
      invites = ap (λ (r : Answer). r.db.invites) (sym (go_injective h2));
    }
