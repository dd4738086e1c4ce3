-- ===== src/Access/Authority.antt =====
-- Who may change members and invites: the guards in front of the handlers.
use traceroot.Access.Guards.{IsAdminCall, require_admin_status, require_admin_sound}
use traceroot.Access.Invites.{create_invite_step, cancel_invite_step, create_invite, cancel_invite}
use traceroot.Access.Members.{
  update_member, add_member, add_member_step, require_admin, update_member_step, remove_member,
  remove_member_step,
}
use traceroot.Access.{◌>>=◌, go, Db, Member, User, stop, respond, Step, Answer}
use traceroot.Access.Requests.{
  add_member_request, update_member_request, accept_invite_request, create_invite_request,
  cancel_invite_request, handle, remove_member_request, Request,
}
use traceroot.Prelude.{arith, subst, Option, some, none, ap, inr, ◌≡◌, Bool, inl, ◌⊎◌, refl, sym, ℕ}

-- the workspace whose admins a request is for; an invite is accepted by whom it is addressed to
abbrev pub admin_workspace : Request → Option ℕ
admin_workspace (update_member_request ws user body) = some ws
admin_workspace (remove_member_request ws user) = some ws
admin_workspace (add_member_request ws body) = some ws
admin_workspace (create_invite_request ws body) = some ws
admin_workspace (cancel_invite_request ws id) = some ws
admin_workspace (accept_invite_request id) = none

-- The request is refused, and the tables are as they were.
abbrev pub IsRefused : Db → Answer → Type 0
IsRefused db a = (a ≡ record { db = db; status = 401 }) ⊎ (a ≡ record { db = db; status = 403 })

Step-cases : {A : Type 0} (m : Step A) → ((status : ℕ) × (m ≡ stop status)) ⊎ ((a : A) × (m ≡ go a))
Step-cases (go a) = inr (a, refl)
Step-cases (stop status) = inl (status, refl)

nobody_of :
    (db : Db) (session : Option User) (v ws : ℕ)
    → some v ≡ some ws
    → ((user : User) (own : Member) → IsAdminCall db session ws user own → ⊥)
    → (user : User) (own : Member) → IsAdminCall db session v user own
    → ⊥
nobody_of db session v ws e nobody user own call =
    let same : v ≡ ws = cc in
    nobody user own (subst (λ u. IsAdminCall db session u user own) same call)

refuses :
    (db : Db) (session : Option User) (ws : ℕ) (k : User → Step Answer)
    → ((user : User) (own : Member) → IsAdminCall db session ws user own → ⊥)
    → IsRefused db (respond db (require_admin db session ws >>= k))
unfolding respond
refuses db session ws k nobody = elim (Step-cases (require_admin db session ws)) [
  | inl (status, e) ↦
      subst (λ m. IsRefused db (respond db (m >>= k))) (sym e)
        (elim (require_admin_status db session ws status e) [
          | inl is401 ↦ inl (ap (λ s. record { db = db; status = s }) is401)
          | inr is403 ↦ inr (ap (λ s. record { db = db; status = s }) is403)
        ])
  | inr (user, e) ↦
      let (own, call) = require_admin_sound db session ws user e in absurd (nobody user own call)
]

-- A request for the admins of a workspace, from anybody else, replies 401 or 403 and writes nothing.
pub only_admins :
    (billing : Bool) (new_id : ℕ) (db : Db) (session : Option User) (r : Request) (ws : ℕ)
    → admin_workspace r ≡ some ws
    → ((user : User) (own : Member) → IsAdminCall db session ws user own → ⊥)
    → IsRefused db (handle billing new_id db session r)
unfolding handle update_member update_member_step remove_member remove_member_step add_member
    add_member_step create_invite create_invite_step cancel_invite cancel_invite_step
only_admins billing new_id db session (update_member_request v user body) ws e nobody =
    refuses db session v _ (nobody_of db session v ws e nobody)
only_admins billing new_id db session (remove_member_request v user) ws e nobody =
    refuses db session v _ (nobody_of db session v ws e nobody)
only_admins billing new_id db session (add_member_request v body) ws e nobody =
    refuses db session v _ (nobody_of db session v ws e nobody)
only_admins billing new_id db session (create_invite_request v body) ws e nobody =
    refuses db session v _ (nobody_of db session v ws e nobody)
only_admins billing new_id db session (cancel_invite_request v id) ws e nobody =
    refuses db session v _ (nobody_of db session v ws e nobody)
only_admins billing new_id db session (accept_invite_request id) ws e nobody = ground (arith, e)
