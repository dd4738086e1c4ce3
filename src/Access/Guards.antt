-- ===== src/Access/Guards.antt =====
-- What a handler's success shows: who asked, and which rows it touched.

use traceroot.Table.{delete_by_id, update_by_id}
use traceroot.Access.Members.{update_member_step, member_id, remove_member_step, require_admin}
use traceroot.Access.{
  respond, admin_count, is_admin, Answer, go, Db, ◌>>=◌, viewer, get_workspace_membership, Step,
  Member, User, require_workspace_membership, Role, guard, or_stop, require_auth, member, admin,
  has_min_role, stop,
}
use traceroot.Prelude.{
  sym, subst, ◌==◌, not, ◌&&◌, ◌⊎◌, leb, none, true, Option, arith, refl, ◌≡◌, some, false, Bool, ℕ,
}

pub go_injective {ℓ} : {A : Type ℓ} {a b : A} → go a ≡ go b → a ≡ b
go_injective h = cc

pub >>=-eq-go {ℓ κ} :
    {A : Type ℓ} {B : Type κ} (m : Step A) (f : A → Step B) {b : B}
    → (m >>= f) ≡ go b
    → (a : A) × (m ≡ go a) × (f a ≡ go b)
>>=-eq-go (go a) f h = (a, refl, h)
>>=-eq-go (stop status) f h = cc

-- What holds before, and of every answer a handler gives, holds after the handler.
pub respond_keeps :
    (P : Db → Type 0) (db : Db) (m : Step Answer)
    → P db
    → ((a : Answer) → m ≡ go a → P a.db)
    → P (respond db m).db
unfolding respond
respond_keeps P db (go a) before later = later a refl
respond_keeps P db (stop status) before later = before

pub guard-eq-go : (b : Bool) (status : ℕ) {u : Unit {0}} → guard b status ≡ go u → b ≡ true
guard-eq-go true status h = refl
guard-eq-go false status h = cc

pub or_stop-eq-go {ℓ} :
    {A : Type ℓ} (o : Option A) (status : ℕ) {a : A} → or_stop o status ≡ go a → o ≡ some a
or_stop-eq-go none status h = cc
or_stop-eq-go (some b) status h = cc

pub not-eq-true : (b : Bool) → not b ≡ true → b ≡ false
not-eq-true true h = cc
not-eq-true false h = refl

-- The caller is signed in, and an admin of the workspace.
pub record IsAdminCall (db : Db) (session : Option User) (workspace_id : ℕ) (user : User)
    (own : Member) : Type 0 where
  pub signed_in : session ≡ some user
  pub membership : get_workspace_membership db user.id workspace_id ≡ some own
  pub role : own.role ≡ admin

admin_of_min : (r : Role) → has_min_role r admin ≡ true → r ≡ admin
unfolding has_min_role
admin_of_min viewer h = ground arith
admin_of_min member h = ground arith
admin_of_min admin h = refl

pub min_role_sound :
    (db : Db) (user_id workspace_id : ℕ) (own : Member)
    → require_workspace_membership db user_id workspace_id (some admin) ≡ go own
    → (get_workspace_membership db user_id workspace_id ≡ some own) × (own.role ≡ admin)
unfolding require_workspace_membership
min_role_sound db user_id workspace_id own h =
    let (m, found, rest) =
      >>=-eq-go (or_stop (get_workspace_membership db user_id workspace_id) 403) _ h in
    let (u, allowed, same) = >>=-eq-go (guard (has_min_role m.role admin) 403) _ rest in
    let e = go_injective same in
    subst (λ o. (get_workspace_membership db user_id workspace_id ≡ some o) × (o.role ≡ admin)) e
      (or_stop-eq-go _ 403 found, admin_of_min m.role (guard-eq-go _ 403 allowed))

pub require_admin_sound :
    (db : Db) (session : Option User) (workspace_id : ℕ) (user : User)
    → require_admin db session workspace_id ≡ go user
    → (own : Member) × IsAdminCall db session workspace_id user own
unfolding require_auth
require_admin_sound db session workspace_id user h =
    let (u, signed, rest) = >>=-eq-go (or_stop session 401) _ h in
    let (own, allowed, same) =
      >>=-eq-go (require_workspace_membership db u.id workspace_id (some admin)) _ rest in
    let e = go_injective same in
    let (found, role) = min_role_sound db u.id workspace_id own allowed in
    subst (λ v. (own : Member) × IsAdminCall db session workspace_id v own) e
      (
        own,
        record { signed_in = or_stop-eq-go session 401 signed; membership = found; role = role },
      )

-- A refused admin call replies 401 or 403.
pub require_admin_status :
    (db : Db) (session : Option User) (workspace_id status : ℕ)
    → require_admin db session workspace_id ≡ stop status
    → (status ≡ 401) ⊎ (status ≡ 403)
unfolding require_auth require_workspace_membership
require_admin_status db session workspace_id status h = ground arith

module _ (db : Db) (session : Option User) (workspace_id target_user_id : ℕ) where
  -- What a successful PUT has checked and written.
  pub record IsUpdate (body : Option Role) (a : Answer) : Type 0 where
    pub user : User
    pub own : Member
    pub target : Member
    pub new_role : Role
    pub asked : IsAdminCall db session workspace_id user own
    pub wanted : body ≡ some new_role
    pub found : get_workspace_membership db target_user_id workspace_id ≡ some target
    pub not_last :
        (user.id == target_user_id
          && is_admin target.role
          && not (is_admin new_role)
          && leb (admin_count db workspace_id) 1)
        ≡ false
    pub written : a ≡ record {
      db = record db {
        members = update_by_id member_id target.id (λ m. record m { role = new_role }) db.members;
      };
      status = 200;
    }

  pub update_member_step-IsUpdate :
      (body : Option Role) (a : Answer)
      → update_member_step db session workspace_id target_user_id body ≡ go a
      → IsUpdate body a
  unfolding update_member_step
  update_member_step-IsUpdate body a h =
      let (user, asked, h1) = >>=-eq-go (require_admin db session workspace_id) _ h in
      let (new_role, wanted, h2) = >>=-eq-go (or_stop body 400) _ h1 in
      let (target, found, h3) =
        >>=-eq-go (or_stop (get_workspace_membership db target_user_id workspace_id) 404) _ h2 in
      let (u, allowed, h4) = >>=-eq-go (guard _ 400) _ h3 in
      let (own, call) = require_admin_sound db session workspace_id user asked in
      record {
        user = user;
        own = own;
        target = target;
        new_role = new_role;
        asked = call;
        wanted = or_stop-eq-go body 400 wanted;
        found = or_stop-eq-go _ 404 found;
        not_last = not-eq-true _ (guard-eq-go _ 400 allowed);
        written = sym (go_injective h4);
      }

  pub record IsRemoval (a : Answer) : Type 0 where
    pub user : User
    pub own : Member
    pub target : Member
    pub asked : IsAdminCall db session workspace_id user own
    pub found : get_workspace_membership db target_user_id workspace_id ≡ some target
    pub not_last :
        (user.id == target_user_id && is_admin target.role && leb (admin_count db workspace_id) 1)
        ≡ false
    pub written : a ≡ record {
      db = record db { members = delete_by_id member_id target.id db.members };
      status = 200;
    }

  pub remove_member_step-IsRemoval :
      (a : Answer) → remove_member_step db session workspace_id target_user_id ≡ go a → IsRemoval a
  unfolding remove_member_step
  remove_member_step-IsRemoval a h =
      let (user, asked, h1) = >>=-eq-go (require_admin db session workspace_id) _ h in
      let (target, found, h3) =
        >>=-eq-go (or_stop (get_workspace_membership db target_user_id workspace_id) 404) _ h1 in
      let (u, allowed, h4) = >>=-eq-go (guard _ 400) _ h3 in
      let (own, call) = require_admin_sound db session workspace_id user asked in
      record {
        user = user;
        own = own;
        target = target;
        asked = call;
        found = or_stop-eq-go _ 404 found;
        not_last = not-eq-true _ (guard-eq-go _ 400 allowed);
        written = sym (go_injective h4);
      }
