-- ===== src/Access/Races.antt =====
-- PUT of a member's role in two steps, as two requests can interleave: the reads and the guard on the
-- tables that it sees, and the write on the tables that it then meets. The handler runs them without a
-- transaction.
use traceroot.Table.Updates.{IsIn-update}
use traceroot.Access.Guards.{IsAdminCall}
use traceroot.Access.Members.{member_id, require_admin, update_member_step}
use traceroot.Table.{
  count_if-update, UniqueIds-update, same_row, find_sound, UniqueIds, update_by_id,
}
use traceroot.Access.{
  stop, is_member_of, is_admin_of, guard, ◌>>◌, go, ◌>>=◌, Db, is_admin, member, Member, Step,
  admin_count, or_stop, role_index, get_workspace_membership, User, Role,
  require_workspace_membership, has_min_role, require_auth,
}
use traceroot.Prelude.{
  Bool-cases, refl, count_if, inl, true, List, ==_iff, IsIn, inr, suc, arith, ap, ◌&&◌, not, false,
  ◌==◌, ◌≡◌, leb, some, Option, ℕ,
}

-- the row that is written, and its role
pub record RoleWrite : Type 0 where
  pub id : ℕ
  pub role : Role

unfoldable pub update_member_checks : Db → Option User → ℕ → ℕ → Option Role → Step RoleWrite
unfolding require_auth require_workspace_membership get_workspace_membership
update_member_checks db session workspace_id target_user_id body = do
  user ← require_admin db session workspace_id
  new_role ← or_stop body 400
  target ← or_stop (get_workspace_membership db target_user_id workspace_id) 404
  guard
      (not (
        user.id == target_user_id
        && is_admin target.role
        && not (is_admin new_role)
        && leb (admin_count db workspace_id) 1))
      400
  go (record { id = target.id; role = new_role })

unfoldable pub update_member_write : RoleWrite → Db → Db
unfolding update_by_id
update_member_write w db = record db {
  members = update_by_id member_id w.id (λ m. record m { role = w.role }) db.members;
}

bind_step :
    {A B : Type 0} {C : Type 0} (m : Step A) (f : A → Step C) (k : A → Step B) (g : B → Step C)
    → ((x : A) → f x ≡ (k x >>= g))
    → (m >>= f) ≡ ((m >>= k) >>= g)
bind_step (go a) f k g h = h a
bind_step (stop status) f k g h = refl

-- Run one after the other on the same tables, the two steps are the handler of PUT.
pub steps_in_turn :
    (db : Db) (session : Option User) (ws target : ℕ) (body : Option Role)
    → update_member_step db session ws target body ≡ (
        update_member_checks db session ws target body >>= λ w.
        go (record { db = update_member_write w db; status = 200 }))
unfolding update_member_step update_member_checks update_member_write
steps_in_turn db session ws target body = bind_step (require_admin db session ws) _ _ _ (λ user.
    bind_step (or_stop body 400) _ _ _ (λ new_role.
      bind_step (or_stop (get_workspace_membership db target ws) 404) _ _ _ (λ row.
        bind_step
          (guard
            (not (
              user.id == target
              && is_admin row.role
              && not (is_admin new_role)
              && leb (admin_count db ws) 1))
            400)
          _ _ _ (λ u. refl))))

module _ (db : Db) (ws : ℕ) (a b : User) (row_a row_b : Member)
    (unique : UniqueIds member_id db.members) (found_a : IsAdminCall db (some a) ws a row_a)
    (found_b : IsAdminCall db (some b) ws b row_b) (differ : (a.id == b.id) ≡ false)
    (two : admin_count db ws ≡ 2) where
  abbrev pub demote : Member → RoleWrite
  demote row = record { id = row.id; role = member }

  left_of :
      (row : Member) (members : List Member) (k : ℕ)
      → UniqueIds member_id members
      → IsIn row members
      → is_admin_of ws row ≡ true
      → count_if (is_admin_of ws) members ≡ suc k
      → count_if
          (is_admin_of ws)
          (update_by_id member_id row.id (λ m. record m { role = member }) members)
        ≡ k
  left_of row members k u m p n = ground (
    arith,
    count_if-update member_id (is_admin_of ws) (λ m. record m { role = member }) row members u m,
    p,
    n,
  )

  other_row : (row_b.id == row_a.id) ≡ false
  unfolding get_workspace_membership
  other_row =
      let (in_a, key_a) = find_sound (is_member_of ws a.id) db.members row_a found_a.membership in
      let (in_b, key_b) = find_sound (is_member_of ws b.id) db.members row_b found_b.membership in
      elim (Bool-cases (row_b.id == row_a.id)) [
        | inr other ↦ other
        | inl same ↦
            let one =
              same_row member_id row_b row_a db.members unique in_b in_a
                ((==_iff row_b.id row_a.id).0 same) in
            ground (arith, ap (λ (m : Member). m.user_id) one, key_a, key_b, differ)
      ]

  none_left :
      admin_count (update_member_write (demote row_b) (update_member_write (demote row_a) db)) ws
      ≡ 0
  unfolding update_member_write get_workspace_membership
  none_left =
      let (in_a, key_a) = find_sound (is_member_of ws a.id) db.members row_a found_a.membership in
      let (in_b, key_b) = find_sound (is_member_of ws b.id) db.members row_b found_b.membership in
      let one_left =
        left_of row_a db.members 1 unique in_a (ground (arith, key_a, found_a.role)) two in
      left_of row_b
        (update_by_id member_id row_a.id (λ (m : Member). record m { role = member }) db.members) 0
        (UniqueIds-update member_id row_a.id (λ (m : Member). record m { role = member }) db.members
          (λ m. refl) unique)
        (IsIn-update member_id row_a.id (λ (m : Member). record m { role = member }) row_b
          db.members other_row in_b)
        (ground (arith, key_b, found_b.role)) one_left

  passes :
      (u : User) (row : Member)
      → IsAdminCall db (some u) ws u row
      → update_member_checks db (some u) ws u.id (some member) ≡ go (demote row)
  unfolding update_member_checks require_auth require_workspace_membership has_min_role role_index
  passes u row found = ground (arith, found.membership, found.role, two)

  -- In a workspace whose only admins are two users, both may be demoted by themselves: the guards of
  -- both requests pass on the same tables, and after both writes the workspace has no admin.
  pub two_demotions :
      (update_member_checks db (some a) ws a.id (some member) ≡ go (demote row_a))
      × (update_member_checks db (some b) ws b.id (some member) ≡ go (demote row_b))
      × (admin_count (update_member_write (demote row_b) (update_member_write (demote row_a) db)) ws
          ≡ 0)
  two_demotions = (passes a row_a found_a, passes b row_b found_b, none_left)
