-- ===== src/Access.antt =====
-- Roles, members and invites of workspaces: frontend/packages/core/src/types/index.ts (`hasMinRole`)
-- and frontend/ui/src/lib/auth-helpers.ts, over the tables that the handlers read and write.
-- Ids are numbers, which the program only compares. An e-mail address is its list of code points; it
-- has passed zod's `.email()`, so lower case is ASCII. A reply is its HTTP status.
use traceroot.Billing.Plans.{PlanType}
pub mod Members
pub mod Invites
pub mod Guards
pub mod Joins
pub mod Authority
pub mod Unique
pub mod LastAdmin
pub mod Seats
pub mod Requests
pub mod Races
pub mod Tests
use traceroot.Prelude.{
  true, map, count_if, [], Bool, none, some, find, if◌then◌else◌, ◌==◌, ◌∷◌, ◌+◌, Option, ◌&&◌,
  List, false, leb, ℕ,
}

pub data Role : Type 0 where
  viewer member admin : Role

-- the index in ROLE_ORDER
unfoldable pub role_index : Role → ℕ
role_index viewer = 0
role_index member = 1
role_index admin = 2

unfoldable pub has_min_role : Role → Role → Bool
unfolding role_index
has_min_role user_role min_role = leb (role_index min_role) (role_index user_role)

abbrev pub is_admin : Role → Bool
is_admin admin = true
is_admin _ = false

pub record Member : Type 0 where
  pub id : ℕ
  pub workspace_id : ℕ
  pub user_id : ℕ
  pub role : Role

abbrev pub EmailAddress : Type 0
EmailAddress = List ℕ

pub record Invite : Type 0 where
  pub id : ℕ
  pub email : EmailAddress
  pub workspace_id : ℕ
  pub role : Role
  pub invited_by_user_id : ℕ

pub record User : Type 0 where
  pub id : ℕ
  pub email : Option EmailAddress

pub record WorkspaceRow : Type 0 where
  pub id : ℕ
  pub billing_plan : PlanType

pub record Db : Type 0 where
  pub members : List Member
  pub invites : List Invite
  pub users : List User
  pub workspaces : List WorkspaceRow

-- `toLowerCase` on ASCII
abbrev pub lower_code : ℕ → ℕ
lower_code c = if leb 65 c && leb c 90 then c + 32 else c

abbrev pub to_lower_case : EmailAddress → EmailAddress
to_lower_case s = map lower_code s

abbrev pub same_text : List ℕ → List ℕ → Bool
same_text [] [] = true
same_text (a ∷ s) (b ∷ t) = a == b && same_text s t
same_text _ _ = false

-- A step of a handler: it goes on, or it replies with an error.
pub data Step {ℓ} (A : Type ℓ) : Type ℓ where
  go : A → Step A
  stop : ℕ → Step A

infixl 5 ◌>>=◌ ◌>>◌
abbrev pub ◌>>=◌ {ℓ κ} : {A : Type ℓ} {B : Type κ} → Step A → (A → Step B) → Step B
go a >>= f = f a
stop status >>= f = stop status

abbrev pub ◌>>◌ {ℓ} : {B : Type ℓ} → Step (Unit {0}) → Step B → Step B
m >> k = m >>= λ _. k

abbrev pub guard : Bool → ℕ → Step (Unit {0})
guard true status = go tt
guard false status = stop status

abbrev pub or_stop {ℓ} : {A : Type ℓ} → Option A → ℕ → Step A
or_stop none status = stop status
or_stop (some a) status = go a

-- `requireAuth`: the session's user, or 401
unfoldable pub require_auth : Option User → Step User
require_auth session = or_stop session 401

abbrev pub is_member_of : ℕ → ℕ → Member → Bool
is_member_of workspace_id user_id m = m.workspace_id == workspace_id && m.user_id == user_id

-- `prisma.workspaceMember.findUnique` by its unique key
unfoldable pub get_workspace_membership : Db → ℕ → ℕ → Option Member
get_workspace_membership db user_id workspace_id =
    find (is_member_of workspace_id user_id) db.members

abbrev role_allows : Option Role → Member → Bool
role_allows none m = true
role_allows (some min_role) m = has_min_role m.role min_role

-- `requireWorkspaceMembership`: 403 without a membership, or below the role asked for
unfoldable pub require_workspace_membership : Db → ℕ → ℕ → Option Role → Step Member
unfolding get_workspace_membership has_min_role
require_workspace_membership db user_id workspace_id min_role = do
  m ← or_stop (get_workspace_membership db user_id workspace_id) 403
  guard (role_allows min_role m) 403
  go m

-- the condition of `count({ where: { workspaceId, role: ADMIN } })`
abbrev pub is_admin_of : ℕ → Member → Bool
is_admin_of workspace_id m = m.workspace_id == workspace_id && is_admin m.role

abbrev pub admin_count : Db → ℕ → ℕ
admin_count db workspace_id = count_if (is_admin_of workspace_id) db.members

abbrev pub member_count : Db → ℕ → ℕ
member_count db workspace_id = count_if (λ (m : Member). m.workspace_id == workspace_id) db.members

abbrev pub invite_count : Db → ℕ → ℕ
invite_count db workspace_id = count_if (λ (i : Invite). i.workspace_id == workspace_id) db.invites

-- What a request leaves and answers; an error step leaves the tables as they were.
pub record Answer : Type 0 where
  pub db : Db
  pub status : ℕ

unfoldable pub respond : Db → Step Answer → Answer
respond db (go a) = a
respond db (stop status) = record { db = db; status = status }
