-- ===== src/Store/Accounts.antt =====
-- internal/store/users.go and audit.go: the accounts of the dashboard and the log of what they did.
-- An id that the database makes up and its now() are arguments; time is in nanoseconds.
use motzworks.Prelude.{
  ℕ, suc, zero, Bool, List, [], ◌∷◌, ◌++◌, Option, none, some, reverse, find_first, length, ltb,
  if◌then◌else◌,
}
use motzworks.Prelude.Int.{ℤ, pos, negsuc}
use motzworks.Text.{Text, text_eq}

pub record User : Type 0 where
  pub id : Text
  pub username : Text
  pub password_hash : Text
  pub role : Text
  pub created_at : ℕ
  pub last_login_at : Option ℕ

abbrev pub named : Text → User → Bool
named username u = text_eq u.username username

-- ON CONFLICT (username) DO UPDATE SET password_hash = …, role = …
unfoldable pub update_user : Text → Text → Text → List User → List User
update_user username hash role [] = []
update_user username hash role (u ∷ us) =
    (if named username u then record u { password_hash = hash; role = role } else u)
    ∷ update_user username hash role us

abbrev pub upserted : Text → ℕ → Text → Text → Text → List User → Option User → Text × List User
upserted new_id now username hash role us none = (
  new_id,
  us
      ++ record {
        id = new_id;
        username = username;
        password_hash = hash;
        role = role;
        created_at = now;
        last_login_at = none;
      }
        ∷ [],
)
upserted new_id now username hash role us (some u) = (u.id, update_user username hash role us)

-- CreateUser
unfoldable pub create_user : Text → ℕ → Text → Text → Text → List User → Text × List User
create_user new_id now username hash role us =
    upserted new_id now username hash role us (find_first (named username) us)

-- GetUserByUsername; `none` is ErrUserNotFound.
unfoldable pub get_user_by_username : Text → List User → Option User
get_user_by_username username us = find_first (named username) us

-- TouchLogin
unfoldable pub touch_login : ℕ → Text → List User → List User
touch_login now id [] = []
touch_login now id (u ∷ us) =
    (if text_eq u.id id then record u { last_login_at = some now } else u) ∷ touch_login now id us

-- CountUsers
unfoldable pub count_users : List User → ℕ
count_users us = length us

-- A value of an audit entry's detail.
pub data Value : Type 0 where
  word : Text → Value
  words : List Text → Value
  number : ℤ → Value

pub record AuditEntry : Type 0 where
  pub ts : ℕ
  pub actor : Text
  pub action : Text
  pub target : Text
  pub ip : Text
  pub detail : List (Text × Value)

-- InsertAudit
unfoldable pub insert_audit : AuditEntry → List AuditEntry → List AuditEntry
insert_audit e log = log ++ e ∷ []

-- `if limit <= 0 || limit > most { limit = usual }`
unfoldable pub page_limit : ℕ → ℕ → ℤ → ℕ
page_limit usual most (pos zero) = usual
page_limit usual most (pos (suc n)) = if ltb most (suc n) then usual else suc n
page_limit usual most (negsuc n) = usual

abbrev pub first {ℓ} : {A : Type ℓ} → ℕ → List A → List A
first zero xs = []
first (suc n) [] = []
first (suc n) (x ∷ xs) = x ∷ first n xs

-- ListAudit: newest first. The log is in the order of the insertions.
unfoldable pub list_audit : ℤ → List AuditEntry → List AuditEntry
unfolding page_limit
list_audit limit log = first (page_limit 100 500 limit) (reverse log)
