-- ===== src/Admin/Login.antt =====
-- The operations of backend/src/services/adminAuthService.js. Passwords and their hashes are
-- numbers; bcrypt and jsonwebtoken, `toLowerCase` and the configuration are parameters.
use ai_worker_platform.Common.{
  [], ◌∷◌, none, some, Bool, List, Option, if◌then◌else◌, ℕ, not, true, ◌++◌, ◌==◌,
}
use ai_worker_platform.Control.Text.{Text, is_blank, trim, same_text}

-- An account that is not logically deleted: the source's search for one by its name finds a deleted
-- account as well, which is left out.
pub record AdminUser : Type 0 where
  pub id : ℕ
  pub username : Text
  pub password_hash : ℕ
  pub is_active : Bool
  pub last_login_at : Option ℕ

-- action of an entry of the audit log
pub data Action : Type 0 where
  login_failed login_success logout : Action

-- metadata.reason
pub data Reason : Type 0 where
  missing_credentials unknown_username inactive_admin invalid_password : Reason

pub record AuditEntry : Type 0 where
  pub admin : Text
  pub action : Action
  pub reason : Option Reason

-- The accounts and the audit log.
pub record Accounts : Type 0 where
  pub users : List AdminUser
  pub log : List AuditEntry

-- config.admin, with the two libraries. `hash` salts with a number drawn by bcrypt.
pub record Settings : Type 0 where
  pub has_jwt_secret : Bool
  pub default_admin : Option (Text × ℕ)
  pub to_lower_case : Text → Text
  pub hash : ℕ → ℕ
  pub compare_password : ℕ → ℕ → Bool
  pub next_id : ℕ

pub data Error : Type 0 where
  validation_error jwt_secret_not_configured default_admin_not_configured : Error
  invalid_credentials admin_inactive invalid_token : Error

-- What a call returns or throws.
pub data Reply : Type 0 where
  failed : Error → Reply
  token : ℕ → Reply

abbrev pub unknown : Text
unknown = b'u' ∷ b'n' ∷ b'k' ∷ b'n' ∷ b'o' ∷ b'w' ∷ b'n' ∷ []

-- normalizeUsername
abbrev pub normalize_username : Settings → Text → Text
normalize_username s username = s.to_lower_case (trim username)

-- `AdminUser.findOne({ username })`
abbrev pub find_by_username : Text → List AdminUser → Option AdminUser
find_by_username username [] = none
find_by_username username (u ∷ rest) =
    let later = find_by_username username rest in
    if same_text u.username username then some u else later

-- `AdminUser.findById(id)`
abbrev pub find_by_id : ℕ → List AdminUser → Option AdminUser
find_by_id id [] = none
find_by_id id (u ∷ rest) = let later = find_by_id id rest in if u.id == id then some u else later

-- `adminUser.save()`
abbrev pub save_user : AdminUser → List AdminUser → List AdminUser
save_user user [] = user ∷ []
save_user user (u ∷ rest) =
    let later = save_user user rest in if u.id == user.id then user ∷ rest else u ∷ later

-- writeAuditLog
abbrev pub write_audit_log : Text → Action → Option Reason → Accounts → Accounts
write_audit_log admin action reason a = record a {
  log = a.log ++ (record { admin = admin; action = action; reason = reason } ∷ []);
}

-- ensureDefaultAdmin; `none` is its error
unfoldable pub ensure_default_admin : Settings → Accounts → Option Accounts
ensure_default_admin s a = elim a.users [
  | u ∷ rest ↦ some a
  | [] ↦ elim s.default_admin [
    | none ↦ none
    | some (username, password) ↦ some (record a {
      users =
          record {
            id = s.next_id;
            username = normalize_username s username;
            password_hash = s.hash password;
            is_active = true;
            last_login_at = none;
          }
          ∷ [];
    })
  ]
]

-- signToken: the token names the account
abbrev pub sign_token : Settings → AdminUser → Reply
sign_token s user = if s.has_jwt_secret then token user.id else failed jwt_secret_not_configured

-- loginAdmin from the account that was found on
abbrev pub log_in_as : Settings → ℕ → Text → ℕ → Option AdminUser → Accounts → Accounts × Reply
log_in_as s now username password none a =
    (write_audit_log username login_failed (some unknown_username) a, failed invalid_credentials)
log_in_as s now username password (some user) a =
    let opened = record a {
      users = save_user (record user { last_login_at = some now }) a.users;
    } in
    if not user.is_active
    then (write_audit_log username login_failed (some inactive_admin) a, failed admin_inactive)
    else if not (s.compare_password password user.password_hash)
    then (
      write_audit_log username login_failed (some invalid_password) a,
      failed invalid_credentials,
    )
    else (write_audit_log user.username login_success none opened, sign_token s user)

-- loginAdmin; a missing password is `none`
unfoldable pub login_admin : Settings → ℕ → Text → Option ℕ → Accounts → Accounts × Reply
unfolding ensure_default_admin
login_admin s now username none a =
    let name = normalize_username s username in
    (
      write_audit_log (if is_blank name then unknown else name) login_failed
          (some missing_credentials) a,
      failed validation_error,
    )
login_admin s now username (some password) a =
    let name = normalize_username s username in
    if is_blank name
    then (
      write_audit_log unknown login_failed (some missing_credentials) a,
      failed validation_error,
    )
    else elim (ensure_default_admin s a) [
      | none ↦ (a, failed default_admin_not_configured)
      | some a' ↦ log_in_as s now name password (find_by_username name a'.users) a'
    ]

-- verifyAdminToken. `verified` is the account that the token names, if jsonwebtoken accepts it.
unfoldable pub verify_admin_token : Settings → Option ℕ → Accounts → Reply
verify_admin_token s verified a =
    if not s.has_jwt_secret then failed jwt_secret_not_configured else elim verified [
      | none ↦ failed invalid_token
      | some id ↦ elim (find_by_id id a.users) [
        | none ↦ failed invalid_token
        | some user ↦ if user.is_active then token user.id else failed admin_inactive
      ]
    ]

-- logoutAdmin
unfoldable pub logout_admin : AdminUser → Accounts → Accounts
logout_admin user a = write_audit_log user.username logout none a
