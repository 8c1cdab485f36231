-- ===== src/Admin/Access.antt =====
-- Who is let in, and what the audit log says of it.
use ai_worker_platform.Common.{
  [], ◌∷◌, none, some, ℕ, or_else, ◌≡◌, true, ◌++◌, Option-cases, arith, false, inl, Bool-cases,
  inr, ◌∙◌, Option, ap, subst, refl,
}
use ai_worker_platform.Admin.Login.{
  Settings, login_admin, Accounts, ensure_default_admin, token, AdminUser, find_by_username,
  normalize_username, login_success, log_in_as, failed, verify_admin_token,
  jwt_secret_not_configured, find_by_id,
}
use ai_worker_platform.Control.Text.{Text, is_blank}

-- The accounts against which a login is decided: those there are, or else the default one.
abbrev pub accounts_of : Settings → Accounts → Accounts
accounts_of s a = or_else (ensure_default_admin s a) a

ensure_default_admin-log :
    (s : Settings) (a a' : Accounts) → ensure_default_admin s a ≡ some a' → a'.log ≡ a.log
unfolding ensure_default_admin
ensure_default_admin-log s a a' h = ground (arith, h)

log_in_as-token :
    (s : Settings) (now : ℕ) (name : Text) (password : ℕ) (user : AdminUser) (a : Accounts) (id : ℕ)
    → (log_in_as s now name password (some user) a).1 ≡ token id
    → (user.id ≡ id)
      × (user.is_active ≡ true)
      × (s.compare_password password user.password_hash ≡ true)
      × (s.has_jwt_secret ≡ true)
      × ((log_in_as s now name password (some user) a).0.log
          ≡ a.log ++ (record { admin = user.username; action = login_success; reason = none } ∷ []))
log_in_as-token s now name password user a id h =
    (ground (arith, h), ground (arith, h), ground (arith, h), ground (arith, h), ground (arith, h))

login_admin-named :
    (s : Settings) (now : ℕ) (username : Text) (password : ℕ) (a a' : Accounts)
    → is_blank (normalize_username s username) ≡ false
    → ensure_default_admin s a ≡ some a'
    → let name = normalize_username s username in
      login_admin s now username (some password) a
      ≡ log_in_as s now name password (find_by_username name a'.users) a'
unfolding login_admin
login_admin-named s now username password a a' b e = rw (b, login_admin) (rw (e, login_admin))

login_admin-token :
    (s : Settings) (now : ℕ) (username : Text) (password : ℕ) (a : Accounts) (id : ℕ)
    → (login_admin s now username (some password) a).1 ≡ token id
    → (a' : Accounts) × (is_blank (normalize_username s username) ≡ false)
      × (ensure_default_admin s a ≡ some a')
unfolding login_admin
login_admin-token s now username password a id h =
    elim (Bool-cases (is_blank (normalize_username s username))) [
      | inl b ↦ absurd (ground (arith, b, h))
      | inr b ↦ elim (Option-cases (ensure_default_admin s a)) [
        | inl e ↦ absurd (ground (arith, b, e, h))
        | inr (a', e) ↦ (a', b, e)
      ]
    ]

-- A login that returns a token was decided for the account of the normalized name, which is
-- active; its password was accepted, the secret is configured, and the log has one more entry,
-- which tells of the success.
pub login_sound :
    (s : Settings) (now : ℕ) (username : Text) (password : ℕ) (a : Accounts) (id : ℕ)
    → (login_admin s now username (some password) a).1 ≡ token id
    → (user : AdminUser) × (find_by_username (normalize_username s username) (accounts_of s a).users
        ≡ some user)
      × (user.id ≡ id)
      × (user.is_active ≡ true)
      × (s.compare_password password user.password_hash ≡ true)
      × (s.has_jwt_secret ≡ true)
      × ((login_admin s now username (some password) a).0.log
          ≡ a.log ++ (record { admin = user.username; action = login_success; reason = none } ∷ []))
login_sound s now username password a id h =
    let name = normalize_username s username in
    let (a', b, e) = login_admin-token s now username password a id h in
    let same = login_admin-named s now username password a a' b e in
    elim (Option-cases (find_by_username name a'.users)) [
      | inl f ↦
          (let r = same ∙ ap (λ u. log_in_as s now name password u a') f in
            absurd (ground (arith, subst (λ r. r.1 ≡ token id) r h)))
      | inr (user, f) ↦
          (let r = same ∙ ap (λ u. log_in_as s now name password u a') f in
            let (known, active, accepted, secret, logged) =
              log_in_as-token s now name password user a' id (subst (λ r. r.1 ≡ token id) r h) in
            (
              user,
              rw e f,
              known,
              active,
              accepted,
              secret,
              ap (λ r. r.0.log) r
                  ∙ logged
                  ∙ ap
                      (λ log.
                        log
                        ++ (record { admin = user.username; action = login_success; reason = none }
                            ∷ []))
                      (ensure_default_admin-log s a a' e),
            ))
    ]

-- A token is accepted only if the secret is configured, jsonwebtoken verifies it, and the account
-- that it names is there and active.
pub verify_admin_token_sound :
    (s : Settings) (verified : Option ℕ) (a : Accounts) (id : ℕ)
    → verify_admin_token s verified a ≡ token id
    → (user : AdminUser) × (named : ℕ) × (verified ≡ some named)
      × (find_by_id named a.users ≡ some user)
      × (user.is_active ≡ true)
      × (s.has_jwt_secret ≡ true)
      × (user.id ≡ id)
unfolding verify_admin_token
verify_admin_token_sound s none a id h = absurd (ground (arith, h))
verify_admin_token_sound s (some named) a id h = elim (Option-cases (find_by_id named a.users)) [
  | inl e ↦ absurd (ground (arith, e, h))
  | inr (user, e) ↦
      (user, named, refl, e, ground (arith, e, h), ground (arith, e, h), ground (arith, e, h))
]

-- Without a secret, a login whose password is accepted fails, and yet the log tells of a success:
-- the entry is written before the token is signed.
pub unsigned_login_logged :
    (s : Settings) (now : ℕ) (username : Text) (password : ℕ) (a : Accounts) (user : AdminUser)
    → let name = normalize_username s username in
      is_blank name ≡ false
      → ensure_default_admin s a ≡ some a
      → find_by_username name a.users ≡ some user
      → user.is_active ≡ true
      → s.compare_password password user.password_hash ≡ true
      → s.has_jwt_secret ≡ false
      → ((login_admin s now username (some password) a).1 ≡ failed jwt_secret_not_configured)
        × ((login_admin s now username (some password) a).0.log
            ≡ a.log
              ++ (record { admin = user.username; action = login_success; reason = none } ∷ []))
unsigned_login_logged s now username password a user b e f active accepted secret =
    let name = normalize_username s username in
    let r =
      login_admin-named s now username password a a b e
      ∙ ap (λ u. log_in_as s now name password u a) f in
    rw r (ground (arith, active, accepted, secret), ground (arith, active, accepted, secret))
