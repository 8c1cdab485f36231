-- ===== src/Examples/Accounts.antt =====
-- Logins.
use ai_worker_platform.Common.{[], ◌∷◌, none, some, false, true, ◌≡◌, ◌+◌, refl, ◌==◌}
use ai_worker_platform.Admin.Login.{
  Accounts, AdminUser, Settings, login_admin, verify_admin_token, find_by_username,
  ensure_default_admin, normalize_username, token,
}
use ai_worker_platform.Control.Text.{Text, trim, is_space, is_blank}
use ai_worker_platform.Admin.Access.{accounts_of, login_sound}

abbrev settings : Settings
settings = record {
  has_jwt_secret = true;
  default_admin = none;
  to_lower_case = λ s. s;
  hash = λ n. n + 1000;
  compare_password = λ n h. h == n + 1000;
  next_id = 1;
}

abbrev root : AdminUser
root = record {
  id = 4;
  username = b'r' ∷ b'o' ∷ [];
  password_hash = 1007;
  is_active = true;
  last_login_at = none;
}

abbrev accounts : Accounts
accounts = record { users = root ∷ []; log = [] }

-- " ro"
abbrev entered : Text
entered = b' ' ∷ b'r' ∷ b'o' ∷ []

logs_in : (login_admin settings 50 entered (some 7) accounts).1 ≡ token 4
unfolding login_admin trim is_space
logs_in = refl

login_sound_example :
    (user : AdminUser) × (find_by_username
        (normalize_username settings entered)
        (accounts_of settings accounts).users
      ≡ some user)
login_sound_example = let t = login_sound settings 50 entered 7 accounts 4 logs_in in (t.0, t.1)

verifies : verify_admin_token settings (some 4) accounts ≡ token 4
unfolding verify_admin_token
verifies = refl

abbrev unsigned : Settings
unsigned = record settings { has_jwt_secret = false }

enters_root :
    (is_blank (normalize_username unsigned entered) ≡ false)
    × (ensure_default_admin unsigned accounts ≡ some accounts)
    × (find_by_username (normalize_username unsigned entered) accounts.users ≡ some root)
unfolding trim is_space ensure_default_admin
enters_root = (refl, refl, refl)
