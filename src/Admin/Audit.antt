-- ===== src/Admin/Audit.antt =====
-- sanitizeMetadata and buildAuditFilter of backend/src/services/auditService.js. `to_lower_case` is
-- a parameter; metadata are their entries, in order.
use ai_worker_platform.Common.{
  [], ◌∷◌, none, some, List, Option, String, All, Bool, if◌then◌else◌, ℕ, ◌≡◌, any, false, refl,
  Bool-cases, inl, inr,
}
use text.Mathlib.Text.{◌==◌ as str_eq}
use ai_worker_platform.Query.Filter.{
  Filter, Value, date, end, field, operators, plain, no_operators,
}

-- sensitiveKeys
abbrev pub sensitive_keys : List String
sensitive_keys = "password" ∷ "passwordHash" ∷ "token" ∷ "authorization" ∷ "jwt" ∷ "secret" ∷ []

abbrev pub is_sensitive : String → Bool
is_sensitive key = any (λ k. str_eq k key) sensitive_keys

-- sanitizeMetadata
unfoldable pub sanitize_metadata :
    {V : Type 0} → (String → String) → List (String × V) → List (String × V)
sanitize_metadata to_lower_case [] = []
sanitize_metadata to_lower_case ((key, value) ∷ rest) =
    let others = sanitize_metadata to_lower_case rest in
    if is_sensitive (to_lower_case key) then others else (key, value) ∷ others

-- The hash of a password passes the sanitizer: its key is compared in lower case with a key that is
-- not in lower case.
pub sanitize_metadata-password_hash :
    {V : Type 0} (to_lower_case : String → String) (value : V) (rest : List (String × V))
    → to_lower_case "passwordHash" ≡ "passwordhash"
    → sanitize_metadata to_lower_case (("passwordHash", value) ∷ rest)
      ≡ ("passwordHash", value) ∷ sanitize_metadata to_lower_case rest
unfolding sanitize_metadata
sanitize_metadata-password_hash to_lower_case value rest h = rw h refl

-- No key is left whose lower case stands among the sensitive ones.
pub sanitize_metadata-All :
    {V : Type 0} (to_lower_case : String → String) (metadata : List (String × V))
    → All
        (λ entry. is_sensitive (to_lower_case (entry.0)) ≡ false)
        (sanitize_metadata to_lower_case metadata)
unfolding sanitize_metadata
sanitize_metadata-All to_lower_case [] = tt
sanitize_metadata-All to_lower_case ((key, value) ∷ rest) =
    let others = sanitize_metadata-All to_lower_case rest in
    elim (Bool-cases (is_sensitive (to_lower_case key))) [
      | inl s ↦ rw s others
      | inr s ↦ rw s (s, others)
    ]

-- The fields of an entry of the audit log that a query reads.
pub data AuditField : Type 0 where
  admin action asset_type status timestamp : AuditField

pub record AuditQuery : Type 0 where
  pub admin_is : Option Value
  pub action_is : Option Value
  pub asset_type_is : Option Value
  pub status_is : Option Value
  pub date_from : Option ℕ
  pub date_to : Option ℕ

-- `if (query.x) filter.x = query.x`
abbrev pub when_given : AuditField → Option Value → Filter AuditField → Filter AuditField
when_given key none rest = rest
when_given key (some value) rest = field key (plain value) rest

abbrev pub date_of : Option ℕ → Option Value
date_of none = none
date_of (some t) = some (date t)

-- `if (query.dateFrom || query.dateTo)`
abbrev pub in_period : Option ℕ → Option ℕ → Filter AuditField
in_period none none = end
in_period from to =
    field timestamp (operators (record no_operators { gte = date_of from; lte = date_of to })) end

-- buildAuditFilter
unfoldable pub build_audit_filter : AuditQuery → Filter AuditField
build_audit_filter q = when_given admin q.admin_is (
    when_given action q.action_is (
      when_given asset_type q.asset_type_is
        (when_given status q.status_is (in_period q.date_from q.date_to))))
