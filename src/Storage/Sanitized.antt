-- ===== src/Storage/Sanitized.antt =====
-- What a sanitized name is like, and which names are kept: backend/src/utils/pathUtils.js.
use ai_worker_platform.Common.{
  Bool, true, false, not, some, [], ◌∷◌, ◌==◌, ◌≡◌, refl, any, all, length, arith,
}
use ai_worker_platform.Control.Text.{Text, trim}
use ai_worker_platform.Storage.Segments.{
  is_unsafe, is_special, split_separators, has_path_traversal, replace_unsafe, sanitize_segment,
}

replaced :
    (name : Text)
    → (all (λ c. not (is_unsafe c)) (replace_unsafe name) ≡ true)
      × (length (replace_unsafe name) ≡ length name)
unfolding replace_unsafe
replaced [] = (refl, refl)
replaced (c ∷ s) = ground (arith, replaced s)

replace_safe : (s : Text) → all (λ c. not (is_unsafe c)) s ≡ true → replace_unsafe s ≡ s
unfolding replace_unsafe
replace_safe [] h = refl
replace_safe (c ∷ s) h = ground (arith, replace_safe s)

no_separator :
    (s : Text)
    → all (λ c. not (is_unsafe c)) s ≡ true
    → (any (λ c. c == b'/') s ≡ false)
      × (any (λ c. c == b'\\') s ≡ false)
      × (split_separators s ≡ s ∷ [])
unfolding is_unsafe split_separators
no_separator [] h = (refl, refl, refl)
no_separator (c ∷ s) h = ground (arith, no_separator s)

module _ (is_absolute : Text → Bool) where
  -- A sanitized name holds none of the characters that file systems give a meaning, is no name of
  -- a folder itself, and is as long as the name without its surrounding spaces.
  pub sanitize_segment_safe :
      (value s : Text)
      → sanitize_segment is_absolute value ≡ some s
      → (all (λ c. not (is_unsafe c)) s ≡ true)
        × (is_special s ≡ false)
        × (length s ≡ length (trim value))
  unfolding sanitize_segment
  sanitize_segment_safe value s h = ground (arith, replaced (trim value))

  no_traversal :
      (s : Text)
      → trim s ≡ s
      → all (λ c. not (is_unsafe c)) s ≡ true
      → is_special s ≡ false
      → is_absolute s ≡ false
      → has_path_traversal is_absolute s ≡ false
  unfolding has_path_traversal is_special
  no_traversal s t h p a = rw t (ground (arith, no_separator s))

  -- A name without such characters and surrounding spaces that is no absolute path and no name of
  -- a folder itself is kept as it is; so a name is sanitized once.
  pub sanitize_segment_keeps :
      (s : Text)
      → trim s ≡ s
      → all (λ c. not (is_unsafe c)) s ≡ true
      → is_special s ≡ false
      → is_absolute s ≡ false
      → sanitize_segment is_absolute s ≡ some s
  unfolding sanitize_segment
  sanitize_segment_keeps s t h p a =
      rw t (rw (no_traversal s t h p a) (rw (replace_safe s h) (rw p refl)))
