-- ===== src/Storage/Segments.antt =====
-- `hasPathTraversal`, `sanitizeSegment` and `sanitizeFileName` of backend/src/utils/pathUtils.js.
-- `path.isAbsolute` of Node is a parameter. The two sanitizers differ only in the error's words.
use ai_worker_platform.Common.{
  ℕ, Bool, Option, none, some, List, [], ◌∷◌, ◌==◌, ◌||◌, if◌then◌else◌, any, map, ltb,
}
use ai_worker_platform.Control.Text.{Text, same_text, is_blank, trim}
use ai_worker_platform.Tree.Paths.{push_front}

-- /[<>:"/\\|?*\x00-\x1F]/
unfoldable pub is_unsafe : ℕ → Bool
is_unsafe c =
    c == b'<'
    || c == b'>'
    || c == b':'
    || c == 34
    || c == b'/'
    || c == b'\\'
    || c == b'|'
    || c == b'?'
    || c == b'*'
    || ltb c 32

abbrev pub one_dot : Text
one_dot = b'.' ∷ []

abbrev pub two_dots : Text
two_dots = b'.' ∷ b'.' ∷ []

-- The names of nothing, of the folder and of the folder above.
unfoldable pub is_special : Text → Bool
is_special name = is_blank name || same_text name one_dot || same_text name two_dots

abbrev pub is_separator : ℕ → Bool
is_separator c = c == b'/' || c == b'\\'

-- name.split(/[\\/]+/), with an empty part for each separator more
unfoldable pub split_separators : Text → List Text
split_separators [] = [] ∷ []
split_separators (c ∷ s) =
    let rest = split_separators s in if is_separator c then [] ∷ rest else push_front c rest

-- normalized.replace(unsafeSegmentPattern, '_')
unfoldable pub replace_unsafe : Text → Text
unfolding is_unsafe
replace_unsafe name = map (λ c. if is_unsafe c then b'_' else c) name

module _ (is_absolute : Text → Bool) where
  -- hasPathTraversal
  unfoldable pub has_path_traversal : Text → Bool
  has_path_traversal value =
      let normalized = trim value in
      is_special normalized
      || is_absolute normalized
      || any (λ c. c == b'/') normalized
      || any (λ c. c == b'\\') normalized
      || any (λ part. same_text part two_dots) (split_separators normalized)

  -- sanitizeSegment, sanitizeFileName; `none` is the error
  unfoldable pub sanitize_segment : Text → Option Text
  sanitize_segment value =
      let normalized = trim value in
      let sanitized = replace_unsafe normalized in
      if has_path_traversal normalized || is_special sanitized then none else some sanitized
