-- ===== src/Tree/Paths.antt =====
-- Data paths: `parts` of backend/src/db/jsonTree.js and `segments.join('/')` of its callers.
-- A path is a text of UTF-16 code units.
use ai_worker_platform.Common.{
  ℕ, Bool, not, List, [], ◌∷◌, ◌++◌, ◌==◌, ◌&&◌, ◌||◌, if◌then◌else◌, length, all, filter, ltb, ◌≡◌,
  refl,
}
use ai_worker_platform.Control.Text.{Text, same_text, is_blank}

-- The errors that `createApiError` makes here, and JavaScript's own on a property of `undefined`.
pub data Fault : Type 0 where
  invalid_data_path invalid_json invalid_patch invalid_collection type_error : Fault

-- A result, or the error that is thrown in its place.
pub data Checked {ℓ} (A : Type ℓ) : Type ℓ where
  valid : A → Checked A
  invalid : Fault → Checked A

infixl 5 ◌>>=◌
abbrev pub ◌>>=◌ {ℓ κ} : {A : Type ℓ} {B : Type κ} → Checked A → (A → Checked B) → Checked B
valid a >>= f = f a
invalid e >>= f = invalid e

-- Both steps of a chain that succeeds succeed.
pub >>=-eq-valid {ℓ κ} :
    {A : Type ℓ} {B : Type κ} (m : Checked A) (f : A → Checked B) {b : B}
    → (m >>= f) ≡ valid b
    → (a : A) × (m ≡ valid a) × (f a ≡ valid b)
>>=-eq-valid (valid a) f h = (a, refl, h)
>>=-eq-valid (invalid e) f h = cc

abbrev pub slash : ℕ
slash = b'/'

-- path.replace(/^\/+/, '')
unfoldable pub trim_start_slashes : Text → Text
trim_start_slashes [] = []
trim_start_slashes (c ∷ s) = let rest = trim_start_slashes s in if c == slash then rest else c ∷ s

-- path.replace(/\/+$/, '')
unfoldable pub trim_end_slashes : Text → Text
trim_end_slashes [] = []
trim_end_slashes (c ∷ s) =
    let rest = trim_end_slashes s in if c == slash && is_blank rest then [] else c ∷ rest

abbrev pub push_front : ℕ → List Text → List Text
push_front c [] = (c ∷ []) ∷ []
push_front c (w ∷ ws) = (c ∷ w) ∷ ws

-- path.split('/')
unfoldable pub split : Text → List Text
split [] = [] ∷ []
split (c ∷ s) = let rest = split s in if c == slash then [] ∷ rest else push_front c rest

-- segments.join('/')
unfoldable pub join : List Text → Text
join [] = []
join (w ∷ []) = w
join (w ∷ v ∷ ws) = w ++ (slash ∷ join (v ∷ ws))

-- `filter(Boolean)` keeps the segments that are not empty.
abbrev pub is_present : Text → Bool
is_present w = not (is_blank w)

-- /[.#$\[\]\\\x00-\x1f]/ does not match.
unfoldable pub is_safe_char : ℕ → Bool
is_safe_char c =
    not (c == b'.' || c == b'#' || c == b'$' || c == b'[' || c == b']' || c == b'\\' || ltb c 32)

-- __proto__
abbrev proto : Text
proto = b'_' ∷ b'_' ∷ b'p' ∷ b'r' ∷ b'o' ∷ b't' ∷ b'o' ∷ b'_' ∷ b'_' ∷ []

abbrev prototype : Text
prototype = b'p' ∷ b'r' ∷ b'o' ∷ b't' ∷ b'o' ∷ b't' ∷ b'y' ∷ b'p' ∷ b'e' ∷ []

abbrev constructor : Text
constructor = b'c' ∷ b'o' ∷ b'n' ∷ b's' ∷ b't' ∷ b'r' ∷ b'u' ∷ b'c' ∷ b't' ∷ b'o' ∷ b'r' ∷ []

-- The test of one segment.
unfoldable pub is_safe_key : Text → Bool
unfolding is_safe_char
is_safe_key key =
    not (same_text key proto || same_text key prototype || same_text key constructor)
    && all is_safe_char key

-- { length: 1024 }
abbrev pub max_path_length : ℕ
max_path_length = 1024

-- path.replace(/^\/+|\/+$/g, '').split('/').filter(Boolean)
unfoldable pub segments_of : Text → List Text
unfolding trim_start_slashes trim_end_slashes split
segments_of path = filter is_present (split (trim_end_slashes (trim_start_slashes path)))

-- parts, of a text
unfoldable pub parts : Text → Checked (List Text)
unfolding segments_of is_safe_key
parts path =
    if ltb max_path_length (length path)
    then invalid invalid_data_path
    else let segments = segments_of path in
      if all is_safe_key segments then valid segments else invalid invalid_data_path
