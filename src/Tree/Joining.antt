-- ===== src/Tree/Joining.antt =====
-- Splitting and joining of data paths: what `parts` of backend/src/db/jsonTree.js makes of a path,
-- its callers may join again.
use ai_worker_platform.Common.{
  ℕ, suc, Bool, not, List, [], ◌∷◌, ◌==◌, ◌&&◌, length, all, filter, ◌≡◌, refl, ◌+◌, arith, true,
  ◌≤◌, ◌++◌, ◌-◌, ◌∙◌, length-append,
}
use ai_worker_platform.Control.Text.{Text}
use ai_worker_platform.Tree.Paths.{
  slash, trim_start_slashes, trim_end_slashes, split, is_present, is_safe_key, join, parts,
  segments_of, valid,
}

-- A segment holds something, no slash, and no character or name that is refused.
abbrev pub has_no_slash : Text → Bool
has_no_slash w = all (λ c. not (c == slash)) w

abbrev pub is_segment : Text → Bool
is_segment w = is_present w && has_no_slash w && is_safe_key w

-- The length of the segments with one slash behind each.
abbrev pub cost : List Text → ℕ
cost [] = 0
cost (w ∷ ws) = suc (length w + cost ws)

abbrev head : List Text → Text
head [] = []
head (w ∷ ws) = w

abbrev tail : List Text → List Text
tail [] = []
tail (w ∷ ws) = ws

split_shape : (s : Text) → split s ≡ head (split s) ∷ tail (split s)
unfolding split
split_shape [] = refl
split_shape (c ∷ s) = ground (arith, split_shape s)

-- `filter(Boolean)` does not see the slashes at the start.
split-trim_start :
    (s : Text) → filter is_present (split (trim_start_slashes s)) ≡ filter is_present (split s)
unfolding split trim_start_slashes
split-trim_start [] = refl
split-trim_start (c ∷ s) = ground (arith, split-trim_start s, split_shape s)

-- Nor those at the end.
split-trim_end :
    (s : Text)
    → (head (split (trim_end_slashes s)) ≡ head (split s))
      × (filter is_present (tail (split (trim_end_slashes s))) ≡ filter is_present (tail (split s)))
unfolding split trim_end_slashes
split-trim_end [] = (refl, refl)
split-trim_end (c ∷ s) =
    let (h, t) = split-trim_end s in ground (arith, split_shape s, split_shape (trim_end_slashes s))

pub segments_of_eq : (s : Text) → segments_of s ≡ filter is_present (split s)
unfolding segments_of
segments_of_eq s =
    let u = trim_start_slashes s in
    let (h, t) = split-trim_end u in
    ground (arith, split-trim_start s, split_shape u, split_shape (trim_end_slashes u))

split-append : (w s : Text) → has_no_slash w ≡ true → split (w ++ (slash ∷ s)) ≡ w ∷ split s
unfolding split
split-append [] s h = refl
split-append (c ∷ w) s h = ground (arith, split-append w s)

pub split_segment : (w : Text) → has_no_slash w ≡ true → split w ≡ w ∷ []
unfolding split
split_segment [] h = refl
split_segment (c ∷ w) h = ground (arith, split_segment w)

-- What was joined is found again.
split-join : (ws : List Text) → all is_segment ws ≡ true → filter is_present (split (join ws)) ≡ ws
unfolding join
split-join [] h = unfold split in refl
split-join (w ∷ []) h = ground (arith, split_segment w)
split-join (w ∷ v ∷ ws) h = ground (arith, split-append w (join (v ∷ ws)), split-join (v ∷ ws))

pub segments_of-join : (ws : List Text) → all is_segment ws ≡ true → segments_of (join ws) ≡ ws
segments_of-join ws h = segments_of_eq (join ws) ∙ split-join ws h

-- How long a joined path is.
length-join : (ws : List Text) → length (join ws) ≤ cost ws - 1
unfolding join
length-join [] = omega arith
length-join (w ∷ []) = omega arith
length-join (w ∷ v ∷ ws) =
    omega (arith, length-join (v ∷ ws), length-append w (slash ∷ join (v ∷ ws)))

cost-split : (s : Text) → cost (split s) ≡ suc (length s)
unfolding split
cost-split [] = refl
cost-split (c ∷ s) = ground (arith, cost-split s, split_shape s)

cost-filter : (ws : List Text) → cost (filter is_present ws) ≤ cost ws
cost-filter [] = omega arith
cost-filter (w ∷ ws) = ground (arith, cost-filter ws)

-- What a split leaves in each segment.
split_no_slash : (s : Text) → all has_no_slash (split s) ≡ true
unfolding split
split_no_slash [] = refl
split_no_slash (c ∷ s) = ground (arith, split_no_slash s, split_shape s)

all-filter :
    (ws : List Text)
    → all has_no_slash ws ≡ true
    → all is_safe_key (filter is_present ws) ≡ true
    → all is_segment (filter is_present ws) ≡ true
all-filter [] h k = refl
all-filter (w ∷ ws) h k = ground (arith, all-filter ws)

-- Each result of `parts` holds segments only, and not more of them than a path may name.
pub parts-all_segments :
    (path : Text) {ws : List Text}
    → parts path ≡ valid ws
    → (all is_segment ws ≡ true) × (cost ws ≤ 1025)
unfolding parts
parts-all_segments path h = ground (
  arith,
  segments_of_eq path,
  all-filter (split path),
  split_no_slash path,
  cost-split path,
  cost-filter (split path),
)

all_safe : (ws : List Text) → all is_segment ws ≡ true → all is_safe_key ws ≡ true
all_safe [] h = refl
all_safe (w ∷ ws) h = ground (arith, all_safe ws)

-- Segments that are joined come back, unless the path is too long.
pub parts-join :
    (ws : List Text) → all is_segment ws ≡ true → cost ws ≤ 1025 → parts (join ws) ≡ valid ws
unfolding parts
parts-join ws h k = ground (arith, segments_of-join ws h, length-join ws, all_safe ws h)
