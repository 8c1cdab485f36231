-- ===== src/Control/Text.antt =====
-- Texts as lists of UTF-16 code units, and what backend/src/services/jobControlService.js uses of
-- JavaScript's strings: `trim`, `length`, `slice` and character classes.
use ai_worker_platform.Common.{
  ◌≡◌, refl, [], ◌∷◌, if◌then◌else◌, List, all, ℕ, Bool, true, false, leb, ◌||◌, arith, ◌&&◌, ◌==◌,
}

abbrev pub Text : Type 0
Text = List ℕ

-- `===` on two texts
abbrev pub same_text : Text → Text → Bool
same_text [] [] = true
same_text (c ∷ s) (d ∷ t) = c == d && same_text s t
same_text [] (d ∷ t) = false
same_text (c ∷ s) [] = false

pub same_text_refl : (s : Text) → same_text s s ≡ true
same_text_refl [] = refl
same_text_refl (c ∷ s) = ground (arith, same_text_refl s)

pub same_text→eq : (s t : Text) → same_text s t ≡ true → s ≡ t
same_text→eq [] [] h = refl
same_text→eq [] (d ∷ t) h = cc
same_text→eq (c ∷ s) [] h = cc
same_text→eq (c ∷ s) (d ∷ t) h = ground (arith, same_text→eq s t)

abbrev pub between : ℕ → ℕ → ℕ → Bool
between lo hi c = leb lo c && leb c hi

-- White space and line ends, as `trim` and `\s` read them.
unfoldable pub is_space : ℕ → Bool
is_space c =
    between 9 13 c
    || c == 32
    || c == 160
    || c == 0x1680
    || between 0x2000 0x200a c
    || c == 0x2028
    || c == 0x2029
    || c == 0x202f
    || c == 0x205f
    || c == 0x3000
    || c == 0xfeff

-- [A-Za-z0-9:_-]
unfoldable pub is_key_char : ℕ → Bool
is_key_char c =
    between b'A' b'Z' c
    || between b'a' b'z' c
    || between b'0' b'9' c
    || c == b':'
    || c == b'_'
    || c == b'-'

pub key_char_not_space : (c : ℕ) → is_key_char c ≡ true → is_space c ≡ false
unfolding is_key_char is_space
key_char_not_space c h = ground arith

unfoldable pub trim_start : Text → Text
trim_start [] = []
trim_start (c ∷ s) = let rest = trim_start s in if is_space c then rest else c ∷ s

-- `!normalized`: the empty text
abbrev pub is_blank : Text → Bool
is_blank [] = true
is_blank _ = false

-- The text without the spaces at its end.
unfoldable pub trim_end : Text → Text
trim_end [] = []
trim_end (c ∷ s) = let rest = trim_end s in if is_space c && is_blank rest then [] else c ∷ rest

-- `s.trim()`
unfoldable pub trim : Text → Text
unfolding trim_start trim_end
trim s = trim_end (trim_start s)

trim_end-all : (s : Text) → all is_key_char s ≡ true → trim_end s ≡ s
unfolding trim_end
trim_end-all [] h = refl
trim_end-all (c ∷ s) h = ground (arith, trim_end-all s, key_char_not_space c)

-- A text of key characters is its own trim.
pub trim-all : (s : Text) → all is_key_char s ≡ true → trim s ≡ s
unfolding trim
trim-all [] h = refl
trim-all (c ∷ s) h = ground (arith, key_char_not_space c, trim_end-all (c ∷ s))
