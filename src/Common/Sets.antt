-- ===== src/Common/Sets.antt =====
-- A JavaScript `Set` of identifiers, or an array of them, in insertion order.
use ai_worker_platform.Common.Tests.{◌==◌, if◌then◌else◌}
use ai_worker_platform.Common.Lists.{length, length-append}
use Prim.Native.Nat.{ℕ, ◌+◌, ◌≤◌}
use mathlib.Core.Path.{◌≡◌, refl}
use mathlib.Core.Bool.{Bool, true, false, ◌||◌}
use mathlib.Core.List.{List, [], ◌∷◌, ◌++◌}
use native.Mathlib.Omega.{arith}

-- `xs.has(a)`, `xs.includes(a)`
abbrev pub has : ℕ → List ℕ → Bool
has a [] = false
has a (x ∷ xs) = x == a || has a xs

-- `xs.push(a)`
abbrev pub push : ℕ → List ℕ → List ℕ
push a xs = xs ++ (a ∷ [])

-- `xs.add(a)`
abbrev pub add : ℕ → List ℕ → List ℕ
add a xs = if has a xs then xs else push a xs

-- `xs.delete(a)`; on an array, `xs.splice(xs.indexOf(a), 1)` with the index found
abbrev pub remove : ℕ → List ℕ → List ℕ
remove a [] = []
remove a (x ∷ xs) = if x == a then xs else x ∷ remove a xs

abbrev pub bit : Bool → ℕ
bit true = 1
bit false = 0

-- How often an entry occurs.
abbrev pub count : ℕ → List ℕ → ℕ
count a [] = 0
count a (x ∷ xs) = bit (x == a) + count a xs

-- No entry occurs twice.
abbrev pub IsDistinct : List ℕ → Type 0
IsDistinct xs = (a : ℕ) → count a xs ≤ 1

-- What a list and another after it hold together.
pub count-append :
    (a : ℕ) (first second : List ℕ) → count a (first ++ second) ≡ count a second + count a first
count-append a [] second = omega arith
count-append a (b ∷ rest) second = omega (count-append a rest second, arith)

pub count-push : (a b : ℕ) (xs : List ℕ) → count a (push b xs) ≡ count a xs + bit (b == a)
count-push a b xs = omega (arith, count-append a xs (b ∷ []))

pub has_eq : (a : ℕ) (xs : List ℕ) → has a xs ≡ (if count a xs == 0 then false else true)
has_eq a [] = refl
has_eq a (x ∷ xs) = ground (arith, has_eq a xs)

pub count-remove :
    (a b : ℕ) (xs : List ℕ)
    → count a (remove b xs) + (if b == a then bit (has b xs) else 0) ≡ count a xs
count-remove a b [] = ground arith
count-remove a b (x ∷ xs) = ground (arith, count-remove a b xs, has_eq b xs, has_eq a xs)

pub count-add :
    (a b : ℕ) (xs : List ℕ)
    → count a (add b xs) ≡ count a xs + (if b == a then (if has b xs then 0 else 1) else 0)
count-add a b xs = ground (arith, has_eq b xs, count-push a b xs)

pub length-add : (a : ℕ) (xs : List ℕ) → length (add a xs) ≤ length xs + 1
length-add a xs = ground (arith, length-append xs (a ∷ []))

pub length-remove : (a : ℕ) (xs : List ℕ) → length (remove a xs) ≤ length xs
length-remove a [] = omega arith
length-remove a (x ∷ xs) = ground (arith, length-remove a xs)

pub has-remove_ne : (a b : ℕ) (xs : List ℕ) → (b == a) ≡ false → has a (remove b xs) ≡ has a xs
has-remove_ne a b [] h = refl
has-remove_ne a b (x ∷ xs) h = ground (arith, has-remove_ne a b xs)

pub has-push : (a b : ℕ) (xs : List ℕ) → has a (push b xs) ≡ has a xs || b == a
has-push a b [] = ground arith
has-push a b (x ∷ xs) = ground (arith, has-push a b xs)

pub has-add : (a b : ℕ) (xs : List ℕ) → has a (add b xs) ≡ has a xs || b == a
has-add a b xs = ground (arith, has-push a b xs)

-- `xs.delete(a)` on a `Set`, where an entry occurs once.
abbrev pub discard : ℕ → List ℕ → List ℕ
discard a [] = []
discard a (x ∷ xs) = let rest = discard a xs in if x == a then rest else x ∷ rest

pub has-discard :
    (a b : ℕ) (xs : List ℕ) → has a (discard b xs) ≡ (if b == a then false else has a xs)
has-discard a b [] = ground arith
has-discard a b (x ∷ xs) = ground (arith, has-discard a b xs)
