-- ===== src/JobService/Pages.antt =====
-- The pages of `listJobs` in backend/src/services/jobService.js.
use Prim.Native.Nat.{◌/◌}
use ai_worker_platform.Common.{
  ℕ, zero, suc, ◌+◌, ◌-◌, ◌*◌, ◌≤◌, ltb, if◌then◌else◌, List, [], ◌∷◌, ◌++◌, ◌≡◌, refl, take, drop,
  length, max, arith, ap, sym, ◌∙◌,
}

-- A fraction, of a number over a number that is not zero.
pub record Ratio : Type 0 where
  pub numerator : ℕ
  pub denominator : ℕ

abbrev pub whole : ℕ → Ratio
whole n = record { numerator = n; denominator = 1 }

-- What `slice` makes of a fraction.
abbrev pub floor : Ratio → ℕ
floor r = r.numerator / r.denominator

-- Number(query.limit), Number(query.page): missing or no number, below zero, or the first number
-- over the second and one. Fractions are exact, without the rounding of floating-point numbers.
pub data Given : Type 0 where
  missing negative : Given
  quotient : ℕ → ℕ → Given

-- Math.max(Number(value) || fallback, 1)
unfoldable pub at_least_one : ℕ → Given → Ratio
at_least_one fallback missing = whole (max fallback 1)
at_least_one fallback negative = whole 1
at_least_one fallback (quotient zero d) = whole (max fallback 1)
at_least_one fallback (quotient (suc n) d) =
    if ltb n d then whole 1 else record { numerator = suc n; denominator = suc d }

-- Math.min(ratio, 100)
abbrev pub at_most_100 : Ratio → Ratio
at_most_100 r = if ltb (100 * r.denominator) r.numerator then whole 100 else r

-- Math.min(Math.max(Number(query.limit) || 20, 1), 100)
unfoldable pub limit_of : Given → Ratio
unfolding at_least_one
limit_of limit = at_most_100 (at_least_one 20 limit)

unfoldable pub page_of : Given → Ratio
unfolding at_least_one
page_of page = at_least_one 1 page

-- (page - 1) * limit
abbrev pub skip_of : Ratio → Ratio → Ratio
skip_of page limit = record {
  numerator = (page.numerator - page.denominator) * limit.numerator;
  denominator = page.denominator * limit.denominator;
}

limit_bounds :
    (limit : Given)
    → ((limit_of limit).denominator ≤ (limit_of limit).numerator)
      × ((limit_of limit).numerator ≤ 100 * (limit_of limit).denominator)
      × (1 ≤ (limit_of limit).denominator)
unfolding limit_of
limit_bounds missing = ground arith
limit_bounds negative = ground arith
limit_bounds (quotient zero d) = ground arith
limit_bounds (quotient (suc n) d) = ground arith

page_of-whole : (n : ℕ) → page_of (quotient (suc n) 0) ≡ whole (suc n)
unfolding page_of
page_of-whole n = ground arith

floor-whole : (n : ℕ) → floor (whole n) ≡ n
floor-whole n = omega arith

skip_of-whole : (n m : ℕ) → floor (skip_of (whole (suc n)) (whole m)) ≡ n * m
skip_of-whole n m =
    let e : suc n - 1 ≡ n = omega arith in ap (λ k. floor (whole (k * m))) e ∙ floor-whole (n * m)

-- What listJobs answers, of the jobs that match, the newest first.
pub record Page {ℓ} (A : Type ℓ) : Type ℓ where
  pub page : Ratio
  pub limit : Ratio
  pub total : ℕ
  pub items : List A

module _ {ℓ} {A : Type ℓ} where
  -- Job.find(filter).sort({ createdAt: -1 }).skip(skip).limit(limit)
  unfoldable pub list_jobs : Given → Given → List A → Page A
  unfolding limit_of page_of
  list_jobs limit page matching = record {
    page = page_of page;
    limit = limit_of limit;
    total = length matching;
    items =
        take (floor (limit_of limit))
          (drop (floor (skip_of (page_of page) (limit_of limit))) matching);
  }

  -- The items of the pages 1 to n, one after the other.
  abbrev pub pages : ℕ → Given → List A → List A
  pages zero limit matching = []
  pages (suc n) limit matching =
      pages n limit matching ++ (list_jobs limit (quotient (suc n) 0) matching).items

  take_nil : (n : ℕ) → take {A = A} n [] ≡ []
  take_nil zero = refl
  take_nil (suc n) = refl

  take-drop : (m n : ℕ) (xs : List A) → take (m + n) xs ≡ take m xs ++ take n (drop m xs)
  take-drop zero n xs = let e : 0 + n ≡ n = omega arith in ap (λ k. take k xs) e
  take-drop (suc m) n [] = take_nil (suc m + n) ∙ sym (take_nil n)
  take-drop (suc m) n (x ∷ xs) =
      let e : suc m + n ≡ suc (m + n) = omega arith in
      ap (λ k. take k (x ∷ xs)) e ∙ ap (λ ys. x ∷ ys) (take-drop m n xs)

  take_all : (n : ℕ) (xs : List A) → length xs ≤ n → take n xs ≡ xs
  take_all zero [] h = refl
  take_all zero (x ∷ xs) h = elim h [ ]
  take_all (suc n) [] h = refl
  take_all (suc n) (x ∷ xs) h = ap (λ ys. x ∷ ys) (take_all n xs (omega arith))

  -- The pages 1 to n of a whole limit hold the first n times so many of the jobs that match.
  pages-take :
      (n m : ℕ) (limit : Given) (matching : List A)
      → limit_of limit ≡ whole m
      → pages n limit matching ≡ take (n * m) matching
  unfolding list_jobs
  pages-take zero m limit matching w =
      let e : 0 * m ≡ 0 = omega arith in sym (ap (λ k. take k matching) e)
  pages-take (suc n) m limit matching w =
      let e : suc n * m ≡ n * m + m = grind arith in
      let skip : floor (skip_of (page_of (quotient (suc n) 0)) (whole m)) ≡ n * m =
        ap (λ page. floor (skip_of page (whole m))) (page_of-whole n) ∙ skip_of-whole n m in
      let size : floor (whole m) ≡ m = floor-whole m in
      rw w (
        ap
          (λ ys.
            ys
            ++ take (floor (whole m))
                (drop (floor (skip_of (page_of (quotient (suc n) 0)) (whole m))) matching))
          (pages-take n m limit matching w)
        ∙ ap (λ k. take (n * m) matching ++ take (floor (whole m)) (drop k matching)) skip
        ∙ ap (λ k. take (n * m) matching ++ take k (drop (n * m) matching)) size
        ∙ sym (take-drop (n * m) m matching)
        ∙ sym (ap (λ k. take k matching) e))

  length-take : (n : ℕ) (xs : List A) → length (take n xs) ≤ n
  length-take zero xs = omega arith
  length-take (suc n) [] = omega arith
  length-take (suc n) (x ∷ xs) = omega (arith, length-take n xs)

  -- Whatever limit is asked for, a fraction or not, it is kept between 1 and 100, and no page, of
  -- whatever number, has more jobs than it says. If it is then a whole number, the pages 1, 2 and so
  -- on, one after the other, hold the jobs that match, each once and in order, as soon as there are
  -- enough pages for them.
  pub pages_lem :
      (n : ℕ) (limit : Given) (matching : List A)
      → ((limit_of limit).denominator ≤ (limit_of limit).numerator)
        × ((limit_of limit).numerator ≤ 100 * (limit_of limit).denominator)
        × ((page : Given) → length (list_jobs limit page matching).items ≤ floor (limit_of limit))
        × ((m : ℕ)
            → limit_of limit ≡ whole m
            → length matching ≤ n * m
            → pages n limit matching ≡ matching)
  unfolding list_jobs
  pages_lem n limit matching = (
    (limit_bounds limit).0,
    (limit_bounds limit).1,
    λ page. length-take (floor (limit_of limit)) _,
    λ m w h. pages-take n m limit matching w ∙ take_all (n * m) matching h,
  )
