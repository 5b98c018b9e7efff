-- ===== src/Examinations/Counting.antt =====
-- COUNT(DISTINCT …) as the queries of app/modules/examinations/service.py use it: when so many distinct
-- keys of a list are counted as it is long, each of its keys is counted.
use sms_backend.Common.{
  ℕ, suc, ◌≤◌, ◌≡◌, refl, sym, ap, ◌∙◌, Bool, true, false, ◌||◌, List, [], ◌∷◌, ◌==◌, any, length,
  All, Bool-cases, inl, inr, if◌then◌else◌, arith, ==→eq,
}
use sms_backend.Examinations.Targets.{distinct}

abbrev pub key_in : ℕ → List ℕ → Bool
key_in k = any (λ x. x == k)

abbrev pub AreIn : List ℕ → List ℕ → Type 0
AreIn xs ys = All (λ k. key_in k ys ≡ true) xs

abbrev IsDistinct : List ℕ → Type 0
IsDistinct [] = Unit
IsDistinct (x ∷ xs) = (key_in x xs ≡ false) × IsDistinct xs

-- without the first occurrence
remove : ℕ → List ℕ → List ℕ
remove k [] = []
remove k (x ∷ xs) = let rest = x ∷ remove k xs in if x == k then xs else rest

length-remove : (k : ℕ) (ys : List ℕ) → key_in k ys ≡ true → suc (length (remove k ys)) ≡ length ys
unfolding remove
length-remove k [] h = absurd (cc h)
length-remove k (y ∷ ys) h = ground (arith, length-remove k ys)

key_in-remove : (j k : ℕ) (ys : List ℕ) → (j == k) ≡ false → key_in j (remove k ys) ≡ key_in j ys
unfolding remove
key_in-remove j k [] h = refl
key_in-remove j k (y ∷ ys) h = ground (arith, key_in-remove j k ys)

AreIn-remove : (x : ℕ) (xs ys : List ℕ) → key_in x xs ≡ false → AreIn xs ys → AreIn xs (remove x ys)
AreIn-remove x [] ys new h = tt
AreIn-remove x (j ∷ xs) ys new (h, hs) = elim (Bool-cases (j == x)) [
  | inl t ↦ absurd (cc (rw t at new))
  | inr f ↦ (key_in-remove j x ys f ∙ h, AreIn-remove x xs ys (rw f at new) hs)
]

length-AreIn : (xs ys : List ℕ) → IsDistinct xs → AreIn xs ys → length xs ≤ length ys
length-AreIn [] ys d h = omega arith
length-AreIn (x ∷ xs) ys (new, d) (h, hs) =
    omega
      (arith, length-remove x ys h, length-AreIn xs (remove x ys) d (AreIn-remove x xs ys new hs))

-- a list of distinct keys of another list, and at least as long, has all its keys
all_in :
    (xs ys : List ℕ) (k : ℕ)
    → IsDistinct xs
    → AreIn xs ys
    → length ys ≤ length xs
    → key_in k ys ≡ true
    → key_in k xs ≡ true
all_in xs ys k d h long inside = elim (Bool-cases (key_in k xs)) [
  | inl t ↦ t
  | inr f ↦ absurd (
      omega (
        arith,
        length-remove k ys inside,
        length-AreIn xs (remove k ys) d (AreIn-remove k xs ys f h),
      ))
]

key_in-distinct : (k : ℕ) (xs : List ℕ) → key_in k (distinct xs) ≡ key_in k xs
key_in-distinct k [] = refl
key_in-distinct k (x ∷ xs) = elim (Bool-cases (key_in x xs)) [
  | inl t ↦ rw t (key_in-distinct k xs ∙ again k x xs t)
  | inr f ↦ rw f (ap (λ b. x == k || b) (key_in-distinct k xs))
]
  where
    again : (k x : ℕ) (xs : List ℕ) → key_in x xs ≡ true → key_in k xs ≡ (x == k || key_in k xs)
    again k x xs t = elim (Bool-cases (x == k)) [
      | inl e ↦ rw e (ap (λ j. key_in j xs) (sym (==→eq x k e)) ∙ t)
      | inr n ↦ rw n refl
    ]

distinct-IsDistinct : (xs : List ℕ) → IsDistinct (distinct xs)
distinct-IsDistinct [] = tt
distinct-IsDistinct (x ∷ xs) = elim (Bool-cases (key_in x xs)) [
  | inl t ↦ rw t (distinct-IsDistinct xs)
  | inr f ↦ rw f (key_in-distinct x xs ∙ f, distinct-IsDistinct xs)
]

AreIn-distinct : (xs ys : List ℕ) → AreIn xs ys → AreIn (distinct xs) ys
AreIn-distinct [] ys h = tt
AreIn-distinct (x ∷ xs) ys (h, hs) = elim (Bool-cases (key_in x xs)) [
  | inl t ↦ rw t (AreIn-distinct xs ys hs)
  | inr f ↦ rw f (h, AreIn-distinct xs ys hs)
]

-- so many distinct keys among those of `ys` as `ys` is long
pub counted_in :
    (xs ys : List ℕ) (k : ℕ)
    → AreIn xs ys
    → length ys ≤ length (distinct xs)
    → key_in k ys ≡ true
    → key_in k xs ≡ true
counted_in xs ys k h long inside =
    sym (key_in-distinct k xs)
    ∙ all_in (distinct xs) ys k (distinct-IsDistinct xs) (AreIn-distinct xs ys h) long inside
