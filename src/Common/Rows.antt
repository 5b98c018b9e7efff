-- ===== src/Common/Rows.antt =====
-- Predicates on all rows of a table, under the operations of a query and of an update.
use sms_backend.Common.Tests.{if◌then◌else◌, Bool-cases}
use sms_backend.Common.Lists.{length, filter, first, any, update_where, insert_by, sort_by, All}
use Prim.Native.Nat.{◌+◌}
use mathlib.Core.Path.{◌≡◌, refl, ap, subst}
use mathlib.Core.Logic.{inl, inr}
use mathlib.Core.Bool.{Bool, true, false, ◌||◌}
use mathlib.Core.Option.{some}
use mathlib.Core.List.{List, [], ◌∷◌, ◌++◌, map}
use native.Mathlib.Omega.{arith}

module _ {ℓ κ} {A : Type ℓ} (P : A → Type κ) where
  pub All-append : (xs ys : List A) → All P xs → All P ys → All P (xs ++ ys)
  All-append [] ys hx hy = hy
  All-append (x ∷ xs) ys (h, hx) hy = (h, All-append xs ys hx hy)

  pub All-filter : (p : A → Bool) (xs : List A) → All P xs → All P (filter p xs)
  All-filter p [] h = tt
  All-filter p (x ∷ xs) (h, hs) = elim (Bool-cases (p x)) [
    | inl e ↦ rw e (h, All-filter p xs hs)
    | inr e ↦ rw e (All-filter p xs hs)
  ]

  All-insert_by :
      (le : A → A → Bool) (x : A) (xs : List A) → P x → All P xs → All P (insert_by le x xs)
  All-insert_by le x [] px hs = (px, tt)
  All-insert_by le x (y ∷ ys) px (h, hs) = elim (Bool-cases (le x y)) [
    | inl e ↦ rw e (px, (h, hs))
    | inr e ↦ rw e (h, All-insert_by le x ys px hs)
  ]

  pub All-sort_by : (le : A → A → Bool) (xs : List A) → All P xs → All P (sort_by le xs)
  All-sort_by le [] h = tt
  All-sort_by le (x ∷ xs) (h, hs) = All-insert_by le x (sort_by le xs) h (All-sort_by le xs hs)

  -- the rows that a WHERE keeps satisfy its test
  pub All-filter_where :
      (p : A → Bool) (xs : List A) → ((x : A) → p x ≡ true → P x) → All P (filter p xs)
  All-filter_where p [] h = tt
  All-filter_where p (x ∷ xs) h = elim (Bool-cases (p x)) [
    | inl e ↦ rw e (h x e, All-filter_where p xs h)
    | inr e ↦ rw e (All-filter_where p xs h)
  ]

  pub All-none :
      (p : A → Bool) (xs : List A) → any p xs ≡ false → ((x : A) → p x ≡ false → P x) → All P xs
  All-none p [] e h = tt
  All-none p (x ∷ xs) e h = elim (Bool-cases (p x)) [
    | inl t ↦ absurd (cc (e, ap (λ b. b || any p xs) t))
    | inr f ↦ (h x f, All-none p xs (rw f at e) h)
  ]

  pub All-update_where :
      (p : A → Bool) (f : A → A) (xs : List A)
      → All (λ x. P (if p x then f x else x)) xs
      → All P (update_where p f xs)
  All-update_where p f [] h = tt
  All-update_where p f (x ∷ xs) (h, hs) = (h, All-update_where p f xs hs)

  -- the first row of a WHERE satisfies what all rows do
  pub first-All : (xs : List A) {a : A} → All P xs → first xs ≡ some a → P a
  first-All [] h e = absurd (cc e)
  first-All (x ∷ xs) (h, hs) e = subst P (cc) h

module _ {ℓ κ ι} {A : Type ℓ} (P : A → Type κ) (Q : A → Type ι) where
  pub All-mono : (xs : List A) → ((x : A) → P x → Q x) → All P xs → All Q xs
  All-mono [] f h = tt
  All-mono (x ∷ xs) f (h, hs) = (f x h, All-mono xs f hs)

module _ {ℓ κ ι μ} {A : Type ℓ} (P : A → Type κ) (Q : A → Type ι) (R : A → Type μ) where
  pub All-zip : (xs : List A) → ((x : A) → P x → Q x → R x) → All P xs → All Q xs → All R xs
  All-zip [] f h k = tt
  All-zip (x ∷ xs) f (h, hs) (k, ks) = (f x h k, All-zip xs f hs ks)

module _ {ℓ κ ι} {A : Type ℓ} {B : Type κ} (P : B → Type ι) where
  pub All-map : (f : A → B) (xs : List A) → All (λ x. P (f x)) xs → All P (map f xs)
  All-map f [] h = tt
  All-map f (x ∷ xs) (h, hs) = (h, All-map f xs hs)

module _ {ℓ} {A : Type ℓ} where
  pub any-append_last :
      (p : A → Bool) (xs : List A) (y : A) → any p (xs ++ y ∷ []) ≡ (any p xs || p y)
  any-append_last p [] y = ground arith
  any-append_last p (x ∷ xs) y = ground (arith, any-append_last p xs y)

  -- a test that an update does not disturb finds as much as before
  pub any-update_where :
      (q p : A → Bool) (f : A → A) (xs : List A)
      → ((x : A) → q (f x) ≡ q x)
      → any q (update_where p f xs) ≡ any q xs
  any-update_where q p f [] h = refl
  any-update_where q p f (x ∷ xs) h = elim (Bool-cases (p x)) [
    | inl e ↦ rw (e, h x, any-update_where q p f xs h)
    | inr e ↦ rw (e, any-update_where q p f xs h)
  ]

  pub filter-append_last :
      (p : A → Bool) (xs : List A) (y : A)
      → filter p (xs ++ y ∷ []) ≡ (if p y then filter p xs ++ y ∷ [] else filter p xs)
  filter-append_last p [] y = refl
  filter-append_last p (x ∷ xs) y = ground (arith, filter-append_last p xs y)

  pub length-append_last : (xs : List A) (y : A) → length (xs ++ y ∷ []) ≡ length xs + 1
  length-append_last [] y = omega arith
  length-append_last (x ∷ xs) y = omega (arith, length-append_last xs y)

  -- a WHERE that an update does not disturb selects the updated rows
  pub filter-update_where :
      (q which : A → Bool) (f : A → A) (xs : List A)
      → ((x : A) → q (f x) ≡ q x)
      → filter q (update_where which f xs) ≡ update_where which f (filter q xs)
  filter-update_where q which f [] k = refl
  filter-update_where q which f (x ∷ xs) k = elim (Bool-cases (which x)) [
    | inl t ↦
        rw (t, k x)
          (elim (Bool-cases (q x)) [
            | inl y ↦ rw (y, t) (ap (◌∷◌ (f x)) (filter-update_where q which f xs k))
            | inr n ↦ rw n (filter-update_where q which f xs k)
          ])
    | inr g ↦ rw g (elim (Bool-cases (q x)) [
      | inl y ↦ rw (y, g) (ap (◌∷◌ x) (filter-update_where q which f xs k))
      | inr n ↦ rw n (filter-update_where q which f xs k)
    ])
  ]
