-- ===== src/Common/Joins.antt =====
-- Predicates on the rows of a join.
use mathlib.Core.Path.{◌≡◌}
use mathlib.Core.Logic.{inl, inr}
use mathlib.Core.Bool.{Bool, true}
use mathlib.Core.Option.{Option, none, some}
use mathlib.Core.List.{List, [], ◌∷◌}
use sms_backend.Common.Tests.{Bool-cases}
use sms_backend.Common.Lists.{All, IsIn, here, later, filter, join, outer_join, pair_with, or_null}
use sms_backend.Common.Rows.{All-append, All-mono, All-map}

module _ {A : Type 0} where
  -- every row of a table is one of its rows
  pub All-IsIn : (xs : List A) → All (λ x. IsIn x xs) xs
  All-IsIn [] = tt
  All-IsIn (x ∷ xs) = (here xs, All-mono (λ y. IsIn y xs) _ xs (λ y h. later x xs h) (All-IsIn xs))

  -- what a WHERE selects is in the table and passes the test
  All-selected :
      (p : A → Bool) (ys xs : List A)
      → All (λ x. IsIn x ys) xs
      → All (λ x. IsIn x ys × (p x ≡ true)) (filter p xs)
  All-selected p ys [] h = tt
  All-selected p ys (x ∷ xs) (h, hs) = elim (Bool-cases (p x)) [
    | inl t ↦ rw t ((h, t), All-selected p ys xs hs)
    | inr f ↦ rw f (All-selected p ys xs hs)
  ]

module _ {A B : Type 0} (on : A → B → Bool) (bs : List B) (Q : A → Type 0) where
  All-pair_with :
      (P : A × B → Type 0) (a : A) (xs : List B) → All (λ b. P (a, b)) xs → All P (pair_with a xs)
  All-pair_with P a [] h = tt
  All-pair_with P a (b ∷ xs) (h, hs) = (h, All-pair_with P a xs hs)

  pub All-join :
      (P : A × B → Type 0) (as' : List A)
      → ((a : A) (b : B) → Q a → IsIn b bs → on a b ≡ true → P (a, b))
      → All Q as'
      → All P (join on as' bs)
  All-join P [] pairs h = tt
  All-join P (a ∷ as') pairs (h, hs) =
      All-append P _ (join on as' bs)
        (All-pair_with P a _ (
          All-mono (λ b. IsIn b bs × (on a b ≡ true)) _ _ (λ b k. pairs a b h k.0 k.1)
            (All-selected (on a) bs bs (All-IsIn bs))))
        (All-join P as' pairs hs)

  All-or_null :
      (P : A × Option B → Type 0) (a : A) (xs : List B)
      → P (a, none)
      → All (λ b. P (a, some b)) xs
      → All P (or_null a xs)
  All-or_null P a [] n h = (n, tt)
  All-or_null P a (b ∷ xs) n h = All-map P (λ c. (a, some c)) (b ∷ xs) h

  pub All-outer_join :
      (P : A × Option B → Type 0) (as' : List A)
      → ((a : A) → Q a → P (a, none))
      → ((a : A) (b : B) → Q a → IsIn b bs → on a b ≡ true → P (a, some b))
      → All Q as'
      → All P (outer_join on as' bs)
  All-outer_join P [] alone pairs h = tt
  All-outer_join P (a ∷ as') alone pairs (h, hs) =
      All-append P _ (outer_join on as' bs)
        (All-or_null P a _ (alone a h) (
          All-mono (λ b. IsIn b bs × (on a b ≡ true)) _ _ (λ b k. pairs a b h k.0 k.1)
            (All-selected (on a) bs bs (All-IsIn bs))))
        (All-outer_join P as' alone pairs hs)
