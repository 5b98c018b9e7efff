-- ===== src/Common/Lists.antt =====
-- Lists as the rows of a query: selection, joins, ordering, updates, and predicates on all rows.
use Prim.Native.Nat.{ℕ, suc}
use mathlib.Core.Bool.{Bool, false, ◌||◌}
use mathlib.Core.Option.{Option, none, some}
use mathlib.Core.List.{List, [], ◌∷◌, ◌++◌, map}
use sms_backend.Common.Tests.{if◌then◌else◌}

module _ {ℓ} {A : Type ℓ} where
  abbrev pub length : List A → ℕ
  length [] = 0
  length (x ∷ xs) = suc (length xs)

  -- WHERE
  abbrev pub filter : (A → Bool) → List A → List A
  filter p [] = []
  filter p (x ∷ xs) = let rest = filter p xs in if p x then x ∷ rest else rest

  -- the first row of a result, if there is one
  abbrev pub first : List A → Option A
  first [] = none
  first (x ∷ _) = some x

  abbrev pub any : (A → Bool) → List A → Bool
  any p [] = false
  any p (x ∷ xs) = p x || any p xs

  -- UPDATE … WHERE
  abbrev pub update_where : (A → Bool) → (A → A) → List A → List A
  update_where p f [] = []
  update_where p f (x ∷ xs) = (if p x then f x else x) ∷ update_where p f xs

  abbrev pub insert_by : (A → A → Bool) → A → List A → List A
  insert_by le x [] = x ∷ []
  insert_by le x (y ∷ ys) =
      let later = y ∷ insert_by le x ys in if le x y then x ∷ y ∷ ys else later

  -- ORDER BY, as a stable sort by `le`
  abbrev pub sort_by : (A → A → Bool) → List A → List A
  sort_by le [] = []
  sort_by le (x ∷ xs) = insert_by le x (sort_by le xs)

  abbrev pub All {κ} : (A → Type κ) → List A → Type κ
  All P [] = Unit
  All P (x ∷ xs) = P x × All P xs

module _ {ℓ κ} {A : Type ℓ} {B : Type κ} where
  abbrev pub pair_with : A → List B → List (A × B)
  pair_with a [] = []
  pair_with a (b ∷ bs) = (a, b) ∷ pair_with a bs

  -- JOIN … ON
  abbrev pub join : (A → B → Bool) → List A → List B → List (A × B)
  join on [] bs = []
  join on (a ∷ as') bs = pair_with a (filter (on a) bs) ++ join on as' bs

  abbrev pub or_null : A → List B → List (A × Option B)
  or_null a [] = (a, none) ∷ []
  or_null a (b ∷ bs) = map (λ c. (a, some c)) (b ∷ bs)

  -- LEFT OUTER JOIN … ON
  abbrev pub outer_join : (A → B → Bool) → List A → List B → List (A × Option B)
  outer_join on [] bs = []
  outer_join on (a ∷ as') bs = or_null a (filter (on a) bs) ++ outer_join on as' bs

-- a row of a table
pub data IsIn {ℓ} {A : Type ℓ} (a : A) : List A → Type ℓ where
  here : (as' : List A) → IsIn a (a ∷ as')
  later : (b : A) (as' : List A) → IsIn a as' → IsIn a (b ∷ as')
