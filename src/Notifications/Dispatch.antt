-- ===== src/Notifications/Dispatch.antt =====
-- `_normalise_phone` and `_dispatch_batch_chunked` of app/modules/notifications/service.py.
use sms_backend.Common.{
  ℕ, zero, suc, ◌≤◌, ◌≡◌, refl, ap, ◌∙◌, Bool, ◌&&◌, ◌||◌, Option, none, some, List, [], ◌∷◌, ◌++◌,
  ◌==◌, filter, length, All, if◌then◌else◌, leb, arith,
}
use sms_backend.Security.Text.{Text, codes, text_eq, is_empty}

-- c.isdigit() or c == "+", for ASCII
abbrev is_dialled : ℕ → Bool
is_dialled c = (leb b'0' c && leb c b'9') || c == b'+'

abbrev with_code : Text → Option Text
with_code [] = none
with_code (c ∷ t) =
    if c == b'+'
    then some (c ∷ t)
    else if length (c ∷ t) == 10
    then some (codes "+91" ++ c ∷ t)
    else some (b'+' ∷ c ∷ t)

-- _normalise_phone
unfoldable pub normalise_phone : Option Text → Option Text
normalise_phone none = none
normalise_phone (some t) =
    if is_empty t || text_eq t (codes "N/A") then none else with_code (filter is_dialled t)

module _ {A : Type 0} where
  -- items[i : i + n]
  unfoldable pub take : ℕ → List A → List A
  take zero xs = []
  take (suc n) [] = []
  take (suc n) (x ∷ xs) = x ∷ take n xs

  unfoldable pub drop : ℕ → List A → List A
  drop zero xs = xs
  drop (suc n) [] = []
  drop (suc n) (x ∷ xs) = drop n xs

  abbrev cons_chunk : List A → Option (List (List A)) → Option (List (List A))
  cons_chunk c none = none
  cons_chunk c (some cs) = some (c ∷ cs)

  -- The chunks of `range(0, len(items), chunk_size)`, with at most `fuel` rounds of the loop; none if
  -- that is too few.
  unfoldable pub chunks : ℕ → ℕ → List A → Option (List (List A))
  chunks fuel size [] = some []
  chunks zero size (x ∷ xs) = none
  chunks (suc fuel) size (x ∷ xs) =
      cons_chunk (take size (x ∷ xs)) (chunks fuel size (drop size (x ∷ xs)))

  abbrev pub concat : List (List A) → List A
  concat [] = []
  concat (c ∷ cs) = c ++ concat cs

  take-drop : (n : ℕ) (xs : List A) → take n xs ++ drop n xs ≡ xs
  unfolding take drop
  take-drop zero xs = refl
  take-drop (suc n) [] = refl
  take-drop (suc n) (x ∷ xs) = ap (◌∷◌ x) (take-drop n xs)

  length-take : (n : ℕ) (xs : List A) → length (take n xs) ≤ n
  unfolding take
  length-take zero xs = omega arith
  length-take (suc n) [] = omega arith
  length-take (suc n) (x ∷ xs) = omega (arith, length-take n xs)

  length-drop : (n : ℕ) (x : A) (xs : List A) → length (drop (suc n) (x ∷ xs)) ≤ length xs
  unfolding drop
  length-drop zero x xs = omega arith
  length-drop (suc n) x [] = omega arith
  length-drop (suc n) x (y ∷ xs) = omega (arith, length-drop n y xs)

  -- For a chunk size of 1 or more, as many rounds as there are items are enough for the loop over the
  -- chunks to end: every item is then in one chunk, in the order of the items, and no chunk has more
  -- items than the size.
  pub chunks_total :
      (fuel size : ℕ) (items : List A)
      → length items ≤ fuel
      → (cs : List (List A)) × (chunks fuel (suc size) items ≡ some cs)
        × (concat cs ≡ items)
        × All (λ c. length c ≤ suc size) cs
  unfolding chunks
  chunks_total fuel size [] h = ([], refl, refl, tt)
  chunks_total zero size (x ∷ xs) h = absurd (omega arith)
  chunks_total (suc fuel) size (x ∷ xs) h =
      let (cs, e, whole, small) =
        chunks_total fuel size (drop (suc size) (x ∷ xs)) (omega (arith, length-drop size x xs)) in
      (
        take (suc size) (x ∷ xs) ∷ cs,
        rw e refl,
        ap (◌++◌ (take (suc size) (x ∷ xs))) whole ∙ take-drop (suc size) (x ∷ xs),
        (length-take (suc size) (x ∷ xs), small),
      )
