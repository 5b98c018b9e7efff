-- ===== src/Fees/Receipts.antt =====
-- The receipt numbers `RCP-000001`, … of `next_receipt_number` (app/modules/fees/repository.py).
use Prim.Native.Char.{Char, code}
use sms_backend.Common.{
  ℕ, zero, suc, ◌+◌, ◌-◌, ◌/◌, ◌%◌, ◌*◌, ◌<◌, String, ◌≡◌, refl, List, [], ◌∷◌, length, ap, ltb,
  ◌==◌, arith, if◌then◌else◌, Bool-cases, inl, inr, ◌∙◌,
}

-- the digits of `n` in front of `ds`, on fuel
digits_from : ℕ → ℕ → List ℕ → List ℕ
digits_from zero n ds = ds
digits_from (suc fuel) n ds =
    let more = digits_from fuel (n / 10) (n % 10 ∷ ds) in if ltb n 10 then n ∷ ds else more

zeros : ℕ → List ℕ → List ℕ
zeros zero ds = ds
zeros (suc k) ds = 0 ∷ zeros k ds

-- `{n:06d}`
pub pad_six : ℕ → List ℕ
unfolding digits_from zeros
pad_six n = let ds = digits_from (n + 1) n [] in zeros (6 - length ds) ds

digit : ℕ → Char
digit n =
    if n == 0
    then "0"
    else if n == 1
    then "1"
    else if n == 2
    then "2"
    else if n == 3
    then "3"
    else if n == 4
    then "4"
    else if n == 5
    then "5"
    else if n == 6
    then "6"
    else if n == 7
    then "7"
    else if n == 8
    then "8"
    else "9"

spell : List ℕ → String
unfolding digit
spell [] = ""
spell (d ∷ ds) = String.◌∷◌ (digit d) (spell ds)

-- f"RCP-{n:06d}"
unfoldable pub receipt_number : ℕ → String
unfolding pad_six spell
receipt_number n =
    String.◌∷◌ "R" (String.◌∷◌ "C" (String.◌∷◌ "P" (String.◌∷◌ "-" (spell (pad_six n)))))

-- Reading the digits back.
value : ℕ → List ℕ → ℕ
value acc [] = acc
value acc (d ∷ ds) = value (10 * acc + d) ds

AllDigits : List ℕ → Type 0
AllDigits [] = Unit
AllDigits (d ∷ ds) = (d < 10) × AllDigits ds

value-digits_from :
    (fuel n : ℕ) (ds : List ℕ) → n < fuel → value 0 (digits_from fuel n ds) ≡ value n ds
unfolding digits_from value
value-digits_from zero n ds h = absurd (omega arith)
value-digits_from (suc fuel) n ds h = elim (Bool-cases (ltb n 10)) [
  | inl small ↦ rw small (ap (λ k. value k ds) (omega arith))
  | inr big ↦ rw big (
      value-digits_from fuel (n / 10) (n % 10 ∷ ds) (ground arith)
      ∙ ap (λ k. value k ds) (omega arith))
]

value-zeros : (k : ℕ) (ds : List ℕ) → value 0 (zeros k ds) ≡ value 0 ds
unfolding zeros value
value-zeros zero ds = refl
value-zeros (suc k) ds = value-zeros k ds

value-pad_six : (n : ℕ) → value 0 (pad_six n) ≡ n
unfolding pad_six value
value-pad_six n =
    value-zeros (6 - length (digits_from (n + 1) n [])) (digits_from (n + 1) n [])
    ∙ value-digits_from (n + 1) n [] (omega arith)

digits_from-AllDigits :
    (fuel n : ℕ) (ds : List ℕ) → n < fuel → AllDigits ds → AllDigits (digits_from fuel n ds)
unfolding digits_from AllDigits
digits_from-AllDigits zero n ds h a = a
digits_from-AllDigits (suc fuel) n ds h a = elim (Bool-cases (ltb n 10)) [
  | inl small ↦ rw small (ground arith, a)
  | inr big ↦
      rw big (digits_from-AllDigits fuel (n / 10) (n % 10 ∷ ds) (ground arith) (omega arith, a))
]

zeros-AllDigits : (k : ℕ) (ds : List ℕ) → AllDigits ds → AllDigits (zeros k ds)
unfolding zeros AllDigits
zeros-AllDigits zero ds a = a
zeros-AllDigits (suc k) ds a = (omega arith, zeros-AllDigits k ds a)

code-digit : (d : ℕ) → d < 10 → code (digit d) ≡ d + 48
unfolding digit
code-digit zero h = refl
code-digit (suc zero) h = refl
code-digit (suc (suc zero)) h = refl
code-digit (suc (suc (suc zero))) h = refl
code-digit (suc (suc (suc (suc zero)))) h = refl
code-digit (suc (suc (suc (suc (suc zero))))) h = refl
code-digit (suc (suc (suc (suc (suc (suc zero)))))) h = refl
code-digit (suc (suc (suc (suc (suc (suc (suc zero))))))) h = refl
code-digit (suc (suc (suc (suc (suc (suc (suc (suc zero)))))))) h = refl
code-digit (suc (suc (suc (suc (suc (suc (suc (suc (suc zero))))))))) h = refl
code-digit (suc (suc (suc (suc (suc (suc (suc (suc (suc (suc d)))))))))) h = absurd (omega arith)

read : ℕ → String → ℕ
read acc String.[] = acc
read acc (String.◌∷◌ c s) = read (10 * acc + (code c - 48)) s

read-spell : (acc : ℕ) (ds : List ℕ) → AllDigits ds → read acc (spell ds) ≡ value acc ds
unfolding read spell value AllDigits
read-spell acc [] a = refl
read-spell acc (d ∷ ds) (h, a) =
    ap (λ k. read (10 * acc + (k - 48)) (spell ds)) (code-digit d h)
    ∙ ap (λ k. read (10 * acc + k) (spell ds)) (omega arith)
    ∙ read-spell (10 * acc + d) ds a

-- int(receipt[4:])
read_receipt : String → ℕ
read_receipt (String.◌∷◌ _ (String.◌∷◌ _ (String.◌∷◌ _ (String.◌∷◌ _ s)))) = read 0 s
read_receipt _ = 0

read_receipt-receipt_number : (n : ℕ) → read_receipt (receipt_number n) ≡ n
unfolding read_receipt receipt_number AllDigits
read_receipt-receipt_number n =
    read-spell 0 (pad_six n) (
      zeros-AllDigits _ (digits_from (n + 1) n [])
        (digits_from-AllDigits (n + 1) n [] (omega arith) tt))
    ∙ value-pad_six n

-- Two receipt numbers are the same text only if they were made from the same count.
pub receipt_number-injective : (m n : ℕ) → receipt_number m ≡ receipt_number n → m ≡ n
receipt_number-injective m n e =
    cc (read_receipt-receipt_number m, read_receipt-receipt_number n, ap read_receipt e)
