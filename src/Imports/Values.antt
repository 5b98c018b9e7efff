-- ===== src/Imports/Values.antt =====
-- Cells, headers and texts of an import file: what the two validators of
-- app/modules/imports/validators.py share, and `normalize_programme_match_value` of
-- app/modules/academic_structure/constants.py.
use text.Mathlib.Text.{◌==◌ as str_eq}
use sms_backend.Common.{
  ℕ, ◌+◌, String, Bool, true, false, not, ◌&&◌, ◌||◌, Option, none, some, List, [], ◌∷◌, leb,
  if◌then◌else◌, map,
}
use sms_backend.Security.Text.{Text}

-- what `Decimal(text)` is: refused, NaN, infinite or too large to be quantized, below 0, or a value,
-- by its hundredths after `quantize`
pub data DecimalText : Type 0 where
  unreadable special below_zero : DecimalText
  hundredths : ℕ → DecimalText

-- the methods of Python's `str`, `Decimal`, and the functions of PostgreSQL that the queries use
pub record TextLibrary : Type 0 where
  pub strip : String → String
  pub lower : String → String
  pub upper : String → String
  pub decimal : String → DecimalText
  pub without_commas : String → String
  pub pg_lower : String → String
  pub ilike : String → String → Bool

-- A cell as openpyxl gives it: empty, a text, or another value, with its `str`, its `isoformat` or
-- else its `str`, the text that `_clean_string` makes of it, and whether it counts as true.
pub data Cell : Type 0 where
  blank : Cell
  words : String → Cell
  other : String → String → String → Bool → Cell

abbrev pub is_empty : String → Bool
is_empty s = str_eq s ""

abbrev pub truthy : Cell → Bool
truthy blank = false
truthy (words s) = not (is_empty s)
truthy (other _ _ _ t) = t

-- `str(value)`, or "" for None
abbrev pub shown : Cell → String
shown blank = ""
shown (words s) = s
shown (other s _ _ _) = s

-- the text of a value in `raw_data`
abbrev kept_text : Cell → String
kept_text blank = ""
kept_text (words s) = s
kept_text (other _ s _ _) = s

-- _clean_string
unfoldable pub clean_string : TextLibrary → Cell → String
clean_string lib blank = ""
clean_string lib (words s) = lib.strip s
clean_string lib (other _ _ cleaned _) = cleaned

-- a dictionary in the order of its first insertions
abbrev pub put : {A : Type 0} → String → A → List (String × A) → List (String × A)
put k v [] = (k, v) ∷ []
put k v ((j, w) ∷ m) = if str_eq j k then (j, v) ∷ m else (j, w) ∷ put k v m

abbrev pub lookup : {A : Type 0} → String → List (String × A) → Option A
lookup k [] = none
lookup k ((j, w) ∷ m) = if str_eq j k then some w else lookup k m

-- the comprehension of `_header_map`, from an index on
unfoldable pub header_map_from : TextLibrary → ℕ → List Cell → List (String × ℕ) → List (String × ℕ)
header_map_from lib i [] m = m
header_map_from lib i (h ∷ hs) m =
    header_map_from lib (i + 1) hs
      (if is_empty (lib.strip (shown h)) then m else put (lib.strip (shown h)) i m)

-- _header_map
unfoldable pub header_map : TextLibrary → List Cell → List (String × ℕ)
header_map lib headers = header_map_from lib 0 headers []

unfoldable pub lowered : TextLibrary → List (String × ℕ) → List (String × ℕ) → List (String × ℕ)
lowered lib [] m = m
lowered lib ((h, i) ∷ rest) m = lowered lib rest (put (lib.lower h) i m)

abbrev or_next : {A : Type 0} → Option A → Option A → Option A
or_next (some a) _ = some a
or_next none next = next

unfoldable pub first_alias : TextLibrary → List (String × ℕ) → List String → Option ℕ
first_alias lib m [] = none
first_alias lib m (alias ∷ aliases) =
    or_next (lookup (lib.lower alias) m) (first_alias lib m aliases)

-- _find_column
unfoldable pub find_column : TextLibrary → List (String × ℕ) → List String → Option ℕ
find_column lib headers aliases = first_alias lib (lowered lib headers []) aliases

abbrev nth : List Cell → ℕ → Cell
nth [] i = blank
nth (c ∷ cs) ℕ.zero = c
nth (c ∷ cs) (ℕ.suc i) = nth cs i

-- _value: None where the column or the cell is missing
unfoldable pub cell_at : List Cell → Option ℕ → Cell
cell_at row none = blank
cell_at row (some i) = nth row i

-- `{header: row_values[idx] for header, idx in header_map.items()}` with the texts of the values; the
-- rows that openpyxl gives are as long as the row of headers
unfoldable pub raw_data : List Cell → List (String × ℕ) → List (String × String)
raw_data row headers = map (λ e. (e.0, kept_text (cell_at row (some e.1)))) headers

abbrev pub is_alnum : ℕ → Bool
is_alnum c = (leb b'0' c && leb c b'9') || (leb b'A' c && leb c b'Z') || (leb b'a' c && leb c b'z')

abbrev pub to_lower : ℕ → ℕ
to_lower c = if leb b'A' c && leb c b'Z' then c + 32 else c

-- a space before the next letter, unless nothing stands before it
abbrev pub gap : Bool → Bool → Text → Text
gap true true t = b' ' ∷ t
gap _ _ t = t

-- The letters and digits in lower case, one space for each run of other characters between them:
-- `started` says that a letter was written, `waiting` that other characters came since.
unfoldable pub squeeze : Bool → Bool → Text → Text
squeeze started waiting [] = []
squeeze started waiting (c ∷ s) =
    let skipped = squeeze started true s in
    let kept = gap started waiting (to_lower c ∷ squeeze true false s) in
    if is_alnum c then kept else skipped

-- normalize_programme_match_value
unfoldable pub normalize_programme_match_value : Text → Text
normalize_programme_match_value t = squeeze false false t
