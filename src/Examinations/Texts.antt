-- ===== src/Examinations/Texts.antt =====
-- The texts that app/modules/examinations works with: identifiers of requests and of JSON columns,
-- and what Python and PostgreSQL do with them.
use sms_backend.Common.{
  ℕ, Bool, true, false, not, ◌&&◌, Option, none, List, [], ◌∷◌, ◌==◌, any, filter, if◌then◌else◌,
  leb, ◌+◌,
}
use sms_backend.Security.Text.{Text, codes, text_eq, is_empty}

-- Python's `uuid` and `str`, PostgreSQL's ILIKE and the LIKE on the text of a JSON column, the clock
-- and the generated UUIDs
pub record Platform : Type 0 where
  -- str(UUID)
  pub uuid_text : ℕ → Text
  -- UUID(text), with none for a ValueError
  pub parse_uuid : Text → Option ℕ
  pub strip : Text → Text
  pub upper : Text → Text
  pub ilike : Text → Text → Bool
  pub json_contains : List Text → Text → Bool
  pub now : ℕ
  pub uuid : ℕ → ℕ

-- `t in texts`
abbrev pub member : Text → List Text → Bool
member t = any (text_eq t)

-- `[t for t in texts if t]`
abbrev pub nonempty : List Text → List Text
nonempty = filter (λ t. not (is_empty t))

unfoldable pub starts_with : Text → Text → Bool
starts_with [] s = true
starts_with (k ∷ p) [] = false
starts_with (k ∷ p) (c ∷ s) = c == k && starts_with p s

-- `t.split(separator)[0]`
unfoldable pub before : Text → Text → Text
unfolding starts_with
before separator [] = []
before separator (c ∷ s) =
    let rest = before separator s in if starts_with separator (c ∷ s) then [] else c ∷ rest

-- `t.split("-second-year")[0].split("-first-year")[0]`
unfoldable pub without_year : Text → Text
unfolding before
without_year t = before (codes "-first-year") (before (codes "-second-year") t)

abbrev lower : Text → Text
lower [] = []
lower (c ∷ s) = (if leb b'A' c && leb c b'Z' then c + 32 else c) ∷ lower s

abbrev drop_four : Text → Text
drop_four (a ∷ b ∷ c ∷ d ∷ s) = s
drop_four s = []

abbrev drop_prefix : Text → Text → Text
drop_prefix p s = if starts_with p (lower s) then drop_four s else s

-- the `for prefix in …` of `_to_uuid`
unfoldable pub drop_prefixes : Text → Text
unfolding starts_with
drop_prefixes s =
    drop_prefix (codes "sec-")
      (drop_prefix (codes "stu-") (drop_prefix (codes "ser-") (drop_prefix (codes "enr-") s)))

-- _to_uuid, of a text as requests carry it
unfoldable pub to_uuid : Platform → Text → Option ℕ
unfolding drop_prefixes
to_uuid p t = if is_empty t then none else p.parse_uuid (drop_prefixes (p.strip t))

-- `t.replace(part, "")` for a part of four characters; `skipped` characters of a part are left
unfoldable pub remove_from : Text → ℕ → Text → Text
remove_from part skipped [] = []
remove_from part (ℕ.suc n) (c ∷ s) = remove_from part n s
remove_from part ℕ.zero (c ∷ s) =
    let cut = remove_from part 3 s in
    let kept = c ∷ remove_from part 0 s in if starts_with part (c ∷ s) then cut else kept

-- `str(rec.student_id).replace("stu-", "").replace("ser-", "").replace("enr-", "")`
unfoldable pub without_prefixes : Text → Text
unfolding remove_from starts_with
without_prefixes t =
    remove_from (codes "enr-") 0 (remove_from (codes "ser-") 0 (remove_from (codes "stu-") 0 t))
