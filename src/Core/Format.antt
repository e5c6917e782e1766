-- ===== src/Core/Format.antt =====
-- `format_timestamp` of actenon/models/contracts.py: `isoformat` in UTC, with `Z` for the offset.
use Prim.Native.String.{◌++◌ as str_append}
use actenon_kernel.Prelude.{
  Bool, List, String, [], if◌then◌else◌, ltb, nat_eq, not, string_eq, suc, zero, ℕ, ◌%◌, ◌&&◌, ◌*◌,
  ◌+◌, ◌-◌, ◌/◌, ◌==◌, ◌||◌, ◌∷◌,
}
use actenon_kernel.Core.Time.{Time}

-- `"".join(texts)`
abbrev pub concat : List String → String
concat [] = ""
concat (s ∷ ss) = str_append s (concat ss)

nth : List String → ℕ → String
nth [] n = ""
nth (s ∷ ss) zero = s
nth (s ∷ ss) (suc n) = nth ss n

unfoldable digit : ℕ → String
unfolding nth
digit n = nth ("0" ∷ "1" ∷ "2" ∷ "3" ∷ "4" ∷ "5" ∷ "6" ∷ "7" ∷ "8" ∷ "9" ∷ []) (n % 10)

-- the last `width` decimal digits
unfoldable pub padded : ℕ → ℕ → String
unfolding digit
padded zero n = ""
padded (suc width) n = str_append (padded width (n / 10)) (digit n)

is_leap : ℕ → Bool
is_leap year = year % 4 == 0 && (not (year % 100 == 0) || year % 400 == 0)

month_lengths : ℕ → List ℕ
unfolding is_leap
month_lengths year =
    31 ∷ (if is_leap year then 29 else 28) ∷ 31 ∷ 30 ∷ 31 ∷ 30 ∷ 31 ∷ 31 ∷ 30 ∷ 31 ∷ 30 ∷ 31 ∷ []

-- the month, from 1, and the day in it, from 1, of a day of the year, from 0
month_and_day : List ℕ → ℕ → ℕ → ℕ × ℕ
month_and_day [] month day = (month, suc day)
month_and_day (n ∷ ns) month day =
    let later = month_and_day ns (suc month) (day - n) in
    if ltb day n then (month, suc day) else later

-- The year, from 0, and the day of the year, from 0, of a day after 0001-01-01: whole spans of 400,
-- 100, 4 and 1 years are taken off. The last day of a span of 400 or of 4 years is in its last year.
abbrev year_and_day : ℕ → ℕ × ℕ
year_and_day days =
    let n400 = days / 146097 in
    let d400 = days % 146097 in
    let n100 = (if d400 == 146096 then 3 else d400 / 36524) in
    let d100 = d400 - n100 * 36524 in
    let n4 = d100 / 1461 in
    let d4 = d100 % 1461 in
    let n1 = (if d4 == 1460 then 3 else d4 / 365) in
    (n400 * 400 + n100 * 100 + n4 * 4 + n1, d4 - n1 * 365)

unfoldable pub format_date : ℕ → String
unfolding month_and_day month_lengths padded
format_date days =
    let (before, day_of_year) = year_and_day days in
    let (month, day) = month_and_day (month_lengths (suc before)) 1 day_of_year in
    concat (padded 4 (suc before) ∷ "-" ∷ padded 2 month ∷ "-" ∷ padded 2 day ∷ [])

unfoldable pub format_timestamp : Time → String
unfolding format_date padded
format_timestamp t =
    let seconds = t / 1000000 in
    concat (
      format_date (seconds / 86400)
      ∷ "T"
      ∷ padded 2 (seconds / 3600 % 24)
      ∷ ":"
      ∷ padded 2 (seconds / 60 % 60)
      ∷ ":"
      ∷ padded 2 (seconds % 60)
      ∷ (if t % 1000000 == 0 then "" else str_append "." (padded 6 (t % 1000000)))
      ∷ "Z"
      ∷ [])
