-- ===== src/Core/Time.antt =====
-- The timestamps of actenon/models/contracts.py (`format_timestamp`) and their order as texts.
-- A `datetime` in UTC is a number of microseconds after `datetime.min`.
use actenon_kernel.Prelude.{
  Bool, arith, if◌then◌else◌, leb, ltb, nat_eq, string_eq, true, ℕ, ◌%◌, ◌/◌, ◌<◌, ◌==◌, ◌≡◌,
}

abbrev pub Time : Type 0
Time = ℕ

-- `datetime.max`
abbrev pub max_time : Time
max_time = 315537897599999999

-- The order in which SQL compares two formatted timestamps. The date and the clock have a fixed
-- width, so whole seconds compare as numbers. `isoformat` writes the fraction only if it is not
-- zero, and `Z` sorts after the `.` of a fraction.
unfoldable pub text_leb : Time → Time → Bool
text_leb a b =
    if a / 1000000 == b / 1000000
    then (if a % 1000000 == 0
        then b % 1000000 == 0
        else if b % 1000000 == 0
        then true
        else leb (a % 1000000) (b % 1000000))
    else ltb (a / 1000000) (b / 1000000)

-- The texts sort as the times do when both carry a fraction or both carry none.
pub text_leb-eq-leb :
    (a b : Time) → ((a % 1000000 == 0) ≡ (b % 1000000 == 0)) → text_leb a b ≡ leb a b
unfolding text_leb
text_leb-eq-leb a b h = ground arith

-- A time with a fraction sorts before the whole second that it follows.
pub text_leb_early :
    (a b : Time) → b % 1000000 ≡ 0 → a / 1000000 ≡ b / 1000000 → b < a → text_leb a b ≡ true
unfolding text_leb
text_leb_early a b whole second early = ground arith
