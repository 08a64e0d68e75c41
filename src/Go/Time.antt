-- ===== src/Go/Time.antt =====
-- Package time. An instant is its number of nanoseconds since the zero time (1 January of year 1,
-- UTC); a duration is a signed 64-bit number of nanoseconds.
use natsie.Base.{
  ℕ, suc, ◌+◌, ◌-◌, ◌*◌, ◌/◌, ◌%◌, ◌^◌, Bool, ltb, leb, if◌then◌else◌, ◌==◌, ℕ_eq, ◌≡◌, refl,
  String, ◌<>◌,
}
use natsie.Base.Int.{ℤ, pos, negsuc, sub_ℕ}
use natsie.Go.Strings.{itoa}

abbrev pub Time : Type 0
Time = ℕ

abbrev pub Duration : Type 0
Duration = ℤ

abbrev pub second : ℕ
second = 1000000000

abbrev pub hour : ℕ
hour = 3600 * second

abbrev pub is_zero : Time → Bool
is_zero t = t == 0

-- `t.After(u)`
abbrev pub is_after : Time → Time → Bool
is_after t u = ltb u t

abbrev pub max_duration : ℕ
max_duration = 2 ^ 63 - 1

-- `t.Sub(u)` stops at the ends of the type.
unfoldable pub sub : Time → Time → Duration
sub t u =
    if leb u t
    then pos (if ltb max_duration (t - u) then max_duration else t - u)
    else negsuc (if ltb max_duration (u - t - 1) then max_duration else u - t - 1)

-- `d.Truncate(time.Second)`, towards zero.
unfoldable pub truncate_second : Duration → Duration
truncate_second (pos n) = pos (n - n % second)
truncate_second (negsuc n) = sub_ℕ 0 (suc n - suc n % second)

pad2 : ℕ → String
pad2 n = if ltb n 10 then "0" <> itoa n else itoa n

pad4 : ℕ → String
unfolding pad2
pad4 n = if ltb n 100 then "00" <> pad2 n else if ltb n 1000 then "0" <> itoa n else itoa n

-- The civil date of a day number, by cycles of 400, 100, 4 and 1 years, March being the first
-- month: day 0 is 1 January of year 1, and 306 days before it began the March year 0.
pub record Civil : Type 0 where
  pub year : ℕ
  pub month : ℕ
  pub day : ℕ

pub civil : ℕ → Civil
civil days =
    let z = days + 306 in
    let era = z / 146097 in
    let doe = z % 146097 in
    let yoe = (doe - doe / 1460 + doe / 36524 - doe / 146096) / 365 in
    let doy = doe - (365 * yoe + yoe / 4 - yoe / 100) in
    let mp = (5 * doy + 2) / 153 in
    let day = doy - (153 * mp + 2) / 5 + 1 in
    let month = if ltb mp 10 then mp + 3 else mp - 9 in
    record { year = yoe + era * 400 + (if leb month 2 then 1 else 0); month = month; day = day }

-- Seconds of the day.
pub clock : Time → ℕ
clock t = t / second % 86400

-- `t.UTC().Format("20060102T150405Z")`
unfoldable pub format_stamp : Time → String
unfolding pad2 pad4 civil clock
format_stamp t =
    let d = civil (t / (86400 * second)) in
    let s = clock t in
    pad4 d.year
    <> pad2 d.month
    <> pad2 d.day
    <> "T"
    <> pad2 (s / 3600)
    <> pad2 (s / 60 % 60)
    <> pad2 (s % 60)
    <> "Z"

-- `t.UTC().Format(time.RFC3339)`
unfoldable pub format_rfc3339 : Time → String
unfolding pad2 pad4 civil clock
format_rfc3339 t =
    let d = civil (t / (86400 * second)) in
    let s = clock t in
    pad4 d.year
    <> "-"
    <> pad2 d.month
    <> "-"
    <> pad2 d.day
    <> "T"
    <> pad2 (s / 3600)
    <> ":"
    <> pad2 (s / 60 % 60)
    <> ":"
    <> pad2 (s % 60)
    <> "Z"

zero_stamp : format_stamp 0 ≡ "00010101T000000Z"
unfolding format_stamp itoa
zero_stamp = refl

-- 19 February 2024 is day 738934; 29 February follows ten days later.
leap_day : format_rfc3339 ((738934 + 10) * 86400 * second + 3723 * second) ≡ "2024-02-29T01:02:03Z"
unfolding format_rfc3339 itoa
leap_day = refl
