-- ===== src/Go/Duration.antt =====
-- `time.Duration.String`.
use natsie.Base.{
  ℕ, zero, suc, ◌+◌, ◌*◌, ◌/◌, ◌%◌, String, ◌<>◌, ltb, if◌then◌else◌, ◌==◌, ℕ_eq, ◌≡◌, refl,
}
use natsie.Base.Int.{pos, negsuc}
use natsie.Go.Strings.{itoa}
use natsie.Go.Time.{Duration, second}

pad : ℕ → ℕ → String
pad zero v = ""
pad (suc n) v = pad n (v / 10) <> itoa (v % 10)

-- The fraction `v / 10 ^ n` behind its point, without trailing zeros.
fraction : ℕ → ℕ → String
unfolding pad ℕ_eq
fraction zero v = ""
fraction (suc n) v =
    let rest = fraction n (v / 10) in if v % 10 == 0 then rest else "." <> pad (suc n) v

-- A duration of less than a second, in the largest unit that leaves a number before the point.
below_second : ℕ → String
unfolding fraction
below_second n =
    if n == 0
    then "0s"
    else if ltb n 1000
    then itoa n <> "ns"
    else if ltb n 1000000
    then itoa (n / 1000) <> (fraction 3 (n % 1000) <> "µs")
    else itoa (n / 1000000) <> (fraction 6 (n % 1000000) <> "ms")

seconds_text : ℕ → String
unfolding fraction
seconds_text n = itoa (n / second % 60) <> (fraction 9 (n % second) <> "s")

magnitude : ℕ → String
unfolding below_second seconds_text
magnitude n =
    if ltb n second
    then below_second n
    else if ltb n (60 * second)
    then seconds_text n
    else if ltb n (3600 * second)
    then itoa (n / (60 * second)) <> ("m" <> seconds_text n)
    else itoa (n / (3600 * second))
      <> ("h" <> (itoa (n / (60 * second) % 60) <> ("m" <> seconds_text n)))

-- `d.String()`
unfoldable pub duration_string : Duration → String
unfolding magnitude
duration_string (pos n) = magnitude n
duration_string (negsuc n) = "-" <> magnitude (suc n)

a_day_and_more : duration_string (pos (90061 * second + 500000000)) ≡ "25h1m1.5s"
unfolding duration_string magnitude seconds_text fraction pad itoa ℕ_eq
a_day_and_more = refl

a_fraction : duration_string (negsuc 1050000) ≡ "-1.050001ms"
unfolding duration_string magnitude below_second fraction pad itoa ℕ_eq
a_fraction = refl
