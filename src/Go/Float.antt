-- ===== src/Go/Float.antt =====
-- float64 numbers as the source uses them: `float64(n) / d`, printed by `%.1f`. A number is rounded to
-- 53 bits, halves to the even neighbour; a quotient is kept as a whole number over a power of two.
use natsie.Base.{
  ℕ, zero, suc, ◌+◌, ◌-◌, ◌*◌, ◌/◌, ◌%◌, ◌^◌, String, ◌<>◌, ltb, leb, if◌then◌else◌, ◌==◌, ℕ_eq,
  ◌≡◌, refl,
}
use natsie.Go.Strings.{itoa}

-- a / b to the nearest whole number.
unfoldable pub round_div : ℕ → ℕ → ℕ
unfolding ℕ_eq
round_div a b =
    let q = a / b in
    let r = a % b in if ltb b (2 * r) then q + 1 else if 2 * r == b then q + q % 2 else q

bits_from : ℕ → ℕ → ℕ
unfolding ℕ_eq
bits_from zero n = 0
bits_from (suc f) n = let rest = suc (bits_from f (n / 2)) in if n == 0 then 0 else rest

-- The number of binary digits, for numbers below 2 ^ 128.
bits : ℕ → ℕ
unfolding bits_from
bits n = bits_from 128 n

-- `float64(n)` of a uint64.
to_float : ℕ → ℕ
unfolding round_div bits
to_float n = let unit = 2 ^ (bits n - 53) in round_div n unit * unit

-- The scale at which the quotient of a float by a smaller number has 53 digits.
scale : ℕ → ℕ → ℕ
unfolding bits
scale a d = let s = 53 + bits d - bits a in if leb (2 ^ 53) (a * 2 ^ s / d) then s - 1 else s

-- `fmt.Sprintf("%.1f", float64(n)/d)` for n below 2 ^ 53 times d.
unfoldable pub one_decimal : ℕ → ℕ → String
unfolding round_div to_float scale
one_decimal n d =
    let a = to_float n in
    let s = scale a d in
    let tenths = round_div (round_div (a * 2 ^ s) d * 10) (2 ^ s) in
    itoa (tenths / 10) <> ("." <> itoa (tenths % 10))

-- 1.25 is halfway between two tenths, and goes to the even one; 1.05 lies above its half.
halves : (one_decimal 1250 1000 ≡ "1.2") × (one_decimal 1050 1000 ≡ "1.1")
unfolding one_decimal round_div to_float scale bits bits_from itoa ℕ_eq
halves = (refl, refl)

the_largest : one_decimal (2 ^ 64 - 1) 1000000000 ≡ "18446744073.7"
unfolding one_decimal round_div to_float scale bits bits_from itoa ℕ_eq
the_largest = refl
