-- ===== src/Go/Strings.antt =====
-- Package strings (and strconv's decimal numbers). A Go string is a text, read by code points:
-- the functions below look at whole characters, or at ASCII, where bytes and code points agree.
use Prim.Native.Char.{Char, code}
use Prim.Native.String.{String, [], ◌∷◌}
use text.Mathlib.TextEquality.{Char-path}
use natsie.Base.Int.{ℤ, pos, negsuc}
use natsie.Base.{
  suc, ℕ, zero, suc, ◌/◌, ◌%◌, Bool, true, false, ◌&&◌, ◌||◌, List, ltb, leb, if◌then◌else◌, ◌==◌,
  ℕ_eq, string_eq, ◌<>◌, ◌≡◌, refl, arith, &&-eq-true, ==→eq, eq→==,
}

-- `unicode.IsSpace`
unfoldable pub is_space : ℕ → Bool
is_space n =
    (leb 9 n && leb n 13)
    || n == 32
    || n == 0x85
    || n == 0xA0
    || n == 0x1680
    || (leb 0x2000 n && leb n 0x200A)
    || n == 0x2028
    || n == 0x2029
    || n == 0x202F
    || n == 0x205F
    || n == 0x3000

unfoldable pub trim_left : String → String
trim_left [] = ""
trim_left (c ∷ s) = let rest = trim_left s in if is_space (code c) then rest else c ∷ s

unfoldable pub trim_right : String → String
trim_right [] = ""
trim_right (c ∷ s) =
    let rest = trim_right s in if rest == "" && is_space (code c) then "" else c ∷ rest

-- `strings.TrimSpace`
unfoldable pub trim_space : String → String
unfolding trim_left trim_right is_space
trim_space s = trim_right (trim_left s)

abbrev close_word : String → List String → List String
close_word word rest = if word == "" then rest else List.◌∷◌ word rest

fields_from : String → String → List String
fields_from word [] = close_word word List.[]
fields_from word (c ∷ s) =
    let closed = close_word word (fields_from "" s) in
    let longer = fields_from (word <> (c ∷ "")) s in if is_space (code c) then closed else longer

-- `strings.Fields`
unfoldable pub fields : String → List String
unfolding fields_from is_space ℕ_eq
fields s = fields_from "" s

-- `strings.HasPrefix`
unfoldable pub has_prefix : String → String → Bool
has_prefix s [] = true
has_prefix [] (c ∷ p) = false
has_prefix (d ∷ s) (c ∷ p) = code d == code c && has_prefix s p

-- As many characters as the second text has are dropped.
unfoldable pub drop_prefix : String → String → String
drop_prefix s [] = s
drop_prefix [] (c ∷ p) = ""
drop_prefix (d ∷ s) (c ∷ p) = drop_prefix s p

-- `strings.TrimPrefix`
unfoldable pub trim_prefix : String → String → String
trim_prefix s p = if has_prefix s p then drop_prefix s p else s

-- `strings.HasSuffix`
unfoldable pub has_suffix : String → String → Bool
has_suffix [] p = p == ""
has_suffix (c ∷ s) p = p == c ∷ s || has_suffix s p

-- `strings.TrimSuffix`
unfoldable pub trim_suffix : String → String → String
trim_suffix [] p = ""
trim_suffix (c ∷ s) p = let rest = c ∷ trim_suffix s p in if p == c ∷ s then "" else rest

-- Go's `<` on strings: UTF-8 keeps the order of the code points.
unfoldable pub less : String → String → Bool
less [] [] = false
less [] (d ∷ t) = true
less (c ∷ s) [] = false
less (c ∷ s) (d ∷ t) = ltb (code c) (code d) || (code c == code d && less s t)

-- `strings.Join`
unfoldable pub join : List String → String → String
join List.[] sep = ""
join (List.◌∷◌ s List.[]) sep = s
join (List.◌∷◌ s (List.◌∷◌ t rest)) sep = s <> (sep <> join (List.◌∷◌ t rest) sep)

-- The number of characters.
unfoldable pub count : String → ℕ
count [] = 0
count (c ∷ s) = suc (count s)

digit : ℕ → String
digit n =
    if n == 0
    then "0"
    else if n == 1
    then "1"
    else if n == 2
    then "2"
    else if n == 3
    then "3"
    else if n == 4
    then "4"
    else if n == 5
    then "5"
    else if n == 6
    then "6"
    else if n == 7
    then "7"
    else if n == 8
    then "8"
    else "9"

itoa_from : ℕ → ℕ → String → String
itoa_from zero n tail = tail
itoa_from (suc f) n tail =
    let text = digit (n % 10) <> tail in
    let longer = itoa_from f (n / 10) text in if ltb n 10 then text else longer

-- `%d` of a number that is not negative. A number has at most one digit more than its value.
unfoldable pub itoa : ℕ → String
unfolding itoa_from digit ℕ_eq
itoa n = itoa_from (suc n) n ""

-- `unicode.ToLower` on the letters that have an ASCII lower case: the ASCII capitals, İ and the
-- Kelvin sign. Other capitals have lower cases outside ASCII; they stay as they are here.
lower_in : String → String → Char → Char
lower_in (u ∷ us) (l ∷ ls) c = if code c == code u then l else lower_in us ls c
lower_in _ _ c = c

lower : Char → Char
unfolding lower_in
lower = lower_in "ABCDEFGHIJKLMNOPQRSTUVWXYZİK" "abcdefghijklmnopqrstuvwxyzik"

-- `strings.ToLower`
unfoldable pub to_lower : String → String
unfolding lower ℕ_eq
to_lower [] = ""
to_lower (c ∷ s) = lower c ∷ to_lower s

to_lower_test : to_lower "FaLSe" == "false" ≡ true
unfolding to_lower string_eq
to_lower_test = refl

fields_test : fields " scan  prod\ta " ≡ List.◌∷◌ "scan" (List.◌∷◌ "prod" (List.◌∷◌ "a" List.[]))
unfolding fields string_eq
fields_test = refl

itoa_test : itoa 10240 ≡ "10240"
unfolding itoa
itoa_test = refl

unfoldable pub has_slash : String → Bool
unfolding ℕ_eq
has_slash [] = false
has_slash (c ∷ s) = code c == 47 || has_slash s

-- The decimal text of an integer.
abbrev pub itoa_int : ℤ → String
itoa_int (pos n) = itoa n
itoa_int (negsuc n) = "-" <> itoa (suc n)

-- What `HasPrefix` says: the text is the prefix and a rest.
pub has_prefix-split : (s p : String) → has_prefix s p ≡ true → (rest : String) × (s ≡ p <> rest)
unfolding has_prefix
has_prefix-split s [] h = (s, refl)
has_prefix-split [] (c ∷ p) h = absurd cc
has_prefix-split (d ∷ s) (c ∷ p) h =
    let (same, later) = &&-eq-true (code d == code c) (has_prefix s p) h in
    let (rest, split) = has_prefix-split s p later in
    let first : d ≡ c = Char-path d c (==→eq (code d) (code c) same) in (rest, cc (first, split))

pub has_prefix-append : (p rest : String) → has_prefix (p <> rest) p ≡ true
unfolding has_prefix
has_prefix-append [] rest = refl
has_prefix-append (c ∷ p) rest =
    ground (arith, eq→== (code c) (code c) refl, has_prefix-append p rest)
