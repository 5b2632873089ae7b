-- ===== src/Text/Iso.antt =====
-- The strings that a date prints: `new Date(Date.parse(s)).toISOString() === s`, which
-- transaction-journal-validation.ts and plan-nonce-sync.ts test. ECMAScript prints a year from 0
-- to 9999 by four digits and any other by a sign and six, and has dates within 8.64e15 ms of 1970.
use drand_quicknet_evm.Base.{
  ℕ, ◌+◌, ◌-◌, ◌*◌, ◌%◌, Bool, true, false, not, ◌&&◌, ◌||◌, [], ◌∷◌, ltb, leb, ◌==◌, if◌then◌else◌,
}
use drand_quicknet_evm.Text.{Text, is_digit}

unfoldable pub is_leap : ℕ → Bool
is_leap y = y % 4 == 0 && (not (y % 100 == 0) || y % 400 == 0)

unfoldable pub days_in_month : ℕ → ℕ → ℕ
unfolding is_leap
days_in_month y m =
    if m == 2
    then (if is_leap y then 29 else 28)
    else if m == 4 || m == 6 || m == 9 || m == 11
    then 30
    else 31

-- The value of a run of decimal digits.
abbrev decimal : ℕ → Text → ℕ
decimal acc [] = acc
decimal acc (c ∷ cs) = decimal (acc * 10 + (c - 48)) cs

abbrev all_digits : Text → Bool
all_digits [] = true
all_digits (c ∷ cs) = is_digit c && all_digits cs

-- What follows the year: `-MM-DDThh:mm:ss.sssZ`, at a date that exists. `limit` is a day of the
-- year, `month * 100 + day`, that the date must not pass, with the instant at its midnight
-- allowed (`last`), or must not precede (`first`).
pub data Limit : Type 0 where
  unlimited : Limit
  first : ℕ → Limit
  last : ℕ → Limit

unfoldable pub within : Limit → ℕ → ℕ → Bool
within unlimited day instant = true
within (first d) day instant = leb d day
within (last d) day instant = ltb day d || day == d && instant == 0

unfoldable pub rest_of_date : ℕ → Limit → Text → Bool
unfolding days_in_month within is_digit
rest_of_date y limit
      (s1 ∷ m1 ∷ m2 ∷ s2 ∷ d1 ∷ d2 ∷ t ∷ h1 ∷ h2 ∷ c1 ∷ n1 ∷ n2 ∷ c2 ∷ e1 ∷ e2 ∷ p ∷ f1 ∷ f2 ∷ f3
        ∷ z ∷ []) =
    let month = decimal 0 (m1 ∷ m2 ∷ []) in
    let day = decimal 0 (d1 ∷ d2 ∷ []) in
    let hour = decimal 0 (h1 ∷ h2 ∷ []) in
    let minute = decimal 0 (n1 ∷ n2 ∷ []) in
    let second = decimal 0 (e1 ∷ e2 ∷ []) in
    let milli = decimal 0 (f1 ∷ f2 ∷ f3 ∷ []) in
    s1 == b'-'
    && s2 == b'-'
    && t == b'T'
    && c1 == b':'
    && c2 == b':'
    && p == b'.'
    && z == b'Z'
    && all_digits (m1 ∷ m2 ∷ d1 ∷ d2 ∷ h1 ∷ h2 ∷ n1 ∷ n2 ∷ e1 ∷ e2 ∷ f1 ∷ f2 ∷ f3 ∷ [])
    && leb 1 month
    && leb month 12
    && leb 1 day
    && leb day (days_in_month y month)
    && ltb hour 24
    && ltb minute 60
    && ltb second 60
    && within limit (month * 100 + day) (hour + minute + second + milli)
rest_of_date y limit _ = false

-- The last date is +275760-09-13T00:00:00.000Z.
unfoldable pub after_plus : ℕ → Text → Bool
unfolding rest_of_date
after_plus y rest =
    if ltb y 10000
    then false
    else if y == 275760
    then rest_of_date y (last 913) rest
    else ltb y 275760 && rest_of_date y unlimited rest

-- The first date is -271821-04-20T00:00:00.000Z. A leap year keeps its place 400 years later.
unfoldable pub after_minus : ℕ → Text → Bool
unfolding rest_of_date
after_minus y rest =
    if y == 0
    then false
    else if y == 271821
    then rest_of_date (400000 * 2 - y) (first 420) rest
    else ltb y 271821 && rest_of_date (400000 * 2 - y) unlimited rest

unfoldable pub is_iso_timestamp : Text → Bool
unfolding after_plus after_minus rest_of_date is_digit
is_iso_timestamp (a ∷ b ∷ c ∷ d ∷ e ∷ f ∷ g ∷ rest) =
    if a == b'+'
    then all_digits (b ∷ c ∷ d ∷ e ∷ f ∷ g ∷ [])
      && after_plus (decimal 0 (b ∷ c ∷ d ∷ e ∷ f ∷ g ∷ [])) rest
    else if a == b'-'
    then all_digits (b ∷ c ∷ d ∷ e ∷ f ∷ g ∷ [])
      && after_minus (decimal 0 (b ∷ c ∷ d ∷ e ∷ f ∷ g ∷ [])) rest
    else all_digits (a ∷ b ∷ c ∷ d ∷ [])
      && rest_of_date (decimal 0 (a ∷ b ∷ c ∷ d ∷ [])) unlimited (e ∷ f ∷ g ∷ rest)
is_iso_timestamp _ = false
