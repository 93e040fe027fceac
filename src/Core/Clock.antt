-- ===== src/Core/Clock.antt =====
-- Go's time.Time in UTC: nanoseconds since the zero time, 1 January of year 1 (so `IsZero` is
-- `== 0`), its calendar date, and decimal numbers in text.
use llm_wiki_bff.Core.{
  ℕ, zero, suc, ◌+◌, ◌-◌, ◌*◌, ◌/◌, ◌%◌, ◌≡◌, refl, Bool, not, ◌&&◌, ◌||◌, List, [], ◌∷◌, ◌++◌,
  length, ltb, ◌==◌, if◌then◌else◌,
}
use llm_wiki_bff.Core.Int.{ℤ, pos, negsuc}
use llm_wiki_bff.Core.Text.{Text, codes}

abbrev pub minute : ℕ
minute = 60000000000

abbrev pub hour : ℕ
hour = 3600000000000

abbrev pub day : ℕ
day = 86400000000000

-- The decimal digits of a number below 10 ^ fuel, in front of a text.
digits : ℕ → ℕ → Text → Text
digits zero n out = out
digits (suc fuel) n out =
    let rest = digits fuel (n / 10) ((b'0' + n % 10) ∷ out) in
    if ltb n 10 then (b'0' + n) ∷ out else rest

-- strconv.Itoa, and "%d": an int has at most 19 digits.
unfoldable pub itoa : ℤ → Text
unfolding digits
itoa (pos n) = digits 20 n []
itoa (negsuc n) = b'-' ∷ digits 20 (suc n) []

-- A number with zeros in front, up to a width.
pad : ℕ → Text → Text
pad zero t = t
pad (suc w) t = if ltb (length t) (suc w) then b'0' ∷ pad w t else t

leap : ℕ → Bool
leap y = y % 4 == 0 && (not (y % 100 == 0) || y % 400 == 0)

-- The month and the day of the month, both from 1, from a day of the year.
in_months : ℕ → ℕ → List ℕ → ℕ × ℕ
in_months m d [] = (m, d + 1)
in_months m d (n ∷ ns) = if ltb d n then (m, d + 1) else in_months (m + 1) (d - n) ns

month_lengths : ℕ → List ℕ
unfolding leap
month_lengths y =
    31 ∷ (if leap y then 29 else 28) ∷ 31 ∷ 30 ∷ 31 ∷ 30 ∷ 31 ∷ 31 ∷ 30 ∷ 31 ∷ 30 ∷ 31 ∷ []

-- The last day of a long cycle belongs to the cycle.
cap_3 : ℕ → ℕ
cap_3 n = if ltb 3 n then 3 else n

-- t.Format("2006-01-02") of a day, counted from 1 January of year 1.
unfoldable pub format_date : ℕ → Text
unfolding in_months month_lengths cap_3 pad itoa
format_date n =
    let r400 = n % 146097 in
    let n100 = cap_3 (r400 / 36524) in
    let r100 = r400 - n100 * 36524 in
    let n4 = r100 / 1461 in
    let r4 = r100 % 1461 in
    let n1 = cap_3 (r4 / 365) in
    let y = n / 146097 * 400 + n100 * 100 + n4 * 4 + n1 + 1 in
    let (m, d) = in_months 1 (r4 - n1 * 365) (month_lengths y) in
    pad 4 (itoa (pos y)) ++ (b'-' ∷ (pad 2 (itoa (pos m)) ++ (b'-' ∷ pad 2 (itoa (pos d)))))

epoch_test : format_date 719162 ≡ codes "1970-01-01"
unfolding format_date
epoch_test = refl

leap_day_test : format_date 738944 ≡ codes "2024-02-29"
unfolding format_date
leap_day_test = refl
