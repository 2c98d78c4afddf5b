-- ===== src/Transaction/Calendar/NextDay.antt =====
-- The civil dates of `day_from_seconds` in src/transaction.rs against the Gregorian calendar: the date
-- of the next day is the next date.
use hiero_streams_rs.Prelude.{
  ℕ, ◌+◌, ◌%◌, ◌<◌, ◌≡◌, refl, ap, ◌⊎◌, inl, inr, Bool, true, false, not, ◌&&◌, ◌||◌, arith, ltb,
  leb, ◌==◌, if◌then◌else◌, Bool-cases,
}
use hiero_streams_rs.Prelude.Bits.{all_below}
use hiero_streams_rs.Prelude.Int.{ℤ, pos, ◌+ℤ◌}
use hiero_streams_rs.Transaction.Calendar.{
  rem_euclid, Date, year_of_era, day_of_year, month_of, month_day_of,
}

unfoldable pub is_leap : ℤ → Bool
is_leap y = (rem_euclid y 4 == 0) && (not (rem_euclid y 100 == 0) || (rem_euclid y 400 == 0))

unfoldable pub days_in_month : Bool → ℕ → ℕ
days_in_month leap m =
    if m == 2
    then if leap then 29 else 28
    else if (m == 4) || ((m == 6) || ((m == 9) || (m == 11)))
    then 30
    else 31

unfoldable pub next_day : Date → Date
next_day t =
    if ltb t.day (days_in_month (is_leap t.year) t.month)
    then record { year = t.year; month = t.month; day = t.day + 1 }
    else if ltb t.month 12
    then record { year = t.year; month = t.month + 1; day = 1 }
    else record { year = t.year +ℤ pos 1; month = 1; day = 1 }

year_of_era-lt : (doe : ℕ) → doe < 146097 → year_of_era doe < 400
unfolding year_of_era
year_of_era-lt doe h = omega arith

unfoldable pub is_leap_of_era : ℕ → Bool
is_leap_of_era n = (n % 4 == 0) && (not (n % 100 == 0) || (n % 400 == 0))

pub day_of_year_step :
    (doe : ℕ)
    → doe + 1 < 146097
    → ((year_of_era (doe + 1) ≡ year_of_era doe) × (day_of_year (doe + 1) ≡ day_of_year doe + 1))
      ⊎ ((year_of_era (doe + 1) ≡ year_of_era doe + 1) × (day_of_year (doe + 1) ≡ 0))
unfolding day_of_year year_of_era
day_of_year_step doe h = omega arith

pub day_of_year_last :
    (doe : ℕ)
    → doe + 1 < 146097
    → year_of_era (doe + 1) ≡ year_of_era doe + 1
    → (day_of_year doe ≡ 364) ⊎ (day_of_year doe ≡ 365)
unfolding day_of_year year_of_era
day_of_year_last doe h e = omega arith

pub day_of_year_365 :
    (doe : ℕ) → doe < 146097 → day_of_year doe ≡ 365 → is_leap_of_era (year_of_era doe + 1) ≡ true
unfolding day_of_year year_of_era is_leap_of_era
day_of_year_365 doe h e = ground arith

pub day_of_year_364 :
    (doe : ℕ)
    → doe + 1 < 146097
    → day_of_year doe ≡ 364
    → year_of_era (doe + 1) ≡ year_of_era doe + 1
    → is_leap_of_era (year_of_era doe + 1) ≡ false
unfolding day_of_year year_of_era is_leap_of_era
day_of_year_364 doe h e f = ground arith

pub year_goes_on :
    (doe : ℕ)
    → doe + 1 < 146097
    → year_of_era (doe + 1) ≡ year_of_era doe
    → (day_of_year doe < 364)
      ⊎ ((day_of_year doe ≡ 364) × (is_leap_of_era (year_of_era doe + 1) ≡ true))
unfolding day_of_year year_of_era is_leap_of_era
year_goes_on doe h e = ground arith

-- How month `m` and day `d` of a year that runs from March go on to `m'` and `d'`; `leap` is of its
-- February.
unfoldable pub step_ok : Bool → ℕ → ℕ → ℕ → ℕ → Bool
step_ok leap m d m' d' =
    if ltb d (days_in_month leap m)
    then (m' == m) && (d' == d + 1)
    else if ltb m 12
    then (m' == m + 1) && ((d' == 1) && ((m == 1) || leb 3 m))
    else (m' == 1) && ((d' == 1) && (m == 12))

unfoldable pub month_ok : Bool → ℕ → Bool
month_ok leap doy =
    step_ok leap (month_of doy) (month_day_of doy) (month_of (doy + 1)) (month_day_of (doy + 1))

pub months_of_leap_year : all_below (month_ok true) 365 ≡ true
unfolding all_below month_ok step_ok days_in_month month_of month_day_of
months_of_leap_year = refl

pub months_of_common_year : all_below (month_ok false) 364 ≡ true
unfolding all_below month_ok step_ok days_in_month month_of month_day_of
months_of_common_year = refl

days_in_month_other :
    (b b' : Bool) (m : ℕ) → leb m 2 ≡ false → days_in_month b m ≡ days_in_month b' m
unfolding days_in_month
days_in_month_other b b' m h = ground arith

abbrev year_for : ℤ → ℕ → ℤ
year_for y m = if leb m 2 then y +ℤ pos 1 else y

size_of_month :
    (y : ℤ) (m : ℕ)
    → days_in_month (is_leap (year_for y m)) m ≡ days_in_month (is_leap (y +ℤ pos 1)) m
size_of_month y m = elim (Bool-cases (leb m 2)) [
  | inl early ↦ rw early refl
  | inr late ↦ days_in_month_other _ _ m late
]

abbrev date : ℤ → ℕ → ℕ → Date
date y m d = record { year = y; month = m; day = d }

same_date : (y y' : ℤ) (m m' d d' : ℕ) → y ≡ y' → m ≡ m' → d ≡ d' → date y m d ≡ date y' m' d'
same_date y y' m m' d d' e f g = rw (e, f, g) refl

pub next_of :
    (y : ℤ) (m d m' d' : ℕ)
    → step_ok (is_leap (y +ℤ pos 1)) m d m' d' ≡ true
    → date (year_for y m') m' d' ≡ next_day (date (year_for y m) m d)
unfolding next_day step_ok
next_of y m d m' d' h =
    rw (size_of_month y m) (elim (Bool-cases (ltb d (days_in_month (is_leap (y +ℤ pos 1)) m))) [
      | inl within ↦
          let k : (m' == m) && (d' == d + 1) ≡ true = rw (within, step_ok) at h in
          let em : m' ≡ m = ground arith in
          rw within (same_date _ _ m' m d' (d + 1) (ap (year_for y) em) em (ground arith))
      | inr last ↦ elim (Bool-cases (ltb m 12)) [
        | inl more ↦
            let k : (m' == m + 1) && ((d' == 1) && ((m == 1) || leb 3 m)) ≡ true =
              rw (last, more, step_ok) at h in
            let same : leb m' 2 ≡ leb m 2 = ground arith in
            rw (last, more)
              (same_date _ _ m' (m + 1) d' 1 (ap (λ b. if b then y +ℤ pos 1 else y) same)
                (ground arith) (ground arith))
        | inr december ↦
            let k : (m' == 1) && ((d' == 1) && (m == 12)) ≡ true =
              rw (last, december, step_ok) at h in
            let early : leb m' 2 ≡ true = ground arith in
            let late : leb m 2 ≡ false = ground arith in
            rw (last, december)
              (same_date _ _ m' 1 d' 1 (rw (early, late) refl) (ground arith) (ground arith))
      ]
    ])
