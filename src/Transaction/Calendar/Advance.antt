-- ===== src/Transaction/Calendar/Advance.antt =====
-- The civil date of the next day, over all days: the eras and years of `day_from_seconds` in
-- src/transaction.rs.
use hiero_streams_rs.Prelude.{
  ℕ, zero, suc, ◌+◌, ◌-◌, ◌*◌, ◌%◌, ◌<◌, ◌≡◌, refl, ◌∙◌, ◌⊎◌, inl, inr, true, false, arith,
  Bool-cases,
}
use hiero_streams_rs.Prelude.Bits.{all_below-lt}
use hiero_streams_rs.Prelude.Int.{ℤ, pos, negsuc, ◌+ℤ◌, pos_part, neg_part, +ℤ_parts, eq_of_parts}
use hiero_streams_rs.Transaction.Calendar.{
  div_euclid, rem_euclid, times, year_of_era, day_of_year, month_of, month_day_of, date_in_year,
  civil_from_days,
}
use hiero_streams_rs.Transaction.Calendar.NextDay.{
  is_leap, is_leap_of_era, next_day, days_in_month, next_of, month_ok, months_of_leap_year,
  months_of_common_year, day_of_year_step, day_of_year_last, day_of_year_364, day_of_year_365,
  year_goes_on,
}

rem_4 : (z : ℤ) (w i j : ℕ) → pos_part z + 4 * j ≡ neg_part z + w + 4 * i → rem_euclid z 4 ≡ w % 4
unfolding rem_euclid
rem_4 (pos n) w i j h = omega arith
rem_4 (negsuc n) w i j h = omega arith

rem_100 :
    (z : ℤ) (w i j : ℕ)
    → pos_part z + 100 * j ≡ neg_part z + w + 100 * i
    → rem_euclid z 100 ≡ w % 100
unfolding rem_euclid
rem_100 (pos n) w i j h = omega arith
rem_100 (negsuc n) w i j h = omega arith

rem_400 :
    (z : ℤ) (w i j : ℕ)
    → pos_part z + 400 * j ≡ neg_part z + w + 400 * i
    → rem_euclid z 400 ≡ w % 400
unfolding rem_euclid
rem_400 (pos n) w i j h = omega arith
rem_400 (negsuc n) w i j h = omega arith

-- The parts of the year `n` years after the era's start, and one more.
year_parts :
    (n : ℕ) (era : ℤ)
    → (i : ℕ) × (j : ℕ) × (pos_part (pos n +ℤ times era 400 +ℤ pos 1) + 400 * j
        ≡ neg_part (pos n +ℤ times era 400 +ℤ pos 1) + (n + 1) + 400 * i)
unfolding times
year_parts n (pos k) = (
  k,
  0,
  omega (arith, +ℤ_parts (pos n) (pos (k * 400)), +ℤ_parts (pos n +ℤ pos (k * 400)) (pos 1)),
)
year_parts n (negsuc k) = (
  0,
  suc k,
  omega (
    arith,
    +ℤ_parts (pos n) (negsuc (suc k * 400 - 1)),
    +ℤ_parts (pos n +ℤ negsuc (suc k * 400 - 1)) (pos 1),
  ),
)

is_leap-year :
    (n : ℕ) (era : ℤ) → is_leap (pos n +ℤ times era 400 +ℤ pos 1) ≡ is_leap_of_era (n + 1)
unfolding is_leap is_leap_of_era
is_leap-year n era =
    let (i, j, e) = year_parts n era in
    let y = pos n +ℤ times era 400 +ℤ pos 1 in
    rw
      (
        rem_4 y (n + 1) (100 * i) (100 * j) (omega arith),
        rem_100 y (n + 1) (4 * i) (4 * j) (omega arith),
        rem_400 y (n + 1) i j e,
      )
      refl

next_year : (n : ℕ) (era : ℤ) → pos (n + 1) +ℤ times era 400 ≡ pos n +ℤ times era 400 +ℤ pos 1
next_year n era = eq_of_parts _ _ (
    omega (
      arith,
      +ℤ_parts (pos (n + 1)) (times era 400),
      +ℤ_parts (pos n) (times era 400),
      +ℤ_parts (pos n +ℤ times era 400) (pos 1),
    ))

next_era : (era : ℤ) → pos 0 +ℤ times (era +ℤ pos 1) 400 ≡ pos 399 +ℤ times era 400 +ℤ pos 1
unfolding times ◌+ℤ◌
next_era (pos k) = ground arith
next_era (negsuc zero) = refl
next_era (negsuc (suc k)) = ground arith

euclid_step :
    (z : ℤ)
    → ((div_euclid (z +ℤ pos 1) 146097 ≡ div_euclid z 146097)
        × (rem_euclid (z +ℤ pos 1) 146097 ≡ rem_euclid z 146097 + 1)
        × (rem_euclid z 146097 + 1 < 146097))
      ⊎ ((div_euclid (z +ℤ pos 1) 146097 ≡ div_euclid z 146097 +ℤ pos 1)
          × (rem_euclid (z +ℤ pos 1) 146097 ≡ 0)
          × (rem_euclid z 146097 ≡ 146096))
unfolding div_euclid rem_euclid ◌+ℤ◌
euclid_step (pos n) = ground arith
euclid_step (negsuc zero) = ground arith
euclid_step (negsuc (suc n)) = ground arith

in_year :
    (y : ℤ) (doy : ℕ)
    → (doy < 364) ⊎ ((doy ≡ 364) × (is_leap (y +ℤ pos 1) ≡ true))
    → date_in_year y (doy + 1) ≡ next_day (date_in_year y doy)
unfolding date_in_year month_ok
in_year y doy h =
    next_of y (month_of doy) (month_day_of doy) (month_of (doy + 1)) (month_day_of (doy + 1)) (ok h)
  where
    ok :
        (doy < 364) ⊎ ((doy ≡ 364) × (is_leap (y +ℤ pos 1) ≡ true))
        → month_ok (is_leap (y +ℤ pos 1)) doy ≡ true
    ok (inr (e, leap)) =
        rw leap (all_below-lt (month_ok true) 365 doy months_of_leap_year (omega arith))
    ok (inl l) = elim (Bool-cases (is_leap (y +ℤ pos 1))) [
      | inl leap ↦ rw leap (all_below-lt (month_ok true) 365 doy months_of_leap_year (omega arith))
      | inr common ↦ rw common (all_below-lt (month_ok false) 364 doy months_of_common_year l)
    ]

end_of_year :
    (y : ℤ) (doy : ℕ)
    → ((doy ≡ 364) × (is_leap (y +ℤ pos 1) ≡ false)) ⊎ ((doy ≡ 365) × (is_leap (y +ℤ pos 1) ≡ true))
    → date_in_year (y +ℤ pos 1) 0 ≡ next_day (date_in_year y doy)
unfolding date_in_year next_day days_in_month month_of month_day_of
end_of_year y doy (inl (e, common)) = rw e (rw common refl)
end_of_year y doy (inr (e, leap)) = rw e (rw leap refl)

era_last :
    (year_of_era 146096 ≡ 399)
    × (day_of_year 146096 ≡ 365)
    × (year_of_era 0 ≡ 0)
    × (day_of_year 0 ≡ 0)
unfolding year_of_era day_of_year
era_last = (refl, refl, refl, refl)

-- A day that is not the last of its era.
next_in_era :
    (era : ℤ) (doe : ℕ)
    → doe + 1 < 146097
    → date_in_year (pos (year_of_era (doe + 1)) +ℤ times era 400) (day_of_year (doe + 1))
      ≡ next_day (date_in_year (pos (year_of_era doe) +ℤ times era 400) (day_of_year doe))
next_in_era era doe h = elim (day_of_year_step doe h) [
  | inl (year, day) ↦
      rw (year, day)
        (in_year _ (day_of_year doe) (elim (year_goes_on doe h year) [
          | inl l ↦ inl l
          | inr (e, leap) ↦ inr (e, is_leap-year (year_of_era doe) era ∙ leap)
        ]))
  | inr (year, day) ↦
      rw (year, day, next_year (year_of_era doe) era)
        (end_of_year _ (day_of_year doe) (elim (day_of_year_last doe h year) [
          | inl e ↦ inl (e, is_leap-year (year_of_era doe) era ∙ day_of_year_364 doe h e year)
          | inr e ↦
              inr (e, is_leap-year (year_of_era doe) era ∙ day_of_year_365 doe (omega arith) e)
        ]))
]

forward : (z : ℤ) → civil_from_days (z +ℤ pos 1) ≡ next_day (civil_from_days z)
unfolding civil_from_days is_leap_of_era
forward z = elim (euclid_step z) [
  | inl (era, doe, h) ↦ rw (era, doe) (next_in_era (div_euclid z 146097) (rem_euclid z 146097) h)
  | inr (era, doe, last) ↦
      let (y, d, y₀, d₀) = era_last in
      rw (era, doe, last, y, d, y₀, d₀, next_era (div_euclid z 146097))
        (end_of_year _ 365 (inr (refl, is_leap-year 399 (div_euclid z 146097))))
]

-- For every day, before the epoch or after it, the civil date of the day after it is the next date
-- of the Gregorian calendar; and day 719468, the first of 1970, is 1970-01-01.
pub civil_from_days-next_day :
    (z : ℤ)
    → (civil_from_days (z +ℤ pos 1) ≡ next_day (civil_from_days z))
      × (civil_from_days (pos 719468) ≡ record { year = pos 1970; month = 1; day = 1 })
unfolding civil_from_days date_in_year div_euclid rem_euclid year_of_era day_of_year month_of
    month_day_of times ◌+ℤ◌
civil_from_days-next_day z = (forward z, refl)
