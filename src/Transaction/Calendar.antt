-- ===== src/Transaction/Calendar.antt =====
-- `day_from_seconds` of src/transaction.rs: the civil date of a number of seconds. Values that the
-- code keeps in an `i64` and that are never negative are natural numbers here.
pub mod NextDay
pub mod Advance
pub mod DayOf
use hiero_streams_rs.Prelude.{
  ℕ, zero, suc, ◌+◌, ◌-◌, ◌*◌, ◌/◌, ◌%◌, ◌≤◌, ◌<◌, ◌≡◌, refl, ap, ◌∙◌, sym, Bool, true, false, List,
  [], ◌∷◌, ◌++◌, arith, ltb, leb, if◌then◌else◌,
}
use hiero_streams_rs.Prelude.Int.{ℤ, pos, negsuc, ◌+ℤ◌}
use hiero_streams_rs.Text.{Text, show_padded}

-- `div_euclid` and `rem_euclid` by a positive number.
pub div_euclid : ℤ → ℕ → ℤ
div_euclid (pos n) d = pos (n / d)
div_euclid (negsuc n) d = negsuc (n / d)

pub rem_euclid : ℤ → ℕ → ℕ
rem_euclid (pos n) d = n % d
rem_euclid (negsuc n) d = d - 1 - n % d

pub record Date : Type 0 where
  pub year : ℤ
  pub month : ℕ
  pub day : ℕ

-- The product by a natural number.
pub times : ℤ → ℕ → ℤ
times (pos n) d = pos (n * d)
times (negsuc n) d = if leb d 0 then pos 0 else negsuc (suc n * d - 1)

pub year_of_era : ℕ → ℕ
year_of_era doe = (doe - doe / 1460 + doe / 36524 - doe / 146096) / 365

pub day_of_year : ℕ → ℕ
day_of_year doe = let yoe = year_of_era doe in doe - (365 * yoe + yoe / 4 - yoe / 100)

-- The month and the day of the month, of a day counted from March 1st.
pub month_of : ℕ → ℕ
month_of doy = let mp = (5 * doy + 2) / 153 in if ltb mp 10 then mp + 3 else mp - 9

pub month_day_of : ℕ → ℕ
month_day_of doy = let mp = (5 * doy + 2) / 153 in doy - (153 * mp + 2) / 5 + 1

pub date_in_year : ℤ → ℕ → Date
date_in_year y doy =
    let m = month_of doy in
    record { year = if leb m 2 then y +ℤ pos 1 else y; month = m; day = month_day_of doy }

pub civil_from_days : ℤ → Date
civil_from_days z =
    let era = div_euclid z 146097 in
    let doe = rem_euclid z 146097 in
    date_in_year (pos (year_of_era doe) +ℤ times era 400) (day_of_year doe)

-- The days from 0000-03-01 to the day that holds the second.
pub day_number : ℤ → ℤ
day_number seconds = div_euclid seconds 86400 +ℤ pos 719468

pub show_date : Date → Text
show_date t =
    show_padded 4 t.year
    ++ (b'-' ∷ (show_padded 2 (pos t.month) ++ (b'-' ∷ show_padded 2 (pos t.day))))

pub day_from_seconds : ℤ → Text
day_from_seconds seconds = show_date (civil_from_days (day_number seconds))
