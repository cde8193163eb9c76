-- ===== src/Tests/Promises.antt =====
-- Concrete promises to pay.
use recova.Prelude.{◌≡◌, refl, some}
use recova.Prelude.Text.{codes, lower, is_in}
use recova.Dates.{Date, make_date, add_days, nth_of_month, days_in_month}
use recova.Promise.{extract_p2p_date}

abbrev sample_day : Date
sample_day = record { year = 2026; month = 10; day = 20 }

-- "Parso tak kar dunga"
parso_test :
    extract_p2p_date (codes "Parso tak kar dunga") sample_day
    ≡ some (record { year = 2026; month = 10; day = 22 })
unfolding extract_p2p_date add_days is_in lower
parso_test = refl

days_test :
    extract_p2p_date (codes "in 15  days ok") sample_day
    ≡ some (record { year = 2026; month = 11; day = 4 })
unfolding extract_p2p_date add_days is_in lower
days_test = refl

tarikh_test :
    extract_p2p_date (codes "5 tarikh ko") sample_day
    ≡ some (record { year = 2026; month = 11; day = 5 })
unfolding extract_p2p_date nth_of_month make_date days_in_month is_in lower
tarikh_test = refl

slash_test :
    extract_p2p_date (codes "by 10/11") sample_day
    ≡ some (record { year = 2026; month = 11; day = 10 })
unfolding extract_p2p_date nth_of_month make_date days_in_month is_in lower
slash_test = refl
