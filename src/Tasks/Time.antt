-- ===== src/Tasks/Time.antt =====
-- Timestamps of src/tasks.rs: `iso8601` and `civil_from_days`, for times from the epoch on.
use sml_mcps.Prelude.{
  ℕ, zero, suc, ◌+◌, ◌-◌, ◌*◌, ◌/◌, ◌%◌, ◌≡◌, refl, [], ◌∷◌, ◌++◌, leb, ltb, if◌then◌else◌, length,
}
use sml_mcps.Prelude.Text.{Text, text}
use sml_mcps.Prelude.Decimal.{show}

-- `civil_from_days`, at `days ≥ 0`: year, month and day. No subtraction goes below 0.
unfoldable pub civil_from_days : ℕ → ℕ × ℕ × ℕ
civil_from_days days =
    let z : ℕ = days + 719468 in
    let era : ℕ = z / 146097 in
    let doe : ℕ = z - era * 146097 in
    let yoe : ℕ = (doe - doe / 1460 + doe / 36524 - doe / 146096) / 365 in
    let y : ℕ = yoe + era * 400 in
    let doy : ℕ = doe - (365 * yoe + yoe / 4 - yoe / 100) in
    let mp : ℕ = (5 * doy + 2) / 153 in
    let d : ℕ = doy - (153 * mp + 2) / 5 + 1 in
    let m : ℕ = if ltb mp 10 then mp + 3 else mp - 9 in (if leb m 2 then y + 1 else y, m, d)

zeros : ℕ → Text
zeros zero = []
zeros (suc n) = b'0' ∷ zeros n

-- `{:0w}`
unfoldable pub padded : ℕ → ℕ → Text
unfolding zeros
padded w n = let t = show n in zeros (w - length t) ++ t

abbrev date_text : ℕ × ℕ × ℕ → Text
date_text (y, m, d) = padded 4 y ++ (b'-' ∷ (padded 2 m ++ (b'-' ∷ padded 2 d)))

unfoldable pub iso8601 : ℕ → Text
iso8601 time =
    let total = time / 1000000000 in
    let second = total % 86400 in
    date_text (civil_from_days (total / 86400))
    ++ (b'T'
        ∷ (padded 2 (second / 3600)
            ++ (b':'
                ∷ (padded 2 (second % 3600 / 60)
                    ++ (b':' ∷ (padded 2 (second % 60) ++ (b'Z' ∷ [])))))))

epoch : iso8601 0 ≡ text "1970-01-01T00:00:00Z"
unfolding iso8601 civil_from_days padded show text
epoch = refl

leap_day : iso8601 1709251199000000000 ≡ text "2024-02-29T23:59:59Z"
unfolding iso8601 civil_from_days padded show text
leap_day = refl
