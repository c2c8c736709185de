-- ===== src/Serial/Tests.antt =====
-- The reads of src/tools/serial.c on a port with bytes that wait, and the rates.
use light_modem.Base.{ℕ, ◌≡◌, ◌≢◌, ◌⊎◌, List, [], ◌∷◌, arith, refl, done, true, false}
use light_modem.Serial.{Speed, b9600, serial_read, read_loop, convert_baud_rate_to_flag}
use light_modem.Serial.Rate.{rate, convert_baud_rate_to_flag_lem}
use light_modem.Serial.Read.{Reads, serial_read_total}
use light_modem.Serial.Scripted.{scripted_os}

-- Two calls that bring bytes, with a pause between them.
abbrev arrivals : List (List ℕ)
arrivals = (7 ∷ 8 ∷ []) ∷ [] ∷ (9 ∷ []) ∷ []

all_read :
    serial_read scripted_os 6 3 3 arrivals ≡ done (record { ok = true; bytes = 7 ∷ 8 ∷ 9 ∷ [] }, [])
unfolding serial_read read_loop
all_read = refl

-- The third silent call ends the reading.
given_up :
    serial_read scripted_os 7 3 4 arrivals
    ≡ done (record { ok = false; bytes = 7 ∷ 8 ∷ 9 ∷ [] }, [])
unfolding serial_read read_loop
given_up = refl

serial_read_total_example : Reads scripted_os 3 3 (serial_read scripted_os 6 3 3 arrivals)
serial_read_total_example = serial_read_total scripted_os 3 6 3 arrivals (omega arith)

convert_baud_rate_to_flag_lem_example :
    ((s : Speed) × (rate s ≡ 14400) × (convert_baud_rate_to_flag 14400 ≡ s))
    ⊎ (((s : Speed) → rate s ≢ 14400) × (convert_baud_rate_to_flag 14400 ≡ b9600))
convert_baud_rate_to_flag_lem_example = convert_baud_rate_to_flag_lem 14400
