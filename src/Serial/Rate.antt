-- ===== src/Serial/Rate.antt =====
-- The rates of a serial port: `serial_convertBaudRateToFlag` of src/tools/serial.c.
use light_modem.Base.{
  ℕ, false, ◌≡◌, ◌≢◌, refl, ◌⊎◌, inl, inr, ◌==◌, Bool-cases, true-false, arith, ==_iff, sym, ap,
  ◌∙◌,
}
use light_modem.Serial.{
  Speed, convert_baud_rate_to_flag, b134, b150, b200, b300, b600, b1200, b1800, b2400, b4800, b9600,
  b19200, b38400, b57600, b115200,
}

-- The bits per second that a constant stands for.
abbrev pub rate : Speed → ℕ
rate b134 = 134
rate b150 = 150
rate b200 = 200
rate b300 = 300
rate b600 = 600
rate b1200 = 1200
rate b1800 = 1800
rate b2400 = 2400
rate b4800 = 4800
rate b9600 = 9600
rate b19200 = 19200
rate b38400 = 38400
rate b57600 = 57600
rate b115200 = 115200

convert-rate : (s : Speed) → convert_baud_rate_to_flag (rate s) ≡ s
unfolding convert_baud_rate_to_flag
convert-rate b134 = refl
convert-rate b150 = refl
convert-rate b200 = refl
convert-rate b300 = refl
convert-rate b600 = refl
convert-rate b1200 = refl
convert-rate b1800 = refl
convert-rate b2400 = refl
convert-rate b4800 = refl
convert-rate b9600 = refl
convert-rate b19200 = refl
convert-rate b38400 = refl
convert-rate b57600 = refl
convert-rate b115200 = refl

other : (a b : ℕ) → b ≢ a → (a == b) ≡ false
other a b h = ground arith

default_rate : (n : ℕ) → ((s : Speed) → rate s ≢ n) → convert_baud_rate_to_flag n ≡ b9600
unfolding convert_baud_rate_to_flag
default_rate n h = rw (
  other n 134 (h b134),
  other n 150 (h b150),
  other n 200 (h b200),
  other n 300 (h b300),
  other n 600 (h b600),
  other n 1200 (h b1200),
  other n 1800 (h b1800),
  other n 2400 (h b2400),
  other n 4800 (h b4800),
  other n 9600 (h b9600),
  other n 19200 (h b19200),
  other n 38400 (h b38400),
  other n 57600 (h b57600),
  other n 115200 (h b115200),
)

-- `serial_convertBaudRateToFlag` returns for every rate the constant that stands for it, if there
-- is one among the fourteen, and else the constant for 9600 bits per second.
pub convert_baud_rate_to_flag_lem :
    (n : ℕ)
    → ((s : Speed) × (rate s ≡ n) × (convert_baud_rate_to_flag n ≡ s))
      ⊎ (((s : Speed) → rate s ≢ n) × (convert_baud_rate_to_flag n ≡ b9600))
convert_baud_rate_to_flag_lem n =
    let s = convert_baud_rate_to_flag n in
    elim (Bool-cases (rate s == n)) [
      | inl e ↦ inl (s, (==_iff (rate s) n).0 e, refl)
      | inr e ↦
          let none_fits : (t : Speed) → rate t ≢ n = λ t same. true-false (
            sym (
              (==_iff (rate s) n).1 (
                ap (λ k. rate (convert_baud_rate_to_flag k)) (sym same)
                ∙ ap rate (convert-rate t)
                ∙ same))
            ∙ e) in
          inr (none_fits, default_rate n none_fits)
    ]
