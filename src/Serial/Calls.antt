-- ===== src/Serial/Calls.antt =====
-- Calls of src/tools/serial.c that come to a result, whatever the system does.
use light_modem.Base.{
  ℕ, ◌≡◌, sym, Bool, false, ◌==◌, u32, List, [], ◌∷◌, Option, none, some, done, inl, inr,
  Option-cases, ◌>>=◌,
}
use light_modem.Serial.{
  Os, set_interface, setup, configured, convert_baud_rate_to_flag, serial_send_char, serial_write,
}

module _ {W : Type 0} (os : Os W) where
  set_interface_lem :
      (fd speed parity rtscts nbstop : ℕ) (w : W)
      → (ok : Bool) × (w' : W) × (set_interface os fd speed parity rtscts nbstop w ≡ done (ok, w'))
  unfolding set_interface
  set_interface_lem fd speed parity rtscts nbstop w = elim (Option-cases (os.tcgetattr fd w).0) [
    | inl e ↦ (false, (os.tcgetattr fd w).1, rw (e))
    | inr (tty, e) ↦
        let set = configured os speed parity rtscts nbstop tty in
        let w' = os.tcflush fd (os.tcgetattr fd w).1 in
        ((os.tcsetattr fd set w').0, (os.tcsetattr fd set w').1, rw (e))
  ]

  pub setup_lem :
      (device : List ℕ) (speed parity rtscts nbstop : ℕ) (w : W)
      → (r : Option ℕ) × (w' : W) × (setup os device speed parity rtscts nbstop w ≡ done (r, w'))
        × (r ≡ (os.open_device device w).0)
  unfolding setup
  setup_lem device speed parity rtscts nbstop w =
      let r = os.open_device device w in
      elim (Option-cases r.0) [
        | inl e ↦ (none, r.1, rw (e), sym e)
        | inr (fd, e) ↦
            let (ok, w', run') =
              set_interface_lem fd (os.speed_flag (convert_baud_rate_to_flag speed)) parity rtscts
                nbstop r.1 in
            (some fd, w', rw (e, run', ◌>>=◌), sym e)
      ]

  pub serial_send_char_returns :
      (fd c : ℕ) (w : W) → (ok : Bool) × (w' : W) × (serial_send_char os fd c w ≡ done (ok, w'))
  unfolding serial_send_char serial_write
  serial_send_char_returns fd c w = elim (Option-cases (os.write fd (c ∷ []) w).0) [
    | inl e ↦ (false, (os.write fd (c ∷ []) w).1, rw (e))
    | inr (n, e) ↦ (1 == u32 n, (os.write fd (c ∷ []) w).1, rw (e))
  ]
