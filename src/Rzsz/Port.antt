-- ===== src/Rzsz/Port.antt =====
-- The callbacks of the tool: `serial_getchar` and `serial_putchar` of src/tools/rzsz.c.
use light_modem.Base.{
  ℕ, ◌+◌, ◌≤◌, ◌≡◌, refl, sym, ◌∙◌, false, true, List, [], Outcome, done, fault, spent, arith,
  length, IsBytes, ◌⊎◌, inl, inr, true-false,
}
use light_modem.Modem.{Received, Line}
use light_modem.Serial.{Os, serial_read, serial_write}
use light_modem.Serial.Read.{serial_read_total}

-- A result that was proved to be there; the other two cases do not occur.
abbrev received : {W : Type 0} → Outcome (Received × W) → W → Received × W
received (done r) w = r
received fault w = (record { ok = false; bytes = [] }, w)
received spent w = (record { ok = false; bytes = [] }, w)

module _ {W : Type 0} (os : Os W) (serial_fd : ℕ) where
  -- `serial_getchar`, with fuel that is enough.
  pub serial_getchar : W → ℕ → Received × W
  serial_getchar w size = received (serial_read os (size + 3) serial_fd size w) w

  -- `serial_putchar`
  pub serial_putchar : W → List ℕ → W
  serial_putchar w bytes = elim (serial_write os serial_fd bytes w) [
    | done (_, w') ↦ w'
    | fault ↦ w
    | spent ↦ w
  ]

  -- For every number of bytes and every state of the port, `serial_getchar` has a result, that of
  -- `serial_read`, and obeys the laws that the library relies on: it writes bytes, not more than it
  -- was given room for, and fills the room when it succeeds.
  pub serial_getchar_lem :
      (w : W) (size : ℕ)
      → (serial_read os (size + 3) serial_fd size w ≡ done (serial_getchar w size))
        × (length (serial_getchar w size).0.bytes ≤ size)
        × (((serial_getchar w size).0.ok ≡ false) ⊎ (length (serial_getchar w size).0.bytes ≡ size))
        × IsBytes (serial_getchar w size).0.bytes
  unfolding serial_getchar
  serial_getchar_lem w size =
      let reads = serial_read_total os serial_fd (size + 3) size w (omega arith) in
      rw (reads.run) (refl, reads.fits, reads.fills, reads.bytes)

  pub serial_getchar_fills :
      (w : W) (size : ℕ)
      → (serial_getchar w size).0.ok ≡ true
      → length (serial_getchar w size).0.bytes ≡ size
  serial_getchar_fills w size ok = elim ((serial_getchar_lem w size).2) [
    | inl failed ↦ absurd (true-false (sym ok ∙ failed))
    | inr full ↦ full
  ]

  -- The port as the line of a modem.
  abbrev pub serial_line : Line W
  serial_line = record {
    getchar = serial_getchar;
    putchar = serial_putchar;
    getchar_fits = λ w size. (serial_getchar_lem w size).1;
    getchar_fills = serial_getchar_fills;
    getchar_bytes = λ w size. (serial_getchar_lem w size).3;
  }
