-- ===== src/Serial/Read.antt =====
-- The loop of `serial_read` of src/tools/serial.c, and the port as the line of a modem.
use light_modem.Base.{
  ℕ, zero, suc, ◌+◌, ◌-◌, ◌≤◌, ◌≡◌, refl, true, false, List, [], ◌∷◌, ◌++◌, Option, none, some,
  done, arith, length, length-append, IsBytes, IsBytes-append, ltb, Bool-cases, inl, inr, Outcome,
  ◌⊎◌,
}
use light_modem.Modem.{Received}
use light_modem.Serial.{Os, read_loop, serial_read}

-- What `read` may give: -1, 0, or some bytes.
given :
    (r : Option (List ℕ))
    → (r ≡ none) ⊎ (r ≡ some []) ⊎ ((c : ℕ) × (more : List ℕ) × (r ≡ some (c ∷ more)))
given none = inl refl
given (some []) = inr (inl refl)
given (some (c ∷ more)) = inr (inr (c, more, refl))

module _ {W : Type 0} (os : Os W) (fd : ℕ) where
  -- What a call of `serial_read` gives: bytes, `size` of them if it succeeds, else not more.
  pub record Reads (size : ℕ) (r : Outcome (Received × W)) : Type 0 where
    pub got : Received
    pub world : W
    pub run : r ≡ done (got, world)
    pub fits : length got.bytes ≤ size
    pub fills : (got.ok ≡ false) ⊎ (length got.bytes ≡ size)
    pub bytes : IsBytes got.bytes

  read_loop_lem :
      (fuel size : ℕ) (got : List ℕ) (attempt : ℕ) (w : W)
      → length got ≤ size
      → IsBytes got
      → attempt ≤ 2
      → size - length got + (3 - attempt) ≤ fuel
      → Reads size (read_loop os fuel fd size got attempt w)
  unfolding read_loop
  read_loop_lem zero size got attempt w fit b few enough = absurd (omega arith)
  read_loop_lem (suc fuel) size got attempt w fit b few enough =
      let failed : (w' : W) → Reads size (done (record { ok = false; bytes = got }, w')) = λ w'.
        record {
          got = record { ok = false; bytes = got };
          world = w';
          run = refl;
          fits = fit;
          fills = inl refl;
          bytes = b;
        } in
      let call = os.read fd (size - length got) w in
      elim (Bool-cases (ltb (length got) size)) [
        | inr e ↦ rw (e) record {
          got = record { ok = true; bytes = got };
          world = w;
          run = refl;
          fits = fit;
          fills = inr (ground arith);
          bytes = b;
        }
        | inl e ↦ elim (given call.0) [
          | inl r ↦ rw (e, r) (failed call.1)
          | inr (inl r) ↦ elim (Bool-cases (ltb 2 (attempt + 1))) [
            | inl last ↦ rw (e, r, last) (failed call.1)
            | inr again ↦
                rw (e, r, again)
                  (read_loop_lem fuel size got (attempt + 1) call.1 fit b (ground arith)
                    (ground arith))
          ]
          | inr (inr (c, more, r)) ↦
              let size' : length (got ++ (c ∷ more)) ≡ length got + suc (length more) =
                length-append got (c ∷ more) in
              let least = os.read_fits fd (size - length got) w (c ∷ more) r in
              rw (e, r)
                (read_loop_lem fuel size (got ++ (c ∷ more)) attempt call.1
                  (ground (arith, size', least))
                  (IsBytes-append got (c ∷ more) b
                    (os.read_bytes fd (size - length got) w (c ∷ more) r))
                  few (ground (arith, size', least)))
        ]
      ]

  -- With fuel for three rounds more than the bytes that are asked for, `serial_read` returns: it
  -- has put bytes into the buffer, as many as were asked for when it reports success, and never
  -- more than these.
  pub serial_read_total :
      (fuel size : ℕ) (w : W) → size + 3 ≤ fuel → Reads size (serial_read os fuel fd size w)
  unfolding serial_read
  serial_read_total fuel size w enough =
      read_loop_lem fuel size [] 0 w (omega arith) tt (omega arith) (omega arith)
