-- ===== src/Serial/Stream.antt =====
-- A port whose calls of `read` bring the bytes of a stream in pieces of any size, and whose calls
-- of `write` take all they are given: what `serial_read` and `serial_send_char` of
-- src/tools/serial.c make of it.
use light_modem.Base.{
  ℕ, zero, suc, ◌+◌, ◌-◌, ◌≤◌, ◌<◌, ◌≡◌, refl, sym, ap, ◌∙◌, true, false, List, [], ◌∷◌, ◌++◌, some,
  done, arith, length, length-append, length-take, length-drop, take, drop, take_add, drop-drop,
  ltb, lt→ltb, append-nil, append_assoc, Outcome,
}
use light_modem.Modem.{Received}
use light_modem.Serial.{Os, read_loop, serial_read, serial_write, serial_send_char}

-- What a call of `read` for `n` bytes brings: the next `count` bytes.
pub record Piece {W : Type 0} (os : Os W) (fd : ℕ) (pending written : W → List ℕ) (n : ℕ) (w : W)
    : Type 0 where
  pub count : ℕ
  pub positive : 0 < count
  pub asked : count ≤ n
  pub there : count ≤ length (pending w)
  pub brings : (os.read fd n w).0 ≡ some (take count (pending w))
  pub leaves : pending (os.read fd n w).1 ≡ drop count (pending w)
  pub writes_none : written (os.read fd n w).1 ≡ written w

-- `pending` are the bytes that the other side has sent, and `written` those that were written.
pub record Stream {W : Type 0} (os : Os W) (fd : ℕ) : Type 0 where
  pub pending : W → List ℕ
  pub written : W → List ℕ
  pub piece : (n : ℕ) (w : W) → 0 < n → 0 < length (pending w) → Piece os fd pending written n w
  pub takes : (bytes : List ℕ) (w : W) → (os.write fd bytes w).0 ≡ some (length bytes)
  pub keeps : (bytes : List ℕ) (w : W) → pending (os.write fd bytes w).1 ≡ pending w
  pub appends : (bytes : List ℕ) (w : W) → written (os.write fd bytes w).1 ≡ written w ++ bytes

starts : (xs : List ℕ) → 0 < length xs → (c : ℕ) × (more : List ℕ) × (xs ≡ c ∷ more)
starts [] h = absurd (omega arith)
starts (c ∷ more) h = (c, more, refl)

not_below : (a b : ℕ) → b ≤ a → ltb a b ≡ false
not_below a b h = ground arith

-- A successful read of `bytes` that leaves `left` on the line.
pub record Got {W : Type 0} {os : Os W} {fd : ℕ} (s : Stream os fd) (bytes left : List ℕ) (w : W)
    (r : Outcome (Received × W)) : Type 0 where
  pub world : W
  pub run : r ≡ done (record { ok = true; bytes = bytes }, world)
  pub remains : s.pending world ≡ left
  pub quiet : s.written world ≡ s.written w

module _ {W : Type 0} {os : Os W} {fd : ℕ} (s : Stream os fd) where
  -- The loop at its end.
  full :
      (fuel size : ℕ) (got : List ℕ) (attempt : ℕ) (w : W)
      → length got ≡ size
      → read_loop os fuel fd size got attempt w ≡ done (record { ok = true; bytes = got }, w)
  unfolding read_loop
  full zero size got attempt w fit = rw (not_below (length got) size (omega arith))
  full (suc fuel) size got attempt w fit = rw (not_below (length got) size (omega arith))

  -- The first piece and the rest of the reading.
  first_piece :
      (count missing : ℕ) (got pending : List ℕ) {w w' : W} {r : Outcome (Received × W)}
      → count ≤ missing
      → s.pending w' ≡ drop count pending
      → s.written w' ≡ s.written w
      → Got s
          ((got ++ take count pending) ++ take (missing - count) (s.pending w'))
          (drop (missing - count) (s.pending w'))
          w'
          r
      → Got s (got ++ take missing pending) (drop missing pending) w r
  first_piece count missing got pending {w' = w'} fits leaves quiet g =
      let all : count + (missing - count) ≡ missing = omega arith in
      record {
        world = g.world;
        run =
            g.run
            ∙ ap (λ l. done (record { ok = true; bytes = l }, g.world))
                (append_assoc got (take count pending) (take (missing - count) (s.pending w'))
                  ∙ ap (λ l. got ++ (take count pending ++ take (missing - count) l)) leaves
                  ∙ ap (λ l. got ++ l) (sym (take_add count (missing - count) pending))
                  ∙ ap (λ k. got ++ take k pending) all);
        remains =
            g.remains
            ∙ ap (λ l. drop (missing - count) l) leaves
            ∙ drop-drop (missing - count) count pending
            ∙ ap (λ k. drop k pending) all;
        quiet = g.quiet ∙ quiet;
      }

  read_loop-Got :
      (fuel size : ℕ) (got : List ℕ) (attempt missing : ℕ) (w : W)
      → length got + missing ≡ size
      → missing ≤ length (s.pending w)
      → missing ≤ fuel
      → Got s
          (got ++ take missing (s.pending w))
          (drop missing (s.pending w))
          w
          (read_loop os fuel fd size got attempt w)
  read_loop-Got fuel size got attempt zero w fit there enough = record {
    world = w;
    run =
        full fuel size got attempt w (omega arith)
        ∙ ap (λ l. done (record { ok = true; bytes = l }, w)) (sym (append-nil got));
    remains = refl;
    quiet = refl;
  }
  read_loop-Got zero size got attempt (suc k) w fit there enough = absurd (omega arith)
  read_loop-Got (suc fuel) size got attempt (suc k) w fit there enough =
      let p = s.piece (size - length got) w (omega arith) (omega arith) in
      let fits = length-take p.count (s.pending w) in
      let (c, more, e) =
        starts (take p.count (s.pending w)) (omega (arith, fits, p.positive, p.there)) in
      let w' = (os.read fd (size - length got) w).1 in
      let left : length (s.pending w') ≡ length (s.pending w) - p.count =
        ap length p.leaves ∙ length-drop p.count (s.pending w) in
      let step : read_loop os (suc fuel) fd size got attempt w
          ≡ read_loop os fuel fd size (got ++ take p.count (s.pending w)) attempt w' =
        (unfold read_loop in rw (lt→ltb (length got) size (omega arith), p.brings, e)) in
      first_piece p.count (suc k) got (s.pending w) (omega (arith, p.asked)) p.leaves p.writes_none
        (rw step (
          read_loop-Got fuel size (got ++ take p.count (s.pending w)) attempt (suc k - p.count) w'
            (omega (arith, length-append got (take p.count (s.pending w)), fits, p.asked, p.there))
            (omega (arith, left, p.there)) (omega (arith, p.positive))))

  -- On a stream with `size` bytes or more, `serial_read` brings the next `size` bytes, whatever
  -- the pieces are in which they come.
  pub serial_read-Got :
      (fuel size : ℕ) (w : W)
      → size ≤ length (s.pending w)
      → size ≤ fuel
      → Got s (take size (s.pending w)) (drop size (s.pending w)) w (serial_read os fuel fd size w)
  unfolding serial_read
  serial_read-Got fuel size w there enough =
      read_loop-Got fuel size [] 0 size w (omega arith) there enough

  -- A character that is sent.
  pub serial_send_char_lem :
      (c : ℕ) (w : W)
      → (w' : W) × (serial_send_char os fd c w ≡ done (true, w'))
        × (s.pending w' ≡ s.pending w)
        × (s.written w' ≡ s.written w ++ c ∷ [])
  unfolding serial_send_char serial_write
  serial_send_char_lem c w = (
    (os.write fd (c ∷ []) w).1,
    rw (s.takes (c ∷ []) w),
    s.keeps (c ∷ []) w,
    s.appends (c ∷ []) w,
  )
