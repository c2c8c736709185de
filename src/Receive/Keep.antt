-- ===== src/Receive/Keep.antt =====
-- A round of `lxmodem_receive` of src/lmodem_rx.c that keeps a block.
use light_modem.Base.{
  ℕ, suc, ◌+◌, ◌-◌, ◌^◌, ◌%◌, ◌<◌, ◌≡◌, ◌⊎◌, refl, ap, ◌∙◌, Bool, true, false, List, [], ◌∷◌, ◌++◌,
  done, arith, length, drop, append_assoc, u8, u32, length-append, length-take,
}
use light_modem.Buffer.Laws.{contents, appended, contents-appended, appended-IsValid}
use light_modem.Modem.{Modem, Line}
use light_modem.Receive.{Rx, recv_ok, uses_crc, round, check_block_no_and_crc}
use light_modem.Receive.Block.{payload_of}
use light_modem.Receive.Ready.{IsReady, takes_long, Kept-IsReady}
use light_modem.Receive.Sequence.{size_of, joined, GivesBlock, answered}
use light_modem.Receive.Delivery.{read_in, kept, settle-kept, round_block, read_in-Kept}
use light_modem.Receive.Steps.{Stands, Delivers, step, there, same_mode}

module _ {P : Type 0} (line : Line P) where
  -- The context after a block that was kept.
  unfoldable pub stored_in : Bool → List ℕ → Modem P → Modem P
  stored_in long payload m = record (read_in line m long) {
    port = line.putchar (read_in line m long).port (6 ∷ []);
    ramfile = appended m.ramfile payload;
  }

  pub good_round :
      (long : Bool) (bytes payload : List ℕ) (s : Rx) (m : Modem P)
      → IsReady m
      → (long ≡ false) ⊎ (takes_long m ≡ true)
      → GivesBlock line (uses_crc m) m.port long bytes
      → check_block_no_and_crc s.expected_blk_number (size_of long) (read_in line m long)
        ≡ done (recv_ok, read_in line m long)
      → payload_of (read_in line m long).blk_buffer.buffer (size_of long) ≡ payload
      → length payload ≡ size_of long
      → size_of long < m.ramfile.max_size - m.ramfile.write_offset
      → round line s m
        ≡ done (
          kept line (size_of long) (record s { can_char_received = 0 }),
          stored_in long payload m,
        )
  unfolding stored_in
  good_round long bytes payload s m r allowed gives check chunk size room =
      let buf = (read_in line m long).blk_buffer.buffer in
      round_block line long bytes recv_ok s m r allowed gives check
      ∙ settle-kept line (size_of long) (record s { can_char_received = 0 }) (read_in line m long)
          r.file (omega (arith, ap length chunk, size, length-take (size_of long) (drop 2 buf)))
          room
      ∙ ap
          (λ l. done (
            kept line (size_of long) (record s { can_char_received = 0 }),
            record (read_in line m long) {
              port = line.putchar (read_in line m long).port (6 ∷ []);
              ramfile = appended m.ramfile l;
            },
          ))
          chunk

  pub good_Stands :
      {long_taken : Bool} {check : ℕ → Bool} {tries number : ℕ} {p : P} {s : Rx} {m : Modem P}
      (long : Bool) (payload : List ℕ)
      → (long ≡ false) ⊎ (long_taken ≡ true)
      → length payload < m.ramfile.max_size - m.ramfile.write_offset
      → Stands line long_taken check tries number p s m
      → Stands line long_taken check 0
          ((number + 1) % 256)
          (answered line check p long 6)
          (kept line (size_of long) (record s { can_char_received = 0 }))
          (stored_in long payload m)
  unfolding stored_in
  good_Stands {check} {p} {m} long payload allowed room st =
      let r = Kept-IsReady (read_in-Kept line long m st.ready (rw (st.long) allowed)) st.ready in
      record {
        ready = record {
          table = r.table;
          bytes = r.bytes;
          room = r.room;
          file = appended-IsValid m.ramfile payload st.ready.file (omega arith);
        };
        long = st.long;
        mode =
            same_mode line (line.putchar (read_in line m long).port (6 ∷ []))
              (read_in line m long).blk_buffer (appended m.ramfile payload) m
            ∙ st.mode;
        port = there line check p long 6 m st.mode st.port;
        running = st.running;
        due = ap (λ n. u8 (n + 1)) st.due;
        byte = omega arith;
        tried = refl;
      }

  -- A kept block, and the rest.
  pub good_Delivers :
      (long : Bool) (payload : List ℕ) (payloads : List (List ℕ)) (fuel : ℕ) (s : Rx) (m : Modem P)
      → IsReady m
      → s.finished ≡ false
      → length payload ≡ size_of long
      → s.received_bytes + length (payload ++ joined payloads) < 2 ^ 32
      → round line s m
        ≡ done (
          kept line (size_of long) (record s { can_char_received = 0 }),
          stored_in long payload m,
        )
      → Delivers line payloads fuel
          (kept line (size_of long) (record s { can_char_received = 0 }))
          (stored_in long payload m)
      → Delivers line (payload ∷ payloads) (suc fuel) s m
  unfolding stored_in
  good_Delivers long payload payloads fuel s m r running size small run₁ (m', run₂, r', stored) =
      let count : u32 (s.received_bytes + size_of long) + length (joined payloads)
          ≡ s.received_bytes + length (payload ++ joined payloads) =
        omega (arith, length-append payload (joined payloads), size, small) in
      (
        m',
        step line fuel s _ m _ running run₁ ∙ run₂ ∙ ap (λ n. done (n, m')) count,
        r',
        stored
            ∙ ap (λ l. l ++ joined payloads) (contents-appended m.ramfile payload r.file)
            ∙ append_assoc (contents m.ramfile) payload (joined payloads),
      )
