-- ===== src/Receive/Steps.antt =====
-- A round of `lxmodem_receive` of src/lmodem_rx.c that loses a try, or takes EOT.
use light_modem.Base.{
  ℕ, zero, suc, ◌+◌, ◌-◌, ◌^◌, ◌<◌, ◌≤◌, ◌≡◌, ◌≢◌, ◌⊎◌, refl, ap, ◌∙◌, Bool, true, false, List, [],
  ◌∷◌, ◌++◌, done, arith, length, ◌>>=◌, u32,
}
use light_modem.Buffer.{Buffer}
use light_modem.Buffer.Laws.{contents, appended, contents-appended, appended-IsValid}
use light_modem.Modem.{Modem, Line, LineBuffer, getchar}
use light_modem.Receive.{
  Rx, Status, recv_ok, uses_crc, round, loop, handle_header, check_block_no_and_crc,
}
use light_modem.Receive.Ready.{IsReady, takes_long, Kept-IsReady, after_getchar}
use light_modem.Receive.Sequence.{
  size_of, joined, Gives, GivesBlock, answered, Brings, rounds, ended, good, silent, repeated,
  damaged,
}
use light_modem.Receive.Delivery.{
  read_in, lost, kept, retry_run, settle-lost, settle-kept, round_block, round_run, read_in-Kept,
  answer_to,
}

module _ {P : Type 0} (line : Line P) where
  -- The variables and the context between two rounds, against the place in the deliveries.
  pub record Stands (long_taken : Bool) (check : ℕ → Bool) (tries number : ℕ) (p : P) (s : Rx)
      (m : Modem P) : Type 0 where
    pub ready : IsReady m
    pub long : takes_long m ≡ long_taken
    pub mode : uses_crc m ≡ check
    pub port : m.port ≡ p
    pub running : s.finished ≡ false
    pub due : s.expected_blk_number ≡ number
    pub byte : number < 256
    pub tried : s.nb_retry ≡ tries

  -- What the loop comes to from there.
  abbrev pub Delivers : List (List ℕ) → ℕ → Rx → Modem P → Type 0
  Delivers payloads fuel s m =
      (m' : Modem P) × (loop line fuel s m ≡ done (s.received_bytes + length (joined payloads), m'))
      × IsReady m'
      × (contents m'.ramfile ≡ contents m.ramfile ++ joined payloads)

  pub step :
      (fuel : ℕ) (s s' : Rx) (m m' : Modem P)
      → s.finished ≡ false
      → round line s m ≡ done (s', m')
      → loop line (suc fuel) s m ≡ loop line fuel s' m'
  unfolding loop round
  step fuel s s' m m' running run = rw (running, run, ◌>>=◌)

  pub stop :
      (fuel : ℕ) (s : Rx) (m : Modem P)
      → s.finished ≡ true
      → loop line fuel s m ≡ done (s.received_bytes, m)
  unfolding loop
  stop zero s m over = rw over
  stop (suc fuel) s m over = rw over

  pub here :
      (check : ℕ → Bool) (p : P) (long : Bool) (bytes : List ℕ) (m : Modem P)
      → uses_crc m ≡ check
      → m.port ≡ p
      → GivesBlock line check p long bytes
      → GivesBlock line (uses_crc m) m.port long bytes
  here check p long bytes m e f gives = rw (e, f) gives

  pub there :
      (check : ℕ → Bool) (p : P) (long : Bool) (c : ℕ) (m : Modem P)
      → uses_crc m ≡ check
      → m.port ≡ p
      → answered line (uses_crc m) m.port long c ≡ answered line check p long c
  there check p long c m e f = rw (e, f)

  pub same_mode :
      (q : P) (blk : LineBuffer) (file : Buffer) (m : Modem P)
      → uses_crc (record m { port = q; blk_buffer = blk; ramfile = file }) ≡ uses_crc m
  unfolding uses_crc
  same_mode q blk file m = refl

  -- The context after a block that was not kept.
  pub lost-Stands :
      {long_taken : Bool} {check : ℕ → Bool} {tries number : ℕ} {p : P} {s : Rx} {m : Modem P}
      (long : Bool) (c : ℕ)
      → (long ≡ false) ⊎ (long_taken ≡ true)
      → Stands long_taken check tries number p s m
      → Stands long_taken check
          (suc tries)
          number
          (answered line check p long c)
          (lost line (record s { can_char_received = 0 }))
          (record (read_in line m long) { port = line.putchar (read_in line m long).port (c ∷ []) })
  lost-Stands {m} long c allowed st =
      let r = Kept-IsReady (read_in-Kept line long m st.ready (rw (st.long) allowed)) st.ready in
      record {
        ready = record { table = r.table; bytes = r.bytes; room = r.room; file = r.file };
        long = st.long;
        mode =
            same_mode (line.putchar (read_in line m long).port (c ∷ []))
              (read_in line m long).blk_buffer m.ramfile m
            ∙ st.mode;
        port = there _ _ long c m st.mode st.port;
        running = st.running;
        due = st.due;
        byte = st.byte;
        tried = ap suc st.tried;
      }

  -- A try is lost in a round, and the rest goes on.
  pub lost_round :
      (payloads : List (List ℕ)) (long : Bool) (bytes : List ℕ) (status : Status) (fuel : ℕ)
      (s : Rx) (m : Modem P)
      → IsReady m
      → (long ≡ false) ⊎ (takes_long m ≡ true)
      → GivesBlock line (uses_crc m) m.port long bytes
      → check_block_no_and_crc s.expected_blk_number (size_of long) (read_in line m long)
        ≡ done (status, read_in line m long)
      → status ≢ recv_ok
      → s.nb_retry < 9
      → s.finished ≡ false
      → Delivers payloads fuel
          (lost line (record s { can_char_received = 0 }))
          (record (read_in line m long) {
            port = line.putchar (read_in line m long).port (answer_to line status ∷ []);
          })
      → Delivers payloads (suc fuel) s m
  lost_round payloads long bytes status fuel s m r allowed gives check bad few running
        (m', run, r', stored) =
      (
        m',
        step fuel s _ m _ running (
              round_block line long bytes status s m r allowed gives check
              ∙ settle-lost line status long s (read_in line m long) bad few)
            ∙ run,
        r',
        stored,
      )

  pub header_eot :
      (s : Rx) (m : Modem P)
      → handle_header line 4 s m
        ≡ done (
          record {
            status = recv_ok;
            blksize = 0;
            vars = record s { can_char_received = 0; finished = true };
          },
          m,
        )
  unfolding handle_header
  header_eot s m = refl

  pub silent_round :
      (s : Rx) (m : Modem P)
      → (line.getchar m.port 1).0.ok ≡ false
      → s.nb_retry < 9
      → round line s m ≡ done (lost line s, after_getchar line m)
  unfolding round getchar
  silent_round s m fails few = rw (fails, ◌>>=◌) (retry_run line s (after_getchar line m) few)

  pub none_free :
      {long_taken : Bool} {check : ℕ → Bool} {tries number : ℕ} {payloads : List (List ℕ)} {p : P}
      (b : Brings line long_taken check tries number payloads p)
      → rounds line b ≤ 0
      → ⊥
  unfolding rounds
  none_free (ended _) h = omega arith
  none_free (good _ _ _ _ _ _) h = omega arith
  none_free (silent _ _ _) h = omega arith
  none_free (repeated _ _ _ _ _ _ _) h = omega arith
  none_free (damaged _ _ _ _ _ _ _ _) h = omega arith

  -- EOT.
  pub eot_Delivers :
      (fuel : ℕ) (s : Rx) (m : Modem P)
      → IsReady m
      → s.finished ≡ false
      → Gives line m.port 1 (4 ∷ [])
      → 0 < m.ramfile.max_size - m.ramfile.write_offset
      → s.received_bytes < 2 ^ 32
      → Delivers [] (suc fuel) s m
  eot_Delivers fuel s m r running gives room small =
      let vars = record s { can_char_received = 0; finished = true } in
      let m₁ = after_getchar line m in
      let m' = record m₁ {
        port = line.putchar m₁.port (6 ∷ []);
        ramfile = appended m.ramfile [];
      } in
      let file = appended-IsValid m.ramfile [] r.file (omega arith) in
      let same : u32 (s.received_bytes + 0) ≡ s.received_bytes + 0 = omega arith in
      (
        m',
        step fuel s (kept line 0 vars) m m' running (
              round_run line 4 s (record { status = recv_ok; blksize = 0; vars = vars }) m m₁ gives
                (header_eot s m₁)
              ∙ settle-kept line 0 vars m₁ r.file (omega arith) room)
            ∙ stop fuel (kept line 0 vars) m' refl
            ∙ ap (λ n. done (n, m')) same,
        record { table = r.table; bytes = r.bytes; room = r.room; file = file },
        contents-appended m.ramfile [] r.file,
      )
