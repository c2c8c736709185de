-- ===== src/Emit/Whole.antt =====
-- `lxmodem_emit` as a whole, to a receiver that takes the file.
use light_modem.Base.{
  ℕ, zero, suc, ◌+◌, ◌^◌, ◌<◌, ◌≤◌, ◌≡◌, ◌≢◌, refl, ap, ◌∙◌, true, List, [], ◌∷◌, arith, done,
  ◌>>=◌, inl, length, take-nil, drop-nil,
}
use light_modem.Buffer.Laws.{contents}
use light_modem.Modem.{Modem, Line}
use light_modem.Modem.Wait.{Comes}
use light_modem.Emit.{
  Framing, framing, decode_preambule, Tx, tx_start, loop, send_data_blocks, begin, lxmodem_emit,
}
use light_modem.Emit.Sizes.{CanSend}
use light_modem.Emit.Transmit.{IsBlockSize}
use light_modem.Emit.Total.{loop_step, framing-IsBlockSize}
use light_modem.Emit.Replies.{
  occupied, occupied-none, Takes, over, acked, refused, silent, rounds, wait_char-Comes,
}
use light_modem.Emit.Heard.{
  Before, msg_of, next_block, counted, react_acked, acked_due, react_over, round_answered,
  round_silent, tried_again, react_silent, react_refused,
}
use light_modem.Emit.Turn.{transmit-Due}

module _ {P : Type 0} (line : Line P) (f : Framing) (allowed : IsBlockSize f.default_blksize) where
  loop_ended :
      (fuel : ℕ) (s : Tx) (m : Modem P)
      → s.finished ≡ true
      → loop line f fuel s m ≡ done (s.emitted_bytes, m)
  unfolding loop
  loop_ended zero s m ended = rw ended
  loop_ended (suc fuel) s m ended = rw ended

  -- What the loop comes to.
  abbrev Emitted : ℕ → ℕ → List ℕ → Tx → Modem P → Type 0
  Emitted fuel emitted file s m =
      (m' : Modem P) × (loop line f fuel s m
        ≡ done (emitted + occupied f.default_blksize (length file), m'))
      × (contents m'.ramfile ≡ [])

  loop_takes :
      (fuel : ℕ) {tries number : ℕ} {file : List ℕ} {p : P} (s : Tx) (m : Modem P)
      → (b : Takes line f tries number file p) → m.port ≡ p
      → Before line f allowed tries number file s m
      → s.emitted_bytes + occupied f.default_blksize (length file) < 2 ^ 32
      → rounds line b ≤ fuel
      → Emitted fuel s.emitted_bytes file s m
  unfolding rounds
  loop_takes zero s m (over _ _ _ _) at d small enough = absurd (omega arith)
  loop_takes zero s m (acked _ _ _ _ _ _) at d small enough = absurd (omega arith)
  loop_takes zero s m (refused _ _ _ _ _ _ _ _ _) at d small enough = absurd (omega arith)
  loop_takes zero s m (silent _ _ _ _) at d small enough = absurd (omega arith)
  loop_takes (suc fuel) s m (over {tries = tries} {number = number} failures q few comes) at d small
        enough =
      let (s₁, m₁, run, g, port) = transmit-Due line f allowed tries number [] s m d in
      let nothing : msg_of line f allowed number [] ≡ 4 ∷ [] =
        rw (take-nil {A = ℕ} f.default_blksize) refl in
      let here : Comes line 1 (6 ∷ []) failures
          (line.putchar m.port (msg_of line f allowed number [])) q =
        rw (at, nothing) comes in
      let total : s₁.emitted_bytes ≡ s.emitted_bytes + occupied f.default_blksize 0 =
        omega (arith, g.same, occupied-none f.default_blksize allowed) in
      let turn =
        round_answered line f allowed s s₁ _ m m₁ 6 failures [] number q run port few here
          (react_over line f allowed tries number s.emitted_bytes s₁ m₁ g) in
      (
        record m₁ { port = q },
        loop_step line m.ramfile f allowed fuel s _ m _ d.running turn
            ∙ loop_ended fuel _ _ refl
            ∙ ap (λ n. done (n, record m₁ { port = q })) total,
        g.held.rest ∙ drop-nil f.default_blksize,
      )
  loop_takes (suc fuel) s m
        (acked {tries = tries} {number = number} {file = file} failures q few more comes next) at d
        small enough =
      let (s₁, m₁, run, g, port) = transmit-Due line f allowed tries number file s m d in
      let same : s₁.emitted_bytes ≡ s.emitted_bytes = g.same in
      let some_left : length file ≢ 0 = omega arith in
      let left = counted line f allowed file some_left in
      let turn =
        round_answered line f allowed s s₁ _ m m₁ 6 failures file number q run port few
          (rw at comes)
          (react_acked line f allowed tries number s.emitted_bytes file s₁ m₁ g some_left
            (omega (arith, same, small))) in
      let (m', run', empty) =
        loop_takes fuel (next_block line f allowed number file s₁) (record m₁ { port = q }) next
          refl (acked_due line f allowed tries number s.emitted_bytes file s₁ m₁ q g)
          (omega (arith, same, small, left)) (omega (arith, enough)) in
      (
        m',
        loop_step line m.ramfile f allowed fuel s _ m _ d.running turn
            ∙ run'
            ∙ ap (λ n. done (n, m')) (omega (arith, same, left)),
        empty,
      )
  loop_takes (suc fuel) s m
        (refused {tries = tries} {number = number} {file = file} failures byte q few again other ok
          comes next)
        at d small enough =
      let (s₁, m₁, run, g, port) = transmit-Due line f allowed tries number file s m d in
      let turn =
        round_answered line f allowed s s₁ _ m m₁ byte failures file number q run port few
          (rw at comes) (react_refused line f allowed tries byte s₁ g.tried again other ok) in
      let (m', run', empty) =
        loop_takes fuel (record s₁ { retry = suc tries }) (record m₁ { port = q }) next refl
          (tried_again line f allowed tries number s.emitted_bytes file s₁ m₁ q g)
          (omega (arith, g.same, small)) (omega (arith, enough)) in
      (
        m',
        loop_step line m.ramfile f allowed fuel s _ m _ d.running turn
            ∙ run'
            ∙ ap (λ n. done (n + occupied f.default_blksize (length file), m')) g.same,
        empty,
      )
  loop_takes (suc fuel) s m
        (silent {tries = tries} {number = number} {file = file} q again fails next) at d small
        enough =
      let (s₁, m₁, run, g, port) = transmit-Due line f allowed tries number file s m d in
      let turn =
        round_silent line f allowed s s₁ _ m m₁ file number q run port (rw at fails)
          (react_silent line f allowed tries s₁ g.tried again) in
      let (m', run', empty) =
        loop_takes fuel (record s₁ { retry = suc tries }) (record m₁ { port = q }) next refl
          (tried_again line f allowed tries number s.emitted_bytes file s₁ m₁ q g)
          (omega (arith, g.same, small)) (omega (arith, enough)) in
      (
        m',
        loop_step line m.ramfile f allowed fuel s _ m _ d.running turn
            ∙ run'
            ∙ ap (λ n. done (n + occupied f.default_blksize (length file), m')) g.same,
        empty,
      )

-- On a context that can send the blocks of its protocol and options, one of the first ten calls of
-- `getchar` brings a preamble that is accepted. The receiver acknowledges each block of the file, in
-- order, and then EOT; before it does, each of these may fail nine times: the answer is NAK, or at
-- the first try any other character, or ten calls of `getchar` fail. An answer comes with one of the
-- ten calls, and the line goes on as it does after the message that `message` describes, the same
-- one for each try. If all blocks together have less than 2 ^ 32 bytes, `lxmodem_emit`, with fuel for
-- the messages that go out, returns the number of these bytes, those of the file with the last block
-- filled up; and the RAM file is read to its end.
pub lxmodem_emit_lem :
    {P : Type 0} (line : Line P) (fuel failures preambule : ℕ) (m : Modem P) (p : P)
    → let f = framing m.protocol m.opts in
      failures < 10
      → Comes line 1 (preambule ∷ []) failures m.port p
      → decode_preambule m.protocol m.opts preambule ≡ true
      → CanSend f.with_crc f.default_blksize m
      → occupied f.default_blksize (length (contents m.ramfile)) < 2 ^ 32
      → (b : Takes line f 0 1 (contents m.ramfile) p) → rounds line b ≤ fuel
      → (m' : Modem P) × (lxmodem_emit line fuel m
          ≡ done (occupied f.default_blksize (length (contents m.ramfile)), m'))
        × (contents m'.ramfile ≡ [])
unfolding lxmodem_emit begin send_data_blocks
lxmodem_emit_lem line fuel failures preambule m p few comes asked c small b enough =
    let f = framing m.protocol m.opts in
    let heard = wait_char-Comes line 10 preambule failures m p few comes in
    let ready : Before line f (framing-IsBlockSize m.protocol m.opts) 0 1 (contents m.ramfile)
        tx_start (record m { port = p }) =
      record {
        sends = record {
          table = c.table;
          bytes = c.bytes;
          room = c.room;
          file = c.file;
          file_bytes = c.file_bytes;
        };
        byte = omega arith;
        due = refl;
        tried = refl;
        running = refl;
        held = inl (refl, refl);
      } in
    let (m', run, empty) =
      loop_takes line f (framing-IsBlockSize m.protocol m.opts) fuel tx_start
        (record m { port = p }) b refl ready (omega (arith, small)) enough in
    let none_yet : 0 + occupied f.default_blksize (length (contents m.ramfile))
        ≡ occupied f.default_blksize (length (contents m.ramfile)) =
      omega arith in
    (m', rw (heard, ◌>>=◌, asked) (run ∙ ap (λ n. done (n, m')) none_yet), empty)
