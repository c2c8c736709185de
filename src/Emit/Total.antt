-- ===== src/Emit/Total.antt =====
-- The loop of `lxmode_send_data_blocks` as a whole, and `lxmodem_emit`.
use light_modem.Base.{
  ℕ, zero, suc, ◌+◌, ◌*◌, ◌<◌, ◌≤◌, ◌≡◌, refl, ap, sym, ◌∙◌, Bool, true, false, [], ◌∷◌, arith,
  done, pure, ◌>>=◌, if◌then◌else◌, Option, none, some, ◌⊎◌, inl, inr, Bool-cases, minus_one,
}
use light_modem.Buffer.{Buffer}
use light_modem.Modem.{
  Modem, Protocol, xmodem, ymodem, Opts, with_chksum_128, with_crc_128, one_k, Line, putchar, can,
}
use light_modem.Receive.{build_and_send_cancel}
use light_modem.Emit.{
  Framing, framing, decode_preambule, Tx, tx_start, react, give_up, round, loop, send_data_blocks,
  begin, lxmodem_emit,
}
use light_modem.Emit.Sizes.{CanSend}
use light_modem.Emit.Answer.{measure, react_lem}
use light_modem.Emit.Transmit.{unread, IsBlockSize, Inv, wait_char_lem, transmit_lem}

if_false :
    {A B : Type 0} (b : Bool) (p q : A → B) (x : A) → b ≡ false → (if b then p else q) x ≡ q x
if_false b p q x e = rw e

module _ {P : Type 0} (line : Line P) (start : Buffer) (f : Framing)
    (allowed : IsBlockSize f.default_blksize) where
  round_lem :
      (s : Tx) (m : Modem P)
      → Inv start f s m
      → s.finished ≡ false
      → s.retry ≤ 9
      → (s' : Tx) × (m' : Modem P) × (round line f s m ≡ done (s', m'))
        × Inv start f s' m'
        × ((s'.finished ≡ true) ⊎ (measure s' (unread m') < measure s (unread m)))
  unfolding round
  round_lem s m v running few =
      let (s₁, m₁, sending, out) = transmit_lem line start f allowed s m v running few in
      let (c, q, waited) = wait_char_lem line start f allowed 10 m₁ in
      let (sound, nearer) = react_lem (unread m₁) s₁ out.number out.over c out.running out.few in
      (
        give_up (react c s₁),
        record m₁ { port = q },
        rw (sending, ◌>>=◌, waited, ◌>>=◌),
        record {
          sends = record {
            table = out.sends.table;
            bytes = out.sends.bytes;
            room = out.sends.room;
            file = out.sends.file;
            file_bytes = out.sends.file_bytes;
          };
          pending = inr out.pending;
          same = out.same;
          sound = sound;
        },
        less nearer out.nearer,
      )
    where
      less : {F : Type 0} {a b c : ℕ} → F ⊎ (a < b) → b ≤ c → F ⊎ (a < c)
      less (inl h) le = inl h
      less (inr h) le = inr (omega arith)

  few_left : (s : Tx) → (s.finished ≡ true) ⊎ (s.retry ≤ 9) → s.finished ≡ false → s.retry ≤ 9
  few_left s (inl ended) running = cc
  few_left s (inr h) running = h

  still :
      (s : Tx) {a b fuel : ℕ} {F : Type 0}
      → s.finished ≡ false
      → (s.finished ≡ true) ⊎ (b < suc fuel)
      → F ⊎ (a < b)
      → F ⊎ (a < fuel)
  still s running enough (inl h) = inl h
  still s running (inl ended) (inr less) = cc
  still s running (inr enough) (inr less) = inr (omega arith)

  pub loop_step :
      (fuel : ℕ) (s s₁ : Tx) (m m₁ : Modem P)
      → s.finished ≡ false
      → round line f s m ≡ done (s₁, m₁)
      → loop line f (suc fuel) s m ≡ loop line f fuel s₁ m₁
  unfolding loop
  loop_step fuel s s₁ m m₁ running run =
      if_false s.finished (pure s.emitted_bytes) (round line f s >>= loop line f fuel) m running
      ∙ rw (◌>>=◌, run)

  loop_lem :
      (fuel : ℕ) (s : Tx) (m : Modem P)
      → Inv start f s m
      → (s.finished ≡ true) ⊎ (measure s (unread m) < fuel)
      → (s' : Tx) × (m' : Modem P) × (loop line f fuel s m ≡ done (s'.emitted_bytes, m'))
        × Inv start f s' m'
        × (s'.finished ≡ true)
  unfolding loop
  loop_lem zero s m v (inl ended) = (s, m, rw ended, v, ended)
  loop_lem zero s m v (inr h) = absurd (omega arith)
  loop_lem (suc fuel) s m v enough = elim (Bool-cases s.finished) [
    | inl ended ↦ (s, m, rw ended, v, ended)
    | inr running ↦
        let (s₁, m₁, run₁, v₁, less) = round_lem s m v running (few_left s v.sound.few running) in
        let (s', m', run', v', over) = loop_lem fuel s₁ m₁ v₁ (still s running enough less) in
        (s', m', loop_step fuel s s₁ m m₁ running run₁ ∙ run', v', over)
  ]

  outcome :
      (s : Tx) (left : ℕ)
      → s.finished ≡ true
      → (s.finished ≡ false) ⊎ ((s.emitted_bytes ≡ minus_one) ⊎ (left ≡ 0))
      → (s.emitted_bytes ≡ minus_one) ⊎ (left ≡ 0)
  outcome s left ended (inl running) = cc
  outcome s left ended (inr h) = h

  pub loop_total :
      (fuel : ℕ) (m : Modem P)
      → CanSend f.with_crc f.default_blksize m
      → m.ramfile ≡ start
      → 11 * (unread m + 1) < fuel
      → (result : ℕ) × (m' : Modem P) × (loop line f fuel tx_start m ≡ done (result, m'))
        × CanSend f.with_crc f.default_blksize m'
        × (m'.ramfile ≡ record start { read_offset = m'.ramfile.read_offset })
        × ((result ≡ minus_one) ⊎ (unread m' ≡ 0))
  loop_total fuel m c e enough =
      let v : Inv start f tx_start m = record {
        sends = c;
        pending = inl refl;
        same = e ∙ ap (λ (b : Buffer). record start { read_offset = b.read_offset }) (sym e);
        sound = record {
          number = omega arith;
          few = inr (omega arith);
          fresh = inr (inl refl);
          over = inl refl;
          ended = inl refl;
        };
      } in
      let (s', m', run, v', ended) = loop_lem fuel tx_start m v (inr (omega arith)) in
      (s'.emitted_bytes, m', run, v'.sends, v'.same, outcome s' (unread m') ended v'.sound.ended)

pub framing-IsBlockSize :
    (protocol : Protocol) (opts : Opts) → IsBlockSize (framing protocol opts).default_blksize
unfolding framing
framing-IsBlockSize xmodem with_chksum_128 = inl refl
framing-IsBlockSize xmodem with_crc_128 = inl refl
framing-IsBlockSize xmodem one_k = inr refl
framing-IsBlockSize ymodem opts = inr refl

-- On a context that can send the blocks of its protocol and options, with more fuel than eleven
-- rounds for each unread byte of the RAM file and eleven more, `lxmodem_emit` returns, whatever the
-- line delivers: it does not run for ever and accesses no memory outside its buffers. The context
-- can send afterwards, too, and of the RAM file only the read offset has moved. The result is the
-- pattern of -1, or the whole file was read, or it is 0 and nothing was read.
pub lxmodem_emit_total :
    {P : Type 0} (line : Line P) (fuel : ℕ) (m : Modem P)
    → let f = framing m.protocol m.opts in
      CanSend f.with_crc f.default_blksize m
      → 11 * (unread m + 1) < fuel
      → (result : ℕ) × (m' : Modem P) × (lxmodem_emit line fuel m ≡ done (result, m'))
        × CanSend f.with_crc f.default_blksize m'
        × (m'.ramfile ≡ record m.ramfile { read_offset = m'.ramfile.read_offset })
        × ((result ≡ minus_one) ⊎ ((unread m' ≡ 0) ⊎ ((result ≡ 0) × (m'.ramfile ≡ m.ramfile))))
unfolding lxmodem_emit begin send_data_blocks build_and_send_cancel putchar
lxmodem_emit_total line fuel m c enough =
    let f = framing m.protocol m.opts in
    let allowed = framing-IsBlockSize m.protocol m.opts in
    let can_send : (q : _) → CanSend f.with_crc f.default_blksize (record m { port = q }) = λ q.
      record {
        table = c.table;
        bytes = c.bytes;
        room = c.room;
        file = c.file;
        file_bytes = c.file_bytes;
      } in
    let (answer, q, waited) = wait_char_lem line m.ramfile f allowed 10 m in
    elim (Option-cases answer) [
      | inl e ↦ (
        0,
        record m { port = q },
        rw (waited, ◌>>=◌, e),
        can_send q,
        refl,
        inr (inr (refl, refl)),
      )
      | inr (preambule, e) ↦ elim (Bool-cases (decode_preambule m.protocol m.opts preambule)) [
        | inl ok ↦
            let (result, m', run, c', same, full) =
              loop_total line m.ramfile f allowed fuel (record m { port = q }) (can_send q) refl
                enough in
            (result, m', rw (waited, ◌>>=◌, e, ok) run, c', same, sum_map full)
        | inr bad ↦ (
          minus_one,
          record m { port = line.putchar q (can ∷ can ∷ []) },
          rw (waited, ◌>>=◌, e, bad, ◌>>=◌),
          can_send (line.putchar q (can ∷ can ∷ [])),
          refl,
          inl refl,
        )
      ]
    ]
  where
    Option-cases : (o : Option ℕ) → (o ≡ none) ⊎ ((x : ℕ) × (o ≡ some x))
    Option-cases none = inl refl
    Option-cases (some x) = inr (x, refl)

    sum_map : {A B C : Type 0} → A ⊎ B → A ⊎ (B ⊎ C)
    sum_map (inl a) = inl a
    sum_map (inr b) = inr (inl b)
