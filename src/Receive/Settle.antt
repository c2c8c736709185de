-- ===== src/Receive/Settle.antt =====
-- What a round of `lxmodem_receive` comes to after the `switch` on the header.
use light_modem.Base.{
  ℕ, ◌+◌, ◌-◌, ◌*◌, ◌≤◌, ◌≡◌, refl, ap, subst, ◌∙◌, true, false, List, [], ◌∷◌, arith, done, M,
  ◌>>=◌, drop, length, length-drop, Bool-cases, inl, inr, minus_one, ◌⊎◌,
}
use light_modem.Buffer.{Buffer}
use light_modem.Buffer.Laws.{contents}
use light_modem.Modem.{Modem, Line, putchar, ack, nak}
use light_modem.Receive.{
  Status, recv_ok, recv_previous_block, recv_error, is_ok, Rx, Handled, no_block, settle,
  build_and_send_reply,
}
use light_modem.Receive.Ready.{Kept, Kept-IsReady}
use light_modem.Receive.Round.{Effect}
use light_modem.Receive.Invariant.{Counts, measure, Inv, Ends, moved, retry_lem, keep_lem}

module _ {P : Type 0} (line : Line P) (start : Modem P) where
  count_of :
      (s : Rx) (kept : List ℕ) → Counts s kept → s.finished ≡ false → s.received_bytes ≡ length kept
  count_of s kept (inl e) running = e
  count_of s kept (inr failed) running = cc (failed.0)

  pub few_left :
      (s : Rx) → (s.finished ≡ true) ⊎ (s.nb_retry ≤ 9) → s.finished ≡ false → s.nb_retry ≤ 9
  few_left s (inl ended) running = cc
  few_left s (inr h) running = h

  Kept-Inv : {s : Rx} {m m' : Modem P} → Kept m m' → Inv start s m → Inv start s m'
  Kept-Inv {s} {m} {m'} k v = record {
    ready = Kept-IsReady k v.ready;
    number = v.number;
    retries = v.retries;
    few = v.few;
    kept = v.kept;
    stored = ap contents k.ramfile ∙ v.stored;
    counted = v.counted;
    frame = record {
      protocol = k.protocol ∙ v.frame.protocol;
      size = k.size ∙ v.frame.size;
      file_data = k.file_data ∙ v.frame.file_data;
      read_offset = ap (λ b. b.read_offset) k.ramfile ∙ v.frame.read_offset;
      max_size = ap (λ b. b.max_size) k.ramfile ∙ v.frame.max_size;
    };
  }

  -- The count of CAN characters is no part of the invariant.
  cleared :
      {s : Rx} {m : Modem P} (n : ℕ)
      → Inv start s m
      → Inv start (record s { can_char_received = n }) m
  cleared {s} {m} n v = record {
    ready = v.ready;
    number = v.number;
    retries = v.retries;
    few = v.few;
    kept = v.kept;
    stored = v.stored;
    counted = v.counted;
    frame = record {
      protocol = v.frame.protocol;
      size = v.frame.size;
      file_data = v.frame.file_data;
      read_offset = v.frame.read_offset;
      max_size = v.frame.max_size;
    };
  }

  reply_lem :
      (status : Status) (m : Modem P)
      → (q : P) × (build_and_send_reply line status m ≡ done (tt, record m { port = q }))
  unfolding build_and_send_reply putchar
  reply_lem recv_ok m = (line.putchar m.port (ack ∷ []), refl)
  reply_lem recv_previous_block m = (line.putchar m.port (ack ∷ []), refl)
  reply_lem recv_error m = (line.putchar m.port (nak ∷ []), refl)

  settle_retry :
      (h : Handled) (m : Modem P)
      → is_ok h.status ≡ false
      → Inv start h.vars m
      → h.vars.nb_retry ≤ 9
      → Ends start (settle line h) m (measure h.vars m)
  unfolding settle
  settle_retry h m bad v few =
      let (q, sent) = reply_lem h.status m in
      let (s', m', run, v', less) =
        retry_lem line start h.vars (record m { port = q }) (moved line start q v) few in
      (s', m', rw (sent, ◌>>=◌, bad) run, v', less)

  settle_keep :
      (h : Handled) (m : Modem P) (v : Inv start h.vars m)
      → is_ok h.status ≡ true
      → h.vars.received_bytes ≡ length v.kept
      → h.blksize ≤ 1024
      → h.blksize ≤ length (drop 2 m.blk_buffer.buffer)
      → (128 ≤ h.blksize) ⊎ ((h.blksize ≡ 0) × (h.vars.finished ≡ true))
      → Ends start (settle line h) m (measure h.vars m)
  unfolding settle
  settle_keep h m v good count below enough kind =
      let (q, sent) = reply_lem h.status m in
      let (s', m', run, v', less) =
        keep_lem line start h.blksize h.vars (record m { port = q }) (moved line start q v) count
          below enough kind in
      (s', m', rw (sent, ◌>>=◌, good) run, v', less)

  -- What is left depends on the RAM file and the retries alone.
  Ends-move :
      (run : M (Modem P) Rx) (m : Modem P) {k k' : ℕ}
      → k ≡ k'
      → Ends start run m k
      → Ends start run m k'
  Ends-move run m e h = subst (λ k. Ends start run m k) e h

  measure-Kept : (s : Rx) {m m' : Modem P} → Kept m m' → measure s m' ≡ measure s m
  measure-Kept s k =
      ap (λ (b : Buffer). 10 * (b.max_size - b.write_offset) + (10 - s.nb_retry)) k.ramfile

  settle_read :
      (s : Rx) (m m' : Modem P) (status : Status) (blksize : ℕ)
      → Inv start s m
      → s.finished ≡ false
      → 128 ≤ blksize
      → blksize ≤ 1024
      → blksize + 2 ≤ length m.blk_buffer.buffer
      → Kept m m'
      → let h : Handled = record {
        status = status;
        blksize = blksize;
        vars = record s { can_char_received = 0 };
      } in
        Ends start (settle line h) m' (measure s m)
  settle_read s m m' status blksize v running low high fits k =
      let s₁ = record s { can_char_received = 0 } in
      let h : Handled = record { status = status; blksize = blksize; vars = s₁ } in
      let v₁ = cleared 0 (Kept-Inv k v) in
      Ends-move (settle line h) m' (measure-Kept s k) (elim (Bool-cases (is_ok status)) [
        | inl good ↦
            settle_keep h m' v₁ good (count_of s₁ v₁.kept v₁.counted running) high
              (omega (arith, length-drop 2 m'.blk_buffer.buffer, k.size)) (inl low)
        | inr bad ↦ settle_retry h m' bad v₁ (few_left s v.few running)
      ])

  settle_over :
      (s : Rx) (m : Modem P)
      → Inv start s m
      → s.finished ≡ false
      → let h : Handled = record {
        status = recv_ok;
        blksize = 0;
        vars = record s { can_char_received = 0; finished = true };
      } in
        Ends start (settle line h) m (measure s m)
  unfolding is_ok
  settle_over s m v running =
      let s₁ = record s { can_char_received = 0; finished = true } in
      let h : Handled = record { status = recv_ok; blksize = 0; vars = s₁ } in
      let count = count_of s v.kept v.counted running in
      let v₁ : Inv start s₁ m = record {
        ready = v.ready;
        number = v.number;
        retries = v.retries;
        few = inl refl;
        kept = v.kept;
        stored = v.stored;
        counted = inl count;
        frame = record {
          protocol = v.frame.protocol;
          size = v.frame.size;
          file_data = v.frame.file_data;
          read_offset = v.frame.read_offset;
          max_size = v.frame.max_size;
        };
      } in
      settle_keep h m v₁ refl count (omega arith) (omega arith) (inr (refl, refl))

  settle_cancelled :
      (s : Rx) (m : Modem P) (n : ℕ)
      → Inv start s m
      → s.finished ≡ false
      → Ends start
          (settle line (
            no_block
              (record s { can_char_received = n; finished = true; received_bytes = minus_one })))
          m
          (measure s m)
  unfolding is_ok
  settle_cancelled s m n v running =
      let s₁ = record s { can_char_received = n; finished = true; received_bytes = minus_one } in
      let v₁ : Inv start s₁ m = record {
        ready = v.ready;
        number = v.number;
        retries = v.retries;
        few = inl refl;
        kept = v.kept;
        stored = v.stored;
        counted = inr (refl, refl);
        frame = record {
          protocol = v.frame.protocol;
          size = v.frame.size;
          file_data = v.frame.file_data;
          read_offset = v.frame.read_offset;
          max_size = v.frame.max_size;
        };
      } in
      settle_retry (no_block s₁) m refl v₁ (few_left s v.few running)

  pub settle_lem :
      (s : Rx) (m : Modem P) (h : Handled) (m' : Modem P)
      → Inv start s m
      → s.finished ≡ false
      → Effect s m h m'
      → Ends start (settle line h) m' (measure s m)
  unfolding is_ok
  settle_lem s m h m' v running (Effect.read status blksize low high fits e k) =
      rw e (settle_read s m m' status blksize v running low high fits k)
  settle_lem s m h m' v running (Effect.over e same) = rw (e, same) (settle_over s m v running)
  settle_lem s m h m' v running (Effect.none_read n e same) =
      rw (e, same)
        (settle_retry (no_block (record s { can_char_received = n })) m refl (cleared n v)
          (few_left s v.few running))
  settle_lem s m h m' v running (Effect.cancelled n e same) =
      rw (e, same) (settle_cancelled s m n v running)
