-- ===== src/Receive/Total.antt =====
-- The loop of `lxmodem_receive` as a whole, from a context that is ready.
use light_modem.Base.{
  ℕ, zero, suc, ◌+◌, ◌-◌, ◌*◌, ◌<◌, ◌≡◌, refl, ap, ◌∙◌, sym, true, false, List, [], ◌∷◌, ◌++◌,
  arith, done, ◌>>=◌, length, Bool-cases, inl, inr, get_or, minus_one, ◌⊎◌, append-nil,
}
use light_modem.Buffer.Laws.{contents}
use light_modem.Modem.{Modem, Line, getchar, putchar}
use light_modem.Receive.{
  Rx, rx_start, round, loop, lxmodem_receive, build_and_send_preambule, preambule,
}
use light_modem.Receive.Ready.{IsReady}
use light_modem.Receive.Round.{handle_header_lem}
use light_modem.Receive.Invariant.{IsFramed, Counts, measure, Inv, Ends, moved, retry_lem}
use light_modem.Receive.Settle.{few_left, settle_lem}

module _ {P : Type 0} (line : Line P) (start : Modem P) where
  round_lem :
      (s : Rx) (m : Modem P)
      → Inv start s m
      → s.finished ≡ false
      → Ends start (round line s) m (measure s m)
  unfolding round getchar
  round_lem s m v running = elim (Bool-cases (line.getchar m.port 1).0.ok) [
    | inl ok ↦
        let m₁ = record m { port = (line.getchar m.port 1).1 } in
        let v₁ = moved line start (line.getchar m.port 1).1 v in
        let (h, m₂, run₂, effect) =
          handle_header_lem line (get_or (line.getchar m.port 1).0.bytes 0 0) s m₁ v₁.ready
            v₁.number in
        let (s', m', run₃, v', less) = settle_lem line start s m₁ h m₂ v₁ running effect in
        (s', m', rw (ok, run₂, ◌>>=◌) run₃, v', less)
    | inr bad ↦
        let (s', m', run, v', less) =
          retry_lem line start s (record m { port = (line.getchar m.port 1).1 })
            (moved line start (line.getchar m.port 1).1 v) (few_left line start s v.few running) in
        (s', m', rw (◌>>=◌, bad, ◌>>=◌) run, v', less)
  ]

  still :
      (s : Rx) (m : Modem P) (s₁ : Rx) (m₁ : Modem P) (fuel : ℕ)
      → s.finished ≡ false
      → (s.finished ≡ true) ⊎ (measure s m < suc fuel)
      → (s₁.finished ≡ true) ⊎ (measure s₁ m₁ < measure s m)
      → (s₁.finished ≡ true) ⊎ (measure s₁ m₁ < fuel)
  still s m s₁ m₁ fuel running enough (inl ended) = inl ended
  still s m s₁ m₁ fuel running (inl ended) (inr less) = cc
  still s m s₁ m₁ fuel running (inr enough) (inr less) = inr (omega arith)

  loop_lem :
      (fuel : ℕ) (s : Rx) (m : Modem P)
      → Inv start s m
      → (s.finished ≡ true) ⊎ (measure s m < fuel)
      → (s' : Rx) × (m' : Modem P) × (loop line fuel s m ≡ done (s'.received_bytes, m'))
        × Inv start s' m'
  unfolding loop round still
  loop_lem zero s m v (inl ended) = (s, m, rw ended, v)
  loop_lem zero s m v (inr h) = absurd (omega arith)
  loop_lem (suc fuel) s m v enough = elim (Bool-cases s.finished) [
    | inl ended ↦ (s, m, rw ended, v)
    | inr running ↦
        let (s₁, m₁, run₁, v₁, less) = round_lem s m v running in
        let (s', m', run', v') =
          loop_lem fuel s₁ m₁ v₁ (still s m s₁ m₁ fuel running enough less) in
        (s', m', rw (running, ◌>>=◌, run₁, ◌>>=◌) run', v')
  ]

  -- The context in which the receiver starts meets the invariant.
  start_Inv :
      (m : Modem P)
      → IsReady m
      → m.ramfile ≡ start.ramfile
      → IsFramed start m
      → Inv start rx_start m
  start_Inv m r e framed = record {
    ready = r;
    number = omega arith;
    retries = omega arith;
    few = inr (omega arith);
    kept = [];
    stored = ap contents e ∙ sym (append-nil (contents start.ramfile));
    counted = inl refl;
    frame = framed;
  }

Counts-outcome :
    (s : Rx) (kept : List ℕ)
    → Counts s kept
    → (s.received_bytes ≡ length kept) ⊎ (s.received_bytes ≡ minus_one)
Counts-outcome s kept (inl e) = inl e
Counts-outcome s kept (inr h) = inr (h.1)

-- What `lxmodem_receive` comes to, and what it leaves alone.
pub receive_lem :
    {P : Type 0} (line : Line P) (fuel : ℕ) (m : Modem P)
    → IsReady m
    → 10 * (m.ramfile.max_size - m.ramfile.write_offset) + 10 < fuel
    → (result : ℕ) × (m' : Modem P) × (added : List ℕ) × (lxmodem_receive line fuel m
        ≡ done (result, m'))
      × IsReady m'
      × (contents m'.ramfile ≡ contents m.ramfile ++ added)
      × ((result ≡ length added) ⊎ (result ≡ minus_one))
      × IsFramed m m'
unfolding lxmodem_receive build_and_send_preambule putchar
receive_lem line fuel m r enough =
    let m₁ = record m { port = line.putchar m.port (preambule m.protocol m.opts ∷ []) } in
    let r₁ : IsReady m₁ = record {
      table = r.table;
      bytes = r.bytes;
      room = r.room;
      file = r.file;
    } in
    let v = start_Inv line m m₁ r₁ refl (record {
      protocol = refl;
      size = refl;
      file_data = refl;
      read_offset = refl;
      max_size = refl;
    }) in
    let (s', m', run, v') = loop_lem line m fuel rx_start m₁ v (inr (omega (arith, enough))) in
    (
      s'.received_bytes,
      m',
      v'.kept,
      run,
      v'.ready,
      v'.stored,
      Counts-outcome s' v'.kept v'.counted,
      record {
        protocol = v'.frame.protocol;
        size = v'.frame.size;
        file_data = v'.frame.file_data;
        read_offset = v'.frame.read_offset;
        max_size = v'.frame.max_size;
      },
    )

-- On a context that is ready, with more fuel than ten rounds for each byte of room in the RAM file
-- and ten more, `lxmodem_receive` returns, whatever the line delivers: it does not run for ever and
-- accesses no memory outside its buffers. The context is ready again afterwards, and what the RAM
-- file held stands in front of what was received. The result is the number of the bytes that were
-- added, or the pattern of -1.
pub lxmodem_receive_total :
    {P : Type 0} (line : Line P) (fuel : ℕ) (m : Modem P)
    → IsReady m
    → 10 * (m.ramfile.max_size - m.ramfile.write_offset) + 10 < fuel
    → (result : ℕ) × (m' : Modem P) × (added : List ℕ) × (lxmodem_receive line fuel m
        ≡ done (result, m'))
      × IsReady m'
      × (contents m'.ramfile ≡ contents m.ramfile ++ added)
      × ((result ≡ length added) ⊎ (result ≡ minus_one))
lxmodem_receive_total line fuel m r enough =
    let (result, m', added, run, ready, stored, counted, _) = receive_lem line fuel m r enough in
    (result, m', added, run, ready, stored, counted)
