-- ===== src/Receive/Round.antt =====
-- What the `switch` of `lxmodem_receive` on the header character may do.
use light_modem.Base.{
  ℕ, ◌+◌, ◌≤◌, ◌<◌, ◌≡◌, refl, true, arith, done, ◌>>=◌, length, Bool-cases, inl, inr, leb, ◌==◌,
  u32, minus_one,
}
use light_modem.Modem.{Modem, Line, soh, stx, eot, can}
use light_modem.Receive.{
  Status, recv_ok, Rx, Handled, handle_block, handle_can, handle_header, no_block,
}
use light_modem.Receive.Ready.{IsReady, Kept, IsAllowed, takes_long, receive_block_lem, block_fits}

module _ {P : Type 0} where
  -- What the `switch` on the header may leave, started at the variables `s` and the context `m`.
  pub data Effect (s : Rx) (m : Modem P) (h : Handled) (m' : Modem P) : Type 0 where
    -- A block was read.
    read :
        (status : Status) (blksize : ℕ)
        → 128 ≤ blksize
        → blksize ≤ 1024
        → blksize + 2 ≤ length m.blk_buffer.buffer
        → h
          ≡ record { status = status; blksize = blksize; vars = record s { can_char_received = 0 } }
        → Kept m m'
        → Effect s m h m'
    -- The transfer is over.
    over :
        h ≡ record {
          status = recv_ok;
          blksize = 0;
          vars = record s { can_char_received = 0; finished = true };
        }
        → m' ≡ m
        → Effect s m h m'
    -- Nothing came of it.
    none_read :
        (n : ℕ) → h ≡ no_block (record s { can_char_received = n }) → m' ≡ m → Effect s m h m'
    -- The second CAN.
    cancelled :
        (n : ℕ)
        → h
          ≡ no_block
              (record s { can_char_received = n; finished = true; received_bytes = minus_one })
        → m' ≡ m
        → Effect s m h m'

module _ {P : Type 0} (line : Line P) where
  handle_block_lem :
      (blksize : ℕ) (s : Rx) (m : Modem P)
      → IsReady m
      → IsAllowed m blksize
      → s.expected_blk_number < 256
      → (h : Handled) × (m' : Modem P) × (handle_block line blksize s m ≡ done (h, m'))
        × Effect s m h m'
  unfolding handle_block
  handle_block_lem blksize s m r allowed lt =
      let (status, m', run, k) =
        receive_block_lem line s.expected_blk_number blksize m r allowed lt in
      let h : Handled = record {
        status = status;
        blksize = blksize;
        vars = record s { can_char_received = 0 };
      } in
      (
        h,
        m',
        rw (run, ◌>>=◌),
        Effect.read status blksize (ground arith) (ground arith)
            (omega (arith, block_fits {m = m} blksize r allowed)) refl k,
      )

  handle_can_lem : (s : Rx) (m : Modem P) → Effect s m (handle_can s) m
  unfolding handle_can
  handle_can_lem s m = elim (Bool-cases (leb 2 (u32 (s.can_char_received + 1)))) [
    | inl e ↦ Effect.cancelled (u32 (s.can_char_received + 1)) (rw e) refl
    | inr e ↦ Effect.none_read (u32 (s.can_char_received + 1)) (rw e) refl
  ]

  pub handle_header_lem :
      (header : ℕ) (s : Rx) (m : Modem P)
      → IsReady m
      → s.expected_blk_number < 256
      → (h : Handled) × (m' : Modem P) × (handle_header line header s m ≡ done (h, m'))
        × Effect s m h m'
  unfolding handle_header
  handle_header_lem header s m r lt =
      let ended : Handled = record {
        status = recv_ok;
        blksize = 0;
        vars = record s { can_char_received = 0; finished = true };
      } in
      elim (Bool-cases (header == soh)) [
        | inl e ↦ rw e (handle_block_lem 128 s m r (inl refl) lt)
        | inr e₁ ↦ elim (Bool-cases (header == stx)) [
          | inl e ↦ elim (Bool-cases (takes_long m)) [
            | inl l ↦ rw (e₁, e, l) (handle_block_lem 1024 s m r (inr (refl, l)) lt)
            | inr l ↦
                rw (e₁, e, l)
                  (
                    no_block (record s { can_char_received = 0 }),
                    m,
                    refl,
                    Effect.none_read 0 refl refl,
                  )
          ]
          | inr e₂ ↦ elim (Bool-cases (header == eot)) [
            | inl e ↦ rw (e₁, e₂, e) (ended, m, refl, Effect.over refl refl)
            | inr e₃ ↦ elim (Bool-cases (header == can)) [
              | inl e ↦ rw (e₁, e₂, e₃, e) (handle_can s, m, refl, handle_can_lem s m)
              | inr e ↦
                  rw (e₁, e₂, e₃, e)
                    (no_block s, m, refl, Effect.none_read s.can_char_received refl refl)
            ]
          ]
        ]
      ]
