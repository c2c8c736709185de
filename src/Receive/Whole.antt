-- ===== src/Receive/Whole.antt =====
-- A whole reception by `lxmodem_receive` of src/lmodem_rx.c on a line that brings blocks one by one.
use light_modem.Base.{
  ℕ, zero, suc, ◌+◌, ◌-◌, ◌^◌, ◌<◌, ◌≤◌, ◌≡◌, ◌⊎◌, refl, sym, ap, ◌∙◌, Bool, true, false, List, [],
  ◌∷◌, ◌++◌, done, arith, length, take, drop, take-append, length-append,
}
use light_modem.Buffer.Laws.{contents}
use light_modem.Frame.{block, trailer}
use light_modem.Modem.{Modem, Line, putchar}
use light_modem.Receive.{
  Rx, recv_ok, recv_previous_block, recv_error, uses_crc, lxmodem_receive, rx_start,
  build_and_send_preambule, preambule,
}
use light_modem.Receive.Block.{payload_of}
use light_modem.Receive.Ready.{IsReady, takes_long, after_getchar}
use light_modem.Receive.Sequence.{
  size_of, joined, behind, Brings, rounds, ended, good, silent, repeated, damaged,
}
use light_modem.Receive.Delivery.{read_in, lost, kept, Status-cases, verdict, payload_read}
use light_modem.Receive.Steps.{
  Stands, Delivers, step, here, same_mode, lost-Stands, lost_round, silent_round, none_free,
  eot_Delivers,
}
use light_modem.Receive.Keep.{stored_in, good_round, good_Stands, good_Delivers}

module _ {P : Type 0} (line : Line P) where
  deliver :
      (fuel : ℕ) {long_taken : Bool} {check : ℕ → Bool} {tries number : ℕ}
      {payloads : List (List ℕ)} {p : P} (b : Brings line long_taken check tries number payloads p)
      (s : Rx) (m : Modem P)
      → rounds line b ≤ fuel
      → Stands line long_taken check tries number p s m
      → length (joined payloads) < m.ramfile.max_size - m.ramfile.write_offset
      → s.received_bytes + length (joined payloads) < 2 ^ 32
      → Delivers line payloads fuel s m
  unfolding rounds
  deliver zero b s m enough st room small = absurd (none_free line b enough)
  deliver (suc fuel) (ended gives) s m enough st room small =
      eot_Delivers line fuel s m st.ready st.running (rw (st.port) gives) (omega arith)
        (omega arith)
  deliver (suc fuel) {long_taken} {check} {tries} {number} {p}
        (good {payloads = more_payloads} long payload allowed size gives more) s m enough st room
        small =
      let blk = size_of long in
      let gives' =
        here line check p long (block (check blk) number payload) m st.mode st.port gives in
      let allowed' : (long ≡ false) ⊎ (takes_long m ≡ true) = rw (st.long) allowed in
      let v =
        verdict line long (block (check blk) number payload) number m st.ready allowed' gives'
          st.byte in
      let at : take blk (drop 2 (block (check blk) number payload)) ≡ payload =
        ap (λ k. take k (payload ++ trailer (check blk) payload)) (sym size)
        ∙ take-append payload (trailer (check blk) payload) in
      let chunk : payload_of (read_in line m long).blk_buffer.buffer blk ≡ payload =
        payload_read line long (block (check blk) number payload) number m st.ready allowed' gives'
          st.byte
        ∙ at in
      let is : v.0 ≡ recv_ok = v.2.1 (rw (st.mode, at)) in
      let all = length-append payload (joined more_payloads) in
      let fits : size_of long < m.ramfile.max_size - m.ramfile.write_offset =
        omega (arith, all, size, room) in
      good_Delivers line long payload more_payloads fuel s m st.ready st.running size small
        (good_round line long (block (check blk) number payload) payload s m st.ready allowed'
          gives' (rw (st.due) (v.1 ∙ ap (λ z. done (z, read_in line m long)) is)) chunk size fits)
        (deliver fuel more (kept line blk (record s { can_char_received = 0 }))
          (stored_in line long payload m) (omega arith)
          (good_Stands line long payload allowed (omega (arith, all, room)) st)
          (unfold stored_in in omega (arith, all, room)) (omega (arith, all, size, small)))
  deliver (suc fuel) (silent few fails more) s m enough st room small =
      let (m', run, r', stored) =
        deliver fuel more (lost line s) (after_getchar line m) (omega arith)
          (record {
            ready = record {
              table = st.ready.table;
              bytes = st.ready.bytes;
              room = st.ready.room;
              file = st.ready.file;
            };
            long = st.long;
            mode = same_mode line (line.getchar m.port 1).1 m.blk_buffer m.ramfile m ∙ st.mode;
            port = ap (λ q. behind line q 1) st.port;
            running = st.running;
            due = st.due;
            byte = st.byte;
            tried = ap suc st.tried;
          })
          room small in
      (
        m',
        step line fuel s (lost line s) m (after_getchar line m) st.running
              (silent_round line s m (rw (st.port) fails) (omega (arith, st.tried, few)))
            ∙ run,
        r',
        stored,
      )
  deliver (suc fuel) {long_taken} {check} {tries} {number} {payloads} {p}
        (repeated long bytes few allowed gives again more) s m enough st room small =
      let gives' = here line check p long bytes m st.mode st.port gives in
      let allowed' : (long ≡ false) ⊎ (takes_long m ≡ true) = rw (st.long) allowed in
      let (status, run, _, previous) =
        verdict line long bytes number m st.ready allowed' gives' st.byte in
      let is : status ≡ recv_previous_block = previous.1 again in
      lost_round line payloads long bytes recv_previous_block fuel s m st.ready allowed' gives'
        (rw (st.due) (run ∙ ap (λ z. done (z, read_in line m long)) is)) (λ e. cc)
        (omega (arith, st.tried, few)) st.running
        (deliver fuel more (lost line (record s { can_char_received = 0 }))
          (record (read_in line m long) { port = line.putchar (read_in line m long).port (6 ∷ []) })
          (omega arith) (lost-Stands line long 6 allowed st) room small)
  deliver (suc fuel) {long_taken} {check} {tries} {number} {payloads} {p}
        (damaged long bytes few allowed gives other bad more) s m enough st room small =
      let gives' = here line check p long bytes m st.mode st.port gives in
      let allowed' : (long ≡ false) ⊎ (takes_long m ≡ true) = rw (st.long) allowed in
      let (status, run, ok, previous) =
        verdict line long bytes number m st.ready allowed' gives' st.byte in
      let is : status ≡ recv_error =
        Status-cases status (λ e. bad (rw (← st.mode) (ok.0 e))) (λ e. other (previous.0 e)) in
      lost_round line payloads long bytes recv_error fuel s m st.ready allowed' gives'
        (rw (st.due) (run ∙ ap (λ z. done (z, read_in line m long)) is)) (λ e. cc)
        (omega (arith, st.tried, few)) st.running
        (deliver fuel more (lost line (record s { can_char_received = 0 }))
          (record (read_in line m long) {
            port = line.putchar (read_in line m long).port (21 ∷ []);
          })
          (omega arith) (lost-Stands line long 21 allowed st) room small)

-- The whole reception, for deliveries that are described without the context.
pub lxmodem_receive_at :
    {P : Type 0} (line : Line P) (fuel : ℕ) (payloads : List (List ℕ)) (m : Modem P)
    {long_taken : Bool} {check : ℕ → Bool} {p : P} (b : Brings line long_taken check 0 1 payloads p)
    → takes_long m ≡ long_taken
    → uses_crc m ≡ check
    → line.putchar m.port (preambule m.protocol m.opts ∷ []) ≡ p
    → IsReady m
    → length (joined payloads) < m.ramfile.max_size - m.ramfile.write_offset
    → rounds line b ≤ fuel
    → (m' : Modem P) × (lxmodem_receive line fuel m ≡ done (length (joined payloads), m'))
      × (contents m'.ramfile ≡ contents m.ramfile ++ joined payloads)
      × IsReady m'
unfolding lxmodem_receive build_and_send_preambule putchar
lxmodem_receive_at line fuel payloads m b long crc at r room enough =
    let q = line.putchar m.port (preambule m.protocol m.opts ∷ []) in
    let (m', run, r', stored) =
      deliver line fuel b rx_start (record m { port = q }) enough
        (record {
          ready = record { table = r.table; bytes = r.bytes; room = r.room; file = r.file };
          long = long;
          mode = same_mode line q m.blk_buffer m.ramfile m ∙ crc;
          port = at;
          running = refl;
          due = refl;
          byte = omega arith;
          tried = refl;
        })
        room (omega (arith, room, r.file.small)) in
    (
      m',
      run ∙ ap (λ (n : ℕ). done (n, m')) {x = 0 + length (joined payloads)} (omega arith),
      stored,
      r',
    )

-- On a ready context, the line brings payloads of 128 bytes, or of 1024 where these are taken, in
-- valid blocks that are numbered from 1 modulo 256, and then EOT. In front of each block, and of
-- EOT, at most nine tries may be lost: a call of `getchar` for the first character fails, the block
-- before comes again, or a damaged block comes; the line goes on as it does after the answer, NAK
-- to a damaged block and ACK to the others. If all the payloads together are shorter than the free
-- space of the RAM file, `lxmodem_receive`, with fuel for the calls for a first character, returns
-- the number of their bytes; the RAM file holds what it held and then the payloads, each of them
-- once and in order; and the context is ready again.
pub lxmodem_receive_lem :
    {P : Type 0} (line : Line P) (fuel : ℕ) (payloads : List (List ℕ)) (m : Modem P)
    (b : Brings line
      (takes_long m)
      (uses_crc m)
      0
      1
      payloads
      (line.putchar m.port (preambule m.protocol m.opts ∷ [])))
    → IsReady m
    → length (joined payloads) < m.ramfile.max_size - m.ramfile.write_offset
    → rounds line b ≤ fuel
    → (m' : Modem P) × (lxmodem_receive line fuel m ≡ done (length (joined payloads), m'))
      × (contents m'.ramfile ≡ contents m.ramfile ++ joined payloads)
      × IsReady m'
lxmodem_receive_lem line fuel payloads m b r room enough =
    lxmodem_receive_at line fuel payloads m b refl refl refl r room enough
