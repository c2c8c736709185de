-- ===== src/Ymodem/Arrival.antt =====
-- The wait for block 0 in `lymodem_receive` of src/lmodem_rx.c, on a line that brings one.
use light_modem.Base.{
  ℕ, zero, suc, ◌+◌, ◌<◌, ◌≤◌, ◌≡◌, refl, ap, ◌∙◌, Bool, true, false, List, [], ◌∷◌, ◌++◌, done,
  arith, IsBytes, length, take, drop, take-append, ◌>>=◌, if◌then◌else◌, ◌||◌, put_bytes,
}
use light_modem.Crc
use light_modem.Frame.{block}
use light_modem.Modem.{Modem, Line, ymodem, ccitt_polynome, getchar, putchar, ack}
use light_modem.Modem.Wait.{Comes}
use light_modem.Receive.{recv_ok, uses_crc, is_ok, build_and_send_reply}
use light_modem.Receive.Ready.{after_getchar, after_read, getchar_block_lem, after_read-Kept}
use light_modem.Emit.Message.{length-block}
use light_modem.Emit.Link.{accepted}
use light_modem.Ymodem.Receive.{receive_block0, judge_block0, wait_block0}
use light_modem.Ymodem.NextFile.{Unchanged, Unchanged-trans, Unchanged-port}

-- Block 0 and its first character, with 128 or 1024 bytes.
abbrev pub header_of : Bool → ℕ
header_of long = if long then 2 else 1

abbrev pub size_of : Bool → ℕ
size_of long = if long then 1024 else 128

either : (b : Bool) → (b || true) ≡ true
either b = ground arith

module _ {P : Type 0} (line : Line P) where
  -- Block 0 is in the block buffer, ACK was sent on the port `q` behind it, and nothing else has
  -- changed.
  pub record Arrived (payload : List ℕ) (q : P) (m m' : Modem P) : Type 0 where
    pub same : Unchanged m m'
    pub after : List ℕ
    pub there : m'.blk_buffer.buffer ≡ block true 0 payload ++ after
    pub max_size : m'.blk_buffer.max_size ≡ m.blk_buffer.max_size
    pub port : m'.port ≡ line.putchar q (ack ∷ [])

  later :
      {payload : List ℕ} {q : P} {m m₁ m' : Modem P}
      → Unchanged m m₁
      → m₁.blk_buffer.max_size ≡ m.blk_buffer.max_size
      → Arrived payload q m₁ m'
      → Arrived payload q m m'
  later first size a = record {
    same = Unchanged-trans first a.same;
    after = a.after;
    there = a.there;
    max_size = a.max_size ∙ size;
    port = a.port;
  }

  receive_block0-Arrived :
      (fuel blksize retry failures : ℕ) (payload : List ℕ) (m : Modem P) (q : P)
      → m.crc16 ≡ Crc.init ccitt_polynome
      → IsBytes m.blk_buffer.buffer
      → m.protocol ≡ ymodem
      → length payload ≡ blksize
      → 2 + blksize + 2 ≤ length m.blk_buffer.buffer
      → Comes line (2 + blksize + 2) (block true 0 payload) failures m.port q
      → failures < fuel
      → (m' : Modem P) × (receive_block0 line fuel blksize retry m ≡ done (recv_ok, m'))
        × Arrived payload q m m'
  unfolding receive_block0 judge_block0 build_and_send_reply is_ok putchar uses_crc
  receive_block0-Arrived zero blksize retry failures payload m q table bytes proto size room comes
        enough =
      absurd (omega arith)
  receive_block0-Arrived (suc fuel) blksize retry zero payload m q table bytes proto size room comes
        enough =
      let m₁ = after_read line (2 + blksize + 2) m in
      let kept = after_read-Kept line (2 + blksize + 2) m room bytes in
      let after = drop (0 + length (block true 0 payload)) m.blk_buffer.buffer in
      let there : m₁.blk_buffer.buffer ≡ block true 0 payload ++ after =
        ap (put_bytes m.blk_buffer.buffer 0) comes.1 in
      let start : take (2 + blksize + 2) m₁.blk_buffer.buffer ≡ block true 0 payload =
        ap (take (2 + blksize + 2)) there
        ∙ ap (λ k. take k (block true 0 payload ++ after)) {y = length (block true 0 payload)}
            (omega (arith, length-block true 0 payload, size))
        ∙ take-append (block true 0 payload) after in
      let (ok, _) =
        accepted true 0 blksize payload m₁ size (omega arith) table kept.bytes
          (rw (proto) (either m.with_crc)) start in
      (
        record m₁ { port = line.putchar m₁.port (ack ∷ []) },
        rw (getchar_block_lem line (2 + blksize + 2) m room, ◌>>=◌, comes.0, ok, ◌>>=◌),
        record {
          same =
              Unchanged-trans (record { kept = kept; max_size = refl; current_size = refl })
                (Unchanged-port (line.putchar m₁.port (ack ∷ [])) m₁ kept.bytes);
          after = after;
          there = there;
          max_size = refl;
          port = ap (λ p. line.putchar p (ack ∷ [])) comes.2;
        },
      )
  receive_block0-Arrived (suc fuel) blksize retry (suc failures) payload m q table bytes proto size
        room comes enough =
      let m₁ = after_read line (2 + blksize + 2) m in
      let kept = after_read-Kept line (2 + blksize + 2) m room bytes in
      let (m', run, a) =
        receive_block0-Arrived fuel blksize retry failures payload m₁ q table kept.bytes proto size
          (omega (arith, kept.size, room)) comes.1 (omega arith) in
      (
        m',
        rw (getchar_block_lem line (2 + blksize + 2) m room, ◌>>=◌, comes.0) run,
        later (record { kept = kept; max_size = refl; current_size = refl }) refl a,
      )

  -- The first character comes with one of `left` calls of `getchar`, and block 0 behind it.
  pub wait_block0-Arrived :
      (fuel left failures failures' : ℕ) (long : Bool) (payload : List ℕ) (m : Modem P) (p q : P)
      → m.crc16 ≡ Crc.init ccitt_polynome
      → IsBytes m.blk_buffer.buffer
      → m.protocol ≡ ymodem
      → length payload ≡ size_of long
      → 1028 ≤ length m.blk_buffer.buffer
      → Comes line 1 (header_of long ∷ []) failures m.port p
      → failures < left
      → Comes line (2 + size_of long + 2) (block true 0 payload) failures' p q
      → failures' < fuel
      → (m' : Modem P) × (wait_block0 line fuel left m ≡ done (recv_ok, m'))
        × Arrived payload q m m'
  unfolding wait_block0 getchar
  wait_block0-Arrived fuel zero failures failures' long payload m p q table bytes proto size room
        comes soon comes' enough =
      absurd (omega arith)
  wait_block0-Arrived fuel (suc left) (suc failures) failures' long payload m p q table bytes proto
        size room comes soon comes' enough =
      let m₁ = after_getchar line m in
      let (m', run, a) =
        wait_block0-Arrived fuel left failures failures' long payload m₁ p q table bytes proto size
          room comes.1 (omega arith) comes' enough in
      (m', rw (comes.0, ◌>>=◌) run, later (Unchanged-port (line.getchar m.port 1).1 m bytes) refl a)
  wait_block0-Arrived fuel (suc left) zero failures' false payload m p q table bytes proto size room
        comes soon comes' enough =
      let m₁ = after_getchar line m in
      let (m', run, a) =
        receive_block0-Arrived fuel 128 0 failures' payload m₁ q table bytes proto size
          (omega arith) (rw (comes.2) comes') enough in
      (
        m',
        rw (comes.0, ◌>>=◌, comes.1) run,
        later (Unchanged-port (line.getchar m.port 1).1 m bytes) refl a,
      )
  wait_block0-Arrived fuel (suc left) zero failures' true payload m p q table bytes proto size room
        comes soon comes' enough =
      let m₁ = after_getchar line m in
      let (m', run, a) =
        receive_block0-Arrived fuel 1024 0 failures' payload m₁ q table bytes proto size
          (omega arith) (rw (comes.2) comes') enough in
      (
        m',
        rw (comes.0, ◌>>=◌, comes.1) run,
        later (Unchanged-port (line.getchar m.port 1).1 m bytes) refl a,
      )
