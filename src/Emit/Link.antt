-- ===== src/Emit/Link.antt =====
-- A block of src/lmodem_tx.c before the tests of src/lmodem_rx.c.
use light_modem.Base.{
  ℕ, ◌+◌, ◌-◌, ◌<◌, ◌≤◌, ◌≡◌, ap, ◌∙◌, sym, Bool, false, List, [], ◌∷◌, arith, done, if◌then◌else◌,
  IsBytes, take, drop, length, length-take, drop-take, take-take_le, take-append, min, ◌⊎◌, ◌==◌,
}
use light_modem.Buffer.Laws.{contents}
use light_modem.Crc
use light_modem.Modem.{Modem, Line, ccitt_polynome}
use light_modem.Frame.{trailer, block, padded, packet, message, size_for}
use light_modem.Receive.{recv_ok, uses_crc, check_block_no_and_crc}
use light_modem.Receive.Block.{trailer_size, payload_of}
use light_modem.Receive.Accept.{check_block_lem}
use light_modem.Emit.{build_and_send_one_data_block}
use light_modem.Emit.Message.{length-padded, length-block}
use light_modem.Emit.Sizes.{CanSend}
use light_modem.Emit.Block.{chunk_sent, build_and_send_one_data_block_lem}

-- The payload of a buffer that starts with a block.
payload_of-block :
    (with_crc : Bool) (number : ℕ) (payload buf : List ℕ)
    → take (2 + length payload + trailer_size with_crc) buf ≡ block with_crc number payload
    → payload_of buf (length payload) ≡ payload
payload_of-block with_crc number payload buf h =
    let k = 2 + length payload + trailer_size with_crc in
    let least : min (length payload) (k - 2) ≡ length payload = omega arith in
    ap (λ n. take n (drop 2 buf)) (sym least)
    ∙ sym (take-take_le (length payload) (k - 2) (drop 2 buf))
    ∙ ap (take (length payload)) (sym (drop-take 2 k buf) ∙ ap (drop 2) h)
    ∙ take-append payload (trailer with_crc payload)

pub accepted :
    {Q : Type 0} (with_crc : Bool) (number blksize : ℕ) (payload : List ℕ) (r : Modem Q)
    → length payload ≡ blksize
    → number < 256
    → r.crc16 ≡ Crc.init ccitt_polynome
    → IsBytes r.blk_buffer.buffer
    → uses_crc r blksize ≡ with_crc
    → take (2 + blksize + trailer_size with_crc) r.blk_buffer.buffer ≡ block with_crc number payload
    → (check_block_no_and_crc number blksize r ≡ done (recv_ok, r))
      × (payload_of r.blk_buffer.buffer blksize ≡ payload)
accepted with_crc number blksize payload r size byte table bytes mode h =
    let buf = r.blk_buffer.buffer in
    let k = 2 + blksize + trailer_size with_crc in
    let room : k ≤ length buf =
      omega (arith, ap length h, length-take k buf, length-block with_crc number payload, size) in
    let same : payload_of buf blksize ≡ payload =
      rw (size) at (payload_of-block with_crc number payload buf (rw size h)) in
    let (status, run, ok, again) =
      check_block_lem number blksize r table bytes byte (rw mode room) in
    let good : status ≡ recv_ok = ok.1 (rw (mode, same) h) in
    (run ∙ ap (λ s. done (s, r)) good, same)

-- Whenever the transmitter can send blocks of `default_blksize` bytes, 128 or 1024, and the file is
-- not used up, its next message is accepted by every receiver whose block buffer, of bytes, starts
-- with that message but for its first character, that expects the block number, has the CRC table
-- of `lmodem_init` and uses the same check; and what the receiver takes for the payload are the next
-- bytes of the transmitter's file, filled up.
pub sent-accepted :
    {P Q : Type 0} (line : Line P) (number default_blksize : ℕ) (with_crc : Bool) (m : Modem P)
    (r : Modem Q)
    → CanSend with_crc default_blksize m
    → (default_blksize ≡ 128) ⊎ (default_blksize ≡ 1024)
    → number < 256
    → 0 < length (contents m.ramfile)
    → r.crc16 ≡ Crc.init ccitt_polynome
    → IsBytes r.blk_buffer.buffer
    → let chunk = take default_blksize (contents m.ramfile) in
      let blksize = size_for (length chunk) in
      uses_crc r blksize ≡ with_crc
      → take (2 + blksize + trailer_size with_crc) r.blk_buffer.buffer
        ≡ drop 1 (message with_crc number chunk)
      → (build_and_send_one_data_block line number default_blksize with_crc m
          ≡ chunk_sent line number with_crc chunk m)
        × (check_block_no_and_crc number blksize r ≡ done (recv_ok, r))
        × (payload_of r.blk_buffer.buffer blksize ≡ padded chunk)
sent-accepted line number default_blksize with_crc m r c allowed byte some table bytes mode h =
    let chunk = take default_blksize (contents m.ramfile) in
    let size = length-take default_blksize (contents m.ramfile) in
    let more : (length chunk == 0) ≡ false = ground (arith, size) in
    let msg : drop 1 (message with_crc number chunk) ≡ block with_crc number (padded chunk) =
      ap (λ (b : Bool). drop 1 (if b then 4 ∷ [] else packet with_crc number chunk)) more in
    let (ok, same) =
      accepted with_crc number (size_for (length chunk)) (padded chunk) r
        (length-padded chunk (omega (arith, size))) byte table bytes mode (h ∙ msg) in
    (
      build_and_send_one_data_block_lem line number default_blksize with_crc m c allowed byte,
      ok,
      same,
    )
