-- ===== src/Emit/Message.antt =====
-- The size and the bytes of what src/lmodem_tx.c sends, and the context afterwards.
use light_modem.Base.{
  ℕ, ◌+◌, ◌-◌, ◌<◌, ◌≤◌, ◌≡◌, Bool, true, false, List, arith, IsBytes, IsBytes-append, IsBytes-drop,
  length, length-append, length-replicate, replicate, ◌⊎◌, ◌==◌, Bool-cases, inl, inr,
}
use light_modem.Buffer.Laws.{contents, advanced, length-contents}
use light_modem.Crc.Remainder.{remainder-lt}
use light_modem.Modem.{Modem, Line}
use light_modem.Frame.{trailer, block, padded, packet, message, size_for}
use light_modem.Receive.Block.{trailer_size}
use light_modem.Emit.Fill.{length-overlay}
use light_modem.Emit.Sizes.{
  CanSend, length-trailer, size_for_le, size_for_within, IsBytes-replicate,
}
use light_modem.Emit.Block.{sent}

pub length-padded :
    (chunk : List ℕ) → length chunk ≤ 1024 → length (padded chunk) ≡ size_for (length chunk)
length-padded chunk h =
    let gap = size_for (length chunk) - length chunk in
    omega (
      arith,
      size_for_le (length chunk) h,
      length-append chunk (replicate gap 0x1a),
      length-replicate {A = ℕ} gap 0x1a,
    )

pub length-block :
    (with_crc : Bool) (number : ℕ) (payload : List ℕ)
    → length (block with_crc number payload) ≡ 2 + length payload + trailer_size with_crc
length-block with_crc number payload =
    omega (arith, length-append payload (trailer with_crc payload), length-trailer with_crc payload)

pub trailer-IsBytes :
    (with_crc : Bool) (payload : List ℕ) → IsBytes payload → IsBytes (trailer with_crc payload)
trailer-IsBytes true payload h =
    let small = remainder-lt 0x1021 (omega arith) 0 payload (omega arith) h in
    (omega (arith, small), (omega arith, tt))
trailer-IsBytes false payload h = (omega arith, tt)

packet-IsBytes :
    (with_crc : Bool) (number : ℕ) (chunk : List ℕ)
    → number < 256
    → IsBytes chunk
    → IsBytes (packet with_crc number chunk)
packet-IsBytes with_crc number chunk h b =
    let payload =
      IsBytes-append chunk _ b
        (IsBytes-replicate (size_for (length chunk) - length chunk) 0x1a (omega arith)) in
    (
      ground arith,
      (
        h,
        (
          omega arith,
          IsBytes-append (padded chunk) _ payload (trailer-IsBytes with_crc (padded chunk) payload),
        ),
      ),
    )

-- The message of a chunk fits where the largest block fits, and is made of bytes.
pub message_lem :
    (with_crc : Bool) (number default_blksize : ℕ) (chunk : List ℕ)
    → (default_blksize ≡ 128) ⊎ (default_blksize ≡ 1024)
    → length chunk ≤ default_blksize
    → number < 256
    → IsBytes chunk
    → (length (message with_crc number chunk) ≤ 3 + default_blksize + trailer_size with_crc)
      × IsBytes (message with_crc number chunk)
message_lem with_crc number default_blksize chunk allowed le h b =
    elim (Bool-cases (length chunk == 0)) [
      | inl e ↦ rw e (omega arith, (omega arith, tt))
      | inr e ↦ rw e (
        omega (
          arith,
          length-block with_crc number (padded chunk),
          length-padded chunk (ground arith),
          size_for_within (length chunk) default_blksize allowed le,
        ),
        packet-IsBytes with_crc number chunk h b,
      )
    ]

-- Sending leaves a context that can send.
pub sent-CanSend :
    {P : Type 0} (line : Line P) (with_crc : Bool) (default_blksize n : ℕ) (msg : List ℕ)
    (m : Modem P)
    → CanSend with_crc default_blksize m
    → length msg ≤ 3 + default_blksize + trailer_size with_crc
    → IsBytes msg
    → n ≤ length (contents m.ramfile)
    → CanSend with_crc default_blksize (sent line msg (advanced m.ramfile n) m)
sent-CanSend line with_crc default_blksize n msg m c fits b le = record {
  table = c.table;
  bytes = IsBytes-append msg _ b (IsBytes-drop (length msg) m.blk_buffer.buffer c.bytes);
  room = omega (arith, c.room, length-overlay m.blk_buffer.buffer msg (omega (arith, c.room)));
  file = omega (arith, length-contents m.ramfile c.file);
  file_bytes = c.file_bytes;
}
