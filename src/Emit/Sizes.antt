-- ===== src/Emit/Sizes.antt =====
-- The context in which src/lmodem_tx.c can send a block, and the sizes and parts of the block.
use light_modem.Base.{
  ℕ, ◌+◌, ◌-◌, ◌<◌, ◌≤◌, ◌≡◌, refl, Bool, true, false, List, ◌++◌, arith, done, if◌then◌else◌,
  IsBytes, length, min, replicate, leb, complement, ◌⊎◌, zero, suc,
}
use light_modem.Buffer.Laws.{IsValid}
use light_modem.Crc
use light_modem.Modem.{Modem, ccitt_polynome, sub, soh, stx}
use light_modem.Frame.{trailer, packet, size_for}
use light_modem.Receive.Block.{trailer_size}
use light_modem.Emit.{write_trailer}
use light_modem.Emit.Fill.{filled, front, write_crc, write_chksum}

module _ {P : Type 0} where
  -- The context in which a block of at most `blksize` bytes can be sent.
  pub record CanSend (with_crc : Bool) (blksize : ℕ) (m : Modem P) : Type 0 where
    pub table : m.crc16 ≡ Crc.init ccitt_polynome
    pub bytes : IsBytes m.blk_buffer.buffer
    pub room : 3 + blksize + trailer_size with_crc ≤ length m.blk_buffer.buffer
    pub file : IsValid m.ramfile
    pub file_bytes : IsBytes m.ramfile.buffer

  pub write_trailer_lem :
      (with_crc : Bool) (blksize header number inverse : ℕ) (payload : List ℕ) (m : Modem P)
      → length payload ≡ blksize
      → m.crc16 ≡ Crc.init ccitt_polynome
      → IsBytes payload
      → IsBytes m.blk_buffer.buffer
      → 3 + blksize + trailer_size with_crc ≤ length m.blk_buffer.buffer
      → write_trailer blksize with_crc (filled m (front header number inverse payload))
        ≡ done (
          3 + blksize + trailer_size with_crc,
          filled m (front header number inverse (payload ++ trailer with_crc payload)),
        )
  write_trailer_lem true blksize header number inverse payload m size table bytes mem room =
      write_crc blksize header number inverse payload m size table bytes mem room
  write_trailer_lem false blksize header number inverse payload m size table bytes mem room =
      write_chksum blksize header number inverse payload m size room

pub length-trailer :
    (with_crc : Bool) (payload : List ℕ) → length (trailer with_crc payload) ≡ trailer_size with_crc
length-trailer true payload = refl
length-trailer false payload = refl

pub size_for_le : (n : ℕ) → n ≤ 1024 → n ≤ size_for n
size_for_le n h = ground arith

pub gap_lem :
    (n remaining : ℕ)
    → n ≤ remaining
    → (n ≡ remaining) ⊎ (size_for n ≡ n)
    → size_for n - remaining ≡ size_for n - n
gap_lem n remaining h full = ground arith

pub size_for_within :
    (n default : ℕ) → (default ≡ 128) ⊎ (default ≡ 1024) → n ≤ default → size_for n ≤ default
size_for_within n default allowed h = ground arith

pub full :
    (n left default : ℕ)
    → (default ≡ 128) ⊎ (default ≡ 1024)
    → n ≡ min default left
    → (n ≡ left) ⊎ (size_for n ≡ n)
full n left default allowed e = ground arith

pub IsBytes-replicate : (n x : ℕ) → x < 256 → IsBytes (replicate n x)
IsBytes-replicate zero x h = tt
IsBytes-replicate (suc n) x h = (h, IsBytes-replicate n x h)

pub packet_lem :
    (with_crc : Bool) (number n remaining : ℕ) (chunk : List ℕ)
    → length chunk ≡ n
    → number < 256
    → size_for n - remaining ≡ size_for n - n
    → let payload = chunk ++ replicate (size_for n - remaining) sub in
      front
        (if leb n 128 then soh else stx)
        number
        (complement number)
        (payload ++ trailer with_crc payload)
      ≡ packet with_crc number chunk
packet_lem with_crc number n remaining chunk len byte gap =
    let inverse : complement number ≡ 255 - number = omega arith in rw (len, gap, inverse)

pub cong4 :
    {A B C D E : Type 0} {a a' : A} {b b' : B} {c c' : C} {d d' : D}
    → a ≡ a'
    → b ≡ b'
    → c ≡ c'
    → d ≡ d'
    → (f : A → B → C → D → E) → f a b c d ≡ f a' b' c' d'
cong4 p q r s f = rw (p, q, r, s)
