-- ===== src/Receive/Block.antt =====
-- When a received block is accepted.
use light_modem.Base.{
  ℕ, ◌+◌, ◌/◌, ◌%◌, ◌^◌, ◌<◌, ◌≤◌, ◌≡◌, ap, ◌∙◌, Bool, true, false, List, [], ◌∷◌, arith, done, M,
  ◌>>=◌, ◌==◌, if◌then◌else◌, IsBytes, IsBytes-take, IsBytes-drop, load-done, take, drop, length,
  length-drop, get_or, bit_and, ◌>>>◌, complement, Bool-cases, inl, inr, ◌&&◌, take_one, and_byte,
  and_high, xor-zero,
}
use light_modem.Crc
use light_modem.Crc.Remainder.{do_calcul-remainder, remainder-lt}
use light_modem.Modem.{Modem, byte_at, ccitt_polynome}
use light_modem.Frame.{sum, crc_of_payload}
use light_modem.Receive.{
  recv_ok, recv_error, sum_bytes, calcul_chksum, uses_crc, is_byte, is_numbered, check_crc,
  check_by_crc, check_by_chksum, and_then,
}

-- The loop of `lxmodem_calcul_chksum` sums modulo 256.
pub sum_bytes_lem : (t : ℕ) (xs : List ℕ) → t < 256 → sum_bytes t xs ≡ (t + sum xs) % 256
unfolding sum_bytes
sum_bytes_lem t [] h = omega arith
sum_bytes_lem t (x ∷ xs) h = omega (arith, sum_bytes_lem ((t + x) % 256) xs (omega arith))

pub calcul_chksum_lem :
    (buf : List ℕ) (size : ℕ)
    → size ≤ length buf
    → calcul_chksum buf size ≡ done (sum (take size buf) % 256)
unfolding calcul_chksum
calcul_chksum_lem buf size h =
    rw (load-done buf 0 size (omega arith), calcul_chksum)
      (ap done (
        sum_bytes_lem 0 (take size buf) (omega arith)
        ∙ ap (λ t. t % 256) {x = 0 + sum (take size buf)} (omega arith)))

-- The tests of the code, on the bytes of the block buffer.
abbrev pub numbered : List ℕ → ℕ → Bool
numbered buf number = get_or buf 0 0 == number && get_or buf 1 0 == complement number

abbrev pub payload_of : List ℕ → ℕ → List ℕ
payload_of buf blksize = take blksize (drop 2 buf)

abbrev pub trailer_size : Bool → ℕ
trailer_size with_crc = if with_crc then 2 else 1

abbrev pub ends_well : Bool → List ℕ → ℕ → Bool
ends_well with_crc buf blksize =
    if with_crc
    then (get_or buf (2 + blksize) 0 == crc_of_payload (payload_of buf blksize) / 256
        && get_or buf (2 + blksize + 1) 0 == crc_of_payload (payload_of buf blksize) % 256)
    else get_or buf (blksize + 2) 0 == sum (payload_of buf blksize) % 256

module _ {P : Type 0} where
  byte_at_lem :
      (i : ℕ) (m : Modem P)
      → i < length m.blk_buffer.buffer
      → byte_at i m ≡ done (get_or m.blk_buffer.buffer i 0, m)
  unfolding byte_at
  byte_at_lem i m h =
      rw (load-done m.blk_buffer.buffer i 1 (omega arith), ◌>>=◌)
        (ap (λ (l : List ℕ). done (get_or l 0 0, m)) (take_one 0 i m.blk_buffer.buffer h))

  is_byte_lem :
      (i value : ℕ) (m : Modem P)
      → i < length m.blk_buffer.buffer
      → is_byte i value m ≡ done (get_or m.blk_buffer.buffer i 0 == value, m)
  unfolding is_byte
  is_byte_lem i value m h = rw (byte_at_lem i m h, ◌>>=◌)

  pub is_numbered_lem :
      (number : ℕ) (m : Modem P)
      → 1 < length m.blk_buffer.buffer
      → is_numbered number m ≡ done (numbered m.blk_buffer.buffer number, m)
  unfolding is_numbered
  is_numbered_lem number m h = elim (Bool-cases (get_or m.blk_buffer.buffer 0 0 == number)) [
    | inl e ↦
        rw (is_byte_lem 0 number m (omega arith), ◌>>=◌, e, is_byte_lem 1 (complement number) m h)
    | inr e ↦ rw (is_byte_lem 0 number m (omega arith), ◌>>=◌, e)
  ]

  with_crc_lem :
      (blksize : ℕ) (m : Modem P)
      → uses_crc m blksize ≡ true
      → check_crc blksize m ≡ check_by_crc blksize m
  unfolding check_crc
  with_crc_lem blksize m e = rw (e)

  with_chksum_lem :
      (blksize : ℕ) (m : Modem P)
      → uses_crc m blksize ≡ false
      → check_crc blksize m ≡ check_by_chksum blksize m
  unfolding check_crc
  with_chksum_lem blksize m e = rw (e)

  and_then_lem :
      (p q : M (Modem P) Bool) (a b : Bool) (m : Modem P)
      → p m ≡ done (a, m)
      → q m ≡ done (b, m)
      → and_then p q m ≡ done (a && b, m)
  and_then_lem p q true b m e f = rw (e, ◌>>=◌, f)
  and_then_lem p q false b m e f = rw (e, ◌>>=◌)

  check_by_crc_lem :
      (blksize : ℕ) (m : Modem P)
      → m.crc16 ≡ Crc.init ccitt_polynome
      → IsBytes m.blk_buffer.buffer
      → 2 + blksize + 2 ≤ length m.blk_buffer.buffer
      → check_by_crc blksize m
        ≡ done (if ends_well true m.blk_buffer.buffer blksize then recv_ok else recv_error, m)
  unfolding check_by_crc
  check_by_crc_lem blksize m table bytes room =
      let buf = m.blk_buffer.buffer in
      let payload = payload_of buf blksize in
      let crc = crc_of_payload payload in
      let crc_fits : crc < 2 ^ 16 =
        remainder-lt 0x1021 (omega arith) 0 payload (omega arith)
          (IsBytes-take blksize (drop 2 buf) (IsBytes-drop 2 buf bytes)) in
      let computed : Crc.do_calcul m.crc16 (drop 2 buf) blksize 0 0 ≡ done crc =
        ap (λ c. Crc.do_calcul c (drop 2 buf) blksize 0 0) table
        ∙ do_calcul-remainder 0x1021 0 0 blksize (drop 2 buf) (omega arith) (omega arith)
            (IsBytes-drop 2 buf bytes) (omega (arith, length-drop 2 buf))
        ∙ ap done (xor-zero crc) in
      let high : bit_and crc 0xff00 >>> 8 ≡ crc / 256 = omega (arith, and_high crc) in
      let low : bit_and crc 0xff ≡ crc % 256 = and_byte crc in
      let hi = bit_and crc 0xff00 >>> 8 in
      let lo = bit_and crc 0xff in
      let tested =
        and_then_lem (is_byte (2 + blksize) hi) (is_byte (2 + blksize + 1) lo)
          (get_or buf (2 + blksize) 0 == hi) (get_or buf (2 + blksize + 1) 0 == lo) m
          (is_byte_lem (2 + blksize) hi m (omega arith))
          (is_byte_lem (2 + blksize + 1) lo m (omega arith)) in
      rw (computed, ◌>>=◌, tested, ◌>>=◌, high, low)

  check_by_chksum_lem :
      (blksize : ℕ) (m : Modem P)
      → 2 + blksize + 1 ≤ length m.blk_buffer.buffer
      → check_by_chksum blksize m
        ≡ done (if ends_well false m.blk_buffer.buffer blksize then recv_ok else recv_error, m)
  unfolding check_by_chksum
  check_by_chksum_lem blksize m room =
      let buf = m.blk_buffer.buffer in
      rw (
        calcul_chksum_lem (drop 2 buf) blksize (omega (arith, length-drop 2 buf)),
        ◌>>=◌,
        is_byte_lem (blksize + 2) (sum (payload_of buf blksize) % 256) m (omega arith),
        ◌>>=◌,
      )

  pub check_crc_lem :
      (blksize : ℕ) (m : Modem P)
      → m.crc16 ≡ Crc.init ccitt_polynome
      → IsBytes m.blk_buffer.buffer
      → 2 + blksize + trailer_size (uses_crc m blksize) ≤ length m.blk_buffer.buffer
      → check_crc blksize m
        ≡ done (
          if ends_well (uses_crc m blksize) m.blk_buffer.buffer blksize
              then recv_ok
              else recv_error,
          m,
        )
  check_crc_lem blksize m table bytes room = elim (Bool-cases (uses_crc m blksize)) [
    | inl crc ↦
        rw crc
          (with_crc_lem blksize m crc ∙ check_by_crc_lem blksize m table bytes (rw (crc) at room))
    | inr sum ↦
        rw sum (with_chksum_lem blksize m sum ∙ check_by_chksum_lem blksize m (rw (sum) at room))
  ]
