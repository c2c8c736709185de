-- ===== src/Receive/Accept.antt =====
-- The receiver's verdict on a block, against the block format.
use light_modem.Base.{
  ℕ, suc, ◌+◌, ◌-◌, ◌/◌, ◌%◌, ◌<◌, ◌≤◌, ◌≡◌, ◌↔◌, ◌∙◌, Bool, true, false, ◌&&◌, List, [], ◌∷◌, ◌++◌,
  arith, done, ◌>>=◌, ◌==◌, if◌then◌else◌, IsBytes, take, drop, length, get_or, u8, complement,
  Bool-cases, inl, inr, take_one, take_two, take_add, append_cancel, append_assoc, ◌^◌,
}
use light_modem.Crc
use light_modem.Modem.{Modem, ccitt_polynome}
use light_modem.Frame.{sum, crc_of_payload, trailer, block}
use light_modem.Receive.{
  Status, recv_ok, recv_previous_block, recv_error, uses_crc, check_block_no_and_crc,
}
use light_modem.Receive.Block.{
  numbered, payload_of, trailer_size, ends_well, check_crc_lem, is_numbered_lem,
}

-- The trailer in the buffer.
found : List ℕ → ℕ → Bool → List ℕ
found buf blksize with_crc = take (trailer_size with_crc) (drop (2 + blksize) buf)

one_test : (a x : ℕ) → ((a == x) ≡ true) ↔ (a ∷ [] ≡ x ∷ [])
one_test a x = ground arith

two_tests : (a b x y : ℕ) → ((a == x && b == y) ≡ true) ↔ (a ∷ b ∷ [] ≡ x ∷ y ∷ [])
two_tests a b x y = ground arith

ends_well_iff :
    (with_crc : Bool) (buf : List ℕ) (blksize : ℕ)
    → 2 + blksize + trailer_size with_crc ≤ length buf
    → (ends_well with_crc buf blksize ≡ true)
      ↔ (found buf blksize with_crc ≡ trailer with_crc (payload_of buf blksize))
unfolding found
ends_well_iff true buf blksize room =
    let next : 2 + blksize + 1 ≡ suc (2 + blksize) = omega arith in
    let crc = crc_of_payload (payload_of buf blksize) in
    rw (take_two 0 (2 + blksize) buf (omega arith), next)
      (two_tests (get_or buf (2 + blksize) 0) (get_or buf (suc (2 + blksize)) 0) (crc / 256)
        (crc % 256))
ends_well_iff false buf blksize room =
    let same : blksize + 2 ≡ 2 + blksize = omega arith in
    rw (take_one 0 (2 + blksize) buf (omega arith), same)
      (one_test (get_or buf (2 + blksize) 0) (sum (payload_of buf blksize) % 256))

numbered_iff :
    (buf : List ℕ) (number : ℕ)
    → 1 < length buf
    → number < 256
    → (numbered buf number ≡ true) ↔ (take 2 buf ≡ number ∷ (255 - number) ∷ [])
numbered_iff buf number room h =
    let opposite : complement number ≡ 255 - number = omega arith in
    rw (opposite, take_two 0 0 buf room)
      (two_tests (get_or buf 0 0) (get_or buf 1 0) number (255 - number))

-- The whole block in the buffer, part by part.
whole_block :
    (with_crc : Bool) (buf : List ℕ) (blksize : ℕ)
    → take (2 + blksize + trailer_size with_crc) buf
      ≡ take 2 buf ++ (payload_of buf blksize ++ found buf blksize with_crc)
unfolding found
whole_block with_crc buf blksize =
    rw (take_add (2 + blksize) (trailer_size with_crc) buf, take_add 2 blksize buf)
      (append_assoc (take 2 buf) (payload_of buf blksize) (found buf blksize with_crc))

-- A list of two elements in front of equal-length parts.
split_two :
    (a b x y : ℕ) (p f t : List ℕ)
    → ((a ∷ b ∷ []) ++ (p ++ f) ≡ x ∷ y ∷ (p ++ t)) ↔ ((a ∷ b ∷ [] ≡ x ∷ y ∷ []) × (f ≡ t))
split_two a b x y p f t = (λ e. (cc, append_cancel p f t cc), λ h. cc (h.0, h.1))

and_true : (a b : Bool) → ((a && b) ≡ true) ↔ ((a ≡ true) × (b ≡ true))
and_true a b = ground arith

accepted_iff :
    (with_crc : Bool) (buf : List ℕ) (number blksize : ℕ)
    → 2 + blksize + trailer_size with_crc ≤ length buf
    → number < 256
    → ((numbered buf number && ends_well with_crc buf blksize) ≡ true) ↔ (
        take (2 + blksize + trailer_size with_crc) buf
        ≡ block with_crc number (payload_of buf blksize))
accepted_iff with_crc buf number blksize room h =
    let heads : take 2 buf ≡ get_or buf 0 0 ∷ get_or buf 1 0 ∷ [] =
      take_two 0 0 buf (ground arith) in
    let payload = payload_of buf blksize in
    let there = whole_block with_crc buf blksize in
    let front = numbered_iff buf number (ground arith) h in
    let back = ends_well_iff with_crc buf blksize room in
    (
      λ e.
          let (n, w) = (and_true (numbered buf number) (ends_well with_crc buf blksize)).0 e in
          rw (there, front.0 n, back.0 w),
      λ e.
          let (n, w) =
            (split_two (get_or buf 0 0) (get_or buf 1 0) number (255 - number) payload
                (found buf blksize with_crc) (trailer with_crc payload)).0
              (rw (there, heads) at e) in
          (and_true (numbered buf number) (ends_well with_crc buf blksize)).1
            (front.1 (heads ∙ n), back.1 w),
    )

exclusive :
    (buf : List ℕ) (number : ℕ)
    → number < 256
    → numbered buf number ≡ true
    → numbered buf (u8 (number + 2 ^ 8 - 1)) ≡ true
    → ⊥
exclusive buf number h p q = ground arith

module _ {P : Type 0} where
  -- The verdict of the code, by its tests.
  verdict : Modem P → ℕ → ℕ → Status
  verdict m number blksize =
      let buf = m.blk_buffer.buffer in
      if numbered buf number
      then (if ends_well (uses_crc m blksize) buf blksize then recv_ok else recv_error)
      else if numbered buf (u8 (number + 2 ^ 8 - 1))
      then recv_previous_block
      else recv_error

  check_block_run :
      (number blksize : ℕ) (m : Modem P)
      → m.crc16 ≡ Crc.init ccitt_polynome
      → IsBytes m.blk_buffer.buffer
      → 2 + blksize + trailer_size (uses_crc m blksize) ≤ length m.blk_buffer.buffer
      → check_block_no_and_crc number blksize m ≡ done (verdict m number blksize, m)
  unfolding check_block_no_and_crc verdict
  check_block_run number blksize m table bytes room =
      let buf = m.blk_buffer.buffer in
      elim (Bool-cases (numbered buf number)) [
        | inl e ↦
            rw (is_numbered_lem number m (ground arith), ◌>>=◌, e)
              (check_crc_lem blksize m table bytes room)
        | inr e ↦ rw (
          is_numbered_lem number m (ground arith),
          ◌>>=◌,
          e,
          is_numbered_lem (u8 (number + 2 ^ 8 - 1)) m (ground arith),
          ◌>>=◌,
        )
      ]

  verdict_ok_iff :
      (number blksize : ℕ) (m : Modem P)
      → (verdict m number blksize ≡ recv_ok) ↔ (
          (numbered m.blk_buffer.buffer number
            && ends_well (uses_crc m blksize) m.blk_buffer.buffer blksize)
          ≡ true)
  unfolding verdict
  verdict_ok_iff number blksize m =
      cases (numbered m.blk_buffer.buffer number)
        (ends_well (uses_crc m blksize) m.blk_buffer.buffer blksize)
        (numbered m.blk_buffer.buffer (u8 (number + 2 ^ 8 - 1)))
    where
      cases :
          (a b c : Bool)
          → ((if a
                then (if b then recv_ok else recv_error)
                else if c
                then recv_previous_block
                else recv_error)
              ≡ recv_ok)
            ↔ ((a && b) ≡ true)
      cases a b c = ground arith

  verdict_previous_iff :
      (number blksize : ℕ) (m : Modem P)
      → number < 256
      → (verdict m number blksize ≡ recv_previous_block)
        ↔ (numbered m.blk_buffer.buffer (u8 (number + 2 ^ 8 - 1)) ≡ true)
  unfolding verdict
  verdict_previous_iff number blksize m h =
      cases (numbered m.blk_buffer.buffer number)
        (ends_well (uses_crc m blksize) m.blk_buffer.buffer blksize)
        (numbered m.blk_buffer.buffer (u8 (number + 2 ^ 8 - 1)))
        (exclusive m.blk_buffer.buffer number h)
    where
      cases :
          (a b c : Bool)
          → (a ≡ true → c ≡ true → ⊥)
          → ((if a
                then (if b then recv_ok else recv_error)
                else if c
                then recv_previous_block
                else recv_error)
              ≡ recv_previous_block)
            ↔ (c ≡ true)
      cases a b c apart = ground arith

  -- `lxmodem_check_block_no_and_crc`, on a context that `lmodem_init` prepared and a block buffer
  -- of bytes that holds the whole block, changes nothing and accesses nothing outside the buffer.
  -- It accepts a block exactly when the buffer starts with the expected number, its complement, a
  -- payload and the right trailer of that payload (the CRC by bitwise division, or the sum), and it
  -- reports a repetition exactly when the buffer starts with the previous number, modulo 256, and
  -- the complement of that.
  pub check_block_lem :
      (number blksize : ℕ) (m : Modem P)
      → m.crc16 ≡ Crc.init ccitt_polynome
      → IsBytes m.blk_buffer.buffer
      → number < 256
      → 2 + blksize + trailer_size (uses_crc m blksize) ≤ length m.blk_buffer.buffer
      → let buf = m.blk_buffer.buffer in
        let crc = uses_crc m blksize in
        let previous = (number + 255) % 256 in
        (status : Status) × (check_block_no_and_crc number blksize m ≡ done (status, m))
        × ((status ≡ recv_ok) ↔ (
            take (2 + blksize + trailer_size crc) buf ≡ block crc number (payload_of buf blksize)))
        × ((status ≡ recv_previous_block) ↔ (take 2 buf ≡ previous ∷ (255 - previous) ∷ []))
  check_block_lem number blksize m table bytes h room =
      let buf = m.blk_buffer.buffer in
      let crc = uses_crc m blksize in
      let previous = (number + 255) % 256 in
      let shifted : u8 (number + 2 ^ 8 - 1) ≡ previous = omega arith in
      let ok = verdict_ok_iff number blksize m in
      let whole = accepted_iff crc buf number blksize room h in
      let again = verdict_previous_iff number blksize m h in
      let front = numbered_iff buf previous (ground arith) (omega arith) in
      (
        verdict m number blksize,
        check_block_run number blksize m table bytes room,
        (λ e. whole.0 (ok.0 e), λ e. ok.1 (whole.1 e)),
        (λ e. front.0 (rw (shifted) at (again.0 e)), λ e. again.1 (rw shifted (front.1 e))),
      )
