-- ===== src/DbgSerial/Sum.antt =====
-- The sum that src/tools/dbg_serial.c prints behind a block of XMODEM.
use light_modem.Base.{
  ℕ, suc, ◌+◌, ◌/◌, ◌%◌, ◌≡◌, refl, sym, ◌∙◌, ap, Bool, true, false, List, [], ◌∷◌, ◌++◌, done,
  arith, length, take, append_assoc, if◌then◌else◌,
}
use light_modem.Frame
use light_modem.Frame.{sum, crc_of_payload, trailer}
use light_modem.Serial.{Os}
use light_modem.Serial.Stream.{Stream}
use light_modem.DbgSerial.{codes, hex_of_byte, dump, Tracer, newline, trace_block}
use light_modem.DbgSerial.Session.{sum_shown, trace_block-Traced}

sum-append : (xs ys : List ℕ) → sum (xs ++ ys) ≡ sum xs + sum ys
sum-append [] ys = omega arith
sum-append (x ∷ xs) ys = omega (arith, sum-append xs ys)

take_next :
    (payload : List ℕ) (c : ℕ) (more : List ℕ)
    → take (suc (length payload)) (payload ++ (c ∷ more)) ≡ payload ++ c ∷ []
take_next [] c more = refl
take_next (x ∷ payload) c more = ap (λ l. x ∷ l) (take_next payload c more)

-- The first byte of the trailer.
abbrev pub first_check : Bool → List ℕ → ℕ
first_check with_crc payload = if with_crc then crc_of_payload payload / 256 else sum payload % 256

with_trailer :
    (payload : List ℕ) (c : ℕ) (more : List ℕ)
    → length payload ≡ 128
    → sum (take 129 (payload ++ (c ∷ more))) % 256 ≡ (sum payload + c) % 256
with_trailer payload c more size =
    ap (λ k. sum (take (suc k) (payload ++ (c ∷ more))) % 256) (sym size)
    ∙ ap (λ l. sum l % 256) (take_next payload c more)
    ∙ omega (arith, sum-append payload (c ∷ []))

sum_shown-block :
    (with_crc : Bool) (number : ℕ) (payload more : List ℕ)
    → length payload ≡ 128
    → sum_shown (Frame.block with_crc number payload ++ more)
      ≡ (sum payload + first_check with_crc payload) % 256
sum_shown-block true number payload more size =
    let crc = crc_of_payload payload in
    ap (λ l. sum (take 129 l) % 256) (append_assoc payload (trailer true payload) more)
    ∙ with_trailer payload (crc / 256) ((crc % 256) ∷ more) size
sum_shown-block false number payload more size =
    ap (λ l. sum (take 129 l) % 256) (append_assoc payload (trailer false payload) more)
    ∙ with_trailer payload (sum payload % 256) more size

module _ {W : Type 0} {os : Os W} {fd : ℕ} (s : Stream os fd) where
  -- Behind SOH, the port brings in pieces of any size a valid block of 128 bytes, and as many of the
  -- bytes behind it, none with a CRC and one with a checksum, as make it 132 bytes. The tracer
  -- prints these 132 bytes and, for the checksum, the sum modulo 256 of the payload and of the first
  -- byte of the trailer, too: the high byte of the CRC, or the checksum itself, so that a block with
  -- a checksum is shown with twice its checksum. It answers ACK and reads nothing else.
  pub trace_block_lem :
      (with_crc : Bool) (number : ℕ) (payload more rest : List ℕ) (t : Tracer W)
      → let bytes = Frame.block with_crc number payload ++ more in
        length payload ≡ 128
        → length bytes ≡ 132
        → s.pending t.world ≡ bytes ++ rest
        → (t' : Tracer W) × (trace_block os fd t ≡ done (tt, t'))
          × (t'.out
              ≡ t.out
                ++ (codes "SOH: "
                    ++ (dump bytes
                        ++ (newline
                            ++ (codes "chksum = 0x"
                                ++ (hex_of_byte ((sum payload + first_check with_crc payload) % 256)
                                    ++ newline))))))
          × (s.written t'.world ≡ s.written t.world ++ 6 ∷ [])
          × (s.pending t'.world ≡ rest)
  trace_block_lem with_crc number payload more rest t size whole e =
      let bytes = Frame.block with_crc number payload ++ more in
      let r = trace_block-Traced s bytes rest t whole e in
      (
        r.after,
        r.run,
        r.prints
            ∙ ap
                (λ n.
                  t.out
                  ++ (codes "SOH: "
                      ++ (dump bytes
                          ++ (newline ++ (codes "chksum = 0x" ++ (hex_of_byte n ++ newline))))))
                (sum_shown-block with_crc number payload more size),
        r.replies,
        r.left,
      )
