-- ===== src/Ymodem/Sent.antt =====
-- Block 0 as `lymodem_build_and_send_block0` of src/lmodem_tx.c sends it.
use light_modem.Base.{
  ℕ, zero, suc, ◌+◌, ◌-◌, ◌^◌, ◌<◌, ◌≤◌, ◌≡◌, refl, ap, subst, ◌∙◌, sym, Bool, true, List, [], ◌∷◌,
  ◌++◌, done, arith, length, length-append, length-replicate, length-take, append_assoc, take,
  drop-append, replicate, if◌then◌else◌, ◌>>=◌, complement, IsBytes, IsBytes-append, ltb,
}
use light_modem.Crc
use light_modem.Modem.{Modem, Line, write_block, ccitt_polynome, soh, stx}
use light_modem.Modem.Metadata.{memory, has_filename}
use light_modem.Modem.Names.{NoNul}
use light_modem.Frame.{block, trailer}
use light_modem.Emit.Fill.{filled, front, write_crc}
use light_modem.Emit.{write_trailer}
use light_modem.Emit.Block.{sent, send_block-filled}
use light_modem.Emit.Sizes.{IsBytes-replicate}
use light_modem.Ymodem.Emit.{
  nb_meta_data, meta_data_text, write_header, send_block0, build_and_send_block0,
}
use light_modem.Ymodem.Fields.{with_block}
use light_modem.Ymodem.Block0.{zeros, zeros_add, stage, payload0, write_over, write_header_lem}

-- The name and the fields go into a block of 128 bytes.
abbrev pub is_short : List ℕ → List ℕ → Bool
is_short name text = ltb (3 + length name + 1 + length text + 1) 128

abbrev pub size0 : Bool → ℕ
size0 short = if short then 128 else 1024

-- What goes out: the block in the format of the protocol, behind its header.
abbrev pub packet0 : Bool → List ℕ → List ℕ → List ℕ
packet0 short name text =
    (if short then soh else stx) ∷ block true 0 (payload0 (size0 short) name text)

payload0-zeros :
    (k blk : ℕ) (name text past : List ℕ)
    → blk ≤ k
    → length name + 1 + length text ≤ blk
    → payload0 k name text ++ past ≡ payload0 blk name text ++ (zeros (k - blk) ++ past)
payload0-zeros k blk name text past h fits =
    let r = blk - length name - 1 - length text in
    let more : zeros (k - length name - 1 - length text) ≡ zeros r ++ zeros (k - blk) =
      ap zeros {y = r + (k - blk)} (omega arith) ∙ zeros_add r (k - blk) in
    let whole : payload0 k name text ≡ payload0 blk name text ++ zeros (k - blk) =
      ap (λ l. name ++ (0 ∷ (text ++ l))) more
      ∙ ap (λ l. name ++ (0 ∷ l)) (sym (append_assoc text (zeros r) (zeros (k - blk))))
      ∙ sym (append_assoc name (0 ∷ (text ++ zeros r)) (zeros (k - blk))) in
    ap (λ l. l ++ past) whole ∙ append_assoc (payload0 blk name text) (zeros (k - blk)) past

pub length-payload0 :
    (blk : ℕ) (name text : List ℕ)
    → length name + 1 + length text ≤ blk
    → length (payload0 blk name text) ≡ blk
length-payload0 blk name text fits =
    let r = blk - length name - 1 - length text in
    omega (
      arith,
      length-append name (0 ∷ (text ++ zeros r)),
      length-append text (zeros r),
      length-replicate {A = ℕ} r 0,
    )

pub payload0-IsBytes :
    (blk : ℕ) (name text : List ℕ) → IsBytes name → IsBytes text → IsBytes (payload0 blk name text)
payload0-IsBytes blk name text b c =
    let r = blk - length name - 1 - length text in
    IsBytes-append name (0 ∷ (text ++ zeros r)) b
      (omega arith, IsBytes-append text (zeros r) c (IsBytes-replicate r 0 (omega arith)))

module _ {P : Type 0} (line : Line P) where
  -- The block goes out around a payload that stands in the buffer.
  send_block0_lem :
      (blk header max : ℕ) (payload past : List ℕ) (m : Modem P)
      → (if ltb max 128 then 128 else 1024) ≡ blk
      → (if ltb max 128 then soh else stx) ≡ header
      → m.blk_buffer.buffer ≡ stage payload past
      → m.crc16 ≡ Crc.init ccitt_polynome
      → IsBytes payload
      → IsBytes past
      → header < 256
      → length payload ≡ blk
      → 2 ≤ length past
      → (m' : Modem P) × (send_block0 line max m ≡ done (tt, m'))
        × (m'.port ≡ line.putchar m.port (header ∷ block true 0 payload))
        × (m'.file_data ≡ m.file_data)
        × (m'.ramfile ≡ m.ramfile)
  unfolding send_block0
  send_block0_lem blk header max payload past m size head e table bytes past_bytes small len room =
      let pre = front header 0 255 payload in
      let m₁ = with_block (pre ++ past) m in
      let first =
        write_over 0 [] (0 ∷ []) (header ∷ []) (0 ∷ 255 ∷ (payload ++ past)) m e refl refl in
      let same : m₁ ≡ filled m₁ pre =
        ap (λ l. with_block (pre ++ l) m) (sym (drop-append pre past)) in
      let total : length m₁.blk_buffer.buffer ≡ 3 + blk + length past =
        omega (arith, length-append payload past, len) in
      let second' =
        ap (λ n. write_trailer blk true n) same
        ∙ write_crc blk header 0 255 payload m₁ len table bytes
            (small, (omega arith, (omega arith, IsBytes-append payload past bytes past_bytes)))
            (omega (arith, total)) in
      let msg = front header 0 255 (payload ++ trailer true payload) in
      let third =
        send_block-filled line (3 + blk + 2) msg m₁
          (omega (arith, length-append payload (trailer true payload), len))
          (omega (arith, total)) in
      (
        sent line msg m₁.ramfile m₁,
        rw (head, first, ◌>>=◌, size, second', ◌>>=◌, third),
        refl,
        refl,
        refl,
      )

-- The memory behind the announced size.
past_lem :
    (n : ℕ) (b : List ℕ) → n < length b → (c : ℕ) × (past : List ℕ) × (b ≡ take n b ++ (c ∷ past))
past_lem n [] h = absurd (omega arith)
past_lem zero (c ∷ b) h = (c, b, refl)
past_lem (suc n) (c ∷ b) h =
    let (d, past, e) = past_lem n b (omega arith) in (d, past, ap (λ l. c ∷ l) e)

IsBytes-behind : (xs : List ℕ) (c : ℕ) (ys : List ℕ) → IsBytes (xs ++ (c ∷ ys)) → IsBytes ys
IsBytes-behind [] c ys h = h.1
IsBytes-behind (x ∷ xs) c ys h = IsBytes-behind xs c ys h.1

module _ {P : Type 0} (line : Line P) where
  -- The buffer is cleared, the front is written, and the rest follows.
  clear_lem :
      (k c max : ℕ) (past : List ℕ) (m m₁ m₂ : Modem P)
      → m.blk_buffer.max_size ≡ 3 + k
      → m.blk_buffer.buffer ≡ take (3 + k) m.blk_buffer.buffer ++ (c ∷ past)
      → 3 + k ≤ length m.blk_buffer.buffer
      → has_filename m.file_data ≡ true
      → write_header (with_block (stage (zeros k) (c ∷ past)) m) ≡ done (max, m₁)
      → send_block0 line max m₁ ≡ done (tt, m₂)
      → build_and_send_block0 line m ≡ done (true, m₂)
  unfolding build_and_send_block0
  clear_lem k c max past m m₁ m₂ size e long has header send =
      let whole : m.blk_buffer.max_size ≡ suc (suc (suc k)) = omega (arith, size) in
      let rest = zeros k ++ (c ∷ past) in
      let w₀ =
        ap (λ n. write_block 0 (replicate n 0) m) whole
        ∙ write_over 0 [] (take (3 + k) m.blk_buffer.buffer) (0 ∷ 0 ∷ 0 ∷ zeros k) (c ∷ past) m e
            refl
            (omega
              (arith, length-take (3 + k) m.blk_buffer.buffer, length-replicate {A = ℕ} k 0)) in
      let n₀ = with_block (0 ∷ 0 ∷ 0 ∷ rest) m in
      let w₁ = write_over 1 (0 ∷ []) (0 ∷ []) (0 ∷ []) (0 ∷ rest) n₀ refl refl refl in
      let w₂ = write_over 2 (0 ∷ 0 ∷ []) (0 ∷ []) (complement 0 ∷ []) rest n₀ refl refl refl in
      rw (w₀, ◌>>=◌, w₁, ◌>>=◌, w₂, ◌>>=◌, has, header, ◌>>=◌, send, ◌>>=◌)

  -- Block 0 as it goes out, around the text that the code makes of its fields.
  pub build_and_send_block0_lem :
      (nb : ℕ) (name text rest : List ℕ) (m : Modem P)
      → m.crc16 ≡ Crc.init ccitt_polynome
      → IsBytes m.blk_buffer.buffer
      → 1029 ≤ m.blk_buffer.max_size
      → m.blk_buffer.max_size < 2 ^ 31
      → m.blk_buffer.max_size < length m.blk_buffer.buffer
      → has_filename m.file_data ≡ true
      → memory m.file_data.filename ≡ name ++ (0 ∷ rest)
      → NoNul name
      → IsBytes name
      → nb_meta_data m.file_data ≡ suc nb
      → meta_data_text (suc nb) m.file_data ≡ text
      → IsBytes text
      → length name + length text ≤ 1021
      → (m' : Modem P) × (build_and_send_block0 line m ≡ done (true, m'))
        × (m'.port ≡ line.putchar m.port (packet0 (is_short name text) name text))
        × (m'.file_data ≡ m.file_data)
        × (m'.ramfile ≡ m.ramfile)
  build_and_send_block0_lem nb name text rest m table mem big small longer has f visible bytes
        fields printed text_bytes short =
      let k = m.blk_buffer.max_size - 3 in
      let size : m.blk_buffer.max_size ≡ 3 + k = omega arith in
      let max = 3 + length name + 1 + length text + 1 in
      let blk = size0 (is_short name text) in
      let (c, past, e) = past_lem (3 + k) m.blk_buffer.buffer (omega arith) in
      let fits : length name + 1 + length text ≤ blk = ground arith in
      let le : blk ≤ 1024 = ground arith in
      let header_small : (if is_short name text then soh else stx) < 256 = ground arith in
      let past' = zeros (k - blk) ++ (0 ∷ past) in
      let m₀ = with_block (stage (zeros k) (c ∷ past)) m in
      let header =
        write_header_lem k nb c name text rest past m₀ size refl (omega arith) visible f fields
          printed (omega arith) in
      let m₁ = with_block (stage (payload0 k name text) (0 ∷ past)) m in
      let (m₂, send, port, data', file) =
        send_block0_lem line blk (if is_short name text then soh else stx) max
          (payload0 blk name text) past' m₁ refl refl
          (ap (λ l. 0 ∷ 0 ∷ 255 ∷ l) (payload0-zeros k blk name text (0 ∷ past) (omega arith) fits))
          table (payload0-IsBytes blk name text bytes text_bytes)
          (IsBytes-append (zeros (k - blk)) (0 ∷ past) (IsBytes-replicate (k - blk) 0 (omega arith))
            (
              omega arith,
              IsBytes-behind (take (3 + k) m.blk_buffer.buffer) c past (subst IsBytes e mem),
            ))
          header_small (length-payload0 blk name text fits)
          (omega (
            arith,
            length-append (zeros (k - blk)) (0 ∷ past),
            length-replicate {A = ℕ} (k - blk) 0,
          )) in
      (m₂, clear_lem k c max past m m₁ m₂ size e (omega arith) has header send, port, data', file)
