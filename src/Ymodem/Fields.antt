-- ===== src/Ymodem/Fields.antt =====
-- The fields of block 0 in the receiver: `lymodem_get_meta_data` of src/lmodem_rx.c on the text
-- that the formats of src/lmodem_tx.c make.
use light_modem.Base.{
  ℕ, zero, suc, ◌+◌, ◌-◌, ◌/◌, ◌%◌, ◌^◌, ◌<◌, ◌≤◌, ◌≡◌, ◌⊎◌, inl, inr, refl, ap, ◌∙◌, sym, true,
  false, List, [], ◌∷◌, ◌++◌, some, done, arith, ◌==◌, leb, ltb, length, length-append,
  append_assoc, load-done, store-done, put_bytes, drop, drop-append, ◌>>=◌, ◌||◌, Bool-cases,
}
use light_modem.Modem.{Modem, byte_at, write_block, FileCharacteristics}
use light_modem.Ymodem.Text.{decimal, octal, digits}
use light_modem.Ymodem.Header.{
  word_length, get_next_meta_data_string, take_field, set_field, field_mode, get_number,
}
use light_modem.Ymodem.Number.{get_number-printed}

-- No character is a space or a NUL.
abbrev pub Visible : List ℕ → Type 0
Visible [] = Unit
Visible (c ∷ text) = (b' ' < c) × Visible text

put_one : (xs t : List ℕ) (c x : ℕ) → put_bytes (xs ++ (c ∷ t)) (length xs) (x ∷ []) ≡ xs ++ (x ∷ t)
put_one [] t c x = refl
put_one (y ∷ xs) t c x =
    let next : length (y ∷ xs) + 1 ≡ suc (length xs + 1) = omega arith in
    rw (next, put_one xs t c x)

word_lem :
    (room : ℕ) (w t : List ℕ) (s : ℕ)
    → Visible w
    → length w ≤ room
    → s ≡ b' ' ⊎ s ≡ 0
    → word_length room (w ++ (s ∷ t)) ≡ done (length w)
unfolding word_length
word_lem zero [] t s v h e = refl
word_lem zero (c ∷ w) t s v h e = absurd (omega arith)
word_lem (suc room) [] t s v h (inl e) = rw (e)
word_lem (suc room) [] t s v h (inr e) = rw (e)
word_lem (suc room) (c ∷ w) t s v h e =
    let seen : (c == b' ' || c == 0) ≡ false = ground arith in
    rw (seen, word_lem room w t s v.1 (omega arith) e)

module _ {P : Type 0} where
  -- The context with other bytes in the block buffer.
  abbrev pub with_block : List ℕ → Modem P → Modem P
  with_block bytes m = record m { blk_buffer = record m.blk_buffer { buffer = bytes } }

  pub byte_at_front :
      (pre t : List ℕ) (c : ℕ) (m : Modem P)
      → m.blk_buffer.buffer ≡ pre ++ (c ∷ t)
      → byte_at (length pre) m ≡ done (c, m)
  unfolding byte_at
  byte_at_front pre t c m e =
      let len : length m.blk_buffer.buffer ≡ length pre + suc (length t) =
        ap length e ∙ length-append pre (c ∷ t) in
      let behind : drop (length pre) m.blk_buffer.buffer ≡ c ∷ t =
        ap (drop (length pre)) e ∙ drop-append pre (c ∷ t) in
      rw (load-done m.blk_buffer.buffer (length pre) 1 (omega (arith, len)), ◌>>=◌, behind)

  pub write_front :
      (pre t : List ℕ) (c x : ℕ) (m : Modem P)
      → m.blk_buffer.buffer ≡ pre ++ (c ∷ t)
      → write_block (length pre) (x ∷ []) m ≡ done (tt, with_block (pre ++ (x ∷ t)) m)
  unfolding write_block
  write_front pre t c x m e =
      let len : length m.blk_buffer.buffer ≡ length pre + suc (length t) =
        ap length e ∙ length-append pre (c ∷ t) in
      rw (store-done m.blk_buffer.buffer (length pre) (x ∷ []) (omega (arith, len)), ◌>>=◌)
        (ap (λ b. done (tt, with_block b m))
          (ap (λ b. put_bytes b (length pre) (x ∷ [])) e ∙ put_one pre t c x))

  next_lem :
      (pre w t : List ℕ) (c s end : ℕ) (m : Modem P)
      → m.blk_buffer.buffer ≡ pre ++ (c ∷ (w ++ (s ∷ t)))
      → Visible (c ∷ w)
      → s ≡ b' ' ⊎ s ≡ 0
      → length pre + suc (length w) ≤ end
      → get_next_meta_data_string (length pre) end m
        ≡ done (
          some (length pre, length pre + suc (length w) + 1),
          with_block (pre ++ (c ∷ (w ++ (0 ∷ t)))) m,
        )
  unfolding get_next_meta_data_string
  next_lem pre w t c s end m e v sep room =
      let more : (c == 0 || leb end (length pre)) ≡ false = ground arith in
      let behind : drop (length pre) m.blk_buffer.buffer ≡ (c ∷ w) ++ (s ∷ t) =
        ap (drop (length pre)) e ∙ drop-append pre (c ∷ (w ++ (s ∷ t))) in
      let count : word_length (end - length pre) ((c ∷ w) ++ (s ∷ t)) ≡ done (suc (length w)) =
        word_lem (end - length pre) (c ∷ w) t s v (omega arith) sep in
      let split : m.blk_buffer.buffer ≡ (pre ++ (c ∷ w)) ++ (s ∷ t) =
        e ∙ sym (append_assoc pre (c ∷ w) (s ∷ t)) in
      let place : length (pre ++ (c ∷ w)) ≡ length pre + suc (length w) =
        length-append pre (c ∷ w) in
      let written =
        rw (place, append_assoc pre (c ∷ w) (0 ∷ t)) at
          (write_front (pre ++ (c ∷ w)) t s 0 m split) in
      rw (byte_at_front pre (w ++ (s ∷ t)) c m e, ◌>>=◌, more, behind, count, ◌>>=◌, written, ◌>>=◌)

-- The value `v` of field `nb`, as it is printed.
abbrev pub number : ℕ → ℕ → List ℕ
number zero v = decimal v
number (suc nb) v = octal v

-- What stands behind a value if the values `vs` follow.
abbrev pub separator : List ℕ → ℕ
separator [] = 0
separator (v ∷ vs) = b' '

-- The values from field `nb` on, with spaces between them, and two NULs and `rest` behind them.
abbrev pub fields_text : ℕ → List ℕ → List ℕ → List ℕ
fields_text nb [] rest = 0 ∷ rest
fields_text nb (v ∷ vs) rest = number nb v ++ (separator vs ∷ fields_text (suc nb) vs rest)

abbrev pub set_fields : ℕ → List ℕ → FileCharacteristics → FileCharacteristics
set_fields nb [] d = d
set_fields nb (v ∷ vs) d = set_fields (suc nb) vs (set_field nb v d)

abbrev pub IsWords : List ℕ → Type 0
IsWords [] = Unit
IsWords (v ∷ vs) = (v < 2 ^ 32) × IsWords vs

digits-Visible : (fuel base n : ℕ) (out : List ℕ) → Visible out → Visible (digits fuel base n out)
unfolding digits
digits-Visible zero base n out h = h
digits-Visible (suc fuel) base n out h = elim (Bool-cases (n / base == 0)) [
  | inl e ↦ rw (e) (omega arith, h)
  | inr e ↦ rw (e) (digits-Visible fuel base (n / base) ((b'0' + n % base) ∷ out) (omega arith, h))
]

digits_some : (fuel base n : ℕ) (out : List ℕ) → length out < length (digits (suc fuel) base n out)
unfolding digits
digits_some zero base n out = elim (Bool-cases (n / base == 0)) [
  | inl e ↦ rw (e) (omega arith)
  | inr e ↦ rw (e) (omega arith)
]
digits_some (suc fuel) base n out = elim (Bool-cases (n / base == 0)) [
  | inl e ↦ rw (e) (omega arith)
  | inr e ↦ rw (e) (omega (arith, digits_some fuel base (n / base) ((b'0' + n % base) ∷ out)))
]

pub number_shape : (nb v : ℕ) → Visible (number nb v) × (0 < length (number nb v))
unfolding decimal octal
number_shape zero v = elim (Bool-cases (ltb v (2 ^ 31))) [
  | inl e ↦ rw (e) (digits-Visible 11 10 v [] tt, digits_some 10 10 v [])
  | inr e ↦ rw (e) ((omega arith, digits-Visible 11 10 (2 ^ 32 - v) [] tt), omega arith)
]
number_shape (suc nb) v = (digits-Visible 11 8 v [] tt, digits_some 10 8 v [])

number_read :
    (nb v : ℕ) (t : List ℕ)
    → v < 2 ^ 32
    → get_number (field_mode nb) (number nb v ++ (0 ∷ t)) ≡ done (v, true)
number_read zero v t h = (get_number-printed v 0 t h).0
number_read (suc nb) v t h = (get_number-printed v nb t h).1

module _ {P : Type 0} where
  pub take_field_lem :
      (pre t : List ℕ) (nb v : ℕ) (m : Modem P)
      → m.blk_buffer.buffer ≡ pre ++ (number nb v ++ (0 ∷ t))
      → v < 2 ^ 32
      → take_field nb (length pre) m
        ≡ done (true, record m { file_data = set_field nb v m.file_data })
  unfolding take_field
  take_field_lem pre t nb v m e h =
      let behind : drop (length pre) m.blk_buffer.buffer ≡ number nb v ++ (0 ∷ t) =
        ap (drop (length pre)) e ∙ drop-append pre (number nb v ++ (0 ∷ t)) in
      rw (behind, number_read nb v t h, ◌>>=◌)

  -- The first field of a list, and what it leaves for the next.
  pub field_lem :
      (pre t : List ℕ) (nb v s end : ℕ) (m : Modem P)
      → m.blk_buffer.buffer ≡ pre ++ (number nb v ++ (s ∷ t))
      → s ≡ b' ' ⊎ s ≡ 0
      → length m.blk_buffer.buffer ≤ end
      → get_next_meta_data_string (length pre) end m
        ≡ done (
          some (length pre, length (pre ++ (number nb v ++ (0 ∷ [])))),
          with_block (pre ++ (number nb v ++ (0 ∷ t))) m,
        )
  field_lem pre t nb v s end m e sep room = split (number nb v) (number_shape nb v) e
    where
      split :
          (w : List ℕ)
          → Visible w × (0 < length w)
          → m.blk_buffer.buffer ≡ pre ++ (w ++ (s ∷ t))
          → get_next_meta_data_string (length pre) end m
            ≡ done (
              some (length pre, length (pre ++ (w ++ (0 ∷ [])))),
              with_block (pre ++ (w ++ (0 ∷ t))) m,
            )
      split [] h e = absurd (omega arith)
      split (c ∷ w) h e =
          let place : length (pre ++ ((c ∷ w) ++ (0 ∷ []))) ≡ length pre + suc (length w) + 1 =
            omega (arith, length-append pre ((c ∷ w) ++ (0 ∷ [])), length-append w (0 ∷ [])) in
          rw (place) (
            next_lem pre w t c s end m e h.0 sep (
              omega (
                arith,
                ap length e,
                length-append pre ((c ∷ w) ++ (s ∷ t)),
                length-append w (s ∷ t),
              )))
