-- ===== src/Ymodem/Block0.antt =====
-- The bytes of block 0 that `lymodem_build_and_send_block0` of src/lmodem_tx.c sends.
use light_modem.Base.{
  ℕ, zero, suc, ◌+◌, ◌-◌, ◌%◌, ◌^◌, ◌<◌, ◌≤◌, ◌≡◌, refl, ap, ◌∙◌, sym, List, [], ◌∷◌, ◌++◌, done,
  arith, length, length-append, length-replicate, append_assoc, take, drop, take-append,
  drop-append, put_bytes, store-done, replicate, ◌>>=◌, sub_u32, u32,
}
use light_modem.Modem.{Modem, write_block}
use light_modem.Modem.Metadata.{memory}
use light_modem.Modem.Names.{NoNul, filled_up, strncpy_lem}
use light_modem.Emit.Fill.{drop_past}
use light_modem.Ymodem.Text.{strlen, printed}
use light_modem.Ymodem.Emit.{nb_meta_data, meta_data_text, meta_data_bytes, write_header}
use light_modem.Ymodem.Fields.{with_block}
use light_modem.Ymodem.Decode.{length-filled_up, strlen_lem}

put_over :
    (pre old new t : List ℕ)
    → length old ≡ length new
    → put_bytes (pre ++ (old ++ t)) (length pre) new ≡ pre ++ (new ++ t)
put_over pre old new t same =
    let behind : drop (length pre + length new) (pre ++ (old ++ t)) ≡ t =
      drop_past pre (old ++ t) (length new)
      ∙ ap (λ k. drop k (old ++ t)) (sym same)
      ∙ drop-append old t in
    rw (take-append pre (old ++ t), behind)

abbrev pub zeros : ℕ → List ℕ
zeros n = replicate n 0

pub zeros_add : (a b : ℕ) → zeros (a + b) ≡ zeros a ++ zeros b
zeros_add zero b = ap (λ k. replicate k 0) {y = b} (omega arith)
zeros_add (suc a) b =
    ap (λ k. replicate k 0) {y = suc (a + b)} (omega arith) ∙ ap (λ l. 0 ∷ l) (zeros_add a b)

-- What stands in the buffer before the header: the front of the block, bytes as many as are
-- announced, and the bytes past them.
abbrev pub stage : List ℕ → List ℕ → List ℕ
stage payload past = 0 ∷ 0 ∷ 255 ∷ (payload ++ past)

take_all : (r : ℕ) (xs : List ℕ) → length xs ≤ r → take r xs ≡ xs
take_all zero [] h = refl
take_all (suc r) [] h = refl
take_all zero (x ∷ xs) h = absurd (omega arith)
take_all (suc r) (x ∷ xs) h = ap (λ l. x ∷ l) (take_all r xs (omega arith))

printed_lem : (room : ℕ) (text : List ℕ) → length text < room → printed room text ≡ text ++ (0 ∷ [])
unfolding printed
printed_lem zero text h = absurd (omega arith)
printed_lem (suc r) text h = ap (λ l. l ++ (0 ∷ [])) (take_all r text (omega arith))

-- The bytes of the payload: the name, the text of the fields, and NULs.
abbrev pub payload0 : ℕ → List ℕ → List ℕ → List ℕ
payload0 k name text = name ++ (0 ∷ (text ++ zeros (k - length name - 1 - length text)))

-- Two ways to see the buffer, before the text is written and after it.
before_text :
    (k i : ℕ) (name text past : List ℕ)
    → k ≡ length name + 1 + (length text + 1 + i)
    → filled_up k name ++ past
      ≡ (name ++ (0 ∷ [])) ++ (zeros (length text + 1) ++ (zeros i ++ past))
before_text k i name text past e =
    let behind : zeros (k - length name) ≡ 0 ∷ (zeros (length text + 1) ++ zeros i) =
      ap zeros {y = suc (length text + 1 + i)} (omega arith)
      ∙ ap (λ l. 0 ∷ l) (zeros_add (length text + 1) i) in
    ap (λ l. (name ++ l) ++ past) behind
    ∙ append_assoc name (0 ∷ (zeros (length text + 1) ++ zeros i)) past
    ∙ ap (λ l. name ++ (0 ∷ l)) (append_assoc (zeros (length text + 1)) (zeros i) past)
    ∙ sym (append_assoc name (0 ∷ []) (zeros (length text + 1) ++ (zeros i ++ past)))

after_text :
    (k i : ℕ) (name text past : List ℕ)
    → k ≡ length name + 1 + (length text + 1 + i)
    → (name ++ (0 ∷ [])) ++ ((text ++ (0 ∷ [])) ++ (zeros i ++ past)) ≡ payload0 k name text ++ past
after_text k i name text past e =
    let count : k - length name - 1 - length text ≡ suc i = omega arith in
    append_assoc name (0 ∷ []) ((text ++ (0 ∷ [])) ++ (zeros i ++ past))
    ∙ ap (λ l. name ++ (0 ∷ l))
        (append_assoc text (0 ∷ []) (zeros i ++ past)
          ∙ sym (append_assoc text (zeros (suc i)) past)
          ∙ ap (λ c. (text ++ zeros c) ++ past) (sym count))
    ∙ sym (append_assoc name (0 ∷ (text ++ zeros (k - length name - 1 - length text))) past)

module _ {P : Type 0} where
  -- Bytes of the block buffer are replaced by as many others.
  pub write_over :
      (off : ℕ) (pre old new t : List ℕ) (m : Modem P)
      → m.blk_buffer.buffer ≡ pre ++ (old ++ t)
      → length pre ≡ off
      → length old ≡ length new
      → write_block off new m ≡ done (tt, with_block (pre ++ (new ++ t)) m)
  unfolding write_block
  write_over off pre old new t m e at same =
      let len : length m.blk_buffer.buffer ≡ length pre + (length old + length t) =
        ap length e
        ∙ length-append pre (old ++ t)
        ∙ ap (λ (k : ℕ). length pre + k) (length-append old t) in
      rw (store-done m.blk_buffer.buffer off new (omega (arith, len, at, same)), ◌>>=◌)
        (ap (λ b. done (tt, with_block b m))
          (ap (λ b. put_bytes b off new) e
            ∙ ap (λ o. put_bytes (pre ++ (old ++ t)) o new) (sym at)
            ∙ put_over pre old new t same))

  pub write_header_lem :
      (k nb c : ℕ) (name text rest past : List ℕ) (m : Modem P)
      → m.blk_buffer.max_size ≡ 3 + k
      → m.blk_buffer.buffer ≡ stage (zeros k) (c ∷ past)
      → k < 2 ^ 31
      → NoNul name
      → memory m.file_data.filename ≡ name ++ (0 ∷ rest)
      → nb_meta_data m.file_data ≡ suc nb
      → meta_data_text (suc nb) m.file_data ≡ text
      → length name + length text + 4 < k
      → write_header m
        ≡ done (
          3 + length name + 1 + length text + 1,
          with_block (stage (payload0 k name text) (0 ∷ past)) m,
        )
  unfolding write_header meta_data_bytes
  write_header_lem k nb c name text rest past m size e small visible f fields printed_text short =
      let n = length name in
      let lt = length text in
      let room : sub_u32 m.blk_buffer.max_size 3 ≡ k = omega (arith, size) in
      let field = filled_up k name in
      let len : length field ≡ k = length-filled_up k name (omega arith) in
      let m₁ = with_block (stage field (c ∷ past)) m in
      let m₂ = with_block (stage field (0 ∷ past)) m in
      let start = 3 + n + 1 in
      let i = k - n - 1 - lt - 1 in
      let split : k ≡ n + 1 + (lt + 1 + i) = omega arith in
      let room' : (m.blk_buffer.max_size + 2 ^ 64 - 3 - start) % 2 ^ 64 ≡ k - n - 4 =
        omega (arith, size) in
      let total : u32 (start + lt + 1) ≡ start + lt + 1 = omega arith in
      let j = k - n - 1 in
      let ends : field ++ (0 ∷ past) ≡ name ++ (0 ∷ (zeros j ++ (0 ∷ past))) =
        ap (λ c. (name ++ zeros c) ++ (0 ∷ past)) {y = suc j} (omega arith)
        ∙ append_assoc name (zeros (suc j)) (0 ∷ past) in
      let measured : strlen (field ++ (0 ∷ past)) ≡ done n =
        ap strlen ends ∙ strlen_lem name (zeros j ++ (0 ∷ past)) visible in
      let w₁ =
        write_over 3 (0 ∷ 0 ∷ 255 ∷ []) (zeros k) field (c ∷ past) m e refl
          (omega (arith, len, length-replicate {A = ℕ} k 0)) in
      let w₂ =
        write_over (3 + k) (0 ∷ 0 ∷ 255 ∷ field) (c ∷ []) (0 ∷ []) past m₁ refl (omega (arith, len))
          refl in
      let w₃ =
        write_over start (0 ∷ 0 ∷ 255 ∷ (name ++ (0 ∷ []))) (zeros (lt + 1)) (text ++ (0 ∷ []))
          (zeros i ++ (0 ∷ past)) m₂
          (ap (λ l. 0 ∷ 0 ∷ 255 ∷ l) (before_text k i name text (0 ∷ past) split))
          (omega (arith, length-append name (0 ∷ [])))
          (omega (arith, length-append text (0 ∷ []), length-replicate {A = ℕ} (lt + 1) 0))
        ∙ ap (λ l. done (tt, with_block (0 ∷ 0 ∷ 255 ∷ l) m))
            (after_text k i name text (0 ∷ past) split) in
      rw (
        room,
        f,
        strncpy_lem k name rest visible (omega arith),
        ◌>>=◌,
        w₁,
        ◌>>=◌,
        room,
        w₂,
        ◌>>=◌,
        measured,
        ◌>>=◌,
        fields,
        printed_text,
        room',
        printed_lem (k - n - 4) text (omega arith),
        w₃,
        ◌>>=◌,
        fields,
        printed_text,
        total,
      )
