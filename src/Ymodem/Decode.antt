-- ===== src/Ymodem/Decode.antt =====
-- Block 0 in the receiver: `lymodem_decode_block0` of src/lmodem_rx.c on a block in the format of
-- src/lmodem_tx.c.
use light_modem.Base.{
  ℕ, zero, suc, ◌+◌, ◌-◌, ◌^◌, ◌<◌, ◌≤◌, ◌≡◌, ◌⊎◌, inl, inr, refl, ap, ◌∙◌, sym, true, false, List,
  [], ◌∷◌, ◌++◌, some, none, done, arith, ◌==◌, ltb, length, length-append, append_assoc,
  store-done, put_bytes, drop, drop-append, ◌>>=◌, IsBytes, subst, sub_u32, replicate, bit_or,
  length-replicate, drop-drop, length-put_bytes,
}
use light_modem.Modem.{Modem, FileCharacteristics}
use light_modem.Modem.Metadata.{filename_valid, memory}
use light_modem.Modem.Names.{NoNul, filled_up, strncpy_lem}
use light_modem.Ymodem.Text.{strlen}
use light_modem.Ymodem.Header.{
  set_field, nul_length, get_next_meta_data_string, fields, get_meta_data, take_name, decode_block0,
  metadata_clean,
}
use light_modem.Ymodem.Fields.{
  Visible, with_block, byte_at_front, number, separator, fields_text, set_fields, IsWords,
  number_shape, take_field_lem, field_lem,
}

separator_lem : (vs : List ℕ) → separator vs ≡ b' ' ⊎ separator vs ≡ 0
separator_lem [] = inr refl
separator_lem (v ∷ vs) = inl refl

nul_lem :
    (room : ℕ) (w t : List ℕ)
    → 0 < room
    → Visible w × (0 < length w)
    → nul_length room (0 ∷ (w ++ t)) ≡ done 1
unfolding nul_length
nul_lem zero w t h v = absurd (omega arith)
nul_lem (suc room) [] t h v = absurd (omega arith)
nul_lem (suc zero) (c ∷ w) t h v = refl
nul_lem (suc (suc room)) (c ∷ w) t h v = let seen : (c == 0) ≡ false = ground arith in rw (seen)

pub strlen_lem : (name t : List ℕ) → NoNul name → strlen (name ++ (0 ∷ t)) ≡ done (length name)
unfolding strlen
strlen_lem [] t h = refl
strlen_lem (c ∷ name) t h =
    let seen : (c == 0) ≡ false = ground arith in rw (seen, strlen_lem name t h.1)

-- The storage for names after a name was received: `n` bytes of it are written.
abbrev pub name_stored : ℕ → List ℕ → List ℕ → List ℕ
name_stored n name dst = filled_up (n - 1) name ++ (0 ∷ drop n dst)

pub length-filled_up : (n : ℕ) (name : List ℕ) → length name ≤ n → length (filled_up n name) ≡ n
length-filled_up n name h = omega (
  arith,
  length-append name (replicate (n - length name) 0),
  length-replicate {A = ℕ} (n - length name) 0,
)

put_end :
    (xs ys : List ℕ) (x : ℕ) → put_bytes (xs ++ ys) (length xs) (x ∷ []) ≡ xs ++ (x ∷ drop 1 ys)
put_end [] ys x = refl
put_end (y ∷ xs) ys x =
    let next : length (y ∷ xs) + 1 ≡ suc (length xs + 1) = omega arith in rw (next, put_end xs ys x)

stored_lem :
    (n : ℕ) (name dst : List ℕ)
    → length name < n
    → n ≤ length dst
    → put_bytes (put_bytes (put_bytes dst 0 (0 ∷ [])) 0 (filled_up (n - 1) name)) (n - 1) (0 ∷ [])
      ≡ name_stored n name dst
stored_lem n name [] h fits = absurd (omega arith)
stored_lem n name (c ∷ dst) h fits =
    let field = filled_up (n - 1) name in
    let len : length field ≡ n - 1 = length-filled_up (n - 1) name (omega arith) in
    let behind = drop (0 + length field) (0 ∷ dst) in
    let tail : drop 1 behind ≡ drop n (c ∷ dst) =
      drop-drop 1 (0 + length field) (0 ∷ dst)
      ∙ ap (λ k. drop k (0 ∷ dst)) {y = suc (n - 1)} (omega (arith, len))
      ∙ ap (λ k. drop k (c ∷ dst)) {x = suc (n - 1)} (omega arith) in
    ap (λ k. put_bytes (field ++ behind) k (0 ∷ [])) (sym len)
    ∙ put_end field behind 0
    ∙ ap (λ l. field ++ (0 ∷ l)) tail

-- The name is followed by a NUL.
stored_name :
    (n : ℕ) (name dst : List ℕ)
    → length name + 1 < n
    → (t : List ℕ) × (name_stored n name dst ≡ name ++ (0 ∷ t))
stored_name n name dst h =
    let k = n - 1 - length name - 1 in
    let more : n - 1 - length name ≡ suc k = omega arith in
    (
      replicate k 0 ++ (0 ∷ drop n dst),
      ap (λ j. (name ++ replicate j 0) ++ (0 ∷ drop n dst)) more
          ∙ append_assoc name (replicate (suc k) 0) (0 ∷ drop n dst),
    )

-- Memory that is as long as before, and holds bytes if it did.
abbrev pub IsFresh : List ℕ → List ℕ → Type 0
IsFresh old new = (length new ≡ length old) × (IsBytes old → IsBytes new)

cut_IsBytes : (xs t : List ℕ) (c : ℕ) → IsBytes (xs ++ (c ∷ t)) → IsBytes (xs ++ (0 ∷ t))
cut_IsBytes [] t c h = (omega arith, h.1)
cut_IsBytes (x ∷ xs) t c h = (h.0, cut_IsBytes xs t c h.1)

-- The metadata before block 0 is taken, and after it has brought a name.
abbrev cleaned : List ℕ → FileCharacteristics → FileCharacteristics
cleaned dst d = record {
  valid = 0;
  filename = some (put_bytes dst 0 (0 ∷ []));
  filename_size = d.filename_size;
  size = 0;
  modif_date = 0;
  permission = 0;
  serial_number = 0;
}

abbrev pub named : List ℕ → List ℕ → FileCharacteristics → FileCharacteristics
named name dst d = record (cleaned dst d) {
  valid = filename_valid;
  filename = some (name_stored d.filename_size name dst);
}

clean_lem :
    (dst : List ℕ) (d : FileCharacteristics)
    → d.filename ≡ some dst
    → 0 < length dst
    → metadata_clean d ≡ done (tt, cleaned dst d)
unfolding metadata_clean
clean_lem dst d f some_byte = rw (metadata_clean, f, store-done dst 0 (0 ∷ []) (omega arith))

module _ {P : Type 0} where
  no_field :
      (pre rest : List ℕ) (end : ℕ) (m : Modem P)
      → m.blk_buffer.buffer ≡ pre ++ (0 ∷ rest)
      → get_next_meta_data_string (length pre) end m ≡ done (none, m)
  unfolding get_next_meta_data_string
  no_field pre rest end m e = rw (byte_at_front pre rest 0 m e, ◌>>=◌)

  -- The fields of the list are stored one after the other.
  fields_lem :
      (left nb : ℕ) (vs pre rest : List ℕ) (end : ℕ) (m : Modem P)
      → m.blk_buffer.buffer ≡ pre ++ fields_text nb vs rest
      → length vs ≤ left
      → IsWords vs
      → length m.blk_buffer.buffer ≤ end
      → (b : List ℕ) × (fields left nb (length pre) end m
          ≡ done (true, with_block b (record m { file_data = set_fields nb vs m.file_data })))
        × IsFresh m.blk_buffer.buffer b
  unfolding fields
  fields_lem zero nb [] pre rest end m e h words room = (m.blk_buffer.buffer, refl, (refl, λ h. h))
  fields_lem zero nb (v ∷ vs) pre rest end m e h words room = absurd (omega arith)
  fields_lem (suc left) nb [] pre rest end m e h words room =
      (m.blk_buffer.buffer, rw (no_field pre rest end m e, ◌>>=◌), (refl, λ h. h))
  fields_lem (suc left) nb (v ∷ vs) pre rest end m e h words room =
      let t = fields_text (suc nb) vs rest in
      let pre' = pre ++ (number nb v ++ (0 ∷ [])) in
      let m₁ = with_block (pre ++ (number nb v ++ (0 ∷ t))) m in
      let m₂ = record m₁ { file_data = set_field nb v m.file_data } in
      let e₂ : m₂.blk_buffer.buffer ≡ pre' ++ t = sym (
        append_assoc pre (number nb v ++ (0 ∷ [])) t
        ∙ ap (λ l. pre ++ l) (append_assoc (number nb v) (0 ∷ []) t)) in
      let same : length m₂.blk_buffer.buffer ≡ length m.blk_buffer.buffer = omega (
        arith,
        ap length e,
        length-append pre (number nb v ++ (0 ∷ t)),
        length-append pre (number nb v ++ (separator vs ∷ t)),
        length-append (number nb v) (0 ∷ t),
        length-append (number nb v) (separator vs ∷ t),
      ) in
      let (b, run, (len, bytes)) =
        fields_lem left (suc nb) vs pre' rest end m₂ e₂ (omega arith) words.1
          (omega (arith, same)) in
      let next_nb : nb + 1 ≡ suc nb = omega arith in
      (
        b,
        rw
            (
              field_lem pre t nb v (separator vs) end m e (separator_lem vs) room,
              ◌>>=◌,
              take_field_lem pre t nb v m₁ refl words.0,
              ◌>>=◌,
              next_nb,
            )
            run,
        (
          len ∙ same,
          λ h. bytes (
              subst IsBytes (append_assoc pre (number nb v) (0 ∷ t)) (
                cut_IsBytes (pre ++ number nb v) t (separator vs)
                  (subst IsBytes (e ∙ sym (append_assoc pre (number nb v) (separator vs ∷ t))) h))),
        ),
      )

  get_meta_data_lem :
      (a b v : ℕ) (name vs rest t : List ℕ) (m : Modem P)
      → m.blk_buffer.buffer ≡ (a ∷ b ∷ name) ++ (0 ∷ fields_text 0 (v ∷ vs) rest)
      → memory m.file_data.filename ≡ name ++ (0 ∷ t)
      → NoNul name
      → length vs ≤ 3
      → IsWords (v ∷ vs)
      → length m.blk_buffer.buffer ≤ m.blk_buffer.max_size
      → (bytes : List ℕ) × (get_meta_data m
          ≡ done
              (true, with_block bytes (record m { file_data = set_fields 0 (v ∷ vs) m.file_data })))
        × IsFresh m.blk_buffer.buffer bytes
  unfolding get_meta_data
  get_meta_data_lem a b v name vs rest t m e stored visible few words room =
      let start = 2 + length name in
      let end = start + m.blk_buffer.max_size in
      let T = fields_text 0 (v ∷ vs) rest in
      let pre = (a ∷ b ∷ name) ++ (0 ∷ []) in
      let len : length m.blk_buffer.buffer ≡ start + suc (length T) =
        omega (arith, ap length e, length-append name (0 ∷ T)) in
      let behind : drop start m.blk_buffer.buffer ≡ 0 ∷ T =
        ap (drop start) e
        ∙ ap (λ k. drop k ((a ∷ b ∷ name) ++ (0 ∷ T))) {y = length (a ∷ b ∷ name)} (omega arith)
        ∙ drop-append (a ∷ b ∷ name) (0 ∷ T) in
      let e' : m.blk_buffer.buffer ≡ pre ++ T = e ∙ sym (append_assoc (a ∷ b ∷ name) (0 ∷ []) T) in
      let place : length pre ≡ start + 1 = omega (arith, length-append name (0 ∷ [])) in
      let inside : ltb (start + 1) end ≡ true = ground arith in
      let (bytes, run, fresh) =
        fields_lem 4 0 (v ∷ vs) pre rest end m e' (omega arith) words (omega (arith, len)) in
      (
        bytes,
        rw
            (
              stored,
              strlen_lem name t visible,
              ◌>>=◌,
              behind,
              nul_lem m.blk_buffer.max_size (number 0 v) (separator vs ∷ fields_text 1 vs rest)
                  (omega (arith, len)) (number_shape 0 v),
              ◌>>=◌,
              inside,
            )
            (rw (place) at run),
        fresh,
      )

  take_name_lem :
      (name T dst : List ℕ) (m : Modem P)
      → drop 2 m.blk_buffer.buffer ≡ name ++ (0 ∷ T)
      → m.file_data.filename ≡ some (put_bytes dst 0 (0 ∷ []))
      → m.file_data.filename_size ≤ length dst
      → m.file_data.filename_size < 2 ^ 32
      → NoNul name
      → length name + 1 < m.file_data.filename_size
      → take_name m
        ≡ done (
          tt,
          record m {
            file_data = record m.file_data {
              filename = some (name_stored m.file_data.filename_size name dst);
              valid = bit_or m.file_data.valid filename_valid;
            };
          },
        )
  unfolding take_name
  take_name_lem name T dst m e f fits small visible short =
      let n = m.file_data.filename_size in
      let field = filled_up (n - 1) name in
      let len : length field ≡ n - 1 = length-filled_up (n - 1) name (omega arith) in
      let last : sub_u32 n 1 ≡ n - 1 = omega arith in
      let dst₁ = put_bytes dst 0 (0 ∷ []) in
      let size₁ : length dst₁ ≡ length dst = length-put_bytes dst 0 (0 ∷ []) (omega arith) in
      let copied = put_bytes dst₁ 0 field in
      let size₂ : length copied ≡ length dst₁ =
        length-put_bytes dst₁ 0 field (omega (arith, len, size₁)) in
      rw (
        last,
        e,
        strncpy_lem (n - 1) name T visible (omega arith),
        ◌>>=◌,
        f,
        store-done dst₁ 0 field (omega (arith, len, size₁)),
        ◌>>=◌,
        last,
        store-done copied (n - 1) (0 ∷ []) (omega (arith, size₁, size₂)),
        ◌>>=◌,
        stored_lem n name dst (omega arith) fits,
      )

  -- A name and one to four fields behind it are taken.
  pub decode_block0_lem :
      (a b v : ℕ) (name vs rest dst : List ℕ) (m : Modem P)
      → m.blk_buffer.buffer ≡ (a ∷ b ∷ name) ++ (0 ∷ fields_text 0 (v ∷ vs) rest)
      → length m.blk_buffer.buffer ≤ m.blk_buffer.max_size
      → m.file_data.filename ≡ some dst
      → m.file_data.filename_size ≤ length dst
      → m.file_data.filename_size < 2 ^ 32
      → NoNul name
      → 0 < length name
      → length name + 1 < m.file_data.filename_size
      → length vs ≤ 3
      → IsWords (v ∷ vs)
      → (bytes : List ℕ) × (decode_block0 m
          ≡ done (
            true,
            with_block bytes
                (record m { file_data = set_fields 0 (v ∷ vs) (named name dst m.file_data) }),
          ))
        × IsFresh m.blk_buffer.buffer bytes
  unfolding decode_block0
  decode_block0_lem a b v [] vs rest dst m e room f fits small visible some_name short few words =
      absurd (omega arith)
  decode_block0_lem a b v (c ∷ name) vs rest dst m e room f fits small visible some_name short few
        words =
      let n = m.file_data.filename_size in
      let T = fields_text 0 (v ∷ vs) rest in
      let seen : (c == 0) ≡ false = ground arith in
      let m₁ = record m { file_data = cleaned dst m.file_data } in
      let m₂ = record m { file_data = named (c ∷ name) dst m.file_data } in
      let (t, stored) = stored_name n (c ∷ name) dst short in
      let (bytes, run, fresh) =
        get_meta_data_lem a b v (c ∷ name) vs rest t m₂ e stored visible few words room in
      (
        bytes,
        rw
            (
              clean_lem dst m.file_data f (omega arith),
              ◌>>=◌,
              byte_at_front (a ∷ b ∷ []) (name ++ (0 ∷ T)) c m₁ e,
              ◌>>=◌,
              seen,
              take_name_lem (c ∷ name) (T) dst m₁ (ap (drop 2) e) refl fits small visible short,
              ◌>>=◌,
            )
            run,
        fresh,
      )
