-- ===== src/DbgSerial/Session.antt =====
-- What the serial tracer src/tools/dbg_serial.c makes of a whole stream of blocks and characters.
use light_modem.Base.{
  ℕ, zero, suc, ◌+◌, ◌%◌, ◌≤◌, ◌<◌, ◌≡◌, ◌≢◌, refl, sym, ◌∙◌, ap, true, false, List, [], ◌∷◌, ◌++◌,
  some, Outcome, done, arith, length, length-drop, length-append, take, drop, take-append,
  drop-append, append_assoc, append-nil, ltb, ltb→lt, subst, ◌==◌, ◌>>=◌, zoom, if◌then◌else◌,
  get_or, map, Bool-cases, inl, inr, u8,
}
use light_modem.Frame.{sum}
use light_modem.Serial.{Os, setup}
use light_modem.Serial.Stream.{Stream, serial_read-Got, serial_send_char_lem}
use light_modem.DbgSerial.{
  codes, is_ctrl_code, get_ctrl_code, sum_from, calcul_chksum, hex_of_byte, hex_of_char, dump,
  Tracer, newline, read_port, send_char, trace_block, trace_eot, trace_other, dispatch, body, loop,
  main,
}
use light_modem.DbgSerial.Ascii.{Control, nul, value}
use light_modem.DbgSerial.Names.{spelling, controls, named, get_ctrl_code_lem}

-- A block behind its SOH, or another character.
pub data Item : Type 0 where
  block : List ℕ → Item
  other : ℕ → Item

abbrev pub IsItem : Item → Type 0
IsItem (block bytes) = length bytes ≡ 132
IsItem (other c) = (c ≢ 1) × (c ≢ 4)

abbrev pub IsItems : List Item → Type 0
IsItems [] = Unit
IsItems (x ∷ xs) = IsItem x × IsItems xs

-- What stands on the line.
abbrev pub sent : Item → List ℕ
sent (block bytes) = 1 ∷ bytes
sent (other c) = c ∷ []

-- What is printed: of a block its bytes and the sum modulo 256 of all but the first two and the
-- last; of a character its name, too, if it is a control character.
abbrev pub sum_shown : List ℕ → ℕ
sum_shown bytes = sum (take 129 (drop 2 bytes)) % 256

abbrev pub name_of : ℕ → List ℕ
name_of c = if ltb c 32 then get_or (map spelling controls) c [] else []

abbrev pub shown : Item → List ℕ
shown (block bytes) =
    codes "SOH: "
    ++ (dump bytes
        ++ (newline ++ (codes "chksum = 0x" ++ (hex_of_byte (sum_shown bytes) ++ newline))))
shown (other c) =
    b'>' ∷ c ∷ codes " (0x" ++ (hex_of_char c ++ (codes ")" ++ (name_of c ++ newline)))

-- What is answered.
abbrev pub reply : Item → List ℕ
reply (block bytes) = 6 ∷ []
reply (other c) = []

-- What is printed at the end.
abbrev pub eot_shown : List ℕ
eot_shown = codes "EOT: " ++ newline

abbrev pub all : (Item → List ℕ) → List Item → List ℕ
all f [] = []
all f (x ∷ xs) = f x ++ all f xs

sum_from_lem :
    (t size : ℕ) (buffer : List ℕ)
    → t < 256
    → size ≤ length buffer
    → sum_from t buffer size ≡ done ((t + sum (take size buffer)) % 256)
unfolding sum_from
sum_from_lem t zero buffer small fits = ap done (omega arith)
sum_from_lem t (suc size) [] small fits = absurd (omega arith)
sum_from_lem t (suc size) (c ∷ buffer) small fits =
    sum_from_lem (u8 (t + c)) size buffer (omega arith) (omega arith)
    ∙ ap done {x = ((t + c) % 256 + sum (take size buffer)) % 256} (omega arith)

pub calcul_chksum_lem :
    (buffer : List ℕ) (size : ℕ)
    → size ≤ length buffer
    → calcul_chksum buffer size ≡ done (sum (take size buffer) % 256)
unfolding calcul_chksum
calcul_chksum_lem buffer size fits =
    sum_from_lem 0 size buffer (omega arith) fits
    ∙ ap done {x = (0 + sum (take size buffer)) % 256} (omega arith)

name_printed_at :
    (k : Control)
    → get_ctrl_code (value k) ≡ done (spelling k)
    → (if is_ctrl_code (value k) then get_ctrl_code (value k) else done [])
      ≡ done (name_of (value k))
unfolding is_ctrl_code
name_printed_at nul e = e
name_printed_at _ e = e

-- The name that is printed.
pub name_printed :
    (c : ℕ) → (if is_ctrl_code c then get_ctrl_code c else done []) ≡ done (name_of c)
unfolding is_ctrl_code
name_printed c = elim (get_ctrl_code_lem c) [
  | inl (k, v, e) ↦
      subst (λ c. (if is_ctrl_code c then get_ctrl_code c else done []) ≡ done (name_of c)) v
        (name_printed_at k (rw v e))
  | inr (ne, e) ↦ elim (Bool-cases (ltb c 32)) [
    | inl small ↦ let (k, v, _) = named c (ltb→lt c 32 small) in absurd (ne k v)
    | inr large ↦ ground arith
  ]
]

neq : (a b : ℕ) → a ≢ b → (a == b) ≡ false
neq a b h = ground arith

module _ {W : Type 0} {os : Os W} {fd : ℕ} (s : Stream os fd) where
  -- From `t` on, code has printed `text`, answered `answer`, left `rest`, and given `result`.
  pub record Traced (t : Tracer W) (text answer rest : List ℕ) {A : Type 0} (result : A)
      (r : Outcome (A × Tracer W)) : Type 0 where
    pub after : Tracer W
    pub run : r ≡ done (result, after)
    pub prints : after.out ≡ t.out ++ text
    pub replies : s.written after.world ≡ s.written t.world ++ answer
    pub left : s.pending after.world ≡ rest

  send_char-Traced :
      (c : ℕ) (t : Tracer W) → Traced t [] (c ∷ []) (s.pending t.world) tt (send_char os fd c t)
  send_char-Traced c t =
      let (w', e, p, q) = serial_send_char_lem s c t.world in
      record {
        after = record t { world = w' };
        run = rw (e, ◌>>=◌);
        prints = sym (append-nil t.out);
        replies = q;
        left = p;
      }

  -- A read of `bytes` that stand at the front.
  front :
      (bytes rest : List ℕ) (t : Tracer W)
      → s.pending t.world ≡ bytes ++ rest
      → (w' : W) × (read_port os fd (length bytes) t
          ≡ done (record { ok = true; bytes = bytes }, record t { world = w' }))
        × (s.pending w' ≡ rest)
        × (s.written w' ≡ s.written t.world)
  front bytes rest t e =
      let fits : length (s.pending t.world) ≡ length bytes + length rest =
        ap length e ∙ length-append bytes rest in
      let g =
        serial_read-Got s (length bytes + 3) (length bytes) t.world (omega arith) (omega arith) in
      let got : take (length bytes) (s.pending t.world) ≡ bytes =
        ap (λ l. take (length bytes) l) e ∙ take-append bytes rest in
      (
        g.world,
        rw (g.run, zoom, got),
        g.remains ∙ ap (λ l. drop (length bytes) l) e ∙ drop-append bytes rest,
        g.quiet,
      )

  pub trace_block-Traced :
      (bytes rest : List ℕ) (t : Tracer W)
      → length bytes ≡ 132
      → s.pending t.world ≡ bytes ++ rest
      → Traced t (shown (block bytes)) (6 ∷ []) rest tt (trace_block os fd t)
  unfolding trace_block
  trace_block-Traced bytes rest t size e =
      let t₀ : Tracer W = record t { out = t.out ++ codes "SOH: " } in
      let (w', run_read, left, quiet) = front bytes rest t₀ e in
      let sum_run : calcul_chksum (drop 2 bytes) 129 ≡ done (sum_shown bytes) =
        calcul_chksum_lem (drop 2 bytes) 129 (omega (arith, length-drop 2 bytes)) in
      let (w'', sends, keeps, writes) = serial_send_char_lem s 6 w' in
      let run_read' : read_port os fd 132 t₀
          ≡ done (record { ok = true; bytes = bytes }, record t₀ { world = w' }) =
        ap (λ n. read_port os fd n t₀) (sym size) ∙ run_read in
      record {
        after = record {
          world = w'';
          out =
              ((((t.out ++ codes "SOH: ") ++ dump bytes) ++ newline)
                ++ (codes "chksum = 0x" ++ hex_of_byte (sum_shown bytes)))
              ++ newline;
        };
        run = rw (run_read', ◌>>=◌, sum_run, ◌>>=◌, sends, ◌>>=◌);
        prints = simp append_assoc;
        replies = writes ∙ ap (λ l. l ++ 6 ∷ []) quiet;
        left = keeps ∙ left;
      }

  trace_other-Traced :
      (c : ℕ) (t : Tracer W)
      → Traced t (shown (other c)) [] (s.pending t.world) tt (trace_other os fd c t)
  unfolding trace_other
  trace_other-Traced c t = record {
    after = record t {
      out =
          ((t.out ++ (b'>' ∷ c ∷ codes " (0x" ++ (hex_of_char c ++ codes ")"))) ++ name_of c)
          ++ newline;
    };
    run = rw (name_printed c, ◌>>=◌);
    prints = simp append_assoc;
    replies = sym (append-nil (s.written t.world));
    left = refl;
  }

  trace_eot-Traced :
      (t : Tracer W) → Traced t eot_shown (6 ∷ []) (s.pending t.world) tt (trace_eot os fd t)
  unfolding trace_eot
  trace_eot-Traced t =
      let (w', sends, keeps, writes) = serial_send_char_lem s 6 t.world in
      record {
        after = record { world = w'; out = (t.out ++ codes "EOT: ") ++ newline };
        run = rw (zoom, sends, ◌>>=◌);
        prints = simp append_assoc;
        replies = writes;
        left = keeps;
      }

  -- One round of the loop takes one item.
  body-Traced :
      (x : Item) (rest : List ℕ) (t : Tracer W)
      → IsItem x
      → s.pending t.world ≡ sent x ++ rest
      → Traced t (shown x) (reply x) rest false (body os fd t)
  unfolding body dispatch
  body-Traced (block bytes) rest t ok e =
      let (w', run_read, left, quiet) = front (1 ∷ []) (bytes ++ rest) t e in
      let r = trace_block-Traced bytes rest (record t { world = w' }) ok left in
      record {
        after = r.after;
        run = rw (run_read, ◌>>=◌, r.run, ◌>>=◌);
        prints = r.prints;
        replies = r.replies ∙ ap (λ l. l ++ 6 ∷ []) quiet;
        left = r.left;
      }
  body-Traced (other c) rest t ok e =
      let (w', run_read, left, quiet) = front (c ∷ []) rest t e in
      let r = trace_other-Traced c (record t { world = w' }) in
      record {
        after = r.after;
        run = rw (run_read, ◌>>=◌, neq c 1 ok.0, neq c 4 ok.1, r.run, ◌>>=◌);
        prints = r.prints;
        replies = r.replies ∙ ap (λ l. l ++ []) quiet;
        left = r.left ∙ left;
      }

  body_eot-Traced :
      (rest : List ℕ) (t : Tracer W)
      → s.pending t.world ≡ 4 ∷ rest
      → Traced t eot_shown (6 ∷ []) rest true (body os fd t)
  unfolding body dispatch
  body_eot-Traced rest t e =
      let (w', run_read, left, quiet) = front (4 ∷ []) rest t e in
      let r = trace_eot-Traced (record t { world = w' }) in
      record {
        after = r.after;
        run = rw (run_read, ◌>>=◌, r.run, ◌>>=◌);
        prints = r.prints;
        replies = r.replies ∙ ap (λ l. l ++ 6 ∷ []) quiet;
        left = r.left ∙ left;
      }

  again :
      (fuel : ℕ) (t t' : Tracer W)
      → body os fd t ≡ done (false, t')
      → loop os fd (suc fuel) t ≡ loop os fd fuel t'
  unfolding loop
  again fuel t t' e = rw (e, ◌>>=◌)

  stop :
      (fuel : ℕ) (t t' : Tracer W)
      → body os fd t ≡ done (true, t')
      → loop os fd (suc fuel) t ≡ done (tt, t')
  unfolding loop
  stop fuel t t' e = rw (e, ◌>>=◌)

  loop-Traced :
      (xs : List Item) (rest : List ℕ) (fuel : ℕ) (t : Tracer W)
      → IsItems xs
      → s.pending t.world ≡ all sent xs ++ (4 ∷ rest)
      → length xs < fuel
      → Traced t (all shown xs ++ eot_shown) (all reply xs ++ 6 ∷ []) rest tt (loop os fd fuel t)
  loop-Traced xs rest zero t ok e enough = absurd (omega arith)
  loop-Traced [] rest (suc fuel) t ok e enough =
      let r = body_eot-Traced rest t e in
      record {
        after = r.after;
        run = stop fuel t r.after r.run;
        prints = r.prints;
        replies = r.replies;
        left = r.left;
      }
  loop-Traced (x ∷ xs) rest (suc fuel) t ok e enough =
      let r =
        body-Traced x (all sent xs ++ (4 ∷ rest)) t ok.0
          (e ∙ append_assoc (sent x) (all sent xs) (4 ∷ rest)) in
      let more = loop-Traced xs rest fuel r.after ok.1 r.left (omega arith) in
      record {
        after = more.after;
        run = again fuel t r.after r.run ∙ more.run;
        prints =
            more.prints ∙ ap (λ l. l ++ (all shown xs ++ eot_shown)) r.prints ∙ simp append_assoc;
        replies =
            more.replies ∙ ap (λ l. l ++ (all reply xs ++ 6 ∷ [])) r.replies ∙ simp append_assoc;
        left = more.left;
      }

  -- The other side sends blocks of 132 bytes behind SOH and other characters, in any order, and
  -- then EOT; the port brings them in pieces of any size. With fuel for one round more than there
  -- are items, `main` comes to EXIT_SUCCESS, whether the blocks are valid or not: it has sent
  -- 'C', ACK for each block and ACK for EOT, and no other byte; it has printed each block, with the
  -- sum modulo 256 of its bytes 3 to 131, and each other character with the name that it has in
  -- asciitable.h, if it is a control character; and what stands behind EOT was not read.
  pub main_lem :
      (xs : List Item) (rest : List ℕ) (fuel : ℕ) (w w₁ : W)
      → IsItems xs
      → setup os (codes "/dev/ttyUSB0") 115200 0 0 1 w ≡ done (some fd, w₁)
      → s.pending w₁ ≡ all sent xs ++ (4 ∷ rest)
      → length xs < fuel
      → (w₂ : W) × (main os fuel (record { world = w; out = [] })
          ≡ done (true, record { world = os.close fd w₂; out = all shown xs ++ eot_shown }))
        × (s.pending w₂ ≡ rest)
        × (s.written w₂ ≡ s.written w₁ ++ (b'C' ∷ (all reply xs ++ 6 ∷ [])))
  unfolding main
  main_lem xs rest fuel w w₁ ok opened e enough =
      let t₁ : Tracer W = record { world = w₁; out = [] } in
      let c = send_char-Traced b'C' t₁ in
      let r = loop-Traced xs rest fuel c.after ok (c.left ∙ e) enough in
      (
        r.after.world,
        rw (opened, ◌>>=◌, c.run, ◌>>=◌, r.run, ◌>>=◌)
            (ap (λ l. done (true, record { world = os.close fd r.after.world; out = l }))
              (r.prints ∙ ap (λ l. l ++ (all shown xs ++ eot_shown)) c.prints)),
        r.left,
        r.replies
            ∙ ap (λ l. l ++ (all reply xs ++ 6 ∷ [])) c.replies
            ∙ append_assoc (s.written w₁) (b'C' ∷ []) (all reply xs ++ 6 ∷ []),
      )
