-- ===== src/Ymodem/Whole.antt =====
-- A whole reception by YMODEM: `lmodem_receive` of src/lmodem_rx.c from the entry point on.
use light_modem.Base.{
  ℕ, ◌+◌, ◌-◌, ◌*◌, ◌^◌, ◌<◌, ◌≤◌, ◌≡◌, ◌⊎◌, refl, ap, ◌∙◌, Bool, true, List, [], ◌∷◌, ◌++◌, some,
  done, arith, length, take, drop, take-append-drop, length-take, inl, inr, Bool-cases, ◌>>=◌,
  minus_one, ltb, ◌==◌, bit_and, zoom, subst, ◌||◌, append_assoc,
}
use light_modem.Buffer.{Buffer}
use light_modem.Buffer.Laws.{IsValid, contents, length-contents, set_write_offset_lem}
use light_modem.Frame.{block, trailer}
use light_modem.Modem.{Modem, Line, FileCharacteristics, ymodem, is_one_k, putchar}
use light_modem.Modem.Names.{NoNul}
use light_modem.Receive.{is_ok, recv_ok, preambule, build_and_send_preambule}
use light_modem.Receive.Ready.{IsReady, Kept-IsReady, takes_long}
use light_modem.Modem.Wait.{Comes}
use light_modem.Transfer.{lmodem_receive, receive_with}
use light_modem.Ymodem.Receive.{lymodem_receive, receive_file, wait_block0, cut_file}
use light_modem.Ymodem.Emit.{meta_data_text}
use light_modem.Ymodem.RoundTrip.{IsTyped, announced}
use light_modem.Ymodem.Session.{long_room, receive_file_lem}
use light_modem.Ymodem.Arrival.{header_of, size_of, Arrived, wait_block0-Arrived}

-- The receiver has storage for the name, and a block buffer that is not longer than announced.
pub record CanStore {P : Type 0} (name dst : List ℕ) (m : Modem P) : Type 0 where
  pub whole : length m.blk_buffer.buffer ≤ m.blk_buffer.max_size
  pub storage : m.file_data.filename ≡ some dst
  pub fits : m.file_data.filename_size ≤ length dst
  pub small : m.file_data.filename_size < 2 ^ 32
  pub room : length name + 1 < m.file_data.filename_size

-- The payload of a block 0 with a name and all four fields of `d`.
pub record Announces (long : Bool) (name : List ℕ) (d : FileCharacteristics) (payload : List ℕ)
    : Type 0 where
  pub typed : IsTyped d
  pub visible : NoNul name
  pub some_name : 0 < length name
  pub size : length payload ≡ size_of long
  pub rest : List ℕ
  pub text : payload ≡ name ++ (0 ∷ (meta_data_text 4 d ++ (0 ∷ 0 ∷ rest)))

-- The bytes `file` are the first `size` of those received, and of older ones behind them, or all of
-- those received if nothing was cut.
abbrev pub IsCut : ℕ → Buffer → List ℕ → ℕ → Type 0
IsCut result b added size =
    ((result ≡ 0 ⊎ b.max_size < size) × (contents b ≡ added))
    ⊎ ((size ≤ b.max_size)
        × (length (contents b) ≡ size)
        × (older : List ℕ) × (contents b ≡ take size (added ++ older)))

cut_lem :
    (buf : List ℕ) (r w max n : ℕ)
    → r ≡ 0
    → w ≤ max
    → max ≤ length buf
    → n ≤ max
    → (length (take (n - r) (drop r buf)) ≡ n)
      × (take (n - r) (drop r buf) ≡ take n (take (w - r) (drop r buf) ++ drop w buf))
cut_lem buf r w max n e a b c =
    let none : n - r ≡ n = omega arith in
    let none' : w - r ≡ w = omega arith in
    rw (none, none', e, take-append-drop w buf) (omega (arith, length-take n buf), refl)

module _ {P : Type 0} (line : Line P) where
  pub cut_file_lem :
      (result : ℕ) (m : Modem P)
      → IsValid m.ramfile
      → m.ramfile.read_offset ≡ 0
      → m.file_data.valid ≡ 0x1f
      → (b : Buffer) × (cut_file line result m ≡ done (tt, record m { ramfile = b }))
        × (b.max_size ≡ m.ramfile.max_size)
        × IsValid b
        × IsCut result b (contents m.ramfile) m.file_data.size
  unfolding cut_file
  cut_file_lem result m v r f = elim (Bool-cases (ltb 0 result)) [
    | inr e ↦ (m.ramfile, rw (e), refl, v, inl (inl (ground arith), refl))
    | inl e ↦
        let sized : (bit_and m.file_data.valid 0x2 == 0x2) ≡ true =
          ap (λ (k : ℕ). bit_and k 0x2 == 0x2) f in
        elim (set_write_offset_lem m.file_data.size m.ramfile) [
          | inr (far, run) ↦
              (m.ramfile, rw (e, sized, zoom, run, ◌>>=◌), refl, v, inl (inr far, refl))
          | inl (inside, run) ↦
              let cut =
                cut_lem m.ramfile.buffer m.ramfile.read_offset m.ramfile.write_offset
                  m.ramfile.max_size m.file_data.size r v.write-le-max v.in_storage inside in
              (
                record m.ramfile { write_offset = m.file_data.size },
                rw (e, sized, zoom, run, ◌>>=◌),
                refl,
                record {
                  read-le-write = omega (arith, r);
                  write-le-max = inside;
                  in_storage = v.in_storage;
                  small = v.small;
                },
                inr (inside, cut.0, drop m.ramfile.write_offset m.ramfile.buffer, cut.1),
              )
        ]
  ]

  -- The entry point, in the parts of its run.
  pub receive_parts :
      (fuel : ℕ) (m m₁ m₂ m₃ : Modem P) (result : ℕ)
      → wait_block0 line fuel 10
          (record m { protocol = ymodem; port = line.putchar m.port (b'C' ∷ []) })
        ≡ done (recv_ok, m₁)
      → receive_file line fuel m₁ ≡ done (result, m₂)
      → cut_file line result m₂ ≡ done (tt, m₃)
      → lmodem_receive line ymodem fuel m ≡ done (result, m₃)
  unfolding lmodem_receive receive_with lymodem_receive build_and_send_preambule putchar preambule
      is_ok
  receive_parts fuel m m₁ m₂ m₃ result a b c = rw (a, ◌>>=◌, b, ◌>>=◌, c, ◌>>=◌)

pub block0_shape :
    (name text payload rest after : List ℕ)
    → payload ≡ name ++ (0 ∷ (text ++ (0 ∷ 0 ∷ rest)))
    → block true 0 payload ++ after
      ≡ 0 ∷ 255 ∷ (name ++ (0 ∷ (text ++ (0 ∷ 0 ∷ (rest ++ (trailer true payload ++ after))))))
block0_shape name text payload rest after e =
    let end = trailer true payload ++ after in
    ap (λ l. 0 ∷ 255 ∷ l)
      (append_assoc payload (trailer true payload) after
        ∙ ap (λ l. l ++ end) e
        ∙ append_assoc name (0 ∷ (text ++ (0 ∷ 0 ∷ rest))) end
        ∙ ap (λ l. name ++ (0 ∷ l)) (append_assoc text (0 ∷ 0 ∷ rest) end))

either : (b : Bool) → (b || true) ≡ true
either b = ground arith

pub ymodem_takes_long : {P : Type 0} (m : Modem P) → m.protocol ≡ ymodem → takes_long m ≡ true
ymodem_takes_long m e = rw (e) (either (is_one_k m.opts))

at_most :
    {result n max : ℕ}
    → (result ≡ n) ⊎ (result ≡ minus_one)
    → n ≤ max
    → (result ≤ max) ⊎ (result ≡ minus_one)
at_most (inl e) le = inl (omega arith)
at_most (inr e) le = inr e

-- The RAM file before the reception.
pub empty : (b : Buffer) → b.read_offset ≡ 0 → b.write_offset ≡ 0 → contents b ≡ []
empty b r w = rw (r, w)

module _ {P : Type 0} (line : Line P) where
  -- The reception behind block 0.
  behind_block0 :
      (fuel : ℕ) (long : Bool) (name dst payload : List ℕ) (d : FileCharacteristics) (q : P)
      (m m₁ : Modem P)
      → IsReady m
      → m.protocol ≡ ymodem
      → CanStore name dst m
      → Announces long name d payload
      → m.ramfile.read_offset ≡ 0
      → m.ramfile.write_offset ≡ 0
      → Arrived line payload q m m₁
      → 10 * m.ramfile.max_size + 10 < fuel
      → (result : ℕ) × (m₂ : Modem P) × (b : Buffer) × (added : List ℕ) × (receive_file line fuel m₁
          ≡ done (result, m₂))
        × (cut_file line result m₂ ≡ done (tt, record m₂ { ramfile = b }))
        × (m₂.file_data ≡ announced name dst d m.file_data)
        × ((result ≡ length added) ⊎ (result ≡ minus_one))
        × IsReady (record m₂ { ramfile = b })
        × (contents m₂.ramfile ≡ added)
        × (length added ≤ m.ramfile.max_size)
        × (b.max_size ≡ m.ramfile.max_size)
        × IsCut result b added d.size
  behind_block0 fuel long name dst payload d q m m₁ r proto s a read₀ write₀ at enough =
      let k = at.same.kept in
      let size : m₁.file_data.filename_size ≡ m.file_data.filename_size =
        ap (λ f. f.filename_size) k.file_data in
      let small : m₁.ramfile.max_size ≡ m.ramfile.max_size = ap (λ b. b.max_size) k.ramfile in
      let (result, m₂, added, run₂, known, stored, counted, _, valid, offset, max, ready) =
        receive_file_lem line fuel 0 255 name (a.rest ++ (trailer true payload ++ at.after)) dst d
          m₁ (Kept-IsReady k r) (ymodem_takes_long m₁ (k.protocol ∙ proto))
          (at.there ∙ block0_shape name (meta_data_text 4 d) payload a.rest at.after a.text)
          (omega (arith, k.size, at.max_size, s.whole)) a.typed
          (ap (λ f. f.filename) k.file_data ∙ s.storage) (omega (arith, size, s.fits))
          (omega (arith, size, s.small)) a.visible a.some_name (omega (arith, size, s.room))
          (omega (arith, small, enough)) in
      let (b, run₃, same_max, valid', cut) =
        cut_file_lem line result m₂ valid (offset ∙ ap (λ b. b.read_offset) k.ramfile ∙ read₀)
          (ap (λ f. f.valid) known) in
      let got : contents m₂.ramfile ≡ added =
        stored ∙ ap (λ l. l ++ added) (ap contents k.ramfile ∙ empty m.ramfile read₀ write₀) in
      (
        result,
        m₂,
        b,
        added,
        run₂,
        run₃,
        known ∙ ap (announced name dst d) k.file_data,
        counted,
        record { table = ready.table; bytes = ready.bytes; room = ready.room; file = valid' },
        got,
        omega (
          arith,
          ap length got,
          length-contents m₂.ramfile valid,
          valid.write-le-max,
          max,
          small,
        ),
        same_max ∙ max ∙ small,
        subst (λ l. IsCut result b l d.size) got
            (subst (λ n. IsCut result b (contents m₂.ramfile) n) (ap (λ f. f.size) known) cut),
      )

-- The whole reception, with the contexts behind block 0 and behind the file.
pub reception_lem :
    {P : Type 0} (line : Line P) (fuel failures failures' : ℕ) (long : Bool)
    (name dst payload : List ℕ) (d : FileCharacteristics) (m : Modem P) (p q : P)
    → IsReady (record m { protocol = ymodem })
    → CanStore name dst m
    → Announces long name d payload
    → m.ramfile.read_offset ≡ 0
    → m.ramfile.write_offset ≡ 0
    → Comes line 1 (header_of long ∷ []) failures (line.putchar m.port (b'C' ∷ [])) p
    → failures < 10
    → Comes line (2 + size_of long + 2) (block true 0 payload) failures' p q
    → failures' < fuel
    → 10 * m.ramfile.max_size + 10 < fuel
    → (result : ℕ) × (m₁ : Modem P) × (m₂ : Modem P) × (b : Buffer) × (added : List ℕ)
      × (lmodem_receive line ymodem fuel m ≡ done (result, record m₂ { ramfile = b }))
      × Arrived line payload q
          (record m { protocol = ymodem; port = line.putchar m.port (b'C' ∷ []) })
          m₁
      × (receive_file line fuel m₁ ≡ done (result, m₂))
      × (m₂.file_data ≡ announced name dst d m.file_data)
      × ((result ≡ length added) ⊎ (result ≡ minus_one))
      × IsReady (record m₂ { ramfile = b })
      × (contents m₂.ramfile ≡ added)
      × (length added ≤ m.ramfile.max_size)
      × (b.max_size ≡ m.ramfile.max_size)
      × IsCut result b added d.size
reception_lem {P} line fuel failures failures' long name dst payload d m p q r s a read₀ write₀
      comes soon comes' few enough =
    let m₀ : Modem P = record m { protocol = ymodem; port = line.putchar m.port (b'C' ∷ []) } in
    let r₀ : IsReady m₀ = record {
      table = r.table;
      bytes = r.bytes;
      room = r.room;
      file = r.file;
    } in
    let s₀ : CanStore name dst m₀ = record {
      whole = s.whole;
      storage = s.storage;
      fits = s.fits;
      small = s.small;
      room = s.room;
    } in
    let room : 1028 ≤ length m.blk_buffer.buffer = long_room m₀ r₀ (ymodem_takes_long m₀ refl) in
    let (m₁, run₁, at) =
      wait_block0-Arrived line fuel 10 failures failures' long payload m₀ p q r.table r.bytes refl
        a.size room comes soon comes' few in
    let (result, m₂, b, added, run₂, run₃, known, counted, ready, got, bounded, max, cut) =
      behind_block0 line fuel long name dst payload d q m₀ m₁ r₀ refl s₀ a read₀ write₀ at enough in
    (
      result,
      m₁,
      m₂,
      b,
      added,
      receive_parts line fuel m m₁ m₂ (record m₂ { ramfile = b }) result run₁ run₂ run₃,
      at,
      run₂,
      known,
      counted,
      ready,
      got,
      bounded,
      max,
      cut,
    )

-- On a context that is ready for YMODEM, with an empty RAM file, a block buffer that is not longer
-- than announced and storage for names of the announced size at least, which fits a uint32_t and is
-- at least two more than the length of the name, the line brings, with one of the ten calls of
-- `getchar` that `lymodem_receive` makes for it, the first character of a block 0, and behind it,
-- after any number of calls that fail, a valid block 0 of 128 or 1024 bytes with a name of one byte
-- or more without NUL and all four fields, whose numbers fit their C types, in the format of the
-- transmitter. Then, with more fuel than there were such calls and than ten rounds for each byte of
-- the RAM file and ten more, `lmodem_receive` returns, whatever the line delivers behind block 0,
-- and accesses no memory outside its buffers. The context has the announced metadata and is ready
-- afterwards, so that the RAM file is valid; and the result is the pattern of -1, or no more than
-- the size of the RAM file.
pub lymodem_receive_total :
    {P : Type 0} (line : Line P) (fuel failures failures' : ℕ) (long : Bool)
    (name dst payload : List ℕ) (d : FileCharacteristics) (m : Modem P) (p q : P)
    → IsReady (record m { protocol = ymodem })
    → CanStore name dst m
    → Announces long name d payload
    → m.ramfile.read_offset ≡ 0
    → m.ramfile.write_offset ≡ 0
    → Comes line 1 (header_of long ∷ []) failures (line.putchar m.port (b'C' ∷ [])) p
    → failures < 10
    → Comes line (2 + size_of long + 2) (block true 0 payload) failures' p q
    → failures' < fuel
    → 10 * m.ramfile.max_size + 10 < fuel
    → (result : ℕ) × (m' : Modem P) × (lmodem_receive line ymodem fuel m ≡ done (result, m'))
      × (m'.file_data ≡ announced name dst d m.file_data)
      × IsReady m'
      × ((result ≤ m.ramfile.max_size) ⊎ (result ≡ minus_one))
lymodem_receive_total line fuel failures failures' long name dst payload d m p q r s a read₀ write₀
      comes soon comes' few enough =
    let (result, m₁, m₂, b, added, run, _, _, known, counted, ready, _, bounded, _, _) =
      reception_lem line fuel failures failures' long name dst payload d m p q r s a read₀ write₀
        comes soon comes' few enough in
    (result, record m₂ { ramfile = b }, run, known, ready, at_most counted bounded)
