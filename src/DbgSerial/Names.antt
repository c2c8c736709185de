-- ===== src/DbgSerial/Names.antt =====
-- The names of the control characters: `controlCode` of src/tools/dbg_serial.c against the macros
-- of src/tools/asciitable.h.
use light_modem.Base.{
  ℕ, zero, suc, ◌+◌, ◌<◌, ◌≡◌, refl, sym, ◌∙◌, ap, ◌⊎◌, inl, inr, List, [], ◌∷◌, some, done, arith,
  get_elem?, length, map, Bool-cases, ltb, ltb→lt, lt→ltb, ◌≢◌,
}
use mathlib.Core.Option
use light_modem.DbgSerial.{codes, is_ctrl_code, control_code, get_ctrl_code}
use light_modem.DbgSerial.Ascii.{
  Control, value, nul, soh, stx, etx, eot, enq, ack, bel, bs, tab, lf, vt, ff, cr, so, si, dle, dc1,
  dc2, dc3, dc4, nak, syn, etb, can, em, sub, esc, fs, gs, rs, us,
}

-- The spelling of a macro.
abbrev pub spelling : Control → List ℕ
spelling nul = codes "NUL"
spelling soh = codes "SOH"
spelling stx = codes "STX"
spelling etx = codes "ETX"
spelling eot = codes "EOT"
spelling enq = codes "ENQ"
spelling ack = codes "ACK"
spelling bel = codes "BEL"
spelling bs = codes "BS"
spelling tab = codes "TAB"
spelling lf = codes "LF"
spelling vt = codes "VT"
spelling ff = codes "FF"
spelling cr = codes "CR"
spelling so = codes "SO"
spelling si = codes "SI"
spelling dle = codes "DLE"
spelling dc1 = codes "DC1"
spelling dc2 = codes "DC2"
spelling dc3 = codes "DC3"
spelling dc4 = codes "DC4"
spelling nak = codes "NAK"
spelling syn = codes "SYN"
spelling etb = codes "ETB"
spelling can = codes "CAN"
spelling em = codes "EM"
spelling sub = codes "SUB"
spelling esc = codes "ESC"
spelling fs = codes "FS"
spelling gs = codes "GS"
spelling rs = codes "RS"
spelling us = codes "US"

-- The macros in the order of the header.
abbrev pub controls : List Control
controls =
    nul ∷ soh ∷ stx ∷ etx ∷ eot ∷ enq ∷ ack ∷ bel ∷ bs ∷ tab ∷ lf ∷ vt ∷ ff ∷ cr ∷ so ∷ si ∷ dle
    ∷ dc1 ∷ dc2 ∷ dc3 ∷ dc4 ∷ nak ∷ syn ∷ etb ∷ can ∷ em ∷ sub ∷ esc ∷ fs ∷ gs ∷ rs ∷ us ∷ []

count_up : ℕ → ℕ → List ℕ
count_up from zero = []
count_up from (suc n) = from ∷ count_up (suc from) n

get_elem?-count_up : (from n i : ℕ) → i < n → get_elem? (count_up from n) i ≡ some (from + i)
unfolding count_up
get_elem?-count_up from zero i h = elim h [ ]
get_elem?-count_up from (suc n) zero h = ap some {x = from} (omega arith)
get_elem?-count_up from (suc n) (suc i) h =
    get_elem?-count_up (suc from) n i (omega arith) ∙ ap some {x = suc from + i} (omega arith)

get_elem?-map :
    {A B : Type 0} (f : A → B) (xs : List A) (i : ℕ)
    → i < length xs
    → (x : A) × (get_elem? xs i ≡ some x) × (get_elem? (map f xs) i ≡ some (f x))
get_elem?-map f [] i h = elim h [ ]
get_elem?-map f (x ∷ xs) zero h = (x, refl, refl)
get_elem?-map f (x ∷ xs) (suc i) h = get_elem?-map f xs i (omega arith)

value-lt : (k : Control) → value k < 32
value-lt nul = omega arith
value-lt _ = omega arith

values : map value controls ≡ count_up 0 32
unfolding count_up
values = refl

spellings : map spelling controls ≡ control_code
unfolding control_code
spellings = refl

content : {x y : ℕ} → some x ≡ some y → x ≡ y
content e = cc

pub named :
    (c : ℕ)
    → c < 32
    → (k : Control) × (value k ≡ c) × (get_elem? control_code c ≡ some (spelling k))
named c h =
    let (k, at, v) = get_elem?-map value controls c h in
    let (k', at', s) = get_elem?-map spelling controls c h in
    let same : some k ≡ some k' = sym at ∙ at' in
    (
      k,
      content (
          sym v
          ∙ ap (λ l. get_elem? l c) values
          ∙ get_elem?-count_up 0 32 c h
          ∙ ap some {x = 0 + c} (omega arith)),
      sym (ap (λ l. get_elem? l c) spellings) ∙ s ∙ ap (λ o. Option.map spelling o) (sym same),
    )

-- For every character, `getCtrlCode` stays in its table. If a macro of asciitable.h below
-- FIRST_PRINTABLE has the value of the character, the result is the name of that macro; if none
-- has, it is the empty text.
pub get_ctrl_code_lem :
    (c : ℕ)
    → ((k : Control) × (value k ≡ c) × (get_ctrl_code c ≡ done (spelling k)))
      ⊎ (((k : Control) → value k ≢ c) × (get_ctrl_code c ≡ done []))
unfolding get_ctrl_code is_ctrl_code
get_ctrl_code_lem c = elim (Bool-cases (ltb c 32)) [
  | inl small ↦
      let (k, v, s) = named c (ltb→lt c 32 small) in
      inl (k, v, rw (lt→ltb c 128 (ground arith), small, s))
  | inr large ↦ inr (λ k e. absurd (ground (arith, value-lt k)), ground arith)
]
