-- ===== src/DbgSerial/Ascii.antt =====
-- The control characters of src/tools/asciitable.h.
use light_modem.Base.{ℕ}

-- The macros for characters below FIRST_PRINTABLE.
pub data Control : Type 0 where
  nul soh stx etx eot enq ack bel bs tab lf vt ff cr so si : Control
  dle dc1 dc2 dc3 dc4 nak syn etb can em sub esc fs gs rs us : Control

-- Their values.
abbrev pub value : Control → ℕ
value nul = 0o0
value soh = 0o1
value stx = 0o2
value etx = 0o3
value eot = 0o4
value enq = 0o5
value ack = 0o6
value bel = 0o7
value bs = 0o10
value tab = 0o11
value lf = 0o12
value vt = 0o13
value ff = 0o14
value cr = 0o15
value so = 0o16
value si = 0o17
value dle = 0o20
value dc1 = 0o21
value dc2 = 0o22
value dc3 = 0o23
value dc4 = 0o24
value nak = 0o25
value syn = 0o26
value etb = 0o27
value can = 0o30
value em = 0o31
value sub = 0o32
value esc = 0o33
value fs = 0o34
value gs = 0o35
value rs = 0o36
value us = 0o37

-- DEL, and the bounds of the printable characters. DEL and LAST_PRINTABLE are written in decimal.
abbrev pub del : ℕ
del = 177

abbrev pub first_printable : ℕ
first_printable = 0o40

abbrev pub last_printable : ℕ
last_printable = 177
