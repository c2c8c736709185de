-- ===== src/Buffer/Queue.antt =====
-- The RAM file against its abstract view: a queue with a budget of bytes that reading does not
-- give back, since the offsets of the C code only grow.
use light_modem.Base.{
  ℕ, ◌+◌, ◌-◌, ◌<◌, ◌^◌, ◌≡◌, refl, List, [], ◌∷◌, ◌++◌, arith, done, ◌>>=◌, pure, M, length, take,
  drop, ltb, if◌then◌else◌, Bool-cases, inl, inr, min, take-length, drop-min,
}
use light_modem.Buffer.{Buffer, write, read}
use light_modem.Buffer.Laws.{
  IsValid, contents, appended, advanced, write_lem, read_lem, contents-appended, contents-advanced,
  appended-IsValid, length-contents,
}

pub record Queue : Type 0 where
  pub room : ℕ
  pub items : List ℕ

-- What a caller does with the buffer, and what it gets back.
pub data Op : Type 0 where
  put : List ℕ → Op
  get : ℕ → Op

pub data Reply : Type 0 where
  taken : ℕ → Reply
  given : List ℕ → Reply

-- A block that would use the room up is not taken at all.
pub step : Op → Queue → Reply × Queue
step (put src) q =
    if ltb (length src) q.room
    then (taken (length src), record { room = q.room - length src; items = q.items ++ src })
    else (taken 0, q)
step (get size) q = (given (take size q.items), record q { items = drop size q.items })

pub run_queue : List Op → Queue → List Reply
run_queue [] q = []
run_queue (op ∷ ops) q = let (r, q') = step op q in r ∷ run_queue ops q'

-- The same calls on the C code.
pub call : Op → M Buffer Reply
call (put src) = do n ← write src (length src); pure (taken n)
call (get size) = do bytes ← read size; pure (given bytes)

pub run : List Op → M Buffer (List Reply)
run [] = pure []
run (op ∷ ops) = do r ← call op; rs ← run ops; pure (r ∷ rs)

abbrev pub view : Buffer → Queue
view b = record { room = b.max_size - b.write_offset; items = contents b }

-- No argument is 2 ^ 31 or more.
abbrev pub IsSmall : Op → Type 0
IsSmall (put src) = length src < 2 ^ 31
IsSmall (get size) = size < 2 ^ 31

abbrev pub AllSmall : List Op → Type 0
AllSmall [] = Unit
AllSmall (op ∷ ops) = IsSmall op × AllSmall ops

room_left :
    (b : Buffer) (n : ℕ) → b.max_size - (b.write_offset + n) ≡ b.max_size - b.write_offset - n
room_left b n = omega arith

-- One call.
call_refines :
    (op : Op) (b : Buffer)
    → IsValid b
    → IsSmall op
    → (b' : Buffer) × (call op b ≡ done ((step op (view b)).0, b'))
      × IsValid b'
      × (view b' ≡ (step op (view b)).1)
unfolding call step
call_refines (put src) b v small =
    elim (Bool-cases (ltb (length src) (b.max_size - b.write_offset))) [
      | inl lt ↦ rw lt (
        appended b src,
        rw (write_lem src (length src) b v (omega arith) small, lt, take-length src, ◌>>=◌),
        appended-IsValid b src v (ground arith),
        rw (contents-appended b src v, room_left b (length src)),
      )
      | inr ge ↦
          rw ge (b, rw (write_lem src (length src) b v (omega arith) small, ge, ◌>>=◌), v, refl)
    ]
call_refines (get size) b v small = (
  advanced b (min size (length (contents b))),
  rw (read_lem size b v small, ◌>>=◌),
  omega (arith, length-contents b v),
  rw (contents-advanced b (min size (length (contents b))), drop-min size (contents b)),
)

-- On a valid buffer, any sequence of writes and reads with arguments below 2 ^ 31 gives the replies
-- of the queue that is its view, and leaves a valid buffer.
pub run_refines :
    (ops : List Op) (b : Buffer)
    → IsValid b
    → AllSmall ops
    → (b' : Buffer) × (run ops b ≡ done (run_queue ops (view b), b')) × IsValid b'
unfolding run run_queue
run_refines [] b v small = (b, refl, v)
run_refines (op ∷ ops) b v small =
    let (b₁, e₁, v₁, w₁) = call_refines op b v small.0 in
    let (b₂, e₂, v₂) = run_refines ops b₁ v₁ small.1 in (b₂, rw (e₁, ◌>>=◌, e₂, ◌>>=◌, w₁), v₂)
