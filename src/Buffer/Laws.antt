-- ===== src/Buffer/Laws.antt =====
-- The RAM file as a bounded queue of bytes: what `lmodem_buffer_write` appends and
-- `lmodem_buffer_read` takes away.
use light_modem.Base.{
  ℕ, ◌+◌, ◌-◌, ◌≤◌, ◌<◌, ◌^◌, ◌≡◌, ap, List, [], ◌++◌, arith, done, length, take, drop, load-done,
  store-done, put_bytes, length-put_bytes, ltb, lt_int32, if◌then◌else◌, length-take, length-drop,
  Bool-cases, inl, inr, append_assoc, take-append-drop, u32, length-append, min, take-append,
  drop-append_le, drop-take, leb, leb→le, ◌⊎◌, true, false, take-take_le, drop-drop, ◌∙◌,
}
use native.Mathlib.Nat.{add-zero}
use light_modem.Buffer.{
  Buffer, write, read, get_size, get_remaining_capacity, nb_to_copy, set_write_offset,
}

-- The offsets are in order and inside the storage, whose size fits an int32_t.
pub record IsValid (b : Buffer) : Type 0 where
  pub read-le-write : b.read_offset ≤ b.write_offset
  pub write-le-max : b.write_offset ≤ b.max_size
  pub in_storage : b.max_size ≤ length b.buffer
  pub small : b.max_size < 2 ^ 31

-- The bytes written and not yet read, oldest first.
abbrev pub contents : Buffer → List ℕ
contents b = take (b.write_offset - b.read_offset) (drop b.read_offset b.buffer)

-- The buffer after `bytes` were appended.
abbrev pub appended : Buffer → List ℕ → Buffer
appended b bytes = record b {
  buffer = put_bytes b.buffer b.write_offset bytes;
  write_offset = b.write_offset + length bytes;
}

capacity_lem : (b : Buffer) → IsValid b → get_remaining_capacity b ≡ b.max_size - b.write_offset
unfolding get_remaining_capacity
capacity_lem b v = omega arith

pub get_size_lem : (b : Buffer) → IsValid b → get_size b ≡ b.write_offset - b.read_offset
unfolding get_size
get_size_lem b v = omega arith

nb_to_copy_lem :
    (cap size : ℕ)
    → cap < 2 ^ 31
    → size < 2 ^ 31
    → nb_to_copy cap size ≡ (if ltb size cap then size else 0)
unfolding nb_to_copy
nb_to_copy_lem cap size hc hs = ground arith

length-take_le {ℓ} : {A : Type ℓ} (n : ℕ) (xs : List A) → n ≤ length xs → length (take n xs) ≡ n
length-take_le n xs h = omega (arith, length-take n xs)

put_bytes-nil : (xs : List ℕ) (n : ℕ) → put_bytes xs n [] ≡ xs
put_bytes-nil xs n = rw add-zero (take-append-drop n xs)

-- The copy itself, at any count that both arrays hold.
write_run :
    (src : List ℕ) (size nb : ℕ) (b : Buffer)
    → nb_to_copy (get_remaining_capacity b) size ≡ nb
    → nb ≤ length src
    → b.write_offset + nb ≤ length b.buffer
    → b.write_offset + nb < 2 ^ 32
    → write src size b ≡ done (nb, appended b (take nb src))
unfolding write
write_run src size nb b e have room fits =
    let len : length (take nb src) ≡ nb = length-take_le nb src have in
    let end : u32 (b.write_offset + nb) ≡ b.write_offset + length (take nb src) =
      omega (arith, len) in
    rw
      (
        e,
        load-done src 0 nb (omega arith),
        store-done b.buffer b.write_offset (take nb src) (omega (arith, len)),
      )
      (rw end)

-- On a valid buffer, with a source of at least `size` bytes and `size` below 2 ^ 31, a write appends
-- the first `size` bytes of the source when they are fewer than the free bytes, and otherwise, an
-- exact fit included, copies nothing and returns 0.
pub write_lem :
    (src : List ℕ) (size : ℕ) (b : Buffer)
    → IsValid b
    → size ≤ length src
    → size < 2 ^ 31
    → write src size b ≡ (
        if ltb size (b.max_size - b.write_offset)
        then done (size, appended b (take size src))
        else done (0, b))
write_lem src size b v enough small = elim (Bool-cases (ltb size (b.max_size - b.write_offset))) [
  | inl lt ↦
      rw lt (write_run src size size b (rw (copied, lt)) enough (ground arith) (ground arith))
  | inr ge ↦ rw ge (
      write_run src size 0 b (rw (copied, ge)) (omega arith) (omega arith) (omega arith)
      ∙ ap (λ c. done (0, c)) nothing)
]
  where
    copied :
        nb_to_copy (get_remaining_capacity b) size
        ≡ (if ltb size (b.max_size - b.write_offset) then size else 0)
    copied =
        rw (capacity_lem b v)
          (nb_to_copy_lem (b.max_size - b.write_offset) size (omega arith) small)

    nothing : appended b [] ≡ b
    nothing = rw (put_bytes-nil, add-zero)

-- What a write appends comes behind what the buffer held.
pub contents-appended :
    (b : Buffer) (bytes : List ℕ) → IsValid b → contents (appended b bytes) ≡ contents b ++ bytes
contents-appended b bytes v =
    let before : length (take b.write_offset b.buffer) ≡ b.write_offset =
      length-take_le _ _ (omega arith) in
    let rest = drop (b.write_offset + length bytes) b.buffer in
    let len : b.write_offset + length bytes - b.read_offset ≡ length (contents b ++ bytes) = omega (
      arith,
      length-append (contents b) bytes,
      length-take (b.write_offset - b.read_offset) (drop b.read_offset b.buffer),
      length-drop b.read_offset b.buffer,
    ) in
    rw
      (
        drop-append_le b.read_offset (take b.write_offset b.buffer) (bytes ++ rest)
            (omega (arith, before)),
        drop-take b.read_offset b.write_offset b.buffer,
        len,
        ← append_assoc (contents b) bytes rest,
      )
      (take-append (contents b ++ bytes) rest)

pub appended-IsValid :
    (b : Buffer) (bytes : List ℕ)
    → IsValid b
    → length bytes ≤ b.max_size - b.write_offset
    → IsValid (appended b bytes)
appended-IsValid b bytes v fits = omega (arith, length-put_bytes b.buffer b.write_offset bytes)

-- The buffer after `n` bytes were read.
abbrev pub advanced : Buffer → ℕ → Buffer
advanced b n = record b { read_offset = b.read_offset + n }

pub length-contents :
    (b : Buffer) → IsValid b → length (contents b) ≡ b.write_offset - b.read_offset
length-contents b v = length-take_le _ _ (omega (arith, length-drop b.read_offset b.buffer))

-- On a valid buffer and with `size` below 2 ^ 31, a read returns the oldest bytes that are there, as
-- many as were asked for or all of them, and moves the read offset by their number.
pub read_lem :
    (size : ℕ) (b : Buffer)
    → IsValid b
    → size < 2 ^ 31
    → read size b ≡ done (take size (contents b), advanced b (min size (length (contents b))))
unfolding read
read_lem size b v small =
    let n = min size (b.write_offset - b.read_offset) in
    let count : (if lt_int32 (get_size b) size then get_size b else size) ≡ n =
      rw (get_size_lem b v) (ground arith) in
    let end : u32 (b.read_offset + n) ≡ b.read_offset + n = omega arith in
    rw (
      count,
      load-done b.buffer b.read_offset n (omega arith),
      length-contents b v,
      end,
      take-take_le size (b.write_offset - b.read_offset) (drop b.read_offset b.buffer),
    )

-- What a read leaves is the rest, and the buffer stays in order.
pub contents-advanced : (b : Buffer) (n : ℕ) → contents (advanced b n) ≡ drop n (contents b)
contents-advanced b n =
    rw
      (
        ← drop-drop n b.read_offset b.buffer,
        drop-take n (b.write_offset - b.read_offset) (drop b.read_offset b.buffer),
      )
      (ap (λ k. take k (drop n (drop b.read_offset b.buffer))) (omega arith))

-- The write offset is moved exactly when the new one is inside the file.
pub set_write_offset_lem :
    (n : ℕ) (b : Buffer)
    → ((n ≤ b.max_size) × (set_write_offset n b ≡ done (true, record b { write_offset = n })))
      ⊎ ((b.max_size < n) × (set_write_offset n b ≡ done (false, b)))
unfolding set_write_offset
set_write_offset_lem n b = elim (Bool-cases (leb n b.max_size)) [
  | inl e ↦ inl (leb→le n b.max_size e, rw (e))
  | inr e ↦ inr (ground arith, rw (e))
]
