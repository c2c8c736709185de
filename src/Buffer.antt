-- ===== src/Buffer.antt =====
-- src/lmodem_buffer.c
pub mod Laws
pub mod Queue
mod Tests
use light_modem.Base.{
  ℕ, ◌+◌, Bool, true, false, List, M, Outcome, ◌>>=◌, ◌>>◌, pure, lift, gets, modify, u32, sub_u32,
  lt_int32, ltb, leb, if◌then◌else◌, load, store,
}

-- `lmodem_buffer`: `buffer` is the storage that the caller handed over.
pub record Buffer : Type 0 where
  pub buffer : List ℕ
  pub read_offset : ℕ
  pub write_offset : ℕ
  pub max_size : ℕ

unfoldable pub init : List ℕ → ℕ → Buffer
init buffer max_size = record {
  buffer = buffer;
  read_offset = 0;
  write_offset = 0;
  max_size = max_size;
}

unfoldable pub get_remaining_capacity : Buffer → ℕ
get_remaining_capacity b = sub_u32 b.max_size b.write_offset

-- How many bytes `write` copies.
unfoldable pub nb_to_copy : ℕ → ℕ → ℕ
nb_to_copy remaining_bytes size =
    if lt_int32 size remaining_bytes
    then size
    else (let nb = sub_u32 remaining_bytes size in if lt_int32 nb 0 then 0 else nb)

-- `src` is the memory behind the argument `buffer`.
unfoldable pub write : List ℕ → ℕ → M Buffer ℕ
write src size = do
  remaining_bytes ← gets get_remaining_capacity
  let nb = nb_to_copy remaining_bytes size
  bytes ← lift (load src 0 nb)
  b ← gets (λ b. b)
  buffer ← lift (store b.buffer b.write_offset bytes)
  modify λ c. record c { buffer = buffer; write_offset = u32 (c.write_offset + nb) }
  pure nb

unfoldable pub get_size : Buffer → ℕ
get_size b = sub_u32 b.write_offset b.read_offset

-- Returns the bytes copied to the argument `buffer`; their number is the C function's result.
unfoldable pub read : ℕ → M Buffer (List ℕ)
read size = do
  current_size ← gets get_size
  let read_size = if lt_int32 current_size size then current_size else size
  b ← gets (λ b. b)
  bytes ← lift (load b.buffer b.read_offset read_size)
  modify λ c. record c { read_offset = u32 (c.read_offset + read_size) }
  pure bytes

unfoldable pub set_write_offset : ℕ → M Buffer Bool
set_write_offset new b =
    if leb new b.max_size then pure true (record b { write_offset = new }) else pure false b
