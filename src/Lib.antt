-- ===== src/Lib.antt =====
-- Verification of light_modem, a C library for file transfers by XMODEM and YMODEM.
--
-- The program. `lmodem_init` (src/lmodem_init.c) prepares a `modem_context_t` (include/lmodem.h)
-- with a CRC table (src/crc16.c); the application hands over a block buffer, a RAM file
-- (src/lmodem_buffer.c) and two callbacks for the serial line. `lxmodem_receive` (src/lmodem_rx.c)
-- takes blocks from the line, checks them and appends their payload to the RAM file;
-- `lxmodem_emit` (src/lmodem_tx.c) reads the RAM file and sends it block by block. For YMODEM,
-- `lymodem_receive` and `lymodem_emit` put a block 0 with the metadata of the file in front and the
-- end of the batch behind. The tool tools/rzsz.c reads its options, opens a port by
-- tools/serial.c, and sends or receives one file.
--
-- The files.
--   Base     what all files share: numbers of 8, 16 and 32 bits with their wrap-around (Word),
--            memory as a list of bytes (Array), bit operations (Bits), Boolean tests (Test), and
--            the outcome of C code with a state (Run).
--   Crc      src/crc16.c. Division holds the specification, bitwise polynomial division.
--   Buffer   src/lmodem_buffer.c. Queue holds its abstract view.
--   Modem    include/lmodem.h, src/lmodem_priv.h and the set-up part of src/lmodem_init.c;
--            Modem/Metadata.antt has its metadata part, with `strncpy` as the C standard has it.
--   Frame    the block format of the protocol, as a specification that does not use the code.
--   Receive  the XMODEM part of src/lmodem_rx.c: `lxmodem_receive` and all that it calls.
--   Emit     the XMODEM part of src/lmodem_tx.c: `lxmodem_emit` and all that it calls.
--   Ymodem   the YMODEM parts of both: Ymodem/Header.antt reads block 0 and Ymodem/Receive.antt is
--            `lymodem_receive`; Ymodem/Emit.antt is `lymodem_emit`. Ymodem/Text.antt has `strlen`,
--            `strtoul` and the conversions of `snprintf` as the C standard has them.
--            Ymodem/Announced.antt says what the protocol wants for the fields of block 0.
--   Transfer the entry points `lmodem_receive` and `lmodem_emit`.
--   Serial   tools/serial.c, over the system calls of the parameter Os.
--   Rzsz     tools/rzsz.c: its options (Options), its callbacks (Port) and `main` (Main), over the
--            calls on files of the parameter Files. Requested is what a command line asks for.
--   DbgSerial tools/dbg_serial.c, which traces what comes on a port, and tools/asciitable.h (Ascii),
--            over the same system calls.
--
-- The model. A function that changes the context is a function of the monad M over the record
-- Modem. Its outcome is `done`, `fault` for an access outside a buffer, or `spent` for fuel that
-- ran out. A pointer into a buffer is the memory behind it. Integers are native numbers, and every
-- operation of the C code that may wrap writes the wrap-around out; an int32_t is its bit pattern.
-- A function whose loop has no bound in its text takes fuel, one unit for each round: the receiver
-- keeps a block or loses one of ten tries in each, and the transmitter uses up a byte of the file,
-- EOT, or one of ten tries, which bounds the rounds by the size of the RAM file.
-- The callbacks are the parameter `line` of type Line: any state of the outside world, with the
-- laws that `getchar` writes bytes, no more of them than it was given room for, and all of them
-- when it reports success. Modem/Script.antt gives one that plays a fixed list of bytes.
--
-- The system calls of the tools are parameters, too: `read` gives at most the bytes that it is
-- asked for, and `fread` leaves memory of the size that was allocated. Serial/Scripted.antt and
-- Rzsz/Tests.antt give instances. `serial_read` takes fuel for three rounds more than its bytes,
-- since a round brings a byte or is one of three silent ones. The loops of YMODEM on block 0 and on
-- the reply to it have no bound at all on a silent line; their fuel is an argument. So is that of the
-- loop of the tracer, one unit for each character that it takes or waits for in vain.
-- Receive/Sequence.antt says what it is for a line to bring blocks in order, some of them lost or
-- repeated on the way, Emit/Replies.antt what it is for a receiver to acknowledge a file block by
-- block, Modem/Wait.antt what it is to bring certain bytes after some failures, and
-- Serial/Stream.antt what it is for a port to bring a stream of bytes in pieces of any size.
--
-- Not modelled: messages and traces (no part of the protocol) but for what the tracer prints on its
-- standard output, and `getopt_long` (its results are the input of the options).
pub mod Base
pub mod Buffer
pub mod Crc
pub mod DbgSerial
pub mod Modem
pub mod Frame
pub mod Receive
pub mod Emit
pub mod Ymodem
pub mod Transfer
pub mod Serial
pub mod Rzsz
