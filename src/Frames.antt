-- ===== src/Frames.antt =====
-- lib/transport/frames.js and lib/transport/frame-parser.js: messages between the queue server and the
-- senders as length-prefixed frames on a socket.
--
-- Bytes are numbers and a Buffer is a list of them. `Parser` is the object of class FrameParser; its
-- `socket` is the list of the buffers that `socket.read()` will give, one a call, before it gives null.
-- `frame` is the length of the frame that is read, and 0 where the code has false: it tests
-- `!this.frame`, so to it both are the same. msgpack, which packs a message into the bytes of a frame,
-- is not part of this code: a frame's content is any list of bytes.
pub mod Bytes
pub mod Parsing
pub mod Delivery
mod Tests
use zone_mta.Prelude.{
  ℕ, zero, suc, ◌+◌, ◌*◌, ◌/◌, ◌%◌, Bool, true, false, ◌&&◌, Option, none, some, List, [], ◌∷◌,
  ◌++◌, length, take, drop, ltb, leb, ◌==◌, if◌then◌else◌,
}

-- MAX_ALLOWED_FRAME_SIZE
abbrev pub max_allowed_frame_size : ℕ
max_allowed_frame_size = 3 * 1024 * 1024

-- `writeUInt32LE`
unfoldable pub write_u32 : ℕ → List ℕ
write_u32 n = n % 256 ∷ n / 256 % 256 ∷ n / 65536 % 256 ∷ n / 16777216 % 256 ∷ []

-- `readUInt32LE(0)`; the code calls it on 4 bytes or more.
unfoldable pub read_u32 : List ℕ → ℕ
read_u32 (a ∷ b ∷ c ∷ d ∷ rest) = a + 256 * b + 65536 * c + 16777216 * d
read_u32 _ = 0

-- `encode`, of what msgpack made of the message.
unfoldable pub encode : List ℕ → List ℕ
unfolding write_u32
encode encoded = write_u32 (length encoded) ++ encoded

-- `Buffer.concat`
unfoldable pub concat : List (List ℕ) → List ℕ
concat [] = []
concat (c ∷ cs) = c ++ concat cs

pub record Parser : Type 0 where
  pub socket : List (List ℕ)
  pub chunks : List (List ℕ)
  pub chunklen : ℕ
  pub frame : ℕ

-- How a call of `read` ends: nothing to read, another call of `read`, a frame for the handler, which
-- calls `read` in turn, or the error event.
pub data Outcome : Type 0 where
  idle failed : Outcome
  again : Parser → Outcome
  emitted : List ℕ → Parser → Outcome

abbrev pub push_chunk : Parser → List ℕ → Parser
push_chunk s chunk = record s {
  chunks = s.chunks ++ chunk ∷ [];
  chunklen = s.chunklen + length chunk;
}

-- The chunks that piled up with the last one, where there are any.
abbrev pub whole : Parser → List ℕ → List ℕ
whole s chunk = if (s.chunklen == 0) then chunk else concat (s.chunks ++ chunk ∷ [])

abbrev pub cleared : Parser → Parser
cleared s = if (s.chunklen == 0) then s else record s { chunks = []; chunklen = 0 }

unfoldable pub get_frame : Parser → List ℕ → Outcome
get_frame s chunk =
    if length chunk == s.frame
    then emitted chunk (record s { frame = 0 })
    else emitted (take s.frame chunk) (record (push_chunk s (drop s.frame chunk)) { frame = 0 })

-- The end of `read`, once the length of the frame is known.
unfoldable pub read_body : Parser → List ℕ → Outcome
unfolding get_frame concat
read_body s chunk =
    if ltb (s.chunklen + length chunk) s.frame
    then again (push_chunk s chunk)
    else get_frame (cleared s) (whole s chunk)

-- `read` with the length of the frame taken from the first four bytes of `chunk`.
unfoldable pub read_header : Parser → List ℕ → Outcome
unfolding read_body read_u32
read_header s chunk =
    let size : ℕ = read_u32 chunk in
    if ltb max_allowed_frame_size size
    then failed
    else if ltb 4 (length chunk)
    then read_body (record s { frame = size }) (drop 4 chunk)
    else again (record s { frame = size })

unfoldable pub read_chunk : Parser → List ℕ → Outcome
unfolding read_header read_body concat
read_chunk s chunk =
    if s.frame == 0
    then (if ltb (s.chunklen + length chunk) 4
        then again (push_chunk s chunk)
        else read_header (cleared s) (whole s chunk))
    else read_body s chunk

unfoldable pub read_socket : List (List ℕ) → Parser → Outcome
unfolding read_chunk
read_socket [] s = idle
read_socket (chunk ∷ rest) s = read_chunk (record s { socket = rest }) chunk

unfoldable pub read : Parser → Outcome
unfolding read_socket concat
read s =
    if (s.frame == 0) && leb 4 s.chunklen
    then read_chunk (record s { chunks = []; chunklen = 0 }) (concat s.chunks)
    else read_socket s.socket s

-- The calls of `read` one after the other, until there is nothing to read; the frames that the handler
-- got. `none` after an error, and where the fuel runs out.
unfoldable pub run : ℕ → Parser → Option (List (List ℕ))
run zero s = none
run (suc fuel) s = elim (read s) [
  | idle ↦ some []
  | failed ↦ none
  | again s' ↦ run fuel s'
  | emitted frame s' ↦ elim (run fuel s') [ none ↦ none | some frames ↦ some (frame ∷ frames) ]
]

-- A parser on a socket with these buffers.
abbrev pub start : List (List ℕ) → Parser
start socket = record { socket = socket; chunks = []; chunklen = 0; frame = 0 }
