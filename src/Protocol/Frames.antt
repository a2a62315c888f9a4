-- ===== src/Protocol/Frames.antt =====
-- Frames: four bytes of length, big endian, and the payload (`WriteFrame` and `ReadFrame` of
-- internal/protocol/message.go, `frameBytes` of internal/sync/broadcast.go, `framedBytes` of
-- replication.go).
use mariamesh.Base.{
  ℕ, zero, suc, ◌+◌, ◌*◌, ◌/◌, ◌%◌, ◌^◌, ltb, if◌then◌else◌, length, take, drop, [], ◌∷◌, ◌++◌, Str,
  Result, ok, err,
}

pub data FrameError : Type 0 where
  too_large eof unexpected_eof : FrameError

-- `MaxFrameBytes`: `32 << 20`.
abbrev pub max_frame_bytes : ℕ
max_frame_bytes = 32 * 2 ^ 20

-- `PutUint32` of a number below 2^32; each byte of a shift is a `byte` conversion.
abbrev pub put_uint32 : ℕ → Str
put_uint32 n = n / 2 ^ 24 % 256 ∷ n / 2 ^ 16 % 256 ∷ n / 2 ^ 8 % 256 ∷ n % 256 ∷ []

-- `frameBytes` and `framedBytes`
unfoldable pub frame_bytes : Str → Str
frame_bytes payload = put_uint32 (length payload) ++ payload

-- `WriteFrame`: what is written.
unfoldable pub write_frame : Str → Result FrameError Str
unfolding frame_bytes
write_frame payload =
    if ltb max_frame_bytes (length payload) then err too_large else ok (frame_bytes payload)

-- `io.ReadFull` of `n` bytes: `io.EOF` where none is there, `io.ErrUnexpectedEOF` where some are
-- missing.
unfoldable pub read_full : ℕ → Str → Result FrameError (Str × Str)
read_full zero r = ok ([], r)
read_full (suc n) [] = err eof
read_full (suc n) (c ∷ r) =
    if ltb (length r) n then err unexpected_eof else ok (c ∷ take n r, drop n r)

abbrev pub uint32 : Str → ℕ
uint32 (a ∷ b ∷ c ∷ d ∷ []) = a * 2 ^ 24 + b * 2 ^ 16 + c * 2 ^ 8 + d
uint32 _ = 0

-- `ReadFrame`: the payload and the rest of the stream.
unfoldable pub read_frame : Str → Result FrameError (Str × Str)
unfolding read_full
read_frame r = elim (read_full 4 r) [
  | err x ↦ err x
  | ok (hdr, rest) ↦
      if ltb max_frame_bytes (uint32 hdr) then err too_large else read_full (uint32 hdr) rest
]
