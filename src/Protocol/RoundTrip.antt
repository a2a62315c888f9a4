-- ===== src/Protocol/RoundTrip.antt =====
-- Frames round trip.
use mariamesh.Base.{
  ℕ, ◌^◌, ◌≡◌, ◌≤◌, ◌<◌, arith, refl, length, [], ◌∷◌, ◌++◌, Str, ok, take-append, drop-append,
  length-append,
}
use mariamesh.Protocol.Frames.{
  max_frame_bytes, put_uint32, uint32, frame_bytes, write_frame, read_frame, read_full,
}

uint32-put_uint32 : (n : ℕ) → n < 2 ^ 32 → uint32 (put_uint32 n) ≡ n
uint32-put_uint32 n h = omega arith

read_full-append : (p rest : Str) → read_full (length p) (p ++ rest) ≡ ok (p, rest)
unfolding read_full
read_full-append [] rest = refl
read_full-append (c ∷ p) rest =
    ground (arith, take-append p rest, drop-append p rest, length-append p rest)

header : (n : ℕ) (r : Str) → read_full 4 (put_uint32 n ++ r) ≡ ok (put_uint32 n, r)
unfolding read_full
header n r = ground arith

-- Reading a written frame gives the payload back and leaves the rest of the stream, for every
-- payload that may be written.
pub read_frame-frame_bytes :
    (payload rest : Str)
    → length payload ≤ max_frame_bytes
    → (write_frame payload ≡ ok (frame_bytes payload))
      × (read_frame (frame_bytes payload ++ rest) ≡ ok (payload, rest))
unfolding write_frame read_frame frame_bytes
read_frame-frame_bytes p rest h = (
  ground arith,
  ground (
    arith,
    header (length p) (p ++ rest),
    uint32-put_uint32 (length p) (omega arith),
    read_full-append p rest,
  ),
)
