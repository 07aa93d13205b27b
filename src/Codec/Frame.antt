-- ===== src/Codec/Frame.antt =====
-- src/libs/networking/framing/FrameHeader.h, and the memory accesses that the two codecs share:
-- `memcpy` into a buffer, and a read of a packed struct at an offset. A buffer is the list of its
-- bytes; words lie lowest byte first, as on the x86-64 hosts that the program runs on.
use slipstream_volume_aware.Prelude.{
  ℕ, ◌+◌, ◌^◌, ◌≤◌, ◌<◌, ◌≡◌, refl, sym, ap, ap₂, ◌∙◌, List, [], ◌∷◌, ◌++◌, arith, length, take,
  drop, leb, if◌then◌else◌, take-length_append, drop-length_append, drop-drop, length-append,
  length-drop, append-nil,
}
use slipstream_volume_aware.Prelude.Words.{to_bytes, of_bytes, length-to_bytes, of_bytes-to_bytes}
use slipstream_volume_aware.Prelude.Outcome.{Outcome, ok, err, fault, ◌>>=◌}

pub record FrameHeader : Type 0 where
  pub body_len : ℕ
  pub msg_type : ℕ
  pub version : ℕ

-- `sizeof(FrameHeader)`, the struct being packed.
abbrev pub header_size : ℕ
header_size = 4

abbrev pub protocol_version : ℕ
protocol_version = 1

-- The bytes of a packed struct, from those of its fields.
abbrev pub pack : List (List ℕ) → List ℕ
pack [] = []
pack (x ∷ xs) = x ++ pack xs

-- The field of `n` bytes at the front of some bytes.
abbrev pub word : ℕ → List ℕ → ℕ
word n bs = of_bytes (take n bs)

unfoldable pub header_bytes : FrameHeader → List ℕ
header_bytes h = pack (to_bytes 2 h.body_len ∷ to_bytes 1 h.msg_type ∷ to_bytes 1 h.version ∷ [])

unfoldable pub header_of : List ℕ → FrameHeader
header_of bs = record {
  body_len = word 2 bs;
  msg_type = word 1 (drop 2 bs);
  version = word 1 (drop 3 bs);
}

-- `memcpy(buffer + off, src, n)`. Past the end of the buffer it is undefined.
unfoldable pub memcpy : List ℕ → ℕ → List ℕ → Outcome (List ℕ)
memcpy dst off src =
    if leb (off + length src) (length dst)
    then ok (take off dst ++ (src ++ drop (off + length src) dst))
    else err fault

-- The `n` bytes that a struct at `buffer + off` is read from.
unfoldable pub read_at : List ℕ → ℕ → ℕ → Outcome (List ℕ)
read_at buffer off n =
    if leb (off + n) (length buffer) then ok (take n (drop off buffer)) else err fault

-- `*static_cast<FrameHeader*>(buffer)`.
unfoldable pub header_at : List ℕ → Outcome FrameHeader
unfolding header_of read_at
header_at buffer = do bs ← read_at buffer 0 header_size; ok (header_of bs)

-- The two `memcpy` calls that end every serialiser: the header, and behind it the body.
unfoldable pub write_frame : List ℕ → FrameHeader → List ℕ → Outcome (List ℕ)
write_frame buffer header body = do
  b ← memcpy buffer 0 (header_bytes header)
  memcpy b header_size body

pub record IsHeader (h : FrameHeader) : Type 0 where
  pub body_len_in : h.body_len < 2 ^ 16
  pub msg_type_in : h.msg_type < 256
  pub version_in : h.version < 256

pub length-header_bytes : (h : FrameHeader) → length (header_bytes h) ≡ 4
unfolding header_bytes to_bytes
length-header_bytes h = refl

-- A field of a packed struct is read back, and stepped over.
pub word-to_bytes : (n v : ℕ) (rest : List ℕ) → v < 256 ^ n → word n (to_bytes n v ++ rest) ≡ v
word-to_bytes n v rest h =
    ap of_bytes (take-length_append n (to_bytes n v) rest (length-to_bytes n v))
    ∙ of_bytes-to_bytes n v h

pub skip-to_bytes : (n v : ℕ) (rest : List ℕ) → drop n (to_bytes n v ++ rest) ≡ rest
skip-to_bytes n v rest = drop-length_append n (to_bytes n v) rest (length-to_bytes n v)

pub header_of-header_bytes :
    (h : FrameHeader) (rest : List ℕ) → IsHeader h → header_of (header_bytes h ++ rest) ≡ h
unfolding header_of header_bytes to_bytes of_bytes
header_of-header_bytes h rest v = ground arith

pub memcpy_ok :
    (dst : List ℕ) (off : ℕ) (src : List ℕ)
    → off + length src ≤ length dst
    → memcpy dst off src ≡ ok (take off dst ++ (src ++ drop (off + length src) dst))
unfolding memcpy
memcpy_ok dst off src h = ground arith

-- A copy right behind a known front part.
memcpy-append :
    (front old src : List ℕ) (n : ℕ)
    → length front ≡ n
    → length src ≤ length old
    → memcpy (front ++ old) n src ≡ ok (front ++ (src ++ drop (length src) old))
memcpy-append front old src n e h =
    memcpy_ok (front ++ old) n src (omega (arith, length-append front old))
    ∙ ap₂ (λ a b. ok (a ++ (src ++ b))) (take-length_append n front old e) tail
  where
    tail : drop (n + length src) (front ++ old) ≡ drop (length src) old
    tail =
        sym (drop-drop (length src) n (front ++ old))
        ∙ ap (drop (length src)) (drop-length_append n front old e)

-- What a serialiser leaves in a buffer with room for the frame.
pub write_frame_lem :
    (buffer : List ℕ) (h : FrameHeader) (body : List ℕ)
    → 4 + length body ≤ length buffer
    → write_frame buffer h body ≡ ok (header_bytes h ++ (body ++ drop (4 + length body) buffer))
unfolding write_frame
write_frame_lem buffer h body room = first ∙ second
  where
    room' : 0 + length (header_bytes h) ≤ length buffer
    room' = omega (arith, length-header_bytes h)

    four : 0 + length (header_bytes h) ≡ 4
    four = omega (arith, length-header_bytes h)

    first : write_frame buffer h body ≡ memcpy (header_bytes h ++ drop 4 buffer) 4 body
    first =
        ap (λ m. m >>= (λ b. memcpy b 4 body)) (memcpy_ok buffer 0 (header_bytes h) room')
        ∙ ap (λ k. memcpy (header_bytes h ++ drop k buffer) 4 body) four

    second :
        memcpy (header_bytes h ++ drop 4 buffer) 4 body
        ≡ ok (header_bytes h ++ (body ++ drop (4 + length body) buffer))
    second =
        memcpy-append (header_bytes h) (drop 4 buffer) body 4 (length-header_bytes h)
          (omega (arith, length-drop 4 buffer))
        ∙ ap (λ b. ok (header_bytes h ++ (body ++ b))) (drop-drop (length body) 4 buffer)

-- A read of what stands behind a known front part.
pub read_at-append :
    (front body rest : List ℕ) (off n : ℕ)
    → length front ≡ off
    → length body ≡ n
    → read_at (front ++ (body ++ rest)) off n ≡ ok body
unfolding read_at
read_at-append front body rest off n e e' = ground (
  arith,
  length-append front (body ++ rest),
  length-append body rest,
  drop-length_append off front (body ++ rest) e,
  take-length_append n body rest e',
)

-- The header that a reader of a written frame sees.
pub header_at-header_bytes :
    (h : FrameHeader) (rest : List ℕ) → IsHeader h → header_at (header_bytes h ++ rest) ≡ ok h
unfolding header_at
header_at-header_bytes h rest v =
    ap (λ m. m >>= (λ bs. ok (header_of bs)))
      (read_at-append [] (header_bytes h) rest 0 4 refl (length-header_bytes h))
    ∙ ap ok (ap header_of (sym (append-nil (header_bytes h))) ∙ header_of-header_bytes h [] v)
