-- ===== src/Reconstructor.antt =====
-- src/libs/networking/libslipstream_codec/MessageReconstructor.h and .cpp: from chunks of a byte
-- stream to the complete messages in it. A pointer into `buffer` is its offset.
use slipstream_volume_aware.Prelude.{
  ℕ, zero, suc, ◌+◌, ◌-◌, ◌≤◌, List, length, take, drop, replicate, Bool, true, false, ◌&&◌, not,
  ◌==◌, ltb, leb, if◌then◌else◌, Option, none, some,
}
use slipstream_volume_aware.Prelude.Words.{add64, sub64}
use slipstream_volume_aware.Prelude.Outcome.{Outcome, ok, err, bad_alloc, fault, ◌>>=◌}
use slipstream_volume_aware.Codec.Frame.{word, header_size, memcpy}
use Prim.Native.Nat.{max}
pub mod Frames
pub mod Walk
pub mod Fill
pub mod Refine
mod Tests

-- `BUFFER_SIZE`.
abbrev pub buffer_size : ℕ
buffer_size = 2048

pub record MessageReconstructor : Type 0 where
  pub buffer : List ℕ
  pub size : ℕ
  pub dirty_start : ℕ

pub record MessagesRecieved : Type 0 where
  pub start : Option ℕ
  pub messages_count : ℕ

unfoldable pub init : List ℕ → MessageReconstructor
init bytes = record { buffer = bytes; size = 0; dirty_start = 0 }

-- `header.bodyLen` of the frame at an offset.
abbrev pub body_len_at : List ℕ → ℕ → ℕ
body_len_at buffer off = word 2 (drop off buffer)

abbrev pub nothing_recieved : MessagesRecieved
nothing_recieved = record { start = none; messages_count = 0 }

-- `getMessages`, on fuel. A call takes four bytes at least, so `size` calls are enough, and with no
-- fuel left there is no header left either.
unfoldable pub get_messages :
    ℕ → ℕ → ℕ → MessageReconstructor → MessagesRecieved × MessageReconstructor
get_messages zero off size r = (nothing_recieved, r)
get_messages (suc fuel) off size r =
    let message_size = header_size + body_len_at r.buffer off in
    let rest = get_messages fuel (off + message_size) (size - message_size) r in
    if ltb size header_size
    then (nothing_recieved, r)
    else if ltb size (body_len_at r.buffer off + header_size)
    then (nothing_recieved, r)
    else (
      record { start = some off; messages_count = rest.0.messages_count + 1 },
      record (rest.1) {
        dirty_start = max rest.1.dirty_start (off + message_size);
        size = sub64 rest.1.size message_size;
      },
    )

-- The bytes that are left move to the front. `memcpy` between ranges that overlap is undefined.
unfoldable pub compact : MessageReconstructor → Outcome MessageReconstructor
compact r = if r.dirty_start == 0 then ok r else if ltb r.dirty_start r.size then err fault else (do
  b ← memcpy r.buffer 0 (take r.size (drop r.dirty_start r.buffer))
  ok record { buffer = b; size = r.size; dirty_start = 0 })

unfoldable pub recieve :
    MessageReconstructor → List ℕ → Outcome (MessagesRecieved × MessageReconstructor)
recieve r mem = if ltb buffer_size (add64 r.size (length mem)) then err bad_alloc else (do
  c ← compact r
  b ← memcpy c.buffer c.size mem
  ok (
      get_messages (c.size + length mem) 0 (c.size + length mem)
        (record { buffer = b; size = c.size + length mem; dirty_start = c.dirty_start })))
