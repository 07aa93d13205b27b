-- ===== src/Codec/Gcmd/Framed.antt =====
-- A buffer that begins with a frame, as `GCMDDeserialiser` sees it, whatever the message.
use slipstream_volume_aware.Prelude.{
  ℕ, ◌+◌, ◌^◌, ◌<◌, ◌≤◌, ◌≡◌, refl, sym, ap, ◌∙◌, List, [], ◌++◌, arith, length, drop, take,
  take-length_append, append-nil, length-drop, drop-length_append, append_assoc, length-append,
}
use slipstream_volume_aware.Prelude.Outcome.{Outcome, ok, ◌>>=◌}
use slipstream_volume_aware.Codec.Frame.{
  header_bytes, write_frame, write_frame_lem, IsHeader, header_at, read_at, read_at-append,
  header_at-header_bytes, length-header_bytes, header_of, header_of-header_bytes,
}
use slipstream_volume_aware.Reconstructor.Frames.{IsFrame}
use mathlib.Core.Path.{subst}
use slipstream_volume_aware.Codec.Gcmd.{
  MessageType, message_type_to_num, message_type_from_num, MdMessage,
}
use slipstream_volume_aware.Codec.Gcmd.Serialise.{frame_header}
use slipstream_volume_aware.Codec.Gcmd.Deserialise.{
  get_message_type, get_message_size, get_body_size, deserialise_as, deserialise_message,
}

message_type_from_num-message_type_to_num :
    (t : MessageType) → message_type_from_num (message_type_to_num t) ≡ ok t
unfolding message_type_from_num message_type_to_num
message_type_from_num-message_type_to_num MessageType.quote = refl
message_type_from_num-message_type_to_num MessageType.trade = refl
message_type_from_num-message_type_to_num MessageType.heartbeat = refl
message_type_from_num-message_type_to_num MessageType.session_control = refl

frame_header-IsHeader : (n : ℕ) (t : MessageType) → n < 2 ^ 16 → IsHeader (frame_header n t)
unfolding message_type_to_num
frame_header-IsHeader n MessageType.quote h = omega arith
frame_header-IsHeader n MessageType.trade h = omega arith
frame_header-IsHeader n MessageType.heartbeat h = omega arith
frame_header-IsHeader n MessageType.session_control h = omega arith

-- A buffer that begins with a frame of type `t` and body `body`.
abbrev pub framed : MessageType → ℕ → List ℕ → List ℕ → List ℕ
framed t n body rest = header_bytes (frame_header n t) ++ (body ++ rest)

module _ (t : MessageType) (n : ℕ) (small : n < 2 ^ 16) (body rest : List ℕ) where
  header_at-framed : header_at (framed t n body rest) ≡ ok (frame_header n t)
  header_at-framed =
      header_at-header_bytes (frame_header n t) (body ++ rest) (frame_header-IsHeader n t small)

  get_message_type-framed : get_message_type (framed t n body rest) ≡ ok t
  unfolding get_message_type
  get_message_type-framed =
      ap (λ m. m >>= (λ hd. message_type_from_num hd.msg_type)) header_at-framed
      ∙ message_type_from_num-message_type_to_num t

  get_message_size-framed : get_message_size (framed t n body rest) ≡ ok (4 + n)
  unfolding get_message_size get_body_size
  get_message_size-framed =
      ap (λ m. (m >>= (λ hd. ok hd.body_len)) >>= (λ k. ok (4 + k))) header_at-framed

  pub read_body : length body ≡ n → read_at (framed t n body rest) 4 n ≡ ok body
  read_body e =
      read_at-append (header_bytes (frame_header n t)) body rest 4 n
        (length-header_bytes (frame_header n t)) e

  deserialise_message-framed :
      {m : MdMessage}
      → deserialise_as (framed t n body rest) t ≡ ok m
      → deserialise_message (framed t n body rest) ≡ ok m
  unfolding deserialise_message
  deserialise_message-framed e =
      ap (λ r. r >>= (λ u. deserialise_as (framed t n body rest) u)) get_message_type-framed ∙ e

framed-IsFrame :
    (t : MessageType) (n : ℕ)
    → n < 2 ^ 16
    → (body : List ℕ) → length body ≡ n
    → IsFrame (framed t n body [])
unfolding header_of
framed-IsFrame t n small body e =
    let l = length-append (header_bytes (frame_header n t)) (body ++ []) in
    let m = length-append body [] in
    let k = length-header_bytes (frame_header n t) in
    let w =
      ap (λ h. h.body_len)
        (header_of-header_bytes (frame_header n t) (body ++ [])
          (frame_header-IsHeader n t small)) in
    record { header = omega (arith, l, k); whole = omega (arith, l, m, k, e, w) }

-- `r` wrote a frame of `n` bytes at the start of a buffer, which a reader takes for `m`, also when it
-- gets no more than the frame, and left the bytes behind it alone.
abbrev pub Carries : List ℕ → ℕ → MdMessage → Outcome (ℕ × List ℕ) → Type 0
Carries buffer n m r =
    (b : List ℕ) × (r ≡ ok (n, b))
    × (deserialise_message b ≡ ok m)
    × (get_message_size b ≡ ok n)
    × (drop n b ≡ drop n buffer)
    × (length b ≡ length buffer)
    × (deserialise_message (take n b) ≡ ok m)
    × IsFrame (take n b)

pub write_frame-Carries :
    (t : MessageType) (n : ℕ) (body buffer : List ℕ) (m : MdMessage)
    → n < 2 ^ 16
    → length body ≡ n
    → 4 + n ≤ length buffer
    → ((rest : List ℕ) → deserialise_as (framed t n body rest) t ≡ ok m)
    → Carries buffer (4 + n) m (write_frame buffer (frame_header n t) body >>= (λ b. ok (4 + n, b)))
write_frame-Carries t n body buffer m small e room reads = (
  framed t n body rest,
  ap (λ r. r >>= (λ b. ok (4 + n, b)))
      (write_frame_lem buffer (frame_header n t) body (omega (arith, e))
        ∙ ap (λ k. ok (framed t n body (drop (4 + k) buffer))) e),
  deserialise_message-framed t n small body rest (reads rest),
  get_message_size-framed t n small body rest,
  ap (drop (4 + n)) (sym (append_assoc (header_bytes (frame_header n t)) body rest))
      ∙ drop-length_append (4 + n) (header_bytes (frame_header n t) ++ body) rest both,
  omega (
    arith,
    e,
    room,
    length-append (header_bytes (frame_header n t)) (body ++ rest),
    length-append body rest,
    length-header_bytes (frame_header n t),
    length-drop (4 + n) buffer,
  ),
  ap deserialise_message cut ∙ deserialise_message-framed t n small body [] (reads []),
  subst IsFrame (sym cut) (framed-IsFrame t n small body e),
)
  where
    rest : List ℕ
    rest = drop (4 + n) buffer

    both : length (header_bytes (frame_header n t) ++ body) ≡ 4 + n
    both = omega (
      arith,
      e,
      length-append (header_bytes (frame_header n t)) body,
      length-header_bytes (frame_header n t),
    )

    cut : take (4 + n) (framed t n body rest) ≡ framed t n body []
    cut =
        ap (take (4 + n)) (sym (append_assoc (header_bytes (frame_header n t)) body rest))
        ∙ take-length_append (4 + n) (header_bytes (frame_header n t) ++ body) rest both
        ∙ ap (λ l. header_bytes (frame_header n t) ++ l) (sym (append-nil body))
