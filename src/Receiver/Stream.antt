-- ===== src/Receiver/Stream.antt =====
-- `deliver` against the frames that it walks over.
use slipstream_volume_aware.Prelude.{
  ℕ, suc, ◌+◌, ◌≡◌, refl, sym, ap, ◌∙◌, List, [], ◌∷◌, ◌++◌, length, drop, arith, append_assoc,
  length-append, length-drop, take-take, take-append_le, drop-append_le, drop-length_append, leb,
  Bool-cases, leb→le, inl, inr,
}
use slipstream_volume_aware.Prelude.Outcome.{Outcome, ok, Outcome-cases, ◌>>=◌}
use slipstream_volume_aware.Codec.Frame.{read_at, header_of, header_at}
use slipstream_volume_aware.Codec.Gcmd.{
  MessageType, MdMessage, to_quote, to_trade, to_heartbeat, to_session_control,
  message_type_from_num,
}
use slipstream_volume_aware.Codec.Gcmd.Wire.{quote_of, trade_of, heartbeat_of, session_control_of}
use slipstream_volume_aware.Codec.Gcmd.Deserialise.{
  deserialise_message, get_message_type, deserialise_as, get_heartbeat_message, get_quote_message,
  get_trade_message, get_session_control_message, get_message_size, get_body_size,
}
use slipstream_volume_aware.Reconstructor.Frames.{IsFrame, Splits, rest, frame}
use slipstream_volume_aware.Receiver.{note_heartbeat, deliver}

-- The frames carry these messages, each read from its own frame alone.
pub data Carries : List (List ℕ) → List MdMessage → Type 0 where
  none_left : Carries [] []
  carry :
      {fs : List (List ℕ)} {ms : List MdMessage} (f : List ℕ) (m : MdMessage)
      → deserialise_message f ≡ ok m
      → Carries fs ms
      → Carries (f ∷ fs) (m ∷ ms)

-- A read that succeeds is not changed by bytes behind the buffer.
abbrev Stable {ℓ} : {A : Type ℓ} → (List ℕ → Outcome A) → Type ℓ
Stable {A = A} f = (bs t : List ℕ) (a : A) → f bs ≡ ok a → f (bs ++ t) ≡ ok a

read_at-Stable : (off n : ℕ) → Stable (λ bs. read_at bs off n)
unfolding read_at
read_at-Stable off n bs t a e = elim (Bool-cases (leb (off + n) (length bs))) [
  | inl h ↦ ground (
    arith,
    length-append bs t,
    drop-append_le off bs t (ground (arith, leb→le (off + n) (length bs) h)),
    take-append_le n (drop off bs) t
        (omega (arith, length-drop off bs, leb→le (off + n) (length bs) h)),
  )
  | inr h ↦ ground (arith, h)
]

Stable-bind {ℓ κ} :
    {A : Type ℓ} {B : Type κ} (f : List ℕ → Outcome A) (g : A → List ℕ → Outcome B)
    → Stable f
    → ((a : A) → Stable (g a))
    → Stable (λ bs. f bs >>= (λ a. g a bs))
Stable-bind f g sf sg bs t b e = elim (Outcome-cases (f bs)) [
  | inl (a, h) ↦
      ap (λ m. m >>= (λ x. g x (bs ++ t))) (sf bs t a h)
      ∙ sg a bs t b (sym (ap (λ m. m >>= (λ x. g x bs)) h) ∙ e)
  | inr (x, h) ↦ absurd (cc (sym (ap (λ m. m >>= (λ a. g a bs)) h) ∙ e))
]

Stable-const {ℓ} : {A : Type ℓ} (o : Outcome A) → Stable (λ bs. o)
Stable-const o bs t a e = e

header_at-Stable : Stable header_at
unfolding header_at
header_at-Stable =
    Stable-bind (λ bs. read_at bs 0 4) (λ x bs. ok (header_of x)) (read_at-Stable 0 4)
      (λ x. Stable-const (ok (header_of x)))

get_message_size-Stable : Stable get_message_size
unfolding get_message_size get_body_size
get_message_size-Stable =
    Stable-bind get_body_size (λ n bs. ok (4 + n))
      (Stable-bind header_at (λ h bs. ok h.body_len) header_at-Stable
        (λ h. Stable-const (ok h.body_len)))
      (λ n. Stable-const (ok (4 + n)))

deserialise_as-Stable : (ty : MessageType) → Stable (λ bs. deserialise_as bs ty)
unfolding deserialise_as get_quote_message get_trade_message get_heartbeat_message
    get_session_control_message
deserialise_as-Stable MessageType.quote =
    Stable-bind get_quote_message (λ q bs. ok (MdMessage.quote q))
      (Stable-bind (λ bs. read_at bs 4 44) (λ x bs. ok (to_quote (quote_of x)))
        (read_at-Stable 4 44) (λ x. Stable-const (ok (to_quote (quote_of x)))))
      (λ q. Stable-const (ok (MdMessage.quote q)))
deserialise_as-Stable MessageType.trade =
    Stable-bind get_trade_message (λ q bs. ok (MdMessage.trade q))
      (Stable-bind (λ bs. read_at bs 4 41) (λ x bs. to_trade (trade_of x)) (read_at-Stable 4 41)
        (λ x. Stable-const (to_trade (trade_of x))))
      (λ q. Stable-const (ok (MdMessage.trade q)))
deserialise_as-Stable MessageType.heartbeat =
    Stable-bind get_heartbeat_message (λ q bs. ok (MdMessage.heartbeat q))
      (Stable-bind (λ bs. read_at bs 4 8) (λ x bs. ok (to_heartbeat (heartbeat_of x)))
        (read_at-Stable 4 8) (λ x. Stable-const (ok (to_heartbeat (heartbeat_of x)))))
      (λ q. Stable-const (ok (MdMessage.heartbeat q)))
deserialise_as-Stable MessageType.session_control =
    Stable-bind get_session_control_message (λ q bs. ok (MdMessage.session_control q))
      (Stable-bind (λ bs. read_at bs 4 9) (λ x bs. to_session_control (session_control_of x))
        (read_at-Stable 4 9) (λ x. Stable-const (to_session_control (session_control_of x))))
      (λ q. Stable-const (ok (MdMessage.session_control q)))

deserialise_message-Stable : Stable deserialise_message
unfolding deserialise_message get_message_type
deserialise_message-Stable =
    Stable-bind get_message_type (λ ty bs. deserialise_as bs ty)
      (Stable-bind header_at (λ h bs. message_type_from_num h.msg_type) header_at-Stable
        (λ h. Stable-const (message_type_from_num h.msg_type)))
      deserialise_as-Stable

-- A frame is as long as `getMessageSize` says.
get_message_size-IsFrame : (f : List ℕ) → IsFrame f → get_message_size f ≡ ok (length f)
unfolding get_message_size get_body_size header_at read_at header_of
get_message_size-IsFrame f v = ground (arith, v.header, v.whole, take-take 2 4 f (omega arith))

-- What the messages leave in `lastHeartbeat` and in the queue.
abbrev pub noted : ℕ → List MdMessage → ℕ
noted last [] = last
noted last (m ∷ ms) = noted (note_heartbeat last m) ms

module _ {ℓ} {Q : Type ℓ} (enqueue : Q → MdMessage → Q) where
  abbrev pub enqueued : Q → List MdMessage → Q
  enqueued q [] = q
  enqueued q (m ∷ ms) = enqueued (enqueue q m) ms

  deliver-suc :
      (n : ℕ) (bs : List ℕ) (last : ℕ) (q : Q) {m : MdMessage} {k : ℕ}
      → deserialise_message bs ≡ ok m
      → get_message_size bs ≡ ok k
      → deliver enqueue (suc n) bs last q
        ≡ deliver enqueue n (drop k bs) (note_heartbeat last m) (enqueue q m)
  unfolding deliver
  deliver-suc n bs last q e e' = cc (e, e')

  pub deliver_lem :
      {bs left : List ℕ} {fs : List (List ℕ)} {ms : List MdMessage} (t : List ℕ) (last : ℕ) (q : Q)
      → Splits bs fs left
      → Carries fs ms
      → deliver enqueue (length fs) (bs ++ t) last q ≡ (ok tt, (noted last ms, enqueued q ms))
  unfolding deliver
  deliver_lem t last q (rest h) none_left = refl
  deliver_lem {bs = bs} {fs = f ∷ fs} t last q (frame {tail = tail} _ v e s) (carry _ m d c) =
      let eb = ap (λ x. x ++ t) e ∙ append_assoc f tail t in
      let read = ap deserialise_message eb ∙ deserialise_message-Stable f (tail ++ t) m d in
      let size =
        ap get_message_size eb
        ∙ get_message_size-Stable f (tail ++ t) (length f) (get_message_size-IsFrame f v) in
      let next = ap (drop (length f)) eb ∙ drop-length_append (length f) f (tail ++ t) refl in
      let more = deliver_lem t (note_heartbeat last m) (enqueue q m) s c in
      deliver-suc (length fs) (bs ++ t) last q read size
      ∙ ap (λ x. deliver enqueue (length fs) x (note_heartbeat last m) (enqueue q m)) next
      ∙ more
