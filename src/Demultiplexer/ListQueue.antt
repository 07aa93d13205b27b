-- ===== src/Demultiplexer/ListQueue.antt =====
-- A queue that is a list of messages, which the runs on concrete messages use.
use slipstream_volume_aware.Prelude.{◌≡◌, refl, List, [], ◌∷◌, ◌++◌, none, some, Option}
use slipstream_volume_aware.Codec.Gcmd.{MdMessage}
use slipstream_volume_aware.Demultiplexer.{InboundMessageQueue, is_nil}

abbrev pop_first : List MdMessage → Option MdMessage × List MdMessage
pop_first [] = (none, [])
pop_first (m ∷ ms) = (some m, ms)

pub list_pop_none : (q : List MdMessage) → q ≡ [] → pop_first q ≡ (none, q)
list_pop_none [] e = refl
list_pop_none (m ∷ ms) e = absurd (cc e)

pub list_pop_some :
    (q : List MdMessage) (m : MdMessage) (ms : List MdMessage)
    → q ≡ m ∷ ms
    → (q' : List MdMessage) × (pop_first q ≡ (some m, q')) × (q' ≡ ms)
list_pop_some q m ms e = (ms, cc e, refl)

abbrev pub list_queue : InboundMessageQueue (List MdMessage)
list_queue = record {
  enqueue = λ q m. q ++ (m ∷ []);
  empty = is_nil;
  pop = pop_first;
  contents = λ q. q;
  enqueue_last = λ q m. refl;
  empty_nil = λ q. refl;
  pop_none = list_pop_none;
  pop_first = list_pop_some;
}
