-- ===== src/Stream/OutputReliable/Acknack.antt =====
-- What an ACKNACK of the agent does to an output stream.
use micro_xrce_dds_client.Prelude.{
  ℕ, zero, suc, ◌+◌, ◌≤◌, ◌<◌, ◌≡◌, ◌≢◌, ◌↔◌, refl, ap, ◌∙◌, sym, arith, true,
}
use micro_xrce_dds_client.SeqNum.{seq_num_add, seq_num_sub}
use micro_xrce_dds_client.SeqNum.Order.{IsSeqNum, add-IsSeqNum}
use micro_xrce_dds_client.Stream.ReliableBuffer.{
  get_reliable_buffer, get_reliable_buffer_capacity, get_reliable_buffer_size,
  set_reliable_buffer_size,
}
use micro_xrce_dds_client.Stream.ReliableBuffer.Slots.{
  IsBlock, slot, get_size-set_size, message-set_size,
}
use micro_xrce_dds_client.Stream.OutputReliable.{
  OutputReliableStream, clean_buffers, process_acknack,
}

-- One acknowledged number: its slot is freed.
abbrev clean_one : OutputReliableStream → OutputReliableStream
clean_one stream =
    let acked = seq_num_add stream.last_acknown 1 in
    record stream {
      last_acknown = acked;
      base = set_reliable_buffer_size stream.base acked stream.offset;
    }

-- The geometry of the stream's block, and the offset of a message in a free slot.
pub record IsOutput (stream : OutputReliableStream) : Type 0 where
  pub block : IsBlock stream.base
  pub offset_fits : stream.offset < 256
  pub acknown : IsSeqNum stream.last_acknown
  pub sent : IsSeqNum stream.last_sent
  pub written : IsSeqNum stream.last_written

clean_one-IsOutput : {stream : OutputReliableStream} → IsOutput stream → IsOutput (clean_one stream)
unfolding set_reliable_buffer_size
clean_one-IsOutput {stream} v = record {
  block = record {
    some_history = v.block.some_history;
    history_fits = v.block.history_fits;
    some_room = v.block.some_room;
    size_fits = v.block.size_fits;
  };
  offset_fits = v.offset_fits;
  acknown = add-IsSeqNum stream.last_acknown 1;
  sent = v.sent;
  written = v.written;
}

history-clean_one :
    (stream : OutputReliableStream) → (clean_one stream).base.history ≡ stream.base.history
unfolding set_reliable_buffer_size
history-clean_one stream = refl

slot-clean_one :
    (stream : OutputReliableStream) (m : ℕ) → slot (clean_one stream).base m ≡ slot stream.base m
unfolding set_reliable_buffer_size
slot-clean_one stream m = refl

-- The slots of the numbers 1 to `n` ahead of the last acknowledged one.
abbrev pub Cleaned : OutputReliableStream → ℕ → ℕ → Type 0
Cleaned stream n m =
    (k : ℕ) × (1 ≤ k)
    × (k ≤ n)
    × (slot stream.base (seq_num_add stream.last_acknown k) ≡ slot stream.base m)

-- What stays as it is.
pub record SameButCleaned (stream stream' : OutputReliableStream) : Type 0 where
  pub history : stream'.base.history ≡ stream.base.history
  pub offset : stream'.offset ≡ stream.offset
  pub last_written : stream'.last_written ≡ stream.last_written
  pub last_sent : stream'.last_sent ≡ stream.last_sent

pub add_add : (a k : ℕ) → seq_num_add (seq_num_add a 1) k ≡ seq_num_add a (suc k)
unfolding seq_num_add
add_add a k = omega arith

pub clean_buffers-IsOutput :
    (n : ℕ) (stream : OutputReliableStream)
    → IsOutput stream
    → IsOutput (clean_buffers n stream) × SameButCleaned stream (clean_buffers n stream)
unfolding clean_buffers
clean_buffers-IsOutput zero stream v =
    (v, record { history = refl; offset = refl; last_written = refl; last_sent = refl })
clean_buffers-IsOutput (suc n) stream v =
    let (v', s) = clean_buffers-IsOutput n (clean_one stream) (clean_one-IsOutput v) in
    (
      v',
      record {
        history = s.history ∙ history-clean_one stream;
        offset = s.offset;
        last_written = s.last_written;
        last_sent = s.last_sent;
      },
    )

pub last_acknown-clean_buffers :
    (n : ℕ) (stream : OutputReliableStream)
    → IsSeqNum stream.last_acknown
    → (clean_buffers n stream).last_acknown ≡ seq_num_add stream.last_acknown n
unfolding clean_buffers
last_acknown-clean_buffers zero stream v = unfold seq_num_add in omega arith
last_acknown-clean_buffers (suc n) stream v =
    last_acknown-clean_buffers n (clean_one stream) (add-IsSeqNum stream.last_acknown 1)
    ∙ add_add stream.last_acknown n

-- A slot that is freed once stays free.
free_stays :
    (n : ℕ) (stream : OutputReliableStream) (m : ℕ)
    → IsOutput stream
    → get_reliable_buffer_size stream.base m ≡ stream.offset
    → get_reliable_buffer_size (clean_buffers n stream).base m ≡ stream.offset
unfolding clean_buffers
free_stays zero stream m v h = h
free_stays (suc n) stream m v h = free_stays n (clean_one stream) m (clean_one-IsOutput v) (
    get_size-set_size v.block (seq_num_add stream.last_acknown 1) stream.offset m
      (omega (arith, v.offset_fits))
    ∙ ground (arith, h))

freed :
    (n : ℕ) (stream : OutputReliableStream) (m k : ℕ)
    → IsOutput stream
    → 1 ≤ k
    → k ≤ n
    → slot stream.base (seq_num_add stream.last_acknown k) ≡ slot stream.base m
    → get_reliable_buffer_size (clean_buffers n stream).base m ≡ stream.offset
unfolding clean_buffers
freed zero stream m k v h1 hn e = absurd (omega arith)
freed (suc n) stream m zero v h1 hn e = absurd (omega arith)
freed (suc n) stream m (suc zero) v h1 hn e =
    free_stays n (clean_one stream) m (clean_one-IsOutput v) (
      get_size-set_size v.block (seq_num_add stream.last_acknown 1) stream.offset m
        (omega (arith, v.offset_fits))
      ∙ ground arith)
freed (suc n) stream m (suc (suc k)) v h1 hn e =
    freed n (clean_one stream) m (suc k) (clean_one-IsOutput v) (omega arith) (omega arith) (
      slot-clean_one stream _
      ∙ ap (slot stream.base) (add_add stream.last_acknown (suc k))
      ∙ e
      ∙ sym (slot-clean_one stream m))

kept :
    (n : ℕ) (stream : OutputReliableStream) (m : ℕ)
    → IsOutput stream
    → ¬ Cleaned stream n m
    → get_reliable_buffer_size (clean_buffers n stream).base m
      ≡ get_reliable_buffer_size stream.base m
unfolding clean_buffers
kept zero stream m v h = refl
kept (suc n) stream m v h =
    kept n (clean_one stream) m (clean_one-IsOutput v) (λ (k, k1, kn, e). h (
      suc k,
      omega arith,
      omega arith,
      ap (slot stream.base) (sym (add_add stream.last_acknown k))
          ∙ sym (slot-clean_one stream _)
          ∙ e
          ∙ slot-clean_one stream m,
    ))
    ∙ get_size-set_size v.block (seq_num_add stream.last_acknown 1) stream.offset m
        (omega (arith, v.offset_fits))
    ∙ ground (arith, ne)
  where
    ne : slot stream.base (seq_num_add stream.last_acknown 1) ≢ slot stream.base m
    ne e = h (1, omega arith, omega arith, e)

size-clean_one : (stream : OutputReliableStream) → (clean_one stream).base.size ≡ stream.base.size
unfolding set_reliable_buffer_size
size-clean_one stream = refl

size-clean_buffers :
    (n : ℕ) (stream : OutputReliableStream) → (clean_buffers n stream).base.size ≡ stream.base.size
unfolding clean_buffers
size-clean_buffers zero stream = refl
size-clean_buffers (suc n) stream = size-clean_buffers n (clean_one stream) ∙ size-clean_one stream

get_reliable_buffer-clean_one :
    (stream : OutputReliableStream) (m : ℕ)
    → get_reliable_buffer (clean_one stream).base m ≡ get_reliable_buffer stream.base m
unfolding set_reliable_buffer_size
get_reliable_buffer-clean_one stream m = refl

capacity-clean_one :
    (stream : OutputReliableStream)
    → get_reliable_buffer_capacity (clean_one stream).base
      ≡ get_reliable_buffer_capacity stream.base
unfolding set_reliable_buffer_size get_reliable_buffer_capacity
capacity-clean_one stream = refl

-- Freeing slots writes to no message.
messages_kept :
    (n : ℕ) (stream : OutputReliableStream) (m i : ℕ)
    → IsOutput stream
    → i < get_reliable_buffer_capacity stream.base
    → (clean_buffers n stream).base.buffer (get_reliable_buffer stream.base m + i)
      ≡ stream.base.buffer (get_reliable_buffer stream.base m + i)
unfolding clean_buffers
messages_kept zero stream m i v h = refl
messages_kept (suc n) stream m i v h =
    ap (λ k. (clean_buffers n (clean_one stream)).base.buffer (k + i))
      (sym (get_reliable_buffer-clean_one stream m))
    ∙ messages_kept n (clean_one stream) m i (clean_one-IsOutput v)
        (rw (capacity-clean_one stream) h)
    ∙ ap (λ k. (clean_one stream).base.buffer (k + i)) (get_reliable_buffer-clean_one stream m)
    ∙ message-set_size v.block (seq_num_add stream.last_acknown 1) stream.offset m i h

add_sub : (a b : ℕ) → IsSeqNum a → IsSeqNum b → seq_num_add a (seq_num_sub b a) ≡ b
unfolding seq_num_add seq_num_sub
add_sub a b ha hb = ground arith

sub-IsSeqNum : (a b : ℕ) → IsSeqNum (seq_num_sub a b)
unfolding seq_num_sub
sub-IsSeqNum a b = ground arith

-- How many numbers an ACKNACK acknowledges beyond the last acknowledged one, modulo 2 ^ 16.
abbrev pub newly_acked : OutputReliableStream → ℕ → ℕ
newly_acked stream first_unacked = seq_num_sub (seq_num_sub first_unacked 1) stream.last_acknown

-- What `uxr_process_acknack` leaves.
pub record Acked (stream : OutputReliableStream) (bitmap first_unacked : ℕ)
    (stream' : OutputReliableStream) : Type 0 where
  pub valid : IsOutput stream'
  pub same : SameButCleaned stream stream'
  pub last_acknown : stream'.last_acknown ≡ seq_num_sub first_unacked 1
  pub free :
      (m : ℕ)
      → Cleaned stream (newly_acked stream first_unacked) m
      → get_reliable_buffer_size stream'.base m ≡ stream.offset
  pub others :
      (m : ℕ)
      → ¬ Cleaned stream (newly_acked stream first_unacked) m
      → get_reliable_buffer_size stream'.base m ≡ get_reliable_buffer_size stream.base m
  pub size : stream'.base.size ≡ stream.base.size
  pub messages :
      (m i : ℕ)
      → i < get_reliable_buffer_capacity stream.base
      → stream'.base.buffer (get_reliable_buffer stream.base m + i)
        ≡ stream.base.buffer (get_reliable_buffer stream.base m + i)
  pub send_lost : (stream'.send_lost ≡ true) ↔ (0 < bitmap)
  pub tries : stream'.next_heartbeat_tries ≡ 0

-- Whatever the two numbers of the ACKNACK are, for a stream with a well-formed block and 16-bit numbers:
-- afterwards the number before the first unacknowledged one is the last acknowledged one, the slots of
-- the numbers up to it are free, the lengths of the other slots, the bytes of the messages in all slots,
-- the geometry of the block, what was written and what was sent are unchanged, and the mark for lost
-- messages is set exactly if the bitmap is not 0.
pub process_acknack-Acked :
    (stream : OutputReliableStream) (bitmap first_unacked : ℕ)
    → IsOutput stream
    → Acked stream bitmap first_unacked (process_acknack stream bitmap first_unacked)
unfolding process_acknack
process_acknack-Acked stream bitmap first_unacked v =
    let n = newly_acked stream first_unacked in
    let (v', s) = clean_buffers-IsOutput n stream v in
    record {
      valid = record {
        block = v'.block;
        offset_fits = v'.offset_fits;
        acknown = v'.acknown;
        sent = v'.sent;
        written = v'.written;
      };
      same = record {
        history = s.history;
        offset = s.offset;
        last_written = s.last_written;
        last_sent = s.last_sent;
      };
      last_acknown =
          last_acknown-clean_buffers n stream v.acknown
          ∙ add_sub stream.last_acknown (seq_num_sub first_unacked 1) v.acknown
              (sub-IsSeqNum first_unacked 1);
      free = λ m (k, k1, kn, e). freed n stream m k v k1 kn e;
      others = λ m h. kept n stream m v h;
      size = size-clean_buffers n stream;
      messages = λ m i h. messages_kept n stream m i v h;
      send_lost = ground arith;
      tries = refl;
    }
