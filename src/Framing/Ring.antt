-- ===== src/Framing/Ring.antt =====
-- uxr_framing_read_transport: the ring `rb` is filled from the transport.
pub mod Fifo
pub mod Fill
use micro_xrce_dds_client.Prelude.{
  ℕ, zero, suc, ◌+◌, ◌-◌, ◌%◌, Bool, true, false, ◌&&◌, List, [], ◌∷◌, length, set, ltb, ◌==◌,
  if◌then◌else◌,
}
use micro_xrce_dds_client.Prelude.Int.{ℤ, pos, ◌-ℤ◌, ltz}
use micro_xrce_dds_client.Framing.{FramingIo, buffer_size}

-- The bytes that a callback writes into an array, from an index on.
unfoldable pub store : List ℕ → ℕ → List ℕ → List ℕ
store xs i [] = xs
store xs i (b ∷ bs) = store (set xs i b) (i + 1) bs

-- `av_len[0]` and `av_len[1]` as the ring allows them, with the ring's indices, which an empty ring
-- resets. The casts to a byte change nothing: the ring has 42 bytes.
unfoldable pub available : ℕ → ℕ → ℕ × ℕ × ℕ × ℕ
available head tail =
    if head == tail
    then (buffer_size - 1, 0, 0, 0)
    else if ltb tail head
    then (if ltb 0 tail
        then (buffer_size - head, tail - 1, head, tail)
        else (buffer_size - head - 1, 0, head, tail))
    else (tail - head - 1, 0, head, tail)

-- The limit on the reading size.
unfoldable pub limit_size : ℕ → ℕ → ℕ → ℕ × ℕ
limit_size max_size av0 av1 =
    if ltb max_size av0
    then (max_size % 256, 0)
    else if ltb max_size (av0 + av1)
    then (av0, (max_size - av0) % 256)
    else (av0, av1)

-- `W` is the state behind `cb_arg`, with the last `*errcode` and the clock. `read_cb` is given a size
-- and a timeout and returns the bytes that it has written into the buffer; `uxr_millis` reads the
-- clock.
module _ {W : Type 0} (read_cb : W → ℕ → ℤ → List ℕ × W) (uxr_millis : W → ℕ × W) where
  -- One read into the ring, at `rb_head`.
  unfoldable pub fill : FramingIo → W → ℕ → ℤ → ℕ × FramingIo × W
  fill io w size timeout =
      let (bytes, w') = read_cb w size timeout in
      (
        length bytes,
        record io {
          rb = store io.rb io.rb_head bytes;
          rb_head = (io.rb_head + length bytes) % buffer_size;
        },
        w',
      )

  -- The two reads: up to the end of the array, and on from its start if all of the first came.
  unfoldable pub read_twice : FramingIo → W → ℕ → ℕ → ℤ → ℕ × FramingIo × W
  read_twice io w av0 av1 timeout =
      let (read0, io0, w0) = fill io w av0 timeout in
      let (read1, io1, w1) = fill io0 w0 av1 (pos 0) in
      if ltb 0 av0
      then (if read0 == av0 && ltb 0 read0 && ltb 0 av1
          then (read0 + read1, io1, w1)
          else (read0, io0, w0))
      else (0, io, w)

  -- The result, the state, the transport, and the time that is left.
  unfoldable pub read_transport : FramingIo → W → ℤ → ℕ → ℕ × FramingIo × W × ℤ
  read_transport io w timeout max_size =
      let (time_init, w0) = uxr_millis w in
      let (free0, free1, head, tail) = available io.rb_head io.rb_tail in
      let (av0, av1) = limit_size max_size free0 free1 in
      let (read, io', w1) =
        read_twice (record io { rb_head = head; rb_tail = tail }) w0 av0 av1 timeout in
      let (now, w2) = uxr_millis w1 in
      let left = timeout -ℤ (pos now -ℤ pos time_init) in
      (read, io', w2, if ltz left (pos 0) then pos 0 else left)
