-- ===== src/Session/Flush/Drained.antt =====
-- Flashing the reliable output streams ends, keeps their windows, and leaves nothing to send.
use micro_xrce_dds_client.Prelude.{
  ℕ, zero, suc, ◌+◌, ◌^◌, ◌≤◌, ◌<◌, ◌≡◌, refl, true, false, some, List, [], ◌∷◌, All, ltb,
  Bool-cases, inl, inr, arith,
}
use micro_xrce_dds_client.Prelude.Memory.{Memory, read_bytes}
use micro_xrce_dds_client.StreamId.{reliable_stream, output_stream, stream_id}
use micro_xrce_dds_client.SeqNum.{seq_num_sub}
use micro_xrce_dds_client.Stream.OutputReliable.{
  OutputReliableStream, prepare_next_reliable_buffer_to_send, cancel_reliable_buffer_to_send,
}
use micro_xrce_dds_client.Stream.OutputReliable.Flow.{IsFlow, in_flight, prepare_next-IsFlow}
use micro_xrce_dds_client.Session.Flush.{
  Communication, stamp, send_messages, flash_reliable_streams,
}
use micro_xrce_dds_client.Session.Info.{SessionInfo}
use micro_xrce_dds_client.Xrce.Cdr.{MicroCdr}

-- A new content of the block changes nothing else.
restored-IsFlow :
    (stream : OutputReliableStream) (m : Memory)
    → IsFlow stream
    → IsFlow (record stream { base = record stream.base { buffer = m } })
restored-IsFlow stream m f = record {
  output = record {
    block = record {
      some_history = f.output.block.some_history;
      history_fits = f.output.block.history_fits;
      some_room = f.output.block.some_room;
      size_fits = f.output.block.size_fits;
    };
    offset_fits = f.output.offset_fits;
    acknown = f.output.acknown;
    sent = f.output.sent;
    written = f.output.written;
  };
  window = f.window;
}

-- Taking a message back leaves one less on the way.
cancel-IsFlow :
    (stream : OutputReliableStream) (n : ℕ)
    → IsFlow stream
    → stream.last_sent ≡ n
    → 0 < in_flight stream
    → IsFlow (cancel_reliable_buffer_to_send stream n)
unfolding cancel_reliable_buffer_to_send
cancel-IsFlow stream n f e pos = record {
  output = record {
    block = f.output.block;
    offset_fits = f.output.offset_fits;
    acknown = f.output.acknown;
    sent = unfold seq_num_sub in ground arith;
    written = ground (arith, e, f.output.written, f.output.sent);
  };
  window = unfold seq_num_sub in ground (arith, e, pos, f.window, f.output.sent, f.output.acknown);
}

prepare_next-history :
    (stream : OutputReliableStream)
    → (prepare_next_reliable_buffer_to_send stream).4.base.history ≡ stream.base.history
unfolding prepare_next_reliable_buffer_to_send
prepare_next-history stream = elim (Bool-cases (prepare_next_reliable_buffer_to_send stream).0) [
  | inl e ↦ rw e
  | inr e ↦ rw e
]

-- Nothing is left that the stream would send.
abbrev pub Drained : OutputReliableStream → Type 0
Drained stream = (prepare_next_reliable_buffer_to_send stream).0 ≡ false

-- The instance takes every message.
abbrev pub Works : {W : Type 0} → Communication W → Type 0
Works {W} comm = (w : W) (bytes : List ℕ) → (comm.send_msg w bytes).0 ≡ true

-- What holds of the streams in use, counted from `i`.
abbrev pub InUse : (OutputReliableStream → Type 0) → ℕ → ℕ → List OutputReliableStream → Type 0
InUse P size i [] = Unit {0}
InUse P size i (stream ∷ streams) = (i < size → P stream) × InUse P size (i + 1) streams

InUse-behind :
    (P : OutputReliableStream → Type 0) (size i : ℕ) (streams : List OutputReliableStream)
    → size ≤ i
    → InUse P size i streams
InUse-behind P size i [] h = tt
InUse-behind P size i (stream ∷ streams) h = (
  λ less. absurd (omega (arith, h, less)),
  InUse-behind P size (i + 1) streams (omega (arith, h)),
)

module _ (B : Type 0) ⦃cdr : MicroCdr B⦄ {W : Type 0} (comm : Communication W)
    (info : SessionInfo) where
  send_messages_lem :
      (fuel raw : ℕ) (stream : OutputReliableStream) (w : W)
      → IsFlow stream
      → stream.base.history < fuel + in_flight stream
      → (stream' : OutputReliableStream) × (w' : W) × (send_messages B comm info fuel raw stream w
          ≡ some (stream', w'))
        × IsFlow stream'
        × (Works comm → Drained stream')
  unfolding send_messages
  send_messages_lem zero raw stream w f h = absurd (omega (arith, f.window))
  send_messages_lem (suc fuel) raw stream w f h =
      let (data_to_send, buffer, length, n, stream') =
        prepare_next_reliable_buffer_to_send stream in
      let (f', _, taken, kept, _) = prepare_next-IsFlow stream f in
      let m = stamp B info raw n stream'.base.buffer buffer in
      let stamped = record stream' { base = record stream'.base { buffer = m } } in
      let sent = comm.send_msg w (read_bytes m buffer length) in
      elim (Bool-cases data_to_send) [
        | inr e ↦ (stream, w, rw e, f, λ _. e)
        | inl e ↦
            let more = (taken e).1 in
            elim (Bool-cases sent.0) [
              | inl ok ↦
                  let (s, w', run, valid, drained) =
                    send_messages_lem fuel raw stamped sent.1 (restored-IsFlow stream' m f')
                      (omega (arith, more, h, prepare_next-history stream)) in
                  (s, w', rw (e, ok, run), valid, drained)
              | inr failed ↦ (
                cancel_reliable_buffer_to_send stamped n,
                sent.1,
                rw (e, failed),
                cancel-IsFlow stamped n (restored-IsFlow stream' m f') (taken e).0
                    (omega (arith, (taken e).1)),
                λ works. cc (works w (read_bytes m buffer length)),
              )
            ]
      ]

  -- With 2^16 rounds for each stream, flashing reliable output streams that have at most `history`
  -- messages on the way ends, and keeps that bound, whatever the instance does. If the instance takes
  -- every message, no stream in use has a message left that it would send.
  pub flash_reliable_streams-drains :
      (fuel size i : ℕ) (streams : List OutputReliableStream) (w : W)
      → 2 ^ 16 ≤ fuel
      → All IsFlow streams
      → (streams' : List OutputReliableStream) × (w' : W) × (flash_reliable_streams B comm info fuel
            size i streams w
          ≡ some (streams', w'))
        × All IsFlow streams'
        × (Works comm → InUse Drained size i streams')
  unfolding flash_reliable_streams
  flash_reliable_streams-drains fuel size i [] w h flows = ([], w, refl, tt, λ _. tt)
  flash_reliable_streams-drains fuel size i (stream ∷ streams) w h (f, flows) =
      elim (Bool-cases (ltb i size)) [
        | inr e ↦ (
          stream ∷ streams,
          w,
          rw e,
          (f, flows),
          λ _. InUse-behind Drained size i (stream ∷ streams) (ground arith),
        )
        | inl e ↦
            let (stream', w1, run, valid, drained) =
              send_messages_lem fuel (stream_id 0 i reliable_stream output_stream).raw stream w f
                (omega (arith, h, f.output.block.history_fits)) in
            let (streams', w2, runs, valids, all) =
              flash_reliable_streams-drains fuel size (i + 1) streams w1 h flows in
            (
              stream' ∷ streams',
              w2,
              rw (e, run, runs),
              (valid, valids),
              λ works. (λ _. drained works, all works),
            )
      ]
