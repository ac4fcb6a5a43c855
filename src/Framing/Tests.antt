-- ===== src/Framing/Tests.antt =====
-- Runs of the framing protocol, and its theorems at concrete inputs.
use micro_xrce_dds_client.Prelude.{
  ℕ, ◌<◌, ◌≡◌, refl, false, Option, none, some, List, [], ◌∷◌, ◌++◌, length, take, drop, replicate,
  arith, length-take, take-length-take, take-append-drop, ◌⊎◌,
}
use micro_xrce_dds_client.Prelude.Int.{ℤ, pos, ◌-ℤ◌}
use micro_xrce_dds_client.Framing.{FramingIo, IsValid, uninitialized}
use micro_xrce_dds_client.Framing.Crc.{update_crc}
use micro_xrce_dds_client.Framing.Octets.{get_next_octet, add_next_octet}
use micro_xrce_dds_client.Framing.Octets.Laws.{escape}
use micro_xrce_dds_client.Framing.Write.{
  start_frame, write_rounds, write_transport, write_octets, write_octets_if, flush_if,
  write_framed_msg,
}
use micro_xrce_dds_client.Framing.Write.Transport.{IsTransport, Progresses}
use micro_xrce_dds_client.Framing.Write.Frame.{
  frame, header, trailer, Delivered, Failed, write_framed_msg_lem, write_framed_msg-sends,
}
use micro_xrce_dds_client.Framing.Ring.{
  store, available, limit_size, fill, read_twice, read_transport,
}
use micro_xrce_dds_client.Framing.Ring.Fill.{
  IsSource, Filled, read_transport-Filled, read_transport-progress,
}
use micro_xrce_dds_client.Framing.Read.{
  read_framed_msg, rounds, round, read_uninitialized, read_src_addr, read_dst_addr, read_len_lsb,
  read_len_msb, read_payload, read_crc_lsb, read_crc_msb, refill, skip_to_begin, take_payload,
  restart_or_exit,
}

abbrev fresh : FramingIo
fresh = record {
  state = uninitialized;
  local_addr = 1;
  rb = replicate 42 0;
  rb_head = 0;
  rb_tail = 0;
  src_addr = 0;
  msg_len = 0;
  msg_pos = 0;
  msg_crc = 0;
  cmp_crc = 0;
  wb = replicate 42 0;
  wb_pos = 0;
}

-- A ring of one octet at its last place.
abbrev turned : FramingIo
turned = record fresh { rb_head = 0; rb_tail = 41 }

fresh-IsValid : IsValid fresh
fresh-IsValid = omega arith

turned-IsValid : IsValid turned
turned-IsValid = omega arith

-- A transport that remembers what it took, at most 7 bytes at a call.
abbrev wire : List ℕ → List ℕ → ℕ × List ℕ
wire w bytes = (length (take 7 bytes), w ++ take 7 bytes)

-- One that takes nothing.
abbrev broken : List ℕ → List ℕ → ℕ × List ℕ
broken w bytes = (0, w)

abbrev taken : List ℕ → List ℕ
taken w = w

wire-IsTransport : IsTransport wire taken
wire-IsTransport = record {
  bounded = λ w bytes. omega (arith, length-take 7 bytes);
  takes = λ w bytes. rw (take-length-take 7 bytes);
}

wire-Progresses : Progresses wire
wire-Progresses w bytes h = omega (arith, length-take 7 bytes)

-- Bytes to come, of which at most 3 are read at a call; the clock stands still.
abbrev line : List ℕ → ℕ → ℤ → List ℕ × List ℕ
line w size timeout = (take size w, drop size w)

abbrev still : List ℕ → ℕ × List ℕ
still w = (0, w)

line-IsSource : IsSource line still taken
line-IsSource = record {
  bounded = λ w size timeout. omega (arith, length-take size w);
  next = λ w size timeout. take-append-drop size w;
  clock = λ w. refl;
}

abbrev message : List ℕ
message = 0x7e ∷ 2 ∷ 0x7d ∷ 4 ∷ []

write_runs :
    write_framed_msg wire fresh [] (1 ∷ 2 ∷ []) 5
    ≡ some (
      2,
      record fresh { wb = 0x7e ∷ 1 ∷ 5 ∷ 2 ∷ 0 ∷ 1 ∷ 2 ∷ 0x80 ∷ 0x51 ∷ replicate 33 0 },
      0x7e ∷ 1 ∷ 5 ∷ 2 ∷ 0 ∷ 1 ∷ 2 ∷ 0x80 ∷ 0x51 ∷ [],
    )
unfolding write_framed_msg write_octets write_octets_if flush_if write_transport write_rounds
    start_frame add_next_octet update_crc
write_runs = refl

read_back : Option (ℕ × List ℕ × ℕ)
read_back =
    elim (read_framed_msg line still 100 10 (record {
      io = fresh;
      transport = frame 9 1 message;
      timeout = pos 10;
      buf = replicate 10 0;
      remote_addr = 0;
      rv = 0;
      exit_cond = false;
    })) [ none ↦ none | some r ↦ some (r.rv, r.buf, r.remote_addr) ]

read_runs : read_back ≡ some (4, 0x7e ∷ 2 ∷ 0x7d ∷ 4 ∷ replicate 6 0, 9)
unfolding read_back read_framed_msg rounds round read_uninitialized read_src_addr read_dst_addr
    read_len_lsb read_len_msb read_payload read_crc_lsb read_crc_msb refill restart_or_exit
    skip_to_begin take_payload get_next_octet read_transport read_twice fill store available
    limit_size ◌-ℤ◌ update_crc frame header trailer escape
read_runs = refl

write_framed_msg_lem_example :
    Delivered wire taken wire-IsTransport
      ((9 ∷ []) ++ frame 1 5 message)
      4
      (write_framed_msg wire fresh (9 ∷ []) message 5)
    ⊎ Failed wire taken wire-IsTransport
        ((9 ∷ []) ++ frame 1 5 message)
        (write_framed_msg wire fresh (9 ∷ []) message 5)
write_framed_msg_lem_example =
    write_framed_msg_lem wire taken wire-IsTransport fresh (9 ∷ []) message 5 fresh-IsValid

write_framed_msg-sends_example :
    Delivered wire taken wire-IsTransport
      (frame 1 5 message)
      4
      (write_framed_msg wire fresh [] message 5)
write_framed_msg-sends_example =
    write_framed_msg-sends wire taken wire-IsTransport fresh [] message 5 fresh-IsValid
      wire-Progresses (omega arith)

read_transport-Filled_example :
    let (n, io', w', _) = read_transport line still turned message (pos 10) 5 in
    Filled line still taken line-IsSource turned message n io' w'
read_transport-Filled_example =
    read_transport-Filled line still taken line-IsSource turned message (pos 10) 5 turned-IsValid

read_transport-progress_example : 0 < (read_transport line still turned message (pos 10) 5).0
read_transport-progress_example =
    read_transport-progress line still taken line-IsSource turned message (pos 10) 5 turned-IsValid
      (λ w size timeout h more. omega (arith, length-take size w)) (omega arith) (omega arith)
      (omega arith)
