-- ===== src/Tcp/Tests.antt =====
-- Runs of the TCP transport, and its theorems at concrete connections.
use micro_xrce_dds_client.Prelude.{
  ℕ, zero, suc, All, ◌%◌, ◌^◌, ◌<◌, ◌≡◌, refl, arith, true, List, [], ◌∷◌, ◌++◌, length, get_or,
  take, drop, min, length-take, take-length-take, take-append-drop,
}
use micro_xrce_dds_client.Prelude.Int.{pos}
use micro_xrce_dds_client.Prelude.Memory.{memcpy, read_bytes}
use micro_xrce_dds_client.Tcp.{TcpPlatform, TcpTransport, buffer_empty, message_incomplete}
use micro_xrce_dds_client.Tcp.Send.{msg_size_buf, send_size, send_tcp_msg, max_write_tcp_attemps}
use micro_xrce_dds_client.Tcp.Send.Frame.{IsTcpSink}
use micro_xrce_dds_client.Tcp.Send.Progress.{Takes, send_tcp_msg-sends, send_size-doubled}
use micro_xrce_dds_client.Tcp.Receive.{
  read_tcp_data, read_state, read_empty, read_size_incomplete, read_size_read,
  read_message_incomplete, Outcome, returned, overrun, out_of_rounds,
}
use micro_xrce_dds_client.Tcp.Receive.Conserved.{IsTcpSource}
use micro_xrce_dds_client.Tcp.Receive.Loop.{Read, read_tcp_data_lem}
use micro_xrce_dds_client.Tcp.RoundTrip.{Arrived, read_tcp_data-send_tcp_msg}

-- The bytes that were taken, and those to come. At most `chunk` of them pass at a call.
abbrev Wire : Type 0
Wire = List ℕ × List ℕ

abbrev wire : ℕ → TcpPlatform Wire
wire chunk = record {
  write_data =
      λ (taken, coming) bytes. (length (take chunk bytes), 0, (taken ++ take chunk bytes, coming));
  read_data = λ (taken, coming) n timeout.
      (take (min chunk n) coming, 0, (taken, drop (min chunk n) coming));
  disconnect = λ w. w;
  uxr_millis = λ w. (0, w);
}

abbrev sent : Wire → List ℕ
sent (taken, coming) = taken

wire-IsTcpSink : (chunk : ℕ) → IsTcpSink (wire chunk) sent
wire-IsTcpSink chunk = record {
  bounded = λ w bytes. omega (arith, length-take chunk bytes);
  takes = λ w bytes. rw (take-length-take chunk bytes) refl;
  closed = λ w. refl;
}

wire-Takes : (chunk : ℕ) → Takes (wire chunk) chunk
wire-Takes chunk w bytes = omega (arith, length-take chunk bytes)

abbrev empty : TcpTransport
empty = record { buffer = λ i. 0; position = 0; state = buffer_empty; msg_size = 0; error_code = 0 }

abbrev message : List ℕ
message = 1 ∷ 2 ∷ 3 ∷ 4 ∷ 5 ∷ []

-- A message of five bytes of which two were read.
abbrev begun : TcpTransport
begun = record empty { buffer = λ i. i; position = 2; state = message_incomplete; msg_size = 5 }

send_tcp_msg-sends_example :
    let (rv, _, w') = send_tcp_msg (wire 3) empty ([], []) message in
    (rv ≡ true) × (sent w' ≡ [] ++ (msg_size_buf 5 ++ message))
send_tcp_msg-sends_example =
    send_tcp_msg-sends (wire 3) sent (wire-IsTcpSink 3) 3 empty ([], []) message (omega arith)
      (wire-Takes 3) (omega arith) (omega arith) (omega arith)

send_size-doubled_example :
    let (size_sent, _, w') = send_size (wire 1) max_write_tcp_attemps 0x102 ([], []) 0 0 in
    (size_sent ≡ true) × (sent w' ≡ [] ++ (0x102 % 2 ^ 8 ∷ 0x102 % 2 ^ 8 ∷ []))
send_size-doubled_example =
    send_size-doubled (wire 1) sent (wire-IsTcpSink 1) 0x102 ([], []) 0 (λ w n. refl)

All-drop : (n : ℕ) (xs : List ℕ) → All (λ b. b < 256) xs → All (λ b. b < 256) (drop n xs)
All-drop zero xs h = h
All-drop (suc n) [] h = h
All-drop (suc n) (x ∷ xs) (hx, h) = All-drop n xs h

octet_at : (n i : ℕ) (xs : List ℕ) → All (λ b. b < 256) xs → get_or (take n xs) i 0 < 256
octet_at zero i xs h = omega arith
octet_at (suc n) i [] h = omega arith
octet_at (suc n) zero (x ∷ xs) (hx, h) = hx
octet_at (suc n) (suc i) (x ∷ xs) (hx, h) = octet_at n i xs h

-- A connection that hands over octets, at most `chunk` at a call.
abbrev Coming : Type 0
Coming = (xs : List ℕ) × All (λ b. b < 256) xs

abbrev line : ℕ → TcpPlatform Coming
line chunk = record {
  write_data = λ w bytes. (length bytes, 0, w);
  read_data = λ (xs, h) n timeout.
      (take (min chunk n) xs, 0, (drop (min chunk n) xs, All-drop (min chunk n) xs h));
  disconnect = λ w. w;
  uxr_millis = λ w. (0, w);
}

abbrev coming : Coming → List ℕ
coming (xs, h) = xs

line-IsTcpSource : (chunk : ℕ) → IsTcpSource (line chunk) coming
line-IsTcpSource chunk = record {
  bounded = λ (xs, h) n timeout. omega (arith, length-take (min chunk n) xs);
  octets = λ (xs, h) n timeout i. octet_at (min chunk n) i xs h;
  next = λ (xs, h) n timeout. take-append-drop (min chunk n) xs;
}

-- The last three bytes of the message begun, an empty message, and a byte of the next size.
abbrev rest_and_more : Coming
rest_and_more = (
  3 ∷ 4 ∷ 5 ∷ 0 ∷ 0 ∷ 7 ∷ [],
  (omega arith, (omega arith, (omega arith, (omega arith, (omega arith, (omega arith, tt)))))),
)

read_tcp_data_lem_example :
    Read (line 10) coming 8 (line-IsTcpSource 10) 7 begun rest_and_more (pos 10)
unfolding read_bytes
read_tcp_data_lem_example =
    read_tcp_data_lem (line 10) coming 8 (line-IsTcpSource 10) 7 begun rest_and_more (pos 10)
      (omega arith, omega arith) (omega arith, (omega arith, tt)) (omega arith)

-- A connection whose bytes have all arrived.
abbrev full_line : TcpPlatform Coming
full_line = record (line 0) {
  read_data = λ (xs, h) n timeout. (take n xs, 0, (drop n xs, All-drop n xs h));
}

full_line-IsTcpSource : IsTcpSource full_line coming
full_line-IsTcpSource = record {
  bounded = λ (xs, h) n timeout. omega (arith, length-take n xs);
  octets = λ (xs, h) n timeout i. octet_at n i xs h;
  next = λ (xs, h) n timeout. take-append-drop n xs;
}

full_line-Arrived : Arrived full_line coming
full_line-Arrived (xs, h) n timeout = omega (arith, length-take n xs)

-- The frame of a message of two bytes, and a byte behind it.
abbrev framed : Coming
framed = (
  2 ∷ 0 ∷ 8 ∷ 9 ∷ 7 ∷ [],
  (omega arith, (omega arith, (omega arith, (omega arith, (omega arith, tt))))),
)

read_tcp_data-send_tcp_msg_example :
    (t' : TcpTransport) × (w' : Coming) × (read_tcp_data full_line 8 3 empty framed (pos 10)
      ≡ returned (2, t', w'))
    × (read_bytes t'.buffer 0 2 ≡ 8 ∷ 9 ∷ [])
    × (coming w' ≡ 7 ∷ [])
    × (t'.state ≡ buffer_empty)
read_tcp_data-send_tcp_msg_example =
    read_tcp_data-send_tcp_msg full_line coming 8 full_line-IsTcpSource full_line-Arrived 0 empty
      framed (pos 10) (8 ∷ 9 ∷ []) (7 ∷ []) refl (omega arith) (omega arith) (omega arith) refl

-- A read that gets every message whole hands it over at once.
abbrev received : Outcome (ℕ × TcpTransport × Coming) → ℕ × List ℕ
received (returned (rv, t, w)) = (rv, read_bytes t.buffer 0 rv)
received _ = (0, [])

read_runs : received (read_tcp_data (line 10) 8 6 empty framed (pos 10)) ≡ (2, 8 ∷ 9 ∷ [])
unfolding read_tcp_data read_state read_empty read_size_read memcpy read_bytes
read_runs = refl

-- One byte at a time, the third call has the message.
piece : (fuel : ℕ) → Outcome (ℕ × TcpTransport × Coming) → Outcome (ℕ × TcpTransport × Coming)
piece fuel overrun = overrun
piece fuel out_of_rounds = out_of_rounds
piece fuel (returned (rv, t, w)) = read_tcp_data (line 1) 8 fuel t w (pos 10)

read_pieces_runs :
    received (piece 6 (read_tcp_data (line 1) 8 6 empty framed (pos 10))) ≡ (2, 8 ∷ 9 ∷ [])
unfolding piece read_tcp_data read_state read_empty read_size_incomplete read_size_read
    read_message_incomplete memcpy read_bytes
read_pieces_runs = refl

-- A message of two bytes for a buffer of one.
overrun_runs : read_tcp_data full_line 1 6 empty framed (pos 10) ≡ overrun
unfolding read_tcp_data read_state read_empty read_size_read
overrun_runs = refl
