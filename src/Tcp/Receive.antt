-- ===== src/Tcp/Receive.antt =====
-- read_tcp_data and recv_tcp_msg.
pub mod Conserved
pub mod Loop
use micro_xrce_dds_client.Prelude.{
  ℕ, zero, suc, ◌+◌, ◌-◌, ◌*◌, ◌%◌, ◌^◌, Bool, true, false, ◌&&◌, Option, none, some, List, length,
  get_or, ltb, ◌==◌, if◌then◌else◌, bit_or,
}
use micro_xrce_dds_client.Prelude.Int.{ℤ, pos, ◌-ℤ◌, ltz}
use micro_xrce_dds_client.Prelude.Memory.{memcpy}
use micro_xrce_dds_client.Tcp.{
  TcpPlatform, TcpTransport, TcpInputBufferState, buffer_empty, size_incomplete, size_read,
  message_incomplete, message_available,
}

-- How `read_tcp_data` ends: with its result, after a read that has stored bytes behind the buffer, where
-- C writes over `position`, `state` and `msg_size` and what follows is not modelled, or with the rounds
-- used up.
pub data Outcome (A : Type 0) : Type 0 where
  returned : A → Outcome A
  overrun out_of_rounds : Outcome A

module _ {W : Type 0} (platform : TcpPlatform W) where
  -- The four cases for a read without bytes: an error closes the connection.
  abbrev pub no_bytes : TcpTransport → ℕ → W → Bool × ℕ × TcpTransport × W
  no_bytes transport errcode w = (
    true,
    0,
    record transport { error_code = errcode },
    if ltb 0 errcode then platform.disconnect w else w,
  )

  -- The cases of the state machine: `exit_flag`, `rv`, the transport and the state of the platform.
  unfoldable pub read_empty : TcpTransport → W → ℤ → Bool × ℕ × TcpTransport × W
  read_empty transport w timeout =
      let (size_buf, errcode, w') = platform.read_data w 2 timeout in
      let start = record transport { position = 0 } in
      let size = bit_or (get_or size_buf 1 0 * 2 ^ 8) (get_or size_buf 0 0) in
      if ltb 0 (length size_buf)
      then (if length size_buf == 2
          then (
            false,
            0,
            (if size == 0
                then record start { msg_size = 0 }
                else record start { msg_size = size; state = size_read }),
            w',
          )
          else (
            false,
            0,
            record start { msg_size = get_or size_buf 0 0; state = size_incomplete },
            w',
          ))
      else no_bytes start errcode w'

  unfoldable pub read_size_incomplete : TcpTransport → W → ℤ → Bool × ℕ × TcpTransport × W
  read_size_incomplete transport w timeout =
      let (size_msb, errcode, w') = platform.read_data w 1 timeout in
      let size = bit_or (get_or size_msb 0 0 * 2 ^ 8) transport.msg_size in
      if ltb 0 (length size_msb)
      then (
        false,
        0,
        record transport { msg_size = size; state = if size == 0 then buffer_empty else size_read },
        w',
      )
      else no_bytes transport errcode w'

-- `mtu` is UXR_CONFIG_TCP_TRANSPORT_MTU. The size that was read is not compared with it: `none` is a read
-- that stores bytes behind the buffer.
module _ {W : Type 0} (platform : TcpPlatform W) (mtu : ℕ) where
  unfoldable pub read_size_read : TcpTransport → W → ℤ → Option (Bool × ℕ × TcpTransport × W)
  read_size_read transport w timeout =
      let (bytes, errcode, w') = platform.read_data w transport.msg_size timeout in
      let filled = record transport { buffer = memcpy transport.buffer 0 bytes } in
      let result =
        if ltb 0 (length bytes)
        then (if length bytes == transport.msg_size
            then (false, 0, record filled { state = message_available }, w')
            else (
              true,
              0,
              record filled { position = length bytes; state = message_incomplete },
              w',
            ))
        else no_bytes platform filled errcode w' in
      if ltb mtu (length bytes) then none else some result

  unfoldable pub read_message_incomplete :
      TcpTransport → W → ℤ → Option (Bool × ℕ × TcpTransport × W)
  read_message_incomplete transport w timeout =
      let (bytes, errcode, w') =
        platform.read_data w ((transport.msg_size + 2 ^ 64 - transport.position) % 2 ^ 64)
          timeout in
      let filled = record transport { buffer = memcpy transport.buffer transport.position bytes } in
      let position = (transport.position + length bytes) % 2 ^ 64 in
      let result =
        if ltb 0 (length bytes)
        then (if position == transport.msg_size
            then (false, 0, record filled { position = position; state = message_available }, w')
            else (true, 0, record filled { position = position }, w'))
        else no_bytes platform filled errcode w' in
      if ltb mtu (transport.position + length bytes) then none else some result

  unfoldable pub read_state : TcpTransport → W → ℤ → Option (Bool × ℕ × TcpTransport × W)
  read_state transport w timeout = elim transport.state [
    | buffer_empty ↦ some (read_empty platform transport w timeout)
    | size_incomplete ↦ some (read_size_incomplete platform transport w timeout)
    | size_read ↦ read_size_read transport w timeout
    | message_incomplete ↦ read_message_incomplete transport w timeout
    | message_available ↦
        some (true, transport.msg_size, record transport { state = buffer_empty }, w)
  ]

  -- The loop on `exit_flag`.
  unfoldable pub read_tcp_data : ℕ → TcpTransport → W → ℤ → Outcome (ℕ × TcpTransport × W)
  read_tcp_data zero transport w timeout = out_of_rounds
  read_tcp_data (suc fuel) transport w timeout = elim (read_state transport w timeout) [
    | none ↦ overrun
    | some (exit_flag, rv, transport', w') ↦
        let more = read_tcp_data fuel transport' w' timeout in
        if exit_flag then returned (rv, transport', w') else more
  ]

  -- The do-while loop: the message's length, 0 for none. The rounds bound both loops.
  unfoldable pub recv_tcp_msg : ℕ → ℕ → TcpTransport → W → ℤ → Outcome (ℕ × TcpTransport × W)
  recv_tcp_msg zero fuel transport w timeout = out_of_rounds
  recv_tcp_msg (suc rounds) fuel transport w timeout =
      let (time_init, w0) = platform.uxr_millis w in
      elim (read_tcp_data fuel transport w0 timeout) [
        | overrun ↦ overrun
        | out_of_rounds ↦ out_of_rounds
        | returned (bytes_read, transport', w1) ↦
            let (time_end, w2) = platform.uxr_millis w1 in
            let timeout' = timeout -ℤ (pos time_end -ℤ pos time_init) in
            let more = recv_tcp_msg rounds fuel transport' w2 timeout' in
            if bytes_read == 0 && ltz (pos 0) timeout'
            then more
            else returned (bytes_read, transport', w2)
      ]
