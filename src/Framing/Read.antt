-- ===== src/Framing/Read.antt =====
-- uxr_read_framed_msg: the state machine that takes frames out of the ring.
use micro_xrce_dds_client.Prelude.{
  ℕ, zero, suc, ◌+◌, ◌-◌, ◌*◌, ◌%◌, ◌^◌, Bool, true, not, ◌&&◌, Option, none, some, List, get_or,
  set, ltb, ◌==◌, if◌then◌else◌,
}
use micro_xrce_dds_client.Prelude.Int.{ℤ}
use micro_xrce_dds_client.Framing.{
  FramingIo, FramingInputState, uninitialized, reading_src_addr, reading_dst_addr, reading_len_lsb,
  reading_len_msb, reading_payload, reading_crc_lsb, reading_crc_msb, buffer_size,
  framing_begin_flag,
}
use micro_xrce_dds_client.Framing.Crc.{update_crc}
use micro_xrce_dds_client.Framing.Octets.{get_next_octet}
use micro_xrce_dds_client.Framing.Ring.{read_transport}

-- `while ((BEGIN != octet) && (rb_head != rb_tail))`: the last octet taken. Each round takes one of
-- at most 41 octets, so 42 rounds are enough; a run out of fuel has the ring unread.
unfoldable pub skip_to_begin : ℕ → ℕ → FramingIo → ℕ × FramingIo
skip_to_begin zero octet io = (octet, io)
skip_to_begin (suc fuel) octet io =
    let rest =
      skip_to_begin fuel (get_or io.rb io.rb_tail 0)
        (record io { rb_tail = (io.rb_tail + 1) % buffer_size }) in
    if not (octet == framing_begin_flag) && not (io.rb_head == io.rb_tail)
    then rest
    else (octet, io)

-- `while ((msg_pos < msg_len) && uxr_get_next_octet(...))`: the octet, the message buffer, the state.
unfoldable pub take_payload : ℕ → ℕ → List ℕ → FramingIo → ℕ × List ℕ × FramingIo
take_payload zero octet buf io = (octet, buf, io)
take_payload (suc fuel) octet buf io =
    let (got, next, io') = get_next_octet io in
    let rest =
      take_payload fuel next (set buf io.msg_pos next) (record io' {
        msg_pos = (io.msg_pos + 1) % 2 ^ 16;
        cmp_crc = update_crc io.cmp_crc next;
      }) in
    if ltb io.msg_pos io.msg_len then (if got then rest else (next, buf, io')) else (octet, buf, io)

-- What the loop of `uxr_read_framed_msg` works on: the framing state, the transport, `*timeout`, the
-- caller's buffer, `*remote_addr`, the result and the exit condition.
pub record Reading (W : Type 0) : Type 0 where
  pub io : FramingIo
  pub transport : W
  pub timeout : ℤ
  pub buf : List ℕ
  pub remote_addr : ℕ
  pub rv : ℕ
  pub exit_cond : Bool

module _ {W : Type 0} (read_cb : W → ℕ → ℤ → List ℕ × W) (uxr_millis : W → ℕ × W) where
  -- `else if (0 < uxr_framing_read_transport(...)) { } else ...`: `none_read` is the last branch.
  unfoldable pub refill : Reading W → FramingIo → ℕ → (Reading W → Reading W) → Reading W
  refill r io max_size none_read =
      let (read, io', w', timeout') =
        read_transport read_cb uxr_millis io r.transport r.timeout max_size in
      let r' = record r { io = io'; transport = w'; timeout = timeout' } in
      if ltb 0 read then r' else none_read r'

  -- The last branch of the states that read one octet: a begin flag starts a new frame.
  unfoldable pub restart_or_exit : ℕ → Reading W → Reading W
  restart_or_exit octet r =
      if octet == framing_begin_flag
      then record r { io = record (r.io) { state = reading_src_addr } }
      else record r { exit_cond = true }

  unfoldable pub read_src_addr : Reading W → Reading W
  read_src_addr r =
      let (got, octet, io') = get_next_octet r.io in
      let io = record io' { src_addr = octet } in
      if got
      then record r { io = record io { state = reading_dst_addr } }
      else refill r io 4 (λ r'.
        if r'.io.src_addr == framing_begin_flag then r' else record r' { exit_cond = true })

  unfoldable pub read_dst_addr : Reading W → Reading W
  read_dst_addr r =
      let (got, octet, io) = get_next_octet r.io in
      if got
      then record r {
        io = record io {
          state = if octet == io.local_addr then reading_len_lsb else uninitialized;
        };
      }
      else refill r io 3 (restart_or_exit octet)

  unfoldable pub read_len_lsb : Reading W → Reading W
  read_len_lsb r =
      let (got, octet, io) = get_next_octet r.io in
      if got
      then record r { io = record io { msg_len = octet; state = reading_len_msb } }
      else refill r io 2 (restart_or_exit octet)

  -- `len` is the size of the caller's buffer.
  unfoldable pub read_len_msb : ℕ → Reading W → Reading W
  read_len_msb len r =
      let (got, octet, io) = get_next_octet r.io in
      let msg_len = (io.msg_len + octet * 2 ^ 8) % 2 ^ 16 in
      let io' = record io { msg_len = msg_len; msg_pos = 0; cmp_crc = 0 } in
      if got
      then (if ltb len msg_len
          then record r { io = record io' { state = uninitialized }; exit_cond = true }
          else record r { io = record io' { state = reading_payload } })
      else refill r io 1 (restart_or_exit octet)

  unfoldable pub read_payload : Reading W → Reading W
  read_payload r =
      let (octet, buf', io) = take_payload buffer_size 0 r.buf r.io in
      let r' = record r { io = io; buf = buf' } in
      if io.msg_pos == io.msg_len
      then record r' { io = record io { state = reading_crc_lsb } }
      else if octet == framing_begin_flag
      then record r' { io = record io { state = reading_src_addr } }
      else refill r' io (io.msg_len - io.msg_pos + 2) (λ r''. record r'' { exit_cond = true })

  unfoldable pub read_crc_lsb : Reading W → Reading W
  read_crc_lsb r =
      let (got, octet, io) = get_next_octet r.io in
      if got
      then record r { io = record io { msg_crc = octet; state = reading_crc_msb } }
      else refill r io 2 (restart_or_exit octet)

  unfoldable pub read_crc_msb : Reading W → Reading W
  read_crc_msb r =
      let (got, octet, io) = get_next_octet r.io in
      let msg_crc = (io.msg_crc + octet * 2 ^ 8) % 2 ^ 16 in
      let done = record r {
        io = record io { msg_crc = msg_crc; state = uninitialized };
        exit_cond = true;
      } in
      if got
      then (if io.cmp_crc == msg_crc
          then record done { remote_addr = io.src_addr; rv = io.msg_len }
          else done)
      else refill r io 1 (restart_or_exit octet)

  unfoldable pub read_uninitialized : Reading W → Reading W
  read_uninitialized r =
      let (octet, io) = skip_to_begin buffer_size 0 r.io in
      if octet == framing_begin_flag
      then record r { io = record io { state = reading_src_addr } }
      else record r { io = io; exit_cond = true }

  -- One round of `while (!exit_cond)`.
  unfoldable pub round : ℕ → FramingInputState → Reading W → Reading W
  round len uninitialized r = read_uninitialized r
  round len reading_src_addr r = read_src_addr r
  round len reading_dst_addr r = read_dst_addr r
  round len reading_len_lsb r = read_len_lsb r
  round len reading_len_msb r = read_len_msb len r
  round len reading_payload r = read_payload r
  round len reading_crc_lsb r = read_crc_lsb r
  round len reading_crc_msb r = read_crc_msb r

  -- The loop, with a bound on its rounds: a transport may deliver bytes for ever. `none`: used up.
  unfoldable pub rounds : ℕ → ℕ → Reading W → Option (Reading W)
  rounds zero len r = if r.exit_cond then some r else none
  rounds (suc fuel) len r =
      let rest = rounds fuel len (round len r.io.state r) in if r.exit_cond then some r else rest

  -- `r` holds what the caller passes, with `rv` 0 and the exit condition false.
  unfoldable pub read_framed_msg : ℕ → ℕ → Reading W → Option (Reading W)
  read_framed_msg fuel len r =
      let (_, io', w', timeout') = read_transport read_cb uxr_millis r.io r.transport r.timeout 5 in
      let r' =
        if r.io.rb_head == r.io.rb_tail
        then record r { io = io'; transport = w'; timeout = timeout' }
        else r in
      let loop = rounds fuel len r' in if r'.io.rb_tail == r'.io.rb_head then some r' else loop
