-- ===== src/Framing/Ring/Fill.antt =====
-- uxr_framing_read_transport moves bytes from the transport to the ring, and loses none.
use micro_xrce_dds_client.Prelude.{
  ℕ, ◌+◌, ◌≤◌, ◌<◌, ◌≡◌, refl, ap, ◌∙◌, List, ◌++◌, length, arith, append_assoc, ◌&&◌, Bool-cases,
  inl, inr, ltb, ◌==◌,
}
use mathlib.Core.Path.{ap₂}
use micro_xrce_dds_client.Prelude.Int.{ℤ, pos}
use micro_xrce_dds_client.Framing.{FramingIo, IsValid, buffer_size}
use micro_xrce_dds_client.Framing.Ring.{
  store, available, limit_size, fill, read_twice, read_transport,
}
use micro_xrce_dds_client.Framing.Ring.Fifo.{window, count, contents, length-store, window-store}

-- What is assumed of the source of bytes: `feed` are the bytes still to come. A read returns the next
-- of them, at most as many as asked for, and reading the clock takes none.
pub record IsSource {W : Type 0} (read_cb : W → ℕ → ℤ → List ℕ × W) (uxr_millis : W → ℕ × W)
    (feed : W → List ℕ) : Type 0 where
  pub bounded : (w : W) (size : ℕ) (timeout : ℤ) → length (read_cb w size timeout).0 ≤ size
  pub next :
      (w : W) (size : ℕ) (timeout : ℤ)
      → (read_cb w size timeout).0 ++ feed (read_cb w size timeout).1 ≡ feed w
  pub clock : (w : W) → feed (uxr_millis w).1 ≡ feed w

-- The new state differs from the old one in the ring only.
pub record SameButRing (io io' : FramingIo) : Type 0 where
  pub state : io'.state ≡ io.state
  pub local_addr : io'.local_addr ≡ io.local_addr
  pub src_addr : io'.src_addr ≡ io.src_addr
  pub msg_len : io'.msg_len ≡ io.msg_len
  pub msg_pos : io'.msg_pos ≡ io.msg_pos
  pub msg_crc : io'.msg_crc ≡ io.msg_crc
  pub cmp_crc : io'.cmp_crc ≡ io.cmp_crc
  pub wb : io'.wb ≡ io.wb
  pub wb_pos : io'.wb_pos ≡ io.wb_pos

module _ {W : Type 0} (read_cb : W → ℕ → ℤ → List ℕ × W) (uxr_millis : W → ℕ × W)
    (feed : W → List ℕ) (s : IsSource read_cb uxr_millis feed) where
  -- While bytes are to come, a read of a positive size returns some.
  abbrev pub Ready : Type 0
  Ready =
      (w : W) (size : ℕ) (timeout : ℤ)
      → 0 < size
      → 0 < length (feed w)
      → 0 < length (read_cb w size timeout).0

  fill-contents :
      (io : FramingIo) (w : W) (size : ℕ) (timeout : ℤ)
      → IsValid io
      → io.rb_head + size ≤ buffer_size
      → count io + size < buffer_size
      → let (n, io', w') = fill read_cb uxr_millis io w size timeout in
        IsValid io'
        × (contents io' ≡ contents io ++ (read_cb w size timeout).0)
        × (count io' ≡ count io + n)
        × (n ≤ size)
  unfolding fill
  fill-contents io w size timeout v hs hc =
      let bytes = (read_cb w size timeout).0 in
      let bound = s.bounded w size timeout in
      let here : count (fill read_cb uxr_millis io w size timeout).1 ≡ count io + length bytes =
        omega (arith, bound, v) in
      (
        omega (arith, v, length-store io.rb io.rb_head bytes),
        ap (λ (k : ℕ). window (store io.rb io.rb_head bytes) io.rb_tail k) here
            ∙ window-store bytes io.rb (count io) io.rb_tail io.rb_head v.rb_len v.tail_in
                (omega (arith, bound)) (omega (arith, v)) (omega (arith, bound)),
        here,
        bound,
      )

  -- Bytes have moved from the source to the ring, and their number is `n`.
  pub record Filled (io : FramingIo) (w : W) (n : ℕ) (io' : FramingIo) (w' : W) : Type 0 where
    pub valid : IsValid io'
    pub same : SameButRing io io'
    pub stream : contents io' ++ feed w' ≡ contents io ++ feed w
    pub counted : count io' ≡ count io + n

  fill-Filled :
      (io : FramingIo) (w : W) (size : ℕ) (timeout : ℤ)
      → IsValid io
      → io.rb_head + size ≤ buffer_size
      → count io + size < buffer_size
      → let (n, io', w') = fill read_cb uxr_millis io w size timeout in Filled io w n io' w'
  unfolding fill
  fill-Filled io w size timeout v hs hc =
      let (valid, c, k, _) = fill-contents io w size timeout v hs hc in
      record {
        valid = valid;
        same = record {
          state = refl;
          local_addr = refl;
          src_addr = refl;
          msg_len = refl;
          msg_pos = refl;
          msg_crc = refl;
          cmp_crc = refl;
          wb = refl;
          wb_pos = refl;
        };
        stream =
            ap (λ xs. xs ++ feed (read_cb w size timeout).1) c
            ∙ append_assoc (contents io) (read_cb w size timeout).0
                (feed (read_cb w size timeout).1)
            ∙ ap (λ xs. contents io ++ xs) (s.next w size timeout);
        counted = k;
      }

  Filled-trans :
      {io io1 io2 : FramingIo} {w w1 w2 : W} {n m : ℕ}
      → Filled io w n io1 w1
      → Filled io1 w1 m io2 w2
      → Filled io w (n + m) io2 w2
  Filled-trans f g = record {
    valid = g.valid;
    same = record {
      state = g.same.state ∙ f.same.state;
      local_addr = g.same.local_addr ∙ f.same.local_addr;
      src_addr = g.same.src_addr ∙ f.same.src_addr;
      msg_len = g.same.msg_len ∙ f.same.msg_len;
      msg_pos = g.same.msg_pos ∙ f.same.msg_pos;
      msg_crc = g.same.msg_crc ∙ f.same.msg_crc;
      cmp_crc = g.same.cmp_crc ∙ f.same.cmp_crc;
      wb = g.same.wb ∙ f.same.wb;
      wb_pos = g.same.wb_pos ∙ f.same.wb_pos;
    };
    stream = g.stream ∙ f.stream;
    counted = omega (arith, f.counted, g.counted);
  }

  Filled-none : {io : FramingIo} {w : W} → IsValid io → Filled io w 0 io w
  Filled-none v = record {
    valid = v;
    same = record {
      state = refl;
      local_addr = refl;
      src_addr = refl;
      msg_len = refl;
      msg_pos = refl;
      msg_crc = refl;
      cmp_crc = refl;
      wb = refl;
      wb_pos = refl;
    };
    stream = refl;
    counted = omega arith;
  }

  read_twice-Filled :
      (io : FramingIo) (w : W) (av0 av1 : ℕ) (timeout : ℤ)
      → IsValid io
      → io.rb_head + av0 ≤ buffer_size
      → count io + av0 + av1 < buffer_size
      → (0 < av1 → io.rb_head + av0 ≡ buffer_size)
      → let (n, io', w') = read_twice read_cb uxr_millis io w av0 av1 timeout in
        Filled io w n io' w'
  unfolding read_twice fill
  read_twice-Filled io w av0 av1 timeout v h0 hc h1 =
      let (n0, io0, w0) = fill read_cb uxr_millis io w av0 timeout in
      let f0 : Filled io w n0 io0 w0 = fill-Filled io w av0 timeout v h0 (omega arith) in
      elim (Bool-cases (ltb 0 av0)) [
        | inr no_size ↦ rw no_size (Filled-none v)
        | inl some_size ↦ elim (Bool-cases (n0 == av0 && ltb 0 n0 && ltb 0 av1)) [
          | inr one_read ↦ rw (some_size, one_read) f0
          | inl two_reads ↦
              rw (some_size, two_reads)
                (Filled-trans f0 (
                  fill-Filled io0 w0 av1 (pos 0) f0.valid (ground (arith, h1))
                    (ground (arith, f0.counted))))
        ]
      ]

  -- The sizes that are asked for fit the free part of the ring, and the reset of an empty ring's
  -- indices changes nothing of what it holds.
  sizes_fit :
      (io : FramingIo) (max_size : ℕ)
      → IsValid io
      → let (free0, free1, head, tail) = available io.rb_head io.rb_tail in
        let (av0, av1) = limit_size max_size free0 free1 in
        let io1 = record io { rb_head = head; rb_tail = tail } in
        IsValid io1
        × (contents io1 ≡ contents io)
        × (count io1 ≡ count io)
        × (head + av0 ≤ buffer_size)
        × (count io1 + av0 + av1 < buffer_size)
        × (0 < av1 → head + av0 ≡ buffer_size)
        × (0 < max_size → count io + 1 < buffer_size → 0 < av0)
  unfolding available limit_size
  sizes_fit io max_size v = ground arith

  module _ (io : FramingIo) (w : W) (timeout : ℤ) (max_size : ℕ) (v : IsValid io) where
    -- For every position of the ring, the two-part read included, and every limit on the size: a
    -- read keeps the ring valid, moves bytes from the front of the source to the back of the ring,
    -- loses, repeats and reorders none, returns their number, and changes nothing but the ring.
    pub read_transport-Filled :
        let (n, io', w', _) = read_transport read_cb uxr_millis io w timeout max_size in
        Filled io w n io' w'
    unfolding read_transport
    read_transport-Filled =
        let (free0, free1, head, tail) = available io.rb_head io.rb_tail in
        let (av0, av1) = limit_size max_size free0 free1 in
        let io1 : FramingIo = record io { rb_head = head; rb_tail = tail } in
        let w0 : W = (uxr_millis w).1 in
        let (v1, same_contents, same_count, h0, hc, h1, _) = sizes_fit io max_size v in
        let (n, io', w1) = read_twice read_cb uxr_millis io1 w0 av0 av1 timeout in
        let f : Filled io1 w0 n io' w1 = read_twice-Filled io1 w0 av0 av1 timeout v1 h0 hc h1 in
        record {
          valid = f.valid;
          same = record {
            state = f.same.state;
            local_addr = f.same.local_addr;
            src_addr = f.same.src_addr;
            msg_len = f.same.msg_len;
            msg_pos = f.same.msg_pos;
            msg_crc = f.same.msg_crc;
            cmp_crc = f.same.cmp_crc;
            wb = f.same.wb;
            wb_pos = f.same.wb_pos;
          };
          stream =
              ap (λ xs. contents io' ++ xs) (s.clock w1)
              ∙ f.stream
              ∙ ap₂ (λ xs ys. xs ++ ys) same_contents (s.clock w);
          counted = f.counted ∙ ap (λ k. k + n) same_count;
        }

    -- If bytes are still to come, the source hands over a byte at least when asked for some, and the
    -- ring has room, a read of a positive size moves some.
    pub read_transport-progress :
        Ready
        → 0 < length (feed w)
        → 0 < max_size
        → count io + 1 < buffer_size
        → 0 < (read_transport read_cb uxr_millis io w timeout max_size).0
    unfolding read_transport read_twice fill
    read_transport-progress ready more hm hc =
        let (free0, free1, head, tail) = available io.rb_head io.rb_tail in
        let (av0, av1) = limit_size max_size free0 free1 in
        let w0 : W = (uxr_millis w).1 in
        let (v1, same_contents, same_count, h0, hc', h1, pos0) = sizes_fit io max_size v in
        let got : 0 < length (read_cb w0 av0 timeout).0 =
          ready w0 av0 timeout (pos0 hm hc) (rw (s.clock w) more) in
        ground (arith, pos0)
