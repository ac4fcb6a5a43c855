-- ===== src/Framing/Write/Frame.antt =====
-- uxr_write_framed_msg against the layout of a frame.
use micro_xrce_dds_client.Prelude.{
  ℕ, ◌*◌, ◌/◌, ◌%◌, ◌^◌, ◌<◌, ◌≡◌, refl, sym, ap, ◌∙◌, Bool, true, false, Option, some, List, [],
  ◌∷◌, ◌++◌, length, take, set, take-suc-set, append-nil, append_assoc, arith, inl, inr, ◌⊎◌,
  length-set, length-append, if◌then◌else◌, lt→ltb, take-append-drop, length-take, length-drop,
  drop,
}
use micro_xrce_dds_client.Framing.{FramingIo, IsValid, framing_begin_flag}
use micro_xrce_dds_client.Framing.Octets.{add_next_octet}
use micro_xrce_dds_client.Framing.Octets.Laws.{
  pending, escape, Added, add_next_octet-Added, length-escape,
}
use micro_xrce_dds_client.Framing.Write.{
  start_frame, write_octets, write_octets_if, flush_if, write_transport, write_framed_msg,
}
use micro_xrce_dds_client.Framing.Write.Transport.{IsTransport, Progresses, write_transport_lem}
use micro_xrce_dds_client.Framing.Write.Loop.{escape_all, crc_all, Written, write_octets_lem}

-- The octets of a message before escaping: the two addresses, the length and the payload, low
-- octets first, and the CRC of the payload.
unfoldable pub header : ℕ → ℕ → ℕ → List ℕ
header local_addr remote_addr len =
    local_addr ∷ remote_addr ∷ len % 2 ^ 8 ∷ len / 2 ^ 8 % 2 ^ 8 ∷ []

unfoldable pub trailer : List ℕ → List ℕ
trailer payload = crc_all 0 payload % 2 ^ 8 ∷ crc_all 0 payload / 2 ^ 8 % 2 ^ 8 ∷ []

-- The bytes of a frame on the wire.
unfoldable pub frame : ℕ → ℕ → List ℕ → List ℕ
frame local_addr remote_addr payload =
    framing_begin_flag
    ∷ (escape_all (header local_addr remote_addr (length payload))
        ++ (escape_all payload ++ escape_all (trailer payload)))

start_frame_lem :
    (io : FramingIo) (len remote_addr : ℕ)
    → IsValid io
    → IsValid (start_frame io len remote_addr)
      × (pending (start_frame io len remote_addr)
          ≡ framing_begin_flag ∷ escape_all (header io.local_addr remote_addr len))
      × (0 < (start_frame io len remote_addr).wb_pos)
unfolding start_frame header
start_frame_lem io len remote_addr v =
    (a4.valid, appended, omega (arith, a4.moved, length-escape (len / 2 ^ 8 % 2 ^ 8)))
  where
    io0 : FramingIo
    io0 = record io { wb = set io.wb 0 framing_begin_flag; wb_pos = 1 }

    v0 : IsValid io0
    v0 = omega (arith, v, length-set io.wb 0 framing_begin_flag)

    io1 : FramingIo
    io1 = (add_next_octet io0 io.local_addr).1

    a1 : Added io0 io.local_addr io1
    a1 = (add_next_octet-Added io.local_addr v0 (omega (arith, length-escape io.local_addr))).1

    io2 : FramingIo
    io2 = (add_next_octet io1 remote_addr).1

    a2 : Added io1 remote_addr io2
    a2 =
        (add_next_octet-Added remote_addr a1.valid
          (omega (arith, a1.moved, length-escape io.local_addr, length-escape remote_addr))).1

    io3 : FramingIo
    io3 = (add_next_octet io2 (len % 2 ^ 8)).1

    a3 : Added io2 (len % 2 ^ 8) io3
    a3 =
        (add_next_octet-Added (len % 2 ^ 8) a2.valid (
          omega (
            arith,
            a2.moved,
            a1.moved,
            length-escape io.local_addr,
            length-escape remote_addr,
            length-escape (len % 2 ^ 8),
          ))).1

    io4 : FramingIo
    io4 = (add_next_octet io3 (len / 2 ^ 8 % 2 ^ 8)).1

    a4 : Added io3 (len / 2 ^ 8 % 2 ^ 8) io4
    a4 =
        (add_next_octet-Added (len / 2 ^ 8 % 2 ^ 8) a3.valid (
          omega (
            arith,
            a3.moved,
            a2.moved,
            a1.moved,
            length-escape io.local_addr,
            length-escape remote_addr,
            length-escape (len % 2 ^ 8),
            length-escape (len / 2 ^ 8 % 2 ^ 8),
          ))).1

    appended :
        pending io4
        ≡ framing_begin_flag
          ∷ (escape io.local_addr
              ++ (escape remote_addr
                  ++ (escape (len % 2 ^ 8) ++ (escape (len / 2 ^ 8 % 2 ^ 8) ++ []))))
    appended = simp (
      a4.appended,
      a3.appended,
      a2.appended,
      a1.appended,
      take-suc-set 0 io.wb framing_begin_flag (omega (arith, v.wb_len)),
      append_assoc,
      append-nil,
    )

module _ {W : Type 0} (write_cb : W → List ℕ → ℕ × W) (sent : W → List ℕ)
    (t : IsTransport write_cb sent) where
  -- The message was written: the transport took exactly `out`, and nothing waits.
  pub record Delivered (out : List ℕ) (len : ℕ) (r : Option (ℕ × FramingIo × W)) : Type 0 where
    pub io' : FramingIo
    pub w' : W
    pub ended : r ≡ some (len, io', w')
    pub valid : IsValid io'
    pub took : sent w' ≡ out
    pub empty : io'.wb_pos ≡ 0

  -- The write failed with the result 0: the transport took a proper prefix of `out`, and stalled.
  pub record Failed (out : List ℕ) (r : Option (ℕ × FramingIo × W)) : Type 0 where
    pub io' : FramingIo
    pub w' : W
    pub ended : r ≡ some (0, io', w')
    pub valid : IsValid io'
    pub rest : List ℕ
    pub prefix : sent w' ++ rest ≡ out
    pub left : 0 < length rest
    pub stuck : ¬ Progresses write_cb

  -- The three ways through `uxr_write_framed_msg`.
  module _ (io : FramingIo) (w : W) (buf : List ℕ) (remote_addr : ℕ) where
    abbrev first : Option (Bool × ℕ × FramingIo × W)
    first = write_octets write_cb (2 * length buf) (start_frame io (length buf) remote_addr) w 0 buf

    cut_in_payload :
        {crc' : ℕ} {io' : FramingIo} {w' : W}
        → first ≡ some (false, crc', io', w')
        → write_framed_msg write_cb io w buf remote_addr ≡ some (0, io', w')
    unfolding write_framed_msg write_octets_if flush_if
    cut_in_payload e = rw e

    cut_in_crc :
        {crc' : ℕ} {io1 io2 : FramingIo} {w1 w2 : W}
        → first ≡ some (true, crc_all 0 buf, io1, w1)
        → write_octets write_cb 4 io1 w1 (crc_all 0 buf) (trailer buf) ≡ some (false, crc', io2, w2)
        → write_framed_msg write_cb io w buf remote_addr ≡ some (0, io2, w2)
    unfolding write_framed_msg write_octets_if flush_if trailer
    cut_in_crc e e2 = rw (e, e2)

    flushed_at_end :
        {crc' : ℕ} {io1 io2 io3 : FramingIo} {w1 w2 w3 : W} {cond : Bool}
        → first ≡ some (true, crc_all 0 buf, io1, w1)
        → write_octets write_cb 4 io1 w1 (crc_all 0 buf) (trailer buf) ≡ some (true, crc', io2, w2)
        → 0 < io2.wb_pos
        → write_transport write_cb io2 w2 ≡ some (cond, io3, w3)
        → write_framed_msg write_cb io w buf remote_addr
          ≡ some (if cond then length buf % 2 ^ 16 else 0, io3, w3)
    unfolding write_framed_msg write_octets_if flush_if trailer
    flushed_at_end {io2 = io2} e e2 pos e3 = rw (e, e2, lt→ltb 0 io2.wb_pos pos, e3)

    -- What the transport takes in all.
    abbrev whole : List ℕ
    whole = sent w ++ frame io.local_addr remote_addr buf

    abbrev Outcome : Option (ℕ × FramingIo × W) → Type 0
    Outcome r = Delivered whole (length buf % 2 ^ 16) r ⊎ Failed whole r

    out_eq :
        IsValid io
        → ((sent w ++ pending (start_frame io (length buf) remote_addr)) ++ escape_all buf)
            ++ escape_all (trailer buf)
          ≡ whole
    out_eq v =
        ap (λ p. ((sent w ++ p) ++ escape_all buf) ++ escape_all (trailer buf))
          (start_frame_lem io (length buf) remote_addr v).1
        ∙ unfold frame in simp append_assoc

    -- The last flush.
    finish :
        {out1 : List ℕ} (d : Written write_cb sent t out1 (crc_all 0 buf) first)
        → (d2 : Written write_cb sent t whole
            (crc_all (crc_all 0 buf) (trailer buf))
            (write_octets write_cb 4 d.io' d.w' (crc_all 0 buf) (trailer buf)))
        → Outcome (write_framed_msg write_cb io w buf remote_addr)
    finish d d2 =
        elim (write_transport_lem write_cb sent t (sent d2.w') d2.io' d2.w' d2.valid refl) [
          | inl em ↦ inl (record {
            io' = record d2.io' { wb_pos = 0 };
            w' = em.w';
            ended = flushed_at_end d.ended d2.ended d2.nonempty em.ended;
            valid = omega (arith, d2.valid);
            took = em.took ∙ d2.waiting;
            empty = refl;
          })
          | inr s ↦ inr (record {
            io' = d2.io';
            w' = s.w';
            ended = flushed_at_end d.ended d2.ended d2.nonempty s.ended;
            valid = d2.valid;
            rest = drop s.n (pending d2.io');
            prefix =
                ap (λ xs. xs ++ drop s.n (pending d2.io')) s.took
                ∙ append_assoc (sent d2.w') (take s.n (pending d2.io')) (drop s.n (pending d2.io'))
                ∙ ap (λ xs. sent d2.w' ++ xs) (take-append-drop s.n (pending d2.io'))
                ∙ d2.waiting;
            left = omega (
              arith,
              length-drop s.n (pending d2.io'),
              length-take d2.io'.wb_pos d2.io'.wb,
              s.part,
              d2.valid.pos_in,
              d2.valid.wb_len,
            );
            stuck = s.stuck;
          })
        ]

    -- The loop over the CRC, and what follows.
    finish_crc :
        {out1 : List ℕ} (d : Written write_cb sent t out1 (crc_all 0 buf) first)
        → out1 ++ escape_all (trailer buf) ≡ whole
        → Outcome (write_framed_msg write_cb io w buf remote_addr)
    finish_crc d e =
        elim (write_octets_lem write_cb sent t (trailer buf) 4 d.io' d.w' (crc_all 0 buf) whole
          d.valid d.nonempty (unfold trailer in omega arith)
          (ap (λ xs. xs ++ escape_all (trailer buf)) d.waiting ∙ e)) [
            | inl d2 ↦ finish d d2
            | inr cut ↦ inr (record {
              io' = cut.io';
              w' = cut.w';
              ended = cut_in_crc d.ended cut.ended;
              valid = cut.valid;
              rest = cut.rest;
              prefix = cut.prefix;
              left = cut.left;
              stuck = cut.stuck;
            })
          ]

  -- For any message and any transport the write ends. Either the transport has taken exactly the
  -- frame of the message and the result is the low 16 bits of the length; or a flush has stalled,
  -- the transport has taken a proper prefix of the frame and the result is 0.
  pub write_framed_msg_lem :
      (io : FramingIo) (w : W) (buf : List ℕ) (remote_addr : ℕ)
      → IsValid io
      → Delivered
          (sent w ++ frame io.local_addr remote_addr buf)
          (length buf % 2 ^ 16)
          (write_framed_msg write_cb io w buf remote_addr)
        ⊎ Failed
            (sent w ++ frame io.local_addr remote_addr buf)
            (write_framed_msg write_cb io w buf remote_addr)
  write_framed_msg_lem io w buf remote_addr v =
      let (v1, p1, n1) = start_frame_lem io (length buf) remote_addr v in
      elim (write_octets_lem write_cb sent t buf (2 * length buf)
        (start_frame io (length buf) remote_addr) w 0 _ v1 n1 (omega arith) refl) [
          | inl done ↦ finish_crc io w buf remote_addr (done) (out_eq io w buf remote_addr v)
          | inr cut ↦ inr (record {
            io' = cut.io';
            w' = cut.w';
            ended = cut_in_payload io w buf remote_addr (cut.ended);
            valid = cut.valid;
            rest = cut.rest ++ escape_all (trailer buf);
            prefix =
                sym (append_assoc (sent cut.w') cut.rest (escape_all (trailer buf)))
                ∙ ap (λ xs. xs ++ escape_all (trailer buf)) cut.prefix
                ∙ out_eq io w buf remote_addr v;
            left = omega (arith, length-append cut.rest (escape_all (trailer buf)), cut.left);
            stuck = cut.stuck;
          })
        ]

  -- A transport that is never stuck is handed every message of less than 2 ^ 16 bytes as one whole
  -- frame, and the result is the length of the message.
  pub write_framed_msg-sends :
      (io : FramingIo) (w : W) (buf : List ℕ) (remote_addr : ℕ)
      → IsValid io
      → Progresses write_cb
      → length buf < 2 ^ 16
      → Delivered
          (sent w ++ frame io.local_addr remote_addr buf)
          (length buf)
          (write_framed_msg write_cb io w buf remote_addr)
  write_framed_msg-sends io w buf remote_addr v p h =
      elim (write_framed_msg_lem io w buf remote_addr v) [
        | inl d ↦ let e : length buf % 2 ^ 16 ≡ length buf = omega arith in rw e at d
        | inr f ↦ absurd (f.stuck p)
      ]
