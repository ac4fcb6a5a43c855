-- ===== src/Tcp/Receive/Loop.antt =====
-- The whole state machine of read_tcp_data.
use micro_xrce_dds_client.Prelude.{
  ℕ, zero, suc, ◌+◌, ◌*◌, ◌/◌, ◌%◌, ◌^◌, ◌<◌, ◌≡◌, refl, ap, ◌∙◌, sym, arith, Bool, true, false,
  Option, none, some, List, [], ◌∷◌, ◌++◌, length, replicate, ◌==◌, append_assoc, Bool-cases, inl,
  inr,
}
use micro_xrce_dds_client.Prelude.Int.{ℤ}
use micro_xrce_dds_client.Prelude.Memory.{read_bytes, length-read_bytes}
use mathlib.Core.Path.{subst}
use micro_xrce_dds_client.Tcp.{TcpPlatform, TcpTransport}
use micro_xrce_dds_client.Tcp.Receive.{read_state, read_tcp_data, returned}
use micro_xrce_dds_client.Tcp.Receive.Conserved.{
  IsTcpSource, IsTcp, Fits, Conserved, Closing, StepWithin, consumed, delivered, header,
  read_state_lem,
}

replicate-add : (a b : ℕ) → replicate {A = ℕ} (a + b) 0 ≡ replicate a 0 ++ replicate b 0
replicate-add zero b = ap (λ (n : ℕ). replicate {A = ℕ} n 0) (omega arith)
replicate-add (suc a) b =
    let e : suc a + b ≡ suc (a + b) = omega arith in rw e (ap (λ xs. 0 ∷ xs) (replicate-add a b))

Fits-zeros :
    (mtu n : ℕ) (bytes : List ℕ) → Fits mtu 0 (replicate (n + n) 0 ++ bytes) → Fits mtu 0 bytes
Fits-zeros mtu zero bytes f = f
Fits-zeros mtu (suc n) bytes f =
    let two : suc n + suc n ≡ suc (suc (n + n)) = omega arith in
    let (_, rest) = subst (λ (k : ℕ). Fits mtu 0 (replicate k 0 ++ bytes)) two f in
    Fits-zeros mtu n bytes rest

Fits-skip :
    (mtu n : ℕ) (xs bytes : List ℕ) → length xs ≡ n → Fits mtu n (xs ++ bytes) → Fits mtu 0 bytes
Fits-skip mtu zero [] bytes l f = f
Fits-skip mtu zero (x ∷ xs) bytes l f = absurd (omega (arith, l))
Fits-skip mtu (suc n) [] bytes l f = absurd (omega (arith, l))
Fits-skip mtu (suc n) (x ∷ xs) bytes l f = Fits-skip mtu n xs bytes (omega (arith, l)) f

Fits-message :
    (mtu rv : ℕ) (xs bytes : List ℕ)
    → length xs ≡ rv
    → Fits mtu 0 ((header rv ++ xs) ++ bytes)
    → Fits mtu 0 bytes
Fits-message mtu rv xs bytes l (_, rest) =
    Fits-skip mtu (rv / 2 ^ 8 * 2 ^ 8 + rv % 2 ^ 8) xs bytes (omega (arith, l)) rest

-- A round that ends the loop, and one that does not.
module _ {W : Type 0} (platform : TcpPlatform W) (mtu fuel : ℕ) (t t' : TcpTransport) (w w' : W)
    (timeout : ℤ) (rv : ℕ) where
  pub last_round :
      read_state platform mtu t w timeout ≡ some (true, rv, t', w')
      → read_tcp_data platform mtu (suc fuel) t w timeout ≡ returned (rv, t', w')
  unfolding read_tcp_data
  last_round e = rw (read_tcp_data, e) refl

  pub next_round :
      read_state platform mtu t w timeout ≡ some (false, rv, t', w')
      → read_tcp_data platform mtu (suc fuel) t w timeout
        ≡ read_tcp_data platform mtu fuel t' w' timeout
  unfolding read_tcp_data
  next_round e = rw (read_tcp_data, e) refl

module _ {W : Type 0} (platform : TcpPlatform W) (feed : W → List ℕ) (mtu : ℕ)
    (s : IsTcpSource platform feed) where
  Conserved-trans :
      {t t1 t2 : TcpTransport} {w w1 w2 : W} {rv : ℕ}
      → Conserved platform feed mtu s t w 0 t1 w1
      → Conserved platform feed mtu s t1 w1 rv t2 w2
      → Conserved platform feed mtu s t w rv t2 w2
  Conserved-trans {t} {t1} {t2} {w} {w1} {w2} {rv} c d =
      let twice : (c.empty + d.empty) + (c.empty + d.empty)
          ≡ (c.empty + c.empty) + (d.empty + d.empty) =
        omega arith in
      let rest = delivered rv t2 ++ (consumed t2 ++ feed w2) in
      record {
        valid = d.valid;
        empty = c.empty + d.empty;
        bytes =
            c.bytes
            ∙ ap (λ xs. replicate (c.empty + c.empty) 0 ++ xs) d.bytes
            ∙ sym (
                append_assoc (replicate (c.empty + c.empty) 0) (replicate (d.empty + d.empty) 0)
                  rest)
            ∙ ap (λ xs. xs ++ rest)
                (sym (replicate-add (c.empty + c.empty) (d.empty + d.empty))
                  ∙ ap (λ (n : ℕ). replicate {A = ℕ} n 0) (sym twice));
        whole = d.whole;
      }

  -- What was read of messages and what is still to come keeps its sizes within `mtu`.
  Fits-Conserved :
      (t t' : TcpTransport) (w w' : W) (rv : ℕ)
      → Conserved platform feed mtu s t w rv t' w'
      → Fits mtu 0 (consumed t ++ feed w)
      → Fits mtu 0 (consumed t' ++ feed w')
  Fits-Conserved t t' w w' rv c fits =
      let rest = consumed t' ++ feed w' in
      let behind : Fits mtu 0 (delivered rv t' ++ rest) =
        Fits-zeros mtu c.empty (delivered rv t' ++ rest)
          (subst (λ xs. Fits mtu 0 xs) c.bytes fits) in
      elim (Bool-cases (rv == 0)) [
        | inl z ↦
            let nothing : delivered rv t' ≡ [] = rw z refl in
            subst (λ xs. Fits mtu 0 (xs ++ rest)) nothing behind
        | inr ne ↦
            let message : delivered rv t' ≡ header rv ++ read_bytes t'.buffer 0 rv = rw ne refl in
            Fits-message mtu rv (read_bytes t'.buffer 0 rv) rest (length-read_bytes t'.buffer 0 rv)
              (subst (λ xs. Fits mtu 0 (xs ++ rest)) message behind)
      ]

  -- The result of a call, the transport and the platform that it leaves.
  pub record Read (fuel : ℕ) (t : TcpTransport) (w : W) (timeout : ℤ) : Type 0 where
    pub rv : ℕ
    pub t' : TcpTransport
    pub w' : W
    pub last : W
    pub run : read_tcp_data platform mtu fuel t w timeout ≡ returned (rv, t', w')
    pub conserved : Conserved platform feed mtu s t w rv t' last
    pub closed : Closing platform feed mtu s rv t' last w'
    pub fits : Fits mtu 0 (consumed t' ++ feed last)

  -- If reads hand over the next octets to come, at most as many as asked for, the size and the position
  -- of the transport agree with its state, and the sizes of the messages on the connection are at most
  -- the size of the buffer, then with one round more than there are bytes to come the state machine ends
  -- without a write behind the buffer, whatever pieces the bytes come in and whenever the time is over or
  -- an error occurs. Up to the last read no byte is lost, doubled or reordered: the bytes that were read
  -- before the call and those to come are, behind the sizes of empty messages, the message that is handed
  -- over with its size, the bytes that are kept for a later call (none if a message is handed over) and
  -- those still to come. After the last read the connection is left as it is, or, if the read reported an
  -- error and no message is handed over, it is closed.
  pub read_tcp_data_lem :
      (fuel : ℕ) (t : TcpTransport) (w : W) (timeout : ℤ)
      → IsTcp t
      → Fits mtu 0 (consumed t ++ feed w)
      → length (feed w) < fuel
      → Read fuel t w timeout
  read_tcp_data_lem zero t w timeout v f h = absurd (omega arith)
  read_tcp_data_lem (suc fuel) t w timeout v f h =
      go (read_state platform mtu t w timeout) refl
        (read_state_lem platform feed mtu s t w timeout v f)
        (λ t' w' v' f' h'. read_tcp_data_lem fuel t' w' timeout v' f' h')
    where
      go :
          (result : Option (Bool × ℕ × TcpTransport × W))
          → read_state platform mtu t w timeout ≡ result
          → StepWithin platform feed mtu s t w result
          → ((t' : TcpTransport) (w' : W)
              → IsTcp t'
              → Fits mtu 0 (consumed t' ++ feed w')
              → length (feed w') < fuel
              → Read fuel t' w' timeout)
          → Read (suc fuel) t w timeout
      go none q step more = absurd step
      go (some (true, rv, t', w')) q (last, c, closed, go_on) more = record {
        rv = rv;
        t' = t';
        w' = w';
        last = last;
        run = last_round platform mtu fuel t t' w w' timeout rv q;
        conserved = c;
        closed = closed;
        fits = Fits-Conserved t t' w last rv c f;
      }
      go (some (false, rv, t', w')) q (last, c, closed, go_on) more =
          let (none_yet, same, less) = go_on refl in
          let c' : Conserved platform feed mtu s t w 0 t' w' =
            subst (λ x. Conserved platform feed mtu s t w 0 t' x) (sym same)
              (subst (λ n. Conserved platform feed mtu s t w n t' last) none_yet c) in
          let shorter : length (feed w') < length (feed w) = rw same less in
          let r =
            more t' w' c.valid (Fits-Conserved t t' w w' 0 c' f) (omega (arith, shorter, h)) in
          record {
            rv = r.rv;
            t' = r.t';
            w' = r.w';
            last = r.last;
            run = next_round platform mtu fuel t t' w w' timeout rv q ∙ r.run;
            conserved = Conserved-trans c' r.conserved;
            closed = r.closed;
            fits = r.fits;
          }
