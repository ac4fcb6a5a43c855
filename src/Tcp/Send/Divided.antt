-- ===== src/Tcp/Send/Divided.antt =====
-- What send_tcp_msg hands to a connection that may divide the size too.
use micro_xrce_dds_client.Prelude.{
  ℕ, Bool, zero, suc, ◌%◌, ◌^◌, ◌≡◌, ◌⊎◌, true, List, [], ◌∷◌, ◌++◌,
}
use micro_xrce_dds_client.Tcp.{TcpPlatform}
use micro_xrce_dds_client.Tcp.Send.{msg_size_buf}
use micro_xrce_dds_client.Tcp.Send.Frame.{IsTcpSink}

-- The octets that make the count of the size go from `bytes_sent` to 2.
abbrev Completes : ℕ → ℕ → List ℕ → Type 0
Completes len zero sizes = (sizes ≡ msg_size_buf len) ⊎ (sizes ≡ len % 2 ^ 8 ∷ len % 2 ^ 8 ∷ [])
Completes len (suc zero) sizes = sizes ≡ len % 2 ^ 8 ∷ []
Completes len (suc (suc bytes_sent)) sizes = ⊥

module _ {W : Type 0} (platform : TcpPlatform W) (sent : W → List ℕ)
    (s : IsTcpSink platform sent) where
  -- What the size loop sends from `w` on, and what it is if the size counts as sent.
  abbrev SizeSent : ℕ → ℕ → W → Bool × ℕ × W → Type 0
  SizeSent len bytes_sent w (size_sent, _, w') =
      (sizes : List ℕ) × (sent w' ≡ sent w ++ sizes)
      × (size_sent ≡ true → Completes len bytes_sent sizes)
