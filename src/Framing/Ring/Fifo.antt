-- ===== src/Framing/Ring/Fifo.antt =====
-- The ring `rb` as a queue: the octets from `rb_tail` up to `rb_head`, going round at 42.
use micro_xrce_dds_client.Prelude.{
  ℕ, zero, suc, ◌+◌, ◌-◌, ◌%◌, ◌≤◌, ◌<◌, ◌≡◌, refl, ap, ◌∙◌, List, [], ◌∷◌, ◌++◌, length, get_or,
  set, arith, length-set, get_or-set_self, get_or-set_ne, append-nil, append_assoc,
}
use mathlib.Core.Path.{ap₂}
use micro_xrce_dds_client.Framing.{FramingIo, buffer_size}
use micro_xrce_dds_client.Framing.Ring.{store}

-- The `n` octets from index `t` on.
abbrev pub window : List ℕ → ℕ → ℕ → List ℕ
window buf t zero = []
window buf t (suc n) = get_or buf t 0 ∷ window buf ((t + 1) % buffer_size) n

abbrev pub count : FramingIo → ℕ
count io = (io.rb_head + buffer_size - io.rb_tail) % buffer_size

-- The octets that wait in the ring, oldest first.
abbrev pub contents : FramingIo → List ℕ
contents io = window io.rb io.rb_tail (count io)

pub length-window : (buf : List ℕ) (t n : ℕ) → length (window buf t n) ≡ n
length-window buf t zero = refl
length-window buf t (suc n) = ap suc (length-window buf ((t + 1) % buffer_size) n)

window-set :
    (buf : List ℕ) (x n t i : ℕ)
    → length buf ≡ buffer_size
    → t < buffer_size
    → n < buffer_size
    → i ≡ (t + n) % buffer_size
    → window (set buf i x) t (suc n) ≡ window buf t n ++ (x ∷ [])
window-set buf x zero t i hl ht hn e =
    let e' : i ≡ t = omega arith in
    rw e' (ap (λ y. y ∷ []) (get_or-set_self buf t x 0 (omega arith)))
window-set buf x (suc n) t i hl ht hn e =
    ap₂ ◌∷◌ (get_or-set_ne buf i t x 0 (omega arith))
      (window-set buf x n ((t + 1) % buffer_size) i hl (omega arith) (omega arith) (omega arith))

pub length-store : (buf : List ℕ) (i : ℕ) (bytes : List ℕ) → length (store buf i bytes) ≡ length buf
unfolding store
length-store buf i [] = refl
length-store buf i (b ∷ bs) = length-store (set buf i b) (i + 1) bs ∙ length-set buf i b

-- Bytes stored just past a window, short of the end of the array, extend it.
pub window-store :
    (bytes buf : List ℕ) (n t i : ℕ)
    → length buf ≡ buffer_size
    → t < buffer_size
    → n + length bytes < buffer_size
    → i ≡ (t + n) % buffer_size
    → i + length bytes ≤ buffer_size
    → window (store buf i bytes) t (n + length bytes) ≡ window buf t n ++ bytes
unfolding store
window-store [] buf n t i hl ht hn e hi = let e' : n + 0 ≡ n = omega arith in rw (e', append-nil)
window-store (b ∷ []) buf n t i hl ht hn e hi =
    let e' : n + 1 ≡ suc n = omega arith in rw e' (window-set buf b n t i hl ht (omega arith) e)
window-store (b ∷ c ∷ bs) buf n t i hl ht hn e hi =
    let e' : n + length (b ∷ c ∷ bs) ≡ suc n + length (c ∷ bs) = omega arith in
    rw e' (
      window-store (c ∷ bs) (set buf i b) (suc n) t (i + 1) (length-set buf i b ∙ hl) ht
        (omega arith) (omega arith) (omega arith)
      ∙ ap (λ xs. xs ++ (c ∷ bs)) (window-set buf b n t i hl ht (omega arith) e)
      ∙ append_assoc (window buf t n) (b ∷ []) (c ∷ bs))
