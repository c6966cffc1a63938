-- ===== src/Capture/Ports.antt =====
-- WinDivertCapture.h: the two bitmaps that cache the decision for a source port.
use tcp_redirector.Prelude.{
  ℕ, ◌/◌, ◌%◌, ◌<◌, ◌≡◌, refl, sym, ap, ◌∙◌, Bool, true, false, not, ◌&&◌, ◌||◌, List, length,
  get_or, set, replicate, get_or-set, length-set, ◌==◌, ==_iff, arith, if◌then◌else◌, test_bit,
  or_bit, and_not_bit, test_bit-or_bit, test_bit-and_not_bit,
}

-- `m_portDecided` and `m_portDirect`.
pub record Ports : Type 0 where
  pub decided : List ℕ
  pub direct : List ℕ

abbrev pub bitmap_size : ℕ
bitmap_size = 2048

abbrev pub port_count : ℕ
port_count = 65536

unfoldable pub no_ports : Ports
no_ports = record { decided = replicate bitmap_size 0; direct = replicate bitmap_size 0 }

-- The bit of a port, `port >> 5` and `port & 31`.
unfoldable pub bit_at : List ℕ → ℕ → Bool
unfolding test_bit
bit_at words port = test_bit (get_or words (port / 32) 0) (port % 32)

unfoldable pub set_at : List ℕ → ℕ → List ℕ
unfolding or_bit
set_at words port = set words (port / 32) (or_bit (get_or words (port / 32) 0) (port % 32))

unfoldable pub clear_at : List ℕ → ℕ → List ℕ
unfolding and_not_bit
clear_at words port = set words (port / 32) (and_not_bit (get_or words (port / 32) 0) (port % 32))

unfoldable pub is_port_decided : Ports → ℕ → Bool
unfolding bit_at
is_port_decided b port = bit_at b.decided port

unfoldable pub is_port_direct : Ports → ℕ → Bool
unfolding bit_at
is_port_direct b port = bit_at b.direct port

unfoldable pub set_port_direct : Ports → ℕ → Ports
unfolding set_at
set_port_direct b port = record { decided = set_at b.decided port; direct = set_at b.direct port }

unfoldable pub set_port_decided : Ports → ℕ → Ports
unfolding set_at
set_port_decided b port = record b { decided = set_at b.decided port }

unfoldable pub clear_port : Ports → ℕ → Ports
unfolding clear_at
clear_port b port = record { decided = clear_at b.decided port; direct = clear_at b.direct port }

same_port : (p q : ℕ) → ((p / 32 == q / 32) && (p % 32 == q % 32)) ≡ (p == q)
same_port p q = ground arith

-- A write of one word, read at a bit of any word.
set_word :
    (s : Bool) (w v k j : ℕ)
    → (s ≡ true → w ≡ v)
    → test_bit (if s then or_bit w k else v) j ≡ ((s && (k == j)) || test_bit v j)
set_word true w v k j same = rw (sym (same refl)) (test_bit-or_bit w k j)
set_word false w v k j same = refl

clear_word :
    (s : Bool) (w v k j : ℕ)
    → (s ≡ true → w ≡ v)
    → test_bit (if s then and_not_bit w k else v) j ≡ (not (s && (k == j)) && test_bit v j)
clear_word true w v k j same = rw (sym (same refl)) (test_bit-and_not_bit w k j)
clear_word false w v k j same = refl

same_word : (ws : List ℕ) (i j : ℕ) → (i == j) ≡ true → get_or ws i 0 ≡ get_or ws j 0
same_word ws i j h = ap (λ n. get_or ws n 0) ((==_iff i j).0 h)

bit_at-set_at :
    (ws : List ℕ) (p q : ℕ)
    → length ws ≡ bitmap_size
    → p < port_count
    → bit_at (set_at ws p) q ≡ ((p == q) || bit_at ws q)
unfolding bit_at set_at
bit_at-set_at ws p q l b =
    let i : p / 32 < length ws = omega (arith, l) in
    let w = get_or ws (p / 32) 0 in
    let v = get_or ws (q / 32) 0 in
    rw (get_or-set ws (p / 32) (q / 32) (or_bit w (p % 32)) 0 i) (
      set_word (p / 32 == q / 32) w v (p % 32) (q % 32) (same_word ws (p / 32) (q / 32))
      ∙ ap (λ s. s || test_bit v (q % 32)) (same_port p q))

bit_at-clear_at :
    (ws : List ℕ) (p q : ℕ)
    → length ws ≡ bitmap_size
    → p < port_count
    → bit_at (clear_at ws p) q ≡ (not (p == q) && bit_at ws q)
unfolding bit_at clear_at
bit_at-clear_at ws p q l b =
    let i : p / 32 < length ws = omega (arith, l) in
    let w = get_or ws (p / 32) 0 in
    let v = get_or ws (q / 32) 0 in
    rw (get_or-set ws (p / 32) (q / 32) (and_not_bit w (p % 32)) 0 i) (
      clear_word (p / 32 == q / 32) w v (p % 32) (q % 32) (same_word ws (p / 32) (q / 32))
      ∙ ap (λ s. not s && test_bit v (q % 32)) (same_port p q))

-- Both arrays have their size.
pub record HasSize (b : Ports) : Type 0 where
  pub decided_size : length b.decided ≡ bitmap_size
  pub direct_size : length b.direct ≡ bitmap_size

-- In bitmaps of their full size and for a 16-bit port, `SetPortDirect` sets both bits of its port,
-- `SetPortDecided` the first only, `ClearPort` clears both, and none of them changes a bit of
-- another port.
pub ports_lem :
    (b : Ports) (p q : ℕ)
    → HasSize b
    → p < port_count
    → (is_port_decided (set_port_direct b p) q ≡ ((p == q) || is_port_decided b q))
      × (is_port_direct (set_port_direct b p) q ≡ ((p == q) || is_port_direct b q))
      × (is_port_decided (set_port_decided b p) q ≡ ((p == q) || is_port_decided b q))
      × (is_port_direct (set_port_decided b p) q ≡ is_port_direct b q)
      × (is_port_decided (clear_port b p) q ≡ (not (p == q) && is_port_decided b q))
      × (is_port_direct (clear_port b p) q ≡ (not (p == q) && is_port_direct b q))
unfolding is_port_decided is_port_direct set_port_direct set_port_decided clear_port
ports_lem b p q s h = (
  bit_at-set_at b.decided p q s.decided_size h,
  bit_at-set_at b.direct p q s.direct_size h,
  bit_at-set_at b.decided p q s.decided_size h,
  refl,
  bit_at-clear_at b.decided p q s.decided_size h,
  bit_at-clear_at b.direct p q s.direct_size h,
)

-- The arrays begin with their size and keep it.

pub no_ports-HasSize : HasSize no_ports
unfolding no_ports
no_ports-HasSize = record { decided_size = refl; direct_size = refl }

pub set_port_direct-HasSize : (b : Ports) (p : ℕ) → HasSize b → HasSize (set_port_direct b p)
unfolding set_port_direct set_at
set_port_direct-HasSize b p s = record {
  decided_size = length-set b.decided (p / 32) _ ∙ s.decided_size;
  direct_size = length-set b.direct (p / 32) _ ∙ s.direct_size;
}

pub set_port_decided-HasSize : (b : Ports) (p : ℕ) → HasSize b → HasSize (set_port_decided b p)
unfolding set_port_decided set_at
set_port_decided-HasSize b p s = record {
  decided_size = length-set b.decided (p / 32) _ ∙ s.decided_size;
  direct_size = s.direct_size;
}

pub clear_port-HasSize : (b : Ports) (p : ℕ) → HasSize b → HasSize (clear_port b p)
unfolding clear_port clear_at
clear_port-HasSize b p s = record {
  decided_size = length-set b.decided (p / 32) _ ∙ s.decided_size;
  direct_size = length-set b.direct (p / 32) _ ∙ s.direct_size;
}
