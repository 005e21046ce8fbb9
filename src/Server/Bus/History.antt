-- ===== src/Server/Bus/History.antt =====
-- crates/rustyice-server/src/bus.rs: what the history holds, and what a new subscriber is sent of it.
use mathlib.Core.List.{reverse, reverse-cons, reverse-reverse}
use rusty_ice.Prelude.{
  ℕ, ◌+◌, ◌-◌, ◌≤◌, ◌<◌, ◌≡◌, ◌≢◌, ◌⊎◌, ◌∙◌, refl, sym, ap, inl, inr, List, [], ◌∷◌, ◌++◌, length,
  arith, ltb, leb, ◌==◌, append_assoc, append-nil, Bool-cases, ◌&&◌, not,
}
use rusty_ice.Core.Types.{StreamPacket}
use rusty_ice.Server.Bus.{HistoryRing, packet_bytes, evict, walk, burst, is_empty}

abbrev pub bytes_of : List StreamPacket → ℕ
bytes_of [] = 0
bytes_of (p ∷ ps) = packet_bytes p + bytes_of ps

pub bytes_of-append : (ps qs : List StreamPacket) → bytes_of (ps ++ qs) ≡ bytes_of ps + bytes_of qs
bytes_of-append [] qs = omega arith
bytes_of-append (p ∷ ps) qs = omega (arith, bytes_of-append ps qs)

-- The total is that of the packets held, and it keeps within the cap unless one packet is left.
pub record IsWithin (cap : ℕ) (h : HistoryRing) : Type 0 where
  pub total : h.bytes ≡ bytes_of h.packets
  pub bounded : (h.bytes ≤ cap) ⊎ (length h.packets ≤ 1)

pub evict-IsWithin :
    (cap bytes : ℕ) (ps : List StreamPacket)
    → bytes ≡ bytes_of ps
    → IsWithin cap (evict cap bytes ps)
unfolding evict
evict-IsWithin cap bytes [] h = record { total = h; bounded = inr (omega arith) }
evict-IsWithin cap bytes (p ∷ []) h = record { total = h; bounded = inr (omega arith) }
evict-IsWithin cap bytes (p ∷ q ∷ ps) h =
    let rest = evict-IsWithin cap (bytes - packet_bytes p) (q ∷ ps) (omega arith) in
    ground (arith, rest.total, rest.bounded)

-- Only the oldest packets go, and never the last one.
pub evict-suffix :
    (cap bytes : ℕ) (ps : List StreamPacket)
    → (gone : List StreamPacket) × (ps ≡ gone ++ (evict cap bytes ps).packets)
unfolding evict
evict-suffix cap bytes [] = ([], refl)
evict-suffix cap bytes (p ∷ []) = ([], refl)
evict-suffix cap bytes (p ∷ q ∷ ps) = elim (Bool-cases (ltb cap bytes)) [
  | inl over ↦
      let (gone, e) = evict-suffix cap (bytes - packet_bytes p) (q ∷ ps) in
      (p ∷ gone, ground (arith, over, e))
  | inr fits ↦ ([], ground (arith, fits))
]

pub evict-ne-nil :
    (cap bytes : ℕ) (ps : List StreamPacket) → ps ≢ [] → (evict cap bytes ps).packets ≢ []
unfolding evict
evict-ne-nil cap bytes [] h = absurd (h refl)
evict-ne-nil cap bytes (p ∷ []) h = λ e. cc
evict-ne-nil cap bytes (p ∷ q ∷ ps) h =
    let rest = evict-ne-nil cap (bytes - packet_bytes p) (q ∷ ps) (λ e. cc) in ground (arith, rest)

-- The walk takes a contiguous run of the newest packets.
walk-suffix :
    (cap acc : ℕ) (snapshot older : List StreamPacket)
    → (gone : List StreamPacket) × (reverse older ++ snapshot ≡ gone ++ walk cap acc snapshot older)
unfolding walk
walk-suffix cap acc snapshot [] = ([], refl)
walk-suffix cap acc snapshot (p ∷ older) =
    let (gone, e) = walk-suffix cap (acc + packet_bytes p) (p ∷ snapshot) older in
    let front : reverse (p ∷ older) ++ snapshot ≡ reverse older ++ (p ∷ snapshot) =
      ap (λ l. l ++ snapshot) (reverse-cons p older)
      ∙ append_assoc (reverse older) (p ∷ []) snapshot in
    elim (Bool-cases (ltb cap (acc + packet_bytes p) && not (is_empty snapshot))) [
      | inl over ↦ (reverse (p ∷ older), ground (arith, over))
      | inr fits ↦ elim (Bool-cases (leb cap (acc + packet_bytes p))) [
        | inl full ↦ (reverse older, ground (arith, fits, full, front))
        | inr more ↦ (gone, ground (arith, fits, more, front, e))
      ]
    ]

abbrev Fits : ℕ → List StreamPacket → Type 0
Fits cap ps = (bytes_of ps ≤ cap) ⊎ (length ps ≡ 1)

walk-Fits :
    (cap acc : ℕ) (snapshot older : List StreamPacket)
    → acc ≡ bytes_of snapshot
    → acc < cap
    → Fits cap (walk cap acc snapshot older)
unfolding walk
walk-Fits cap acc snapshot [] h k = inl (omega arith)
walk-Fits cap acc [] (p ∷ older) h k = elim (Bool-cases (leb cap (acc + packet_bytes p))) [
  | inl full ↦ inr (ground arith)
  | inr more ↦
      let rest = walk-Fits cap (acc + packet_bytes p) (p ∷ []) older (omega arith) (ground arith) in
      ground arith
]
walk-Fits cap acc (s ∷ snapshot) (p ∷ older) h k =
    elim (Bool-cases (leb cap (acc + packet_bytes p))) [
      | inl full ↦ inl (ground arith)
      | inr more ↦
          let rest =
            walk-Fits cap (acc + packet_bytes p) (p ∷ s ∷ snapshot) older (omega arith)
              (ground arith) in
          ground arith
    ]

pub burst-suffix :
    (cap : ℕ) (h : HistoryRing) → (gone : List StreamPacket) × (h.packets ≡ gone ++ burst cap h)
unfolding burst
burst-suffix cap h =
    let (gone, e) = walk-suffix cap 0 [] (reverse h.packets) in
    let whole : h.packets ≡ reverse (reverse h.packets) ++ [] =
      sym (append-nil (reverse (reverse h.packets)) ∙ reverse-reverse h.packets) in
    elim (Bool-cases (cap == 0)) [
      | inl off ↦ (h.packets, ground (arith, off, append-nil h.packets))
      | inr on ↦ (gone, ground (arith, on, whole, e))
    ]

-- The burst replays no more bytes than the cap, unless it is the single newest packet.
pub burst-Fits :
    (cap : ℕ) (h : HistoryRing) → (bytes_of (burst cap h) ≤ cap) ⊎ (length (burst cap h) ≡ 1)
unfolding burst
burst-Fits cap h = elim (Bool-cases (cap == 0)) [
  | inl off ↦ inl (ground arith)
  | inr on ↦
      let fits = walk-Fits cap 0 [] (reverse h.packets) refl (ground arith) in ground (arith, fits)
]
