-- ===== src/Server/Bus.antt =====
-- crates/rustyice-server/src/bus.rs: `TokioBroadcastBus`, the fan-out of a mount's packets with a
-- history that is replayed to each new subscriber. Both operations hold the history's lock
-- throughout, so each is one step on the bus. The channel of `tokio::sync::broadcast` is the
-- interface `Broadcast`, for receivers that do not lag.
pub mod History
pub mod Contiguous
use mathlib.Core.List.{reverse}
use rusty_ice.Prelude.{
  ℕ, suc, ◌+◌, ◌-◌, ◌^◌, ◌≡◌, Bool, true, false, not, ◌&&◌, List, [], ◌∷◌, ◌++◌, length, ltb, leb,
  ◌==◌, if◌then◌else◌,
}
use rusty_ice.Core.Types.{StreamPacket, AudioPayload, encoded, decoded}

-- `broadcast::channel` of tokio, and so `TokioBroadcastBus::new`, is documented to panic where the
-- capacity is 0 or larger than half of `usize::MAX`.
unfoldable pub has_capacity : ℕ → Bool
has_capacity ring_capacity = ltb 0 ring_capacity && ltb ring_capacity (2 ^ 63)

-- The oldest packet first; `bytes` is the running total.
pub record HistoryRing : Type 0 where
  pub packets : List StreamPacket
  pub bytes : ℕ

unfoldable pub packet_bytes : StreamPacket → ℕ
packet_bytes p = elim p.payload [ encoded e ↦ length e.bytes | decoded _ ↦ 0 ]

-- The eviction loop of `publish`; `saturating_sub` stops at 0.
unfoldable pub evict : ℕ → ℕ → List StreamPacket → HistoryRing
evict cap bytes [] = record { packets = []; bytes = bytes }
evict cap bytes (front ∷ []) = record { packets = front ∷ []; bytes = bytes }
evict cap bytes (front ∷ next ∷ rest) =
    let evicted = evict cap (bytes - packet_bytes front) (next ∷ rest) in
    if ltb cap bytes then evicted else record { packets = front ∷ next ∷ rest; bytes = bytes }

abbrev is_empty : List StreamPacket → Bool
is_empty [] = true
is_empty (_ ∷ _) = false

-- The loop of `subscribe` over the newest packets first. The head of `snapshot` is the last packet
-- pushed, so read from its head it is the vector after `snapshot.reverse()`.
unfoldable pub walk : ℕ → ℕ → List StreamPacket → List StreamPacket → List StreamPacket
walk cap acc snapshot [] = snapshot
walk cap acc snapshot (p ∷ older) =
    let sz = packet_bytes p in
    let rest = walk cap (acc + sz) (p ∷ snapshot) older in
    if ltb cap (acc + sz) && not (is_empty snapshot)
    then snapshot
    else if leb cap (acc + sz)
    then p ∷ snapshot
    else rest

unfoldable pub burst : ℕ → HistoryRing → List StreamPacket
burst cap hist = if cap == 0 then [] else walk cap 0 [] (reverse hist.packets)

-- What the bus relies on of the broadcast channel: a receiver gets, in order, the packets that were
-- sent after it subscribed.
pub record Broadcast : Type 1 where
  pub Sender : Type 0
  pub Receiver : Type 0
  pub send : Sender → StreamPacket → Sender
  pub subscribe : Sender → Receiver × Sender
  pub received : Sender → Receiver → List StreamPacket

abbrev pub send_all : (b : Broadcast) → Broadcast.Sender b → List StreamPacket → Broadcast.Sender b
send_all b s [] = s
send_all b s (p ∷ ps) = send_all b (b.send s p) ps

module _ (b : Broadcast) where
  open b use {Sender, Receiver, send, received}

  pub record TokioBroadcastBus : Type 0 where
    pub sender : Sender
    pub history : HistoryRing
    pub burst_bytes_cap : ℕ

  -- `new`, over a channel that was just made.
  unfoldable pub new : Sender → ℕ → TokioBroadcastBus
  new sender burst_bytes = record {
    sender = sender;
    history = record { packets = []; bytes = 0 };
    burst_bytes_cap = burst_bytes;
  }

  unfoldable pub publish : TokioBroadcastBus → StreamPacket → TokioBroadcastBus
  publish bus packet = record bus {
    sender = send bus.sender packet;
    history =
        evict bus.burst_bytes_cap (bus.history.bytes + packet_bytes packet)
          (bus.history.packets ++ (packet ∷ []));
  }

  -- The packets replayed, the receiver of the live stream and the bus.
  unfoldable pub subscribe : TokioBroadcastBus → List StreamPacket × Receiver × TokioBroadcastBus
  subscribe bus =
      let (receiver, sender') = b.subscribe bus.sender in
      (burst bus.burst_bytes_cap bus.history, receiver, record bus { sender = sender' })

  unfoldable pub subscribe_live : TokioBroadcastBus → Receiver × TokioBroadcastBus
  subscribe_live bus =
      let (receiver, sender') = b.subscribe bus.sender in
      (receiver, record bus { sender = sender' })
