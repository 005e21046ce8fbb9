-- ===== src/Server/Bus/Contiguous.antt =====
-- crates/rustyice-server/src/bus.rs: history and live stream meet without a gap or a repetition.
use rusty_ice.Prelude.{
  ℕ, ◌+◌, ◌≤◌, ◌≡◌, ◌⊎◌, ◌∙◌, refl, sym, ap, subst, inl, List, [], ◌∷◌, ◌++◌, length, arith,
  append_assoc, append-nil,
}
use rusty_ice.Core.Types.{StreamPacket}
use rusty_ice.Server.Bus.{
  packet_bytes, Broadcast, TokioBroadcastBus, send_all, new, publish, subscribe, burst,
}
use rusty_ice.Server.Bus.History.{
  IsWithin, evict-IsWithin, evict-suffix, bytes_of, bytes_of-append, burst-suffix, burst-Fits,
}

module _ (b : Broadcast) where
  open b use {Sender, Receiver, send, received}

  abbrev pub publish_all : TokioBroadcastBus b → List StreamPacket → TokioBroadcastBus b
  publish_all bus [] = bus
  publish_all bus (p ∷ ps) = publish_all (publish b bus p) ps

  -- The documented behaviour of the channel, for a receiver that keeps up.
  abbrev pub Delivers : Type 0
  Delivers =
      (s : Sender) (ps : List StreamPacket)
      → received (send_all b (b.subscribe s).1 ps) (b.subscribe s).0 ≡ ps

  -- Publishing keeps the history within the burst size.
  pub publish-IsWithin :
      (bus : TokioBroadcastBus b) (p : StreamPacket)
      → IsWithin bus.burst_bytes_cap bus.history
      → IsWithin bus.burst_bytes_cap (publish b bus p).history
  unfolding publish
  publish-IsWithin bus p h =
      evict-IsWithin bus.burst_bytes_cap (bus.history.bytes + packet_bytes p)
        (bus.history.packets ++ (p ∷ []))
        (omega (arith, h.total, bytes_of-append bus.history.packets (p ∷ [])))

  publish_all-cap :
      (bus : TokioBroadcastBus b) (ps : List StreamPacket)
      → (publish_all bus ps).burst_bytes_cap ≡ bus.burst_bytes_cap
  unfolding publish
  publish_all-cap bus [] = refl
  publish_all-cap bus (p ∷ ps) = publish_all-cap (publish b bus p) ps

  publish_all-sender :
      (bus : TokioBroadcastBus b) (ps : List StreamPacket)
      → (publish_all bus ps).sender ≡ send_all b bus.sender ps
  unfolding publish
  publish_all-sender bus [] = refl
  publish_all-sender bus (p ∷ ps) = publish_all-sender (publish b bus p) ps

  publish_all-suffix :
      (bus : TokioBroadcastBus b) (ps : List StreamPacket)
      → (gone : List StreamPacket) × (bus.history.packets ++ ps
          ≡ gone ++ (publish_all bus ps).history.packets)
  unfolding publish
  publish_all-suffix bus [] = ([], append-nil bus.history.packets)
  publish_all-suffix bus (p ∷ ps) =
      let (gone, e) =
        evict-suffix bus.burst_bytes_cap (bus.history.bytes + packet_bytes p)
          (bus.history.packets ++ (p ∷ [])) in
      let (more, f) = publish_all-suffix (publish b bus p) ps in
      let next = (publish b bus p).history.packets in
      let front : bus.history.packets ++ (p ∷ ps) ≡ gone ++ (next ++ ps) =
        sym (append_assoc bus.history.packets (p ∷ []) ps)
        ∙ ap (λ l. l ++ ps) e
        ∙ append_assoc gone next ps in
      (gone ++ more, front ∙ ap (◌++◌ gone) f ∙ sym (append_assoc gone more _))

  publish_all-IsWithin :
      (bus : TokioBroadcastBus b) (ps : List StreamPacket)
      → IsWithin bus.burst_bytes_cap bus.history
      → IsWithin bus.burst_bytes_cap (publish_all bus ps).history
  unfolding publish
  publish_all-IsWithin bus [] h = h
  publish_all-IsWithin bus (p ∷ ps) h =
      publish_all-IsWithin (publish b bus p) ps (publish-IsWithin bus p h)

  -- Whatever was published, the history's byte total is that of the packets it holds, and it keeps
  -- within the burst size unless a single packet is left.
  pub history-IsWithin :
      (s : Sender) (cap : ℕ) (ps : List StreamPacket)
      → IsWithin cap (publish_all (new b s cap) ps).history
  unfolding new
  history-IsWithin s cap ps =
      publish_all-IsWithin (new b s cap) ps (record { total = refl; bounded = inl (omega arith) })

  -- A subscriber sees a suffix of what was published before it subscribed and then all that is
  -- published after, in order, with nothing left out or repeated in between; the replayed part fits
  -- the burst size unless it is a single packet. The channel is assumed to deliver what is sent after
  -- a subscription.
  pub subscribe-contiguous :
      (s : Sender) (cap : ℕ) (before after : List StreamPacket)
      → Delivers
      → let bus = publish_all (new b s cap) before in
        let sub = subscribe b bus in
        (older : List StreamPacket) × (before ++ after
          ≡ older ++ (sub.0 ++ received (publish_all sub.2 after).sender sub.1))
        × ((bytes_of sub.0 ≤ cap) ⊎ (length sub.0 ≡ 1))
  unfolding new subscribe
  subscribe-contiguous s cap before after delivers =
      let bus = publish_all (new b s cap) before in
      let (gone, e) = publish_all-suffix (new b s cap) before in
      let (skipped, f) = burst-suffix bus.burst_bytes_cap bus.history in
      let same = publish_all-cap (new b s cap) before in
      let sub = subscribe b bus in
      let snapshot = burst bus.burst_bytes_cap bus.history in
      let live : received (publish_all sub.2 after).sender sub.1 ≡ after =
        ap (λ c. received c sub.1) (publish_all-sender sub.2 after) ∙ delivers bus.sender after in
      let held : before ≡ (gone ++ skipped) ++ snapshot =
        e ∙ ap (◌++◌ gone) f ∙ sym (append_assoc gone skipped snapshot) in
      let joined : before ++ after ≡ (gone ++ skipped) ++ (snapshot ++ after) =
        ap (λ l. l ++ after) held ∙ append_assoc (gone ++ skipped) snapshot after in
      (
        gone ++ skipped,
        joined ∙ ap (λ l. (gone ++ skipped) ++ (snapshot ++ l)) (sym live),
        subst (λ k. (bytes_of snapshot ≤ k) ⊎ (length snapshot ≡ 1)) same
            (burst-Fits bus.burst_bytes_cap bus.history),
      )
