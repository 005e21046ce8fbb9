-- ===== src/Server/SourceProtocol/Admission.antt =====
-- crates/rustyice-server/src/source_protocol.rs: how a source is let onto a mount, and how it leaves it.
-- The checks of `handle_source_connection` run one after the other here; how the accesses of several
-- tasks interleave is in Core/Mount/Slot. Passwords are checked by the backend, whose `none` is an
-- error.
use rusty_ice.Prelude.{
  ℕ, ◌||◌, ◌&&◌, Bool, true, false, not, Option, none, some, List, [], ◌∷◌, ◌++◌, Dict, insert,
  if◌then◌else◌,
}
use rusty_ice.Core.Types.{CodecId, codec_eq}
use rusty_ice.Core.Config.{Config, TranscodeConfig}
use rusty_ice.Core.Mount.{Text, SourceKind, SourceOverlay, ActiveMount, new}
use rusty_ice.Core.Mount.Registry.{Mount, add, remove, get}
use rusty_ice.Admin.Listeners.{ListenerMap, ids_for_mount, kick}
use rusty_ice.Server.Bus.{has_capacity}
use rusty_ice.Server.SourceHeaders.{Headers, parse_source_overlay}
use rusty_ice.Server.SourceProtocol.Credentials.{
  extract_source_password, detect_codec_from_content_type,
}
use rusty_ice.Server.StreamRouter.{mount_transcode}

pub record SourceAuth : Type 0 where
  pub verify_source : Text → Text → Option Bool
  pub verify_default_source : Text → Option Bool

-- The mounts, the listeners and the tokens cancelled so far.
pub record Hub : Type 0 where
  pub mounts : Dict Mount
  pub listeners : ListenerMap
  pub cancelled : List ℕ

-- What a connection meets: the configuration, the backend, the decoder of base64, the mount as each
-- look at it during the wait for its owner finds it, and its own token and instant.
pub record Surroundings : Type 0 where
  pub config : Config
  pub auth : SourceAuth
  pub decode : Text → Option (List ℕ)
  pub looks : List ActiveMount
  pub token : ℕ
  pub now : ℕ

pub record Request : Type 0 where
  pub path : Text
  pub headers : Headers

unfoldable pub is_non_live : SourceKind → Bool
is_non_live SourceKind.unowned = false
is_non_live SourceKind.live = false
is_non_live SourceKind.auto_dj = true
is_non_live SourceKind.relay = true

unfoldable pub token_of : ActiveMount → List ℕ
token_of m = elim m.source_cancel [ none ↦ [] | some t ↦ t ∷ [] ]

-- The loop that waits for the owner; the deadline comes after the last look.
unfoldable pub wait_released : ActiveMount → List ActiveMount → Bool × ActiveMount
wait_released m [] = (not m.source_connected, m)
wait_released m (next ∷ looks) =
    let later = wait_released next looks in if m.source_connected then later else (true, m)

-- Whether the slot is free of a non-live owner, the mount, and the tokens cancelled.
unfoldable pub preempt_non_live_if_present :
    List ActiveMount → ActiveMount → Bool × ActiveMount × List ℕ
preempt_non_live_if_present looks m =
    let (released, m') = wait_released (record m { preempt_pending = true }) looks in
    if m.source_connected && is_non_live m.source_kind
    then (released, m', token_of m)
    else (true, m, [])

unfoldable pub dynamic_mount : Config → Text → CodecId → Mount
dynamic_mount cfg path codec = record {
  active = new (record {
    path = path;
    codec = codec;
    source_password = [];
    max_listeners = none;
    metadata = record { name = none; description = none; genre = none; url = none };
  });
  ring_size = cfg.limits.ring_size;
  bus_burst = cfg.limits.burst_size;
}

-- `dynamic` tells whether the mount was made for the source; where its bus cannot be made, the task of
-- the connection panics.
pub data Resolved : Type 0 where
  found : Mount → Bool → Resolved
  unauthorized internal crashed : Resolved

unfoldable pub resolve_existing : Surroundings → Text → Text → Mount → Hub → Resolved × Hub
resolve_existing env path password m hub =
    let (released, active, tokens) = preempt_non_live_if_present env.looks m.active in
    let m' = record m { active = active } in
    let hub' = record hub {
      mounts = insert path m' hub.mounts;
      cancelled = tokens ++ hub.cancelled;
    } in
    if not released then (internal, hub') else elim (env.auth.verify_source path password) [
      | none ↦ (internal, hub')
      | some ok ↦ if ok then (found m' false, hub') else (unauthorized, hub')
    ]

unfoldable pub create_dynamic_mount : Config → Text → CodecId → Hub → Resolved × Hub
create_dynamic_mount cfg path codec hub =
    let m = dynamic_mount cfg path codec in
    if has_capacity cfg.limits.ring_size
    then (found m true, record hub { mounts = add m hub.mounts })
    else (crashed, hub)

unfoldable pub resolve_missing : Surroundings → Text → Text → CodecId → Hub → Resolved × Hub
resolve_missing env path password codec hub = elim (env.auth.verify_default_source password) [
  | none ↦ (internal, hub)
  | some ok ↦ if ok then create_dynamic_mount env.config path codec hub else (unauthorized, hub)
]

unfoldable pub resolve_or_create_mount : Surroundings → Text → Text → CodecId → Hub → Resolved × Hub
resolve_or_create_mount env path password codec hub = elim (get path hub.mounts) [
  | some m ↦ resolve_existing env path password m hub
  | none ↦ resolve_missing env path password codec hub
]

-- Whether a source of this codec may feed a mount with this transcoder.
unfoldable pub is_supported : Option TranscodeConfig → CodecId → Bool
is_supported none codec = true
is_supported (some _) codec = codec_eq codec CodecId.mp3 || codec_eq codec CodecId.vorbis

unfoldable pub claim : ℕ → ℕ → CodecId → SourceOverlay → ActiveMount → ActiveMount
claim token now codec overlay m = record m {
  source_connected = true;
  source_cancel = some token;
  connected_at = some now;
  info = record m.info { codec = codec };
  source_overlay = some overlay;
}

-- The statuses 401, 500, 415 and 409, a source that may send, or a panic without an answer.
pub data Admission : Type 0 where
  rejected : ℕ → Admission
  admitted : Bool → Admission
  dropped : Admission

unfoldable pub claim_found : Surroundings → Request → CodecId → Mount → Bool → Hub → Admission × Hub
claim_found env req codec m dynamic hub =
    let claimed = claim env.token env.now codec (parse_source_overlay req.headers) m.active in
    if not (is_supported (mount_transcode env.config req.path) codec)
    then (rejected 415, hub)
    else if m.active.source_connected
    then (rejected 409, hub)
    else (
      admitted dynamic,
      record hub { mounts = insert req.path (record m { active = claimed }) hub.mounts },
    )

-- `handle_source_connection` up to the answer before the body.
unfoldable pub admit_source : Surroundings → Request → Hub → Admission × Hub
admit_source env req hub =
    let password = extract_source_password env.decode req.headers in
    let codec = detect_codec_from_content_type req.headers in
    let (resolved, hub') = resolve_or_create_mount env req.path password codec hub in
    elim resolved [
      | found m dynamic ↦ claim_found env req codec m dynamic hub'
      | unauthorized ↦ (rejected 401, hub')
      | internal ↦ (rejected 500, hub')
      | crashed ↦ (dropped, hub')
    ]

unfoldable pub kick_all : List ℕ → ListenerMap → List ℕ
kick_all [] listeners = []
kick_all (id ∷ ids) listeners = (kick id listeners).1 ++ kick_all ids listeners

unfoldable pub disconnected : ActiveMount → ActiveMount
disconnected m = record m {
  source_connected = false;
  source_cancel = none;
  connected_at = none;
  source_overlay = none;
  header_bytes = none;
}

-- The drop of `SourceDisconnectGuard`, while its mount is the one registered at the path.
unfoldable pub drop_guard : Bool → Text → Hub → Hub
drop_guard dynamic path hub =
    let mounts : Dict Mount = elim (get path hub.mounts) [
      | none ↦ hub.mounts
      | some m ↦ insert path (record m { active = disconnected m.active }) hub.mounts
    ] in
    record hub {
      mounts = if dynamic then remove path mounts else mounts;
      cancelled = kick_all (ids_for_mount path hub.listeners) hub.listeners ++ hub.cancelled;
    }
