-- ===== src/Admin/ConfigApi/Candidate/Total.antt =====
-- crates/rustyice-admin/src/api/config.rs: no handler reaches its `unreachable!`.
use rusty_ice.Prelude.{
  ◌≡◌, ◌≢◌, inl, inr, refl, not, ◌&&◌, Option, none, some, arith, List, [], ◌∷◌, map, All, Checked,
  val, Checked-cases, Option-cases, Bool-cases,
}
use rusty_ice.Core.Mount.{Text}
use rusty_ice.Core.Config.{
  Config, MountConfig, AutoDjConfig, RelayConfig, TranscodeFormat, TranscodeConfig, validate_paths,
}
use rusty_ice.Auth.{collect_users}
use rusty_ice.Admin.ConfigWrite.{
  WriteError, UserSubPatch, UsersPatch, ServerPatch, TranscodeSubPatch, TranscodePatch,
  MountSubPatch, AutoDjSubPatch, RelaySubPatch,
}
use rusty_ice.Admin.ConfigWrite.Validate.{
  error, is_empty, validate_server_patch, validate_transcode_patch,
}
use rusty_ice.Admin.ConfigWrite.Validate.Entries.{validate_users_patch}
use rusty_ice.Admin.ConfigWrite.Accepts.{IsSoundTranscode, IsSoundOptional, validate_transcode-none}
use rusty_ice.Admin.ConfigWrite.Accepts.Sections.{
  IsSoundMountPatch, IsSoundAutoDj, IsSoundRelayPatch, validate_mounts_patch-none,
  validate_autodjs_patch-none, validate_relays_patch-none,
}
use rusty_ice.Admin.ConfigApi.{
  ServerPutBody, TranscodePutBody, MountSubBody, UserSubBody, AutoDjSubBody, RelaySubBody,
}
use rusty_ice.Admin.ConfigApi.Candidate.{
  mount_config, autodj_config, relay_config, format_of, transcode_of, optional_transcode, mount_of,
  autodj_of, relay_of, collect_checked, overlay_server, overlay_transcode, log_format_of,
}
use rusty_ice.Admin.ConfigApi.Candidate.Resolve.{
  Result, resolve_users, resolve_relay, collect_relays, Resolution, resolved, refused, broken,
}
use rusty_ice.Admin.ConfigApi.Candidate.Decide.{
  Decision, panicked, accepted, if_valid, check_paths, with_resolved, overlay_mounts,
  overlay_autodjs, overlay_relays, overlay_users, server_patch, still_admin, autodj_patch,
  decide_server, decide_transcode, decide_mounts, decide_users, decide_autodjs, decide_relays,
}

module _ {P : Type 0} where
  -- A handler whose candidate is computed whenever the validator accepts does not panic.
  if_valid-total :
      (e : Option WriteError) (q : P) (x : Checked Config)
      → (e ≡ none → (c : Config) × (x ≡ val c))
      → if_valid e (check_paths q x) ≢ panicked
  unfolding if_valid check_paths
  if_valid-total (some e) q x f h = absurd (ground (arith, h))
  if_valid-total none q x f h =
      let (c, e) = f refl in
      elim (Option-cases (validate_paths c)) [
        | inl v ↦ absurd (ground (arith, e, v, h))
        | inr (m, v) ↦ absurd (ground (arith, e, v, h))
      ]

  with_resolved-total :
      {A : Type 0} (r : Resolution A) (next : A → Decision P)
      → ((a : A) → next a ≢ panicked)
      → with_resolved r next ≢ panicked
  unfolding with_resolved
  with_resolved-total (resolved a) next f h = f a h
  with_resolved-total (refused e) next f h = absurd (ground (arith, h))
  with_resolved-total (broken m) next f h = absurd (ground (arith, h))

transcode_of_sound :
    (s : TranscodeSubPatch)
    → IsSoundTranscode s
    → (tc : TranscodeConfig) × (transcode_of s ≡ val tc)
unfolding transcode_of format_of
transcode_of_sound s h = elim h.known_format [
  | inl e ↦ (
    record {
      format = TranscodeFormat.mp3;
      sample_rate = s.sample_rate;
      bitrate_kbps = s.bitrate_kbps;
    },
    ground (arith, e),
  )
  | inr e ↦ (
    record {
      format = TranscodeFormat.vorbis;
      sample_rate = s.sample_rate;
      bitrate_kbps = s.bitrate_kbps;
    },
    ground (arith, e),
  )
]

optional_transcode_sound :
    (o : Option TranscodeSubPatch)
    → IsSoundOptional o
    → (tc : Option TranscodeConfig) × (optional_transcode o ≡ val tc)
unfolding optional_transcode
optional_transcode_sound none h = (none, refl)
optional_transcode_sound (some s) h =
    let (tc, e) = transcode_of_sound s h in (some tc, ground (arith, e))

mount_of_sound :
    (m : MountSubPatch) → IsSoundMountPatch m → (c : MountConfig) × (mount_of m ≡ val c)
unfolding mount_of
mount_of_sound m h =
    let (tc, e) = optional_transcode_sound m.transcode h.sound_transcode in
    (mount_config m tc, ground (arith, e))

autodj_of_sound :
    (a : AutoDjSubPatch) → IsSoundAutoDj a → (c : AutoDjConfig) × (autodj_of a ≡ val c)
unfolding autodj_of
autodj_of_sound a h =
    let (tc, e) = transcode_of_sound a.transcode h.sound_transcode in
    (autodj_config a tc, ground (arith, e))

relay_of_sound :
    (r : RelaySubPatch) → IsSoundRelayPatch r → (c : RelayConfig) × (relay_of r ≡ val c)
unfolding relay_of
relay_of_sound r h =
    let (tc, e) = optional_transcode_sound r.transcode h.sound_transcode in
    (relay_config r tc, ground (arith, e))

optional_none : optional_transcode none ≡ val none
unfolding optional_transcode
optional_none = refl

optional_some :
    (s : TranscodeSubPatch) (tc : TranscodeConfig)
    → transcode_of s ≡ val tc
    → optional_transcode (some s) ≡ val (some tc)
unfolding optional_transcode
optional_some s tc h = ground (arith, h)

collect_sound :
    {A B : Type 0} (f : A → Checked B) (IsSound : A → Type 0)
    → ((a : A) → IsSound a → (b : B) × (f a ≡ val b))
    → (xs : List A) → All IsSound xs
    → (bs : List B) × (collect_checked f xs ≡ val bs)
unfolding collect_checked
collect_sound f IsSound sound [] h = ([], refl)
collect_sound f IsSound sound (x ∷ xs) (h, hs) =
    let (b, e) = sound x h in
    let (bs, g) = collect_sound f IsSound sound xs hs in (b ∷ bs, ground (arith, e, g))

-- The patch of a sound block has a candidate.
overlay_transcode_sound :
    (p : TranscodePatch) (cfg : Config)
    → validate_transcode_patch p ≡ none
    → (c : Config) × (overlay_transcode p cfg ≡ val c)
unfolding overlay_transcode validate_transcode_patch
overlay_transcode_sound p cfg h = elim (Option-cases p.transcode) [
  | inl e ↦ (record cfg { transcode = none }, ground (arith, e, optional_none))
  | inr (s, e) ↦
      let (tc, g) = transcode_of_sound s ((validate_transcode-none s).0 (ground (arith, e, h))) in
      (record cfg { transcode = some tc }, ground (arith, e, optional_some s tc g))
]

overlay_server_sound :
    (p : ServerPatch) (cfg : Config)
    → validate_server_patch p ≡ none
    → (c : Config) × (overlay_server p cfg ≡ val c)
unfolding overlay_server log_format_of validate_server_patch error
overlay_server_sound p cfg h = elim (Checked-cases (overlay_server p cfg)) [
  | inr (c, e) ↦ (c, e)
  | inl e ↦ absurd (ground (arith, e, h))
]

decide_mounts_total : (body : List MountSubBody) (cfg : Config) → decide_mounts body cfg ≢ panicked
unfolding decide_mounts overlay_mounts
decide_mounts_total body cfg = with_resolved-total _ _ λ ms. if_valid-total _ _ _ λ h.
    let (_, sound) = (validate_mounts_patch-none (record { mounts = ms })).0 h in
    let (cs, e) = collect_sound mount_of IsSoundMountPatch mount_of_sound ms sound in
    (record cfg { mounts = cs }, ground (arith, e))

decide_autodjs_total :
    (body : List AutoDjSubBody) (cfg : Config) → decide_autodjs body cfg ≢ panicked
unfolding decide_autodjs overlay_autodjs
decide_autodjs_total body cfg = if_valid-total _ _ _ λ h.
    let djs = map autodj_patch body in
    let (_, sound) = (validate_autodjs_patch-none (record { autodjs = djs })).0 h in
    let (cs, e) = collect_sound autodj_of IsSoundAutoDj autodj_of_sound djs sound in
    (record cfg { autodjs = cs }, ground (arith, e))

decide_relays_total : (body : List RelaySubBody) (cfg : Config) → decide_relays body cfg ≢ panicked
unfolding decide_relays overlay_relays
decide_relays_total body cfg = if_valid-total _ _ _ λ h.
    let rs = map (resolve_relay (collect_relays [] cfg.relays)) body in
    let (_, sound) = (validate_relays_patch-none (record { relays = rs })).0 h in
    let (cs, e) = collect_sound relay_of IsSoundRelayPatch relay_of_sound rs sound in
    (record cfg { relays = cs }, ground (arith, e))

if_valid_accepted_total :
    {P : Type 0} (e : Option WriteError) (c : Config) (p : P) → if_valid e (accepted c p) ≢ panicked
unfolding if_valid
if_valid_accepted_total none c p h = absurd (ground (arith, h))
if_valid_accepted_total (some e) c p h = absurd (ground (arith, h))

decide_users_total :
    (hash : Text → Result Text) (who : Text) (body : List UserSubBody) (cfg : Config)
    → decide_users hash who body cfg ≢ panicked
unfolding decide_users
decide_users_total hash who body cfg h =
    let next : List UserSubPatch → Decision UsersPatch = λ us.
      if_valid (validate_users_patch (record { users = us }))
        (accepted (overlay_users (record { users = us }) cfg) (record { users = us })) in
    let total =
      with_resolved-total (resolve_users hash (collect_users [] cfg.auth.users) 0 body) next
        (λ us. if_valid_accepted_total _ _ _) in
    elim (Bool-cases (not (is_empty who) && not (still_admin who body))) [
      | inl e ↦ absurd (ground (arith, e, h))
      | inr e ↦ total (ground (arith, e, h))
    ]

-- Whatever the body and the running configuration, none of the six handlers reaches its `unreachable!`: what
-- passes the validator has a format that the handler knows.
pub decide_total :
    (hash : Text → Result Text) (who : Text) (cfg : Config)
    → (server : ServerPutBody) (transcode : TranscodePutBody) (mounts : List MountSubBody)
    → (users : List UserSubBody) (autodjs : List AutoDjSubBody) (relays : List RelaySubBody)
    → (decide_server server cfg ≢ panicked)
      × (decide_transcode transcode cfg ≢ panicked)
      × (decide_mounts mounts cfg ≢ panicked)
      × (decide_users hash who users cfg ≢ panicked)
      × (decide_autodjs autodjs cfg ≢ panicked)
      × (decide_relays relays cfg ≢ panicked)
unfolding decide_server decide_transcode
decide_total hash who cfg server transcode mounts users autodjs relays = (
  if_valid-total _ _ _ (overlay_server_sound (server_patch server) cfg),
  if_valid-total _ _ _ (overlay_transcode_sound _ cfg),
  decide_mounts_total mounts cfg,
  decide_users_total hash who users cfg,
  decide_autodjs_total autodjs cfg,
  decide_relays_total relays cfg,
)
