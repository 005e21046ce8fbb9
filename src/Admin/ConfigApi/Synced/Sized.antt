-- ===== src/Admin/ConfigApi/Synced/Sized.antt =====
-- crates/rustyice-admin/src/api/config.rs: what the validators accept fits the numbers of the file, apart
-- from the most listeners, which the type of the body's field bounds.
use rusty_ice.Prelude.{
  ℕ, ◌≤◌, ◌+◌, ◌≡◌, refl, subst, Option, none, some, arith, List, [], ◌∷◌, map, All, Dict, ascii,
}
use rusty_ice.Core.Mount.{Text}
use rusty_ice.Admin.ConfigWrite.{
  TranscodeSubPatch, MountSubPatch, UserSubPatch, AutoDjSubPatch, RelaySubPatch,
}
use rusty_ice.Admin.ConfigWrite.Accepts.{IsSoundTranscode, IsSoundOptional, one_of}
use rusty_ice.Admin.ConfigWrite.Accepts.Sections.{
  IsSoundMountPatch, IsSoundUser, IsSoundAutoDj, IsSoundRelayPatch,
}
use rusty_ice.Admin.ConfigApi.{MountSubBody, AutoDjSubBody, RelaySubBody}
use rusty_ice.Admin.ConfigApi.Candidate.Resolve.{
  resolved, mount_patch, resolve_mount_password, resolve_mounts, resolve_relay,
}
use rusty_ice.Admin.ConfigApi.Candidate.Decide.{autodj_patch}
use rusty_ice.Admin.ConfigApi.Candidate.Accepted.{then-resolved}
use rusty_ice.Admin.ConfigApi.ReadBack.{IsOptionalU32, IsSizedTranscode, IsSizedOptional}
use rusty_ice.Admin.ConfigApi.ReadBack.Entries.{
  IsSizedMount, IsSizedAutoDj, IsSizedRelay, IsOrder, IsRole,
}

resolved_inj : {A : Type 0} {a b : A} → resolved a ≡ resolved b → a ≡ b
resolved_inj h = ground (arith, h)

-- Sound blocks are small.
pub IsSound-sized : (s : TranscodeSubPatch) → IsSoundTranscode s → IsSizedTranscode s
IsSound-sized s h = (omega (arith, h.sample_rate_bound), omega (arith, h.bitrate_bound))

pub optional-sized : (o : Option TranscodeSubPatch) → IsSoundOptional o → IsSizedOptional o
optional-sized none h = tt
optional-sized (some s) h = IsSound-sized s h

burst-sized : (o : Option ℕ) → ((b : ℕ) → o ≡ some b → b ≤ 16777216) → IsOptionalU32 o
burst-sized none h = tt
burst-sized (some b) h = omega (arith, h b refl)

pub resolve_mounts-listeners :
    (existing : Dict Text) (global : Option Text) (idx : ℕ) (ms : List MountSubBody)
    → (ps : List MountSubPatch) → All (λ m. IsOptionalU32 m.max_listeners) ms
    → resolve_mounts existing global idx ms ≡ resolved ps
    → All (λ p. IsOptionalU32 p.max_listeners) ps
unfolding resolve_mounts mount_patch
resolve_mounts-listeners existing global idx [] ps h e =
    subst (All (λ p. IsOptionalU32 p.max_listeners)) (resolved_inj e) tt
resolve_mounts-listeners existing global idx (m ∷ ms) ps (h, hs) e =
    let (p, _, f) = then-resolved (resolve_mount_password existing global idx m) _ ps e in
    let (qs, g, k) = then-resolved (resolve_mounts existing global (idx + 1) ms) _ ps f in
    subst (All (λ p. IsOptionalU32 p.max_listeners)) (resolved_inj k)
      (h, resolve_mounts-listeners existing global (idx + 1) ms qs hs g)

pub sized_mounts :
    (ps : List MountSubPatch)
    → All (λ p. IsOptionalU32 p.max_listeners) ps
    → All IsSoundMountPatch ps
    → All IsSizedMount ps
sized_mounts [] h k = tt
sized_mounts (p ∷ ps) (h, hs) (k, ks) = (
  (h, burst-sized p.burst_size k.burst_bound, optional-sized p.transcode k.sound_transcode),
  sized_mounts ps hs ks,
)

pub sized_autodjs :
    (ps : List AutoDjSubPatch)
    → All (λ p. IsOptionalU32 p.max_listeners) ps
    → All IsSoundAutoDj ps
    → All (λ a. IsSizedAutoDj a × IsOrder a) ps
sized_autodjs [] h k = tt
sized_autodjs (p ∷ ps) (h, hs) (k, ks) = (
  (
    (h, burst-sized p.burst_size k.burst_bound, IsSound-sized p.transcode k.sound_transcode),
    (one_of p.order (ascii "shuffle") (ascii "sequential")).1 k.known_order,
  ),
  sized_autodjs ps hs ks,
)

pub sized_relays :
    (ps : List RelaySubPatch)
    → All (λ p. IsOptionalU32 p.max_listeners) ps
    → All IsSoundRelayPatch ps
    → All IsSizedRelay ps
sized_relays [] h k = tt
sized_relays (p ∷ ps) (h, hs) (k, ks) = (
  (h, burst-sized p.burst_size k.burst_bound, optional-sized p.transcode k.sound_transcode),
  sized_relays ps hs ks,
)

pub roles : (us : List UserSubPatch) → All IsSoundUser us → All IsRole us
roles [] h = tt
roles (u ∷ us) (h, hs) =
    ((one_of u.role (ascii "admin") (ascii "operator")).1 h.known_role, roles us hs)

pub autodj-listeners :
    (body : List AutoDjSubBody)
    → All (λ a. IsOptionalU32 a.max_listeners) body
    → All (λ p. IsOptionalU32 p.max_listeners) (map autodj_patch body)
unfolding autodj_patch
autodj-listeners [] h = tt
autodj-listeners (a ∷ body) (h, hs) = (h, autodj-listeners body hs)

pub relay-listeners :
    (existing : Dict Text) (body : List RelaySubBody)
    → All (λ r. IsOptionalU32 r.max_listeners) body
    → All (λ p. IsOptionalU32 p.max_listeners) (map (resolve_relay existing) body)
unfolding resolve_relay
relay-listeners existing [] h = tt
relay-listeners existing (r ∷ body) (h, hs) = (h, relay-listeners existing body hs)
