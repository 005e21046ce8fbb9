-- ===== src/Server/SourceProtocol/Authorized.antt =====
-- crates/rustyice-server/src/source_protocol.rs: who is let onto a mount, and what else it changes.
use rusty_ice.Prelude.{
  ◌≡◌, ◌⊎◌, refl, sym, subst, inl, inr, Bool, true, false, Option, none, some, Dict, lookup, insert,
  lookup-insert, arith, bytes_eq, bytes_eq_refl, if◌then◌else◌, Option-cases, Bool-cases,
}
use rusty_ice.Core.Types.{CodecId}
use rusty_ice.Core.Mount.{Text, new}
use rusty_ice.Core.Mount.Registry.{Mount, add, get}
use rusty_ice.Server.SourceHeaders.{parse_source_overlay}
use rusty_ice.Server.SourceProtocol.Credentials.{
  extract_source_password, detect_codec_from_content_type,
}
use rusty_ice.Server.StreamRouter.{mount_transcode}
use rusty_ice.Server.SourceProtocol.Admission.{
  SourceAuth, Hub, Surroundings, Request, preempt_non_live_if_present, dynamic_mount, Resolved,
  found, unauthorized, internal, crashed, resolve_existing, create_dynamic_mount, resolve_missing,
  resolve_or_create_mount, is_supported, claim, admitted, claim_found, admit_source,
}

-- The password opens the mount that is registered, or else makes one.
abbrev pub IsAuthorized : SourceAuth → Text → Text → Option Mount → Bool → Type 0
IsAuthorized auth path password (some m) dynamic =
    (auth.verify_source path password ≡ some true) × (dynamic ≡ false)
IsAuthorized auth path password none dynamic =
    (auth.verify_default_source password ≡ some true) × (dynamic ≡ true)

resolve-IsAuthorized :
    (env : Surroundings) (path password : Text) (codec : CodecId) (hub : Hub) (m : Mount) (d : Bool)
    → (resolve_or_create_mount env path password codec hub).0 ≡ found m d
    → IsAuthorized env.auth path password (lookup path hub.mounts) d
unfolding resolve_or_create_mount get resolve_existing resolve_missing create_dynamic_mount
resolve-IsAuthorized env path password codec hub m d h =
    elim (Option-cases (lookup path hub.mounts)) [
      | inl gone ↦ rw gone (ground (arith, gone, h))
      | inr (m', here) ↦ rw here (ground (arith, here, h))
    ]

-- What a mount is like that a source was let onto.
abbrev pub IsClaimed : Surroundings → Request → Option Mount → Type 0
IsClaimed env req none = ⊥
IsClaimed env req (some m) =
    (m.active.source_connected ≡ true)
    × (m.active.source_cancel ≡ some env.token)
    × (m.active.source_overlay ≡ some (parse_source_overlay req.headers))
    × (m.active.info.codec ≡ detect_codec_from_content_type req.headers)
    × (is_supported (mount_transcode env.config req.path) m.active.info.codec ≡ true)

-- The mount after a claim.
unfoldable pub claimed_mount : Surroundings → Request → Mount → Mount
claimed_mount env req m = record m {
  active =
      claim env.token env.now (detect_codec_from_content_type req.headers)
        (parse_source_overlay req.headers) m.active;
}

pub claim_found-admitted :
    (env : Surroundings) (req : Request) (m : Mount) (made : Bool) (hub : Hub) (d : Bool)
    → (claim_found env req (detect_codec_from_content_type req.headers) m made hub).0 ≡ admitted d
    → (made ≡ d)
      × (is_supported
            (mount_transcode env.config req.path)
            (detect_codec_from_content_type req.headers)
          ≡ true)
      × (m.active.source_connected ≡ false)
      × (claim_found env req (detect_codec_from_content_type req.headers) m made hub ≡ (
        admitted made,
        record hub { mounts = insert req.path (claimed_mount env req m) hub.mounts },
      ))
unfolding claim_found claimed_mount
claim_found-admitted env req m made hub d h =
    let fits =
      is_supported (mount_transcode env.config req.path)
        (detect_codec_from_content_type req.headers) in
    elim (Bool-cases fits) [
      | inr bad ↦ absurd (ground (arith, bad, h))
      | inl ok ↦ elim (Bool-cases m.active.source_connected) [
        | inl taken ↦ absurd (ground (arith, ok, taken, h))
        | inr free ↦ (ground (arith, ok, free, h), ok, free, ground (arith, ok, free))
      ]
    ]

Resolved-cases :
    (r : Resolved)
    → ((m : Mount) × (made : Bool) × (r ≡ found m made))
      ⊎ ((r ≡ unauthorized) ⊎ ((r ≡ internal) ⊎ (r ≡ crashed)))
Resolved-cases (found m made) = inl (m, made, refl)
Resolved-cases unauthorized = inr (inl refl)
Resolved-cases internal = inr (inr (inl refl))
Resolved-cases crashed = inr (inr (inr refl))

pub lookup-add_dynamic :
    (p : Text) (env : Surroundings) (path : Text) (codec : CodecId) (d : Dict Mount)
    → lookup p (add (dynamic_mount env.config path codec) d)
      ≡ (if bytes_eq p path then some (dynamic_mount env.config path codec) else lookup p d)
unfolding add dynamic_mount new
lookup-add_dynamic p env path codec d = lookup-insert p path (dynamic_mount env.config path codec) d

resolve-others :
    (env : Surroundings) (path password : Text) (codec : CodecId) (hub : Hub) (p : Text)
    → bytes_eq p path ≡ false
    → lookup p (resolve_or_create_mount env path password codec hub).1.mounts ≡ lookup p hub.mounts
unfolding resolve_or_create_mount get resolve_existing resolve_missing create_dynamic_mount
resolve-others env path password codec hub p other = elim (Option-cases (lookup path hub.mounts)) [
  | inl gone ↦ ground (arith, gone, other, lookup-add_dynamic p env path codec hub.mounts)
  | inr (m, here) ↦
      let m' = record m { active = (preempt_non_live_if_present env.looks m.active).1 } in
      ground (arith, here, other, lookup-insert p path m' hub.mounts)
]

claim-others :
    (env : Surroundings) (req : Request) (codec : CodecId) (m : Mount) (made : Bool) (hub : Hub)
    (p : Text)
    → bytes_eq p req.path ≡ false
    → lookup p (claim_found env req codec m made hub).1.mounts ≡ lookup p hub.mounts
unfolding claim_found
claim-others env req codec m made hub p other =
    let claimed = claim env.token env.now codec (parse_source_overlay req.headers) m.active in
    ground (arith, other, lookup-insert p req.path (record m { active = claimed }) hub.mounts)

-- An admitted source was found a mount, and that is claimed.
pub admit-found :
    (env : Surroundings) (req : Request) (hub : Hub) (d : Bool)
    → (admit_source env req hub).0 ≡ admitted d
    → let password = extract_source_password env.decode req.headers in
      let codec = detect_codec_from_content_type req.headers in
      let resolved = resolve_or_create_mount env req.path password codec hub in
      (m : Mount) × (made : Bool) × (resolved.0 ≡ found m made)
      × ((claim_found env req codec m made resolved.1).0 ≡ admitted d)
      × (admit_source env req hub ≡ claim_found env req codec m made resolved.1)
unfolding admit_source
admit-found env req hub d h =
    let password = extract_source_password env.decode req.headers in
    let codec = detect_codec_from_content_type req.headers in
    let resolved = resolve_or_create_mount env req.path password codec hub in
    elim (Resolved-cases resolved.0) [
      | inl (m, made, e) ↦ (m, made, e, ground (arith, e, h), ground (arith, e))
      | inr (inl e) ↦ absurd (ground (arith, e, h))
      | inr (inr (inl e)) ↦ absurd (ground (arith, e, h))
      | inr (inr (inr e)) ↦ absurd (ground (arith, e, h))
    ]

-- A source that is let onto a mount has shown the password of that mount, or, where none was
-- registered, the one that may make a mount; it then holds the slot with its own token, overlay and
-- codec, and the mount's transcoder, if there is one, takes that codec.
pub admit_source-IsClaimed :
    (env : Surroundings) (req : Request) (hub : Hub) (d : Bool)
    → (admit_source env req hub).0 ≡ admitted d
    → IsAuthorized env.auth req.path
        (extract_source_password env.decode req.headers)
        (lookup req.path hub.mounts)
        d
      × IsClaimed env req (lookup req.path (admit_source env req hub).1.mounts)
unfolding claimed_mount claim
admit_source-IsClaimed env req hub d h =
    let password = extract_source_password env.decode req.headers in
    let codec = detect_codec_from_content_type req.headers in
    let (m, made, e, g, same) = admit-found env req hub d h in
    let hub' = (resolve_or_create_mount env req.path password codec hub).1 in
    let (is, fits, free, done) = claim_found-admitted env req m made hub' d g in
    let here : lookup req.path (admit_source env req hub).1.mounts
        ≡ some (claimed_mount env req m) =
      ground (
        arith,
        same,
        done,
        bytes_eq_refl req.path,
        lookup-insert req.path req.path (claimed_mount env req m) hub'.mounts,
      ) in
    (
      resolve-IsAuthorized env req.path password codec hub m d (ground (arith, e, is)),
      subst (IsClaimed env req) (sym here) (refl, refl, refl, refl, fits),
    )

-- Whatever comes of a source's request, the mounts at other paths stay as they are.
pub admit_source-others :
    (env : Surroundings) (req : Request) (hub : Hub) (p : Text)
    → bytes_eq p req.path ≡ false
    → lookup p (admit_source env req hub).1.mounts ≡ lookup p hub.mounts
unfolding admit_source
admit_source-others env req hub p other =
    let password = extract_source_password env.decode req.headers in
    let codec = detect_codec_from_content_type req.headers in
    let resolved = resolve_or_create_mount env req.path password codec hub in
    let start = resolve-others env req.path password codec hub p other in
    elim (Resolved-cases resolved.0) [
      | inl (m, made, e) ↦
          ground (arith, e, start, claim-others env req codec m made resolved.1 p other)
      | inr (inl e) ↦ ground (arith, e, start)
      | inr (inr (inl e)) ↦ ground (arith, e, start)
      | inr (inr (inr e)) ↦ ground (arith, e, start)
    ]
