-- ===== src/Server/SourceProtocol/Leaving.antt =====
-- crates/rustyice-server/src/source_protocol.rs: what a source leaves behind, refused or done.
use rusty_ice.Prelude.{
  ℕ, ◌≡◌, refl, subst, inl, inr, Bool, true, false, none, some, List, lookup, insert, lookup-insert,
  lookup-erase, arith, bytes_eq_refl, if◌then◌else◌, Option-cases, Bool-cases,
}
use rusty_ice.Core.Mount.{Text, ActiveMount, new}
use rusty_ice.Core.Mount.Registry.{Mount, remove, get}
use rusty_ice.Server.Bus.{has_capacity}
use rusty_ice.Server.SourceProtocol.Credentials.{
  extract_source_password, detect_codec_from_content_type,
}
use rusty_ice.Server.StreamRouter.{mount_transcode}
use rusty_ice.Server.SourceProtocol.Admission.{
  Hub, Surroundings, Request, preempt_non_live_if_present, dynamic_mount, resolve_existing,
  create_dynamic_mount, resolve_missing, resolve_or_create_mount, is_supported, rejected, admitted,
  claim_found, admit_source, disconnected, drop_guard,
}
use rusty_ice.Server.SourceProtocol.Authorized.{
  IsAuthorized, claimed_mount, claim_found-admitted, admit-found, lookup-add_dynamic,
  admit_source-IsClaimed,
}

abbrev password_in : Surroundings → Request → Text
password_in env req = extract_source_password env.decode req.headers

abbrev pub Fits : Surroundings → Request → Bool → Type 0
Fits env req b =
    is_supported (mount_transcode env.config req.path) (detect_codec_from_content_type req.headers)
    ≡ b

-- A mount that nobody feeds takes a source with its password.
admit-free :
    (env : Surroundings) (req : Request) (hub : Hub) (m : Mount)
    → lookup req.path hub.mounts ≡ some m
    → m.active.source_connected ≡ false
    → env.auth.verify_source req.path (password_in env req) ≡ some true
    → Fits env req true
    → (admit_source env req hub).0 ≡ admitted false
unfolding admit_source resolve_or_create_mount get resolve_existing preempt_non_live_if_present
    claim_found
admit-free env req hub m here free ok fits = ground (arith, here, free, ok, fits)

admit-missing :
    (env : Surroundings) (req : Request) (hub : Hub)
    → lookup req.path hub.mounts ≡ none
    → env.auth.verify_default_source (password_in env req) ≡ some true
    → has_capacity env.config.limits.ring_size ≡ true
    → Fits env req true
    → (admit_source env req hub).0 ≡ admitted true
unfolding admit_source resolve_or_create_mount get resolve_missing create_dynamic_mount
    dynamic_mount new claim_found
admit-missing env req hub gone ok room fits = ground (arith, gone, ok, room, fits)

-- Where no mount is registered and a bus can be made, a source that may make a mount but whose codec the transcoder does not take is
-- answered 415, and the mount that was made for it stays registered, without a source.
pub unsupported-admit_source :
    (env : Surroundings) (req : Request) (hub : Hub)
    → lookup req.path hub.mounts ≡ none
    → env.auth.verify_default_source (extract_source_password env.decode req.headers) ≡ some true
    → has_capacity env.config.limits.ring_size ≡ true
    → Fits env req false
    → ((admit_source env req hub).0 ≡ rejected 415)
      × (lookup req.path (admit_source env req hub).1.mounts
          ≡ some (dynamic_mount env.config req.path (detect_codec_from_content_type req.headers)))
unfolding admit_source resolve_or_create_mount get resolve_missing create_dynamic_mount claim_found
unsupported-admit_source env req hub gone ok room fits =
    let codec = detect_codec_from_content_type req.headers in
    (
      ground (arith, gone, ok, room, fits),
      ground (
        arith,
        gone,
        ok,
        room,
        fits,
        bytes_eq_refl req.path,
        lookup-add_dynamic req.path env req.path codec hub.mounts,
      ),
    )

-- The bus of a mount was made for a source that was let onto it.
admitted-has_capacity :
    (env : Surroundings) (req : Request) (hub : Hub) (d : Bool)
    → lookup req.path hub.mounts ≡ none
    → (admit_source env req hub).0 ≡ admitted d
    → has_capacity env.config.limits.ring_size ≡ true
unfolding admit_source resolve_or_create_mount get resolve_missing create_dynamic_mount
admitted-has_capacity env req hub d gone h =
    elim (Bool-cases (has_capacity env.config.limits.ring_size)) [
      | inl room ↦ room
      | inr no_bus ↦ elim (Option-cases (env.auth.verify_default_source (password_in env req))) [
        | inl failed ↦ absurd (ground (arith, gone, failed, h))
        | inr (ok, answered) ↦ elim (Bool-cases ok) [
          | inl granted ↦ absurd (ground (arith, gone, answered, granted, no_bus, h))
          | inr denied ↦ absurd (ground (arith, gone, answered, denied, h))
        ]
      ]
    ]

lookup-drop_guard :
    (d : Bool) (path : Text) (m : Mount) (hub : Hub)
    → lookup path hub.mounts ≡ some m
    → lookup path (drop_guard d path hub).mounts
      ≡ (if d then none else some (record m { active = disconnected m.active }))
unfolding drop_guard get remove
lookup-drop_guard d path m hub here =
    let gone = record m { active = disconnected m.active } in
    ground (
      arith,
      here,
      bytes_eq_refl path,
      lookup-insert path path gone hub.mounts,
      lookup-erase path path (insert path gone hub.mounts),
    )

-- A source that was let onto a mount and leaves at once can come back: with the same request, and the
-- mounts, the backend and the configuration as its guard left them, it is let onto the mount again, at
-- whatever time and with whatever new token.
pub drop_guard-admit_source :
    (env : Surroundings) (req : Request) (hub : Hub) (d : Bool) (looks : List ActiveMount)
    (token now : ℕ)
    → (admit_source env req hub).0 ≡ admitted d
    → (admit_source
        (record env { looks = looks; token = token; now = now })
        req
        (drop_guard d req.path (admit_source env req hub).1)).0
      ≡ admitted d
unfolding claimed_mount disconnected
drop_guard-admit_source env req hub d looks token now h =
    let env' = record env { looks = looks; token = token; now = now } in
    let codec = detect_codec_from_content_type req.headers in
    let (m, made, e, g, same) = admit-found env req hub d h in
    let hub' = (resolve_or_create_mount env req.path (password_in env req) codec hub).1 in
    let (is, fits, free, done) = claim_found-admitted env req m made hub' d g in
    let after = (admit_source env req hub).1 in
    let here : lookup req.path after.mounts ≡ some (claimed_mount env req m) = ground (
      arith,
      same,
      done,
      bytes_eq_refl req.path,
      lookup-insert req.path req.path (claimed_mount env req m) hub'.mounts,
    ) in
    let left = lookup-drop_guard d req.path (claimed_mount env req m) after here in
    let (may, _) = admit_source-IsClaimed env req hub d h in
    elim (Option-cases (lookup req.path hub.mounts)) [
      | inl gone ↦
          let (ok, is_d) =
            subst (λ o. IsAuthorized env.auth req.path (password_in env req) o d) gone may in
          let removed : lookup req.path (drop_guard d req.path after).mounts ≡ none =
            ground (arith, left, is_d) in
          ground (
            arith,
            is_d,
            admit-missing env' req (drop_guard d req.path after) removed ok
                (admitted-has_capacity env req hub d gone h) fits,
          )
      | inr (m', there) ↦
          let (ok, is_d) =
            subst (λ o. IsAuthorized env.auth req.path (password_in env req) o d) there may in
          let m2 : Mount = record (claimed_mount env req m) {
            active = disconnected (claimed_mount env req m).active;
          } in
          let freed : lookup req.path (drop_guard d req.path after).mounts ≡ some m2 =
            ground (arith, left, is_d) in
          ground
            (arith, is_d, admit-free env' req (drop_guard d req.path after) m2 freed refl ok fits)
    ]
