-- ===== src/Admin/ConfigWrite/Accepts/Sections.antt =====
-- crates/rustyice-admin/src/config_write.rs: what the validators of the sections accept.
use rusty_ice.Prelude.{
  ℕ, ◌≤◌, ◌+◌, ◌≡◌, ◌↔◌, ◌⊎◌, ◌≢◌, refl, true, false, not, ◌||◌, none, some, List, [], ◌∷◌, ◌++◌,
  map, All, arith, ascii,
}
use rusty_ice.Core.Mount.{Text}
use rusty_ice.Core.Config.{starts_with}
use rusty_ice.Core.Config.Paths.{Distinct, AreNew, AreNew-cons, nothing_seen}
use rusty_ice.Admin.ConfigWrite.{
  MountSubPatch, MountsPatch, UserSubPatch, UsersPatch, AutoDjSubPatch, AutoDjsPatch, RelaySubPatch,
  RelaysPatch,
}
use rusty_ice.Admin.ConfigWrite.Validate.{
  error, fails_if, is_empty, is_blank, entry_prefix, check_path, check_mount, check_user,
  check_autodj, check_login, check_relay_patch,
}
use rusty_ice.Admin.ConfigWrite.Validate.Entries.{
  Section, check_entry, validate_entries, mount_section, user_section, autodj_section,
  relay_section, check_username, validate_mounts_patch, has_admin, validate_users_patch,
  validate_autodjs_patch, validate_relays_patch,
}
use rusty_ice.Admin.ConfigWrite.Accepts.{
  or_else-none, one_of, IsSoundTranscode, IsSoundOptional, validate_nested-none,
  validate_nested_optional-none, check_max_listeners-none, check_burst_size-none,
}

-- The loop accepts what is all sound, where no key occurs twice.
module _ {E : Type 0} (s : Section E) (IsSound : E → Type 0)
    (sound : (prefix field : Text) (e : E)
      → ((s.check_key field (s.key e) ≡ none) × (s.check_rest prefix e ≡ none)) ↔ IsSound e) where
  validate_entries-none :
      (seen : List Text) (idx : ℕ) (es : List E)
      → (validate_entries s seen idx es ≡ none) ↔ (AreNew seen (map s.key es) × All IsSound es)
  unfolding validate_entries check_entry error
  validate_entries-none seen idx [] = (λ _. ((tt, tt), tt), λ _. refl)
  validate_entries-none seen idx (e ∷ es) =
      let prefix = entry_prefix s.list idx in
      let (to, from) = sound prefix (prefix ++ s.key_field) e in
      let (there, back) = validate_entries-none (s.key e ∷ seen) (idx + 1) es in
      let (join, split) = AreNew-cons (s.key e) seen (map s.key es) in
      (
        λ h.
            let (n, r) = there (ground (arith, h)) in
            (split (ground (arith, h), n), (to (ground (arith, h), ground (arith, h)), r)),
        λ (n, (g, r)).
            let (fresh, others) = join n in
            let (a, b) = from g in ground (arith, fresh, a, b, back (others, r)),
      )

  pub validate_section-none :
      (es : List E)
      → (validate_entries s [] 0 es ≡ none) ↔ (Distinct (map s.key es) × All IsSound es)
  validate_section-none es =
      let (to, from) = validate_entries-none [] 0 es in
      (λ h. let ((d, _), g) = to h in (d, g), λ (d, g). from ((d, nothing_seen (map s.key es)), g))

pub record IsPath (path : Text) : Type 0 where
  pub not_blank : is_blank path ≡ false
  pub from_root : starts_with (ascii "/") path ≡ true

check_path-none : (field path : Text) → (check_path field path ≡ none) ↔ IsPath path
unfolding check_path error
check_path-none field path = (
  λ h. record { not_blank = ground (arith, h); from_root = ground (arith, h) },
  λ h. ground (arith, h.not_blank, h.from_root),
)

-- What a single plain mount must meet.
pub record IsSoundMountPatch (m : MountSubPatch) : Type 0 where
  pub mount_path : IsPath m.path
  pub has_password : is_blank m.source_password ≡ false
  pub some_listeners : m.max_listeners ≢ some 0
  pub burst_bound : (b : ℕ) → m.burst_size ≡ some b → b ≤ 16777216
  pub sound_transcode : IsSoundOptional m.transcode

sound_mount :
    (prefix field : Text) (m : MountSubPatch)
    → ((check_path field m.path ≡ none) × (check_mount prefix m ≡ none)) ↔ IsSoundMountPatch m
unfolding check_mount error
sound_mount prefix field m =
    let (a, a') = check_path-none field m.path in
    let (b, b') = check_max_listeners-none prefix m.max_listeners in
    let (c, c') = check_burst_size-none prefix m.burst_size in
    let (d, d') = validate_nested_optional-none prefix m.transcode in
    (
      λ (h, k). record {
        mount_path = a h;
        has_password = ground (arith, k);
        some_listeners = b (ground (arith, k));
        burst_bound = c (ground (arith, k));
        sound_transcode = d (ground (arith, k));
      },
      λ h. (
        a' h.mount_path,
        ground (arith, h.has_password, b' h.some_listeners, c' h.burst_bound, d' h.sound_transcode),
      ),
    )

-- The plain mounts of a save are accepted exactly when no path occurs twice and every mount has a path
-- that starts with "/", a source password that is not blank, not 0 as the most listeners, at most 16 MiB
-- of burst, and a sound transcode block if any.
pub validate_mounts_patch-none :
    (p : MountsPatch)
    → (validate_mounts_patch p ≡ none)
      ↔ (Distinct (map (λ m. m.path) p.mounts) × All IsSoundMountPatch p.mounts)
unfolding validate_mounts_patch mount_section
validate_mounts_patch-none p =
    validate_section-none mount_section IsSoundMountPatch sound_mount p.mounts

-- What a single user must meet.
pub record IsSoundUser (u : UserSubPatch) : Type 0 where
  pub has_name : is_blank u.username ≡ false
  pub has_hash : is_empty u.password_bcrypt ≡ false
  pub known_role : (u.role ≡ ascii "admin") ⊎ (u.role ≡ ascii "operator")

sound_user :
    (prefix field : Text) (u : UserSubPatch)
    → ((check_username field u.username ≡ none) × (check_user prefix u ≡ none)) ↔ IsSoundUser u
unfolding check_username check_user error
sound_user prefix field u =
    let (a, a') = one_of u.role (ascii "admin") (ascii "operator") in
    (
      λ (h, k). record {
        has_name = ground (arith, h);
        has_hash = ground (arith, k);
        known_role = a (ground (arith, k));
      },
      λ h. (ground (arith, h.has_name), ground (arith, h.has_hash, a' h.known_role)),
    )

-- The users of a save are accepted exactly when no name occurs twice, every user has a name that is not
-- blank, a hash, and the role admin or operator, and one of them at least is an admin.
pub validate_users_patch-none :
    (p : UsersPatch)
    → (validate_users_patch p ≡ none) ↔ (
        Distinct (map (λ u. u.username) p.users)
        × All IsSoundUser p.users
        × (has_admin p.users ≡ true))
unfolding validate_users_patch user_section error
validate_users_patch-none p =
    let (to, from) = validate_section-none user_section IsSoundUser sound_user p.users in
    let (split, join) = or_else-none (validate_entries user_section [] 0 p.users) (
      fails_if (not (has_admin p.users))
        (error (ascii "users") (ascii "at least one user must have the admin role"))) in
    (
      λ h. let (a, b) = split h in let (d, g) = to a in (d, g, ground (arith, b)),
      λ (d, g, t). join (from (d, g), ground (arith, t)),
    )

-- What a single AutoDJ must meet.
pub record IsSoundAutoDj (a : AutoDjSubPatch) : Type 0 where
  pub mount_path : IsPath a.mount
  pub has_folder : is_blank a.folder ≡ false
  pub known_order : (a.order ≡ ascii "shuffle") ⊎ (a.order ≡ ascii "sequential")
  pub some_listeners : a.max_listeners ≢ some 0
  pub burst_bound : (b : ℕ) → a.burst_size ≡ some b → b ≤ 16777216
  pub sound_transcode : IsSoundTranscode a.transcode

sound_autodj :
    (prefix field : Text) (a : AutoDjSubPatch)
    → ((check_path field a.mount ≡ none) × (check_autodj prefix a ≡ none)) ↔ IsSoundAutoDj a
unfolding check_autodj error
sound_autodj prefix field m =
    let (a, a') = check_path-none field m.mount in
    let (b, b') = check_max_listeners-none prefix m.max_listeners in
    let (c, c') = check_burst_size-none prefix m.burst_size in
    let (d, d') = validate_nested-none prefix m.transcode in
    let (o, o') = one_of m.order (ascii "shuffle") (ascii "sequential") in
    (
      λ (h, k). record {
        mount_path = a h;
        has_folder = ground (arith, k);
        known_order = o (ground (arith, k));
        some_listeners = b (ground (arith, k));
        burst_bound = c (ground (arith, k));
        sound_transcode = d (ground (arith, k));
      },
      λ h. (
        a' h.mount_path,
        ground (
          arith,
          h.has_folder,
          o' h.known_order,
          b' h.some_listeners,
          c' h.burst_bound,
          d' h.sound_transcode,
        ),
      ),
    )

-- The AutoDJs of a save are accepted exactly when no mount path occurs twice and every one is sound.
pub validate_autodjs_patch-none :
    (p : AutoDjsPatch)
    → (validate_autodjs_patch p ≡ none)
      ↔ (Distinct (map (λ a. a.mount) p.autodjs) × All IsSoundAutoDj p.autodjs)
unfolding validate_autodjs_patch autodj_section
validate_autodjs_patch-none p =
    validate_section-none autodj_section IsSoundAutoDj sound_autodj p.autodjs

-- What a single relay must meet.
pub record IsSoundRelayPatch (r : RelaySubPatch) : Type 0 where
  pub mount_path : IsPath r.mount
  pub web_upstream :
      (starts_with (ascii "http://") r.upstream || starts_with (ascii "https://") r.upstream) ≡ true
  pub sound_login : (prefix : Text) → check_login prefix r ≡ none
  pub some_listeners : r.max_listeners ≢ some 0
  pub burst_bound : (b : ℕ) → r.burst_size ≡ some b → b ≤ 16777216
  pub sound_transcode : IsSoundOptional r.transcode

-- Whether the credentials are refused does not depend on where the relay stands.
check_login_anywhere :
    (prefix prefix' : Text) (r : RelaySubPatch)
    → check_login prefix r ≡ none
    → check_login prefix' r ≡ none
unfolding check_login error
check_login_anywhere prefix prefix' r h = ground (arith, h)

sound_relay :
    (prefix field : Text) (r : RelaySubPatch)
    → ((check_path field r.mount ≡ none) × (check_relay_patch prefix r ≡ none))
      ↔ IsSoundRelayPatch r
unfolding check_relay_patch error
sound_relay prefix field r =
    let (a, a') = check_path-none field r.mount in
    let (b, b') = check_max_listeners-none prefix r.max_listeners in
    let (c, c') = check_burst_size-none prefix r.burst_size in
    let (d, d') = validate_nested_optional-none prefix r.transcode in
    (
      λ (h, k). record {
        mount_path = a h;
        web_upstream = ground (arith, k);
        sound_login = λ other. check_login_anywhere prefix other r (ground (arith, k));
        some_listeners = b (ground (arith, k));
        burst_bound = c (ground (arith, k));
        sound_transcode = d (ground (arith, k));
      },
      λ h. (
        a' h.mount_path,
        ground (
          arith,
          h.web_upstream,
          h.sound_login prefix,
          b' h.some_listeners,
          c' h.burst_bound,
          d' h.sound_transcode,
        ),
      ),
    )

-- The relays of a save are accepted exactly when no mount path occurs twice and every one is sound.
pub validate_relays_patch-none :
    (p : RelaysPatch)
    → (validate_relays_patch p ≡ none)
      ↔ (Distinct (map (λ r. r.mount) p.relays) × All IsSoundRelayPatch p.relays)
unfolding validate_relays_patch relay_section
validate_relays_patch-none p =
    validate_section-none relay_section IsSoundRelayPatch sound_relay p.relays
