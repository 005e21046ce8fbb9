-- ===== src/Core/Identity.antt =====
-- crates/rustyice-core/src/mount.rs: `ActiveMount::effective_identity`.
use rusty_ice.Prelude.{
  ℕ, zero, suc, ◌+◌, ◌/◌, ◌%◌, Option, none, some, [], ◌∷◌, ◌++◌, ascii, ◌==◌, if◌then◌else◌,
}
use rusty_ice.Core.Config.{TranscodeConfig}
use rusty_ice.Core.Mount.{Text, ActiveMount, SourceOverlay, EffectiveIdentity}

-- The decimal digits of a number in front of `behind`, one round for each.
unfoldable pub digits : ℕ → ℕ → Text → Text
digits zero n behind = behind
digits (suc fuel) n behind =
    let digit = b'0' + n % 10 in
    let rest = digits fuel (n / 10) (digit ∷ behind) in if n / 10 == 0 then digit ∷ behind else rest

-- `to_string` of a number; it has no more digits than its value has units, and one at least.
unfoldable pub decimal : ℕ → Text
decimal n = digits (suc n) n []

abbrev or_else {ℓ} : {A : Type ℓ} → Option A → Option A → Option A
or_else none b = b
or_else (some a) b = some a

abbrev and_then {ℓ κ} : {A : Type ℓ} {B : Type κ} → Option A → (A → Option B) → Option B
and_then none f = none
and_then (some a) f = f a

unfoldable pub transcoded_bitrate : Option TranscodeConfig → Option SourceOverlay → Option ℕ
transcoded_bitrate none overlay = and_then overlay (λ o. o.bitrate_kbps)
transcoded_bitrate (some tc) overlay = some tc.bitrate_kbps

unfoldable pub transcoded_info : Option TranscodeConfig → Option SourceOverlay → Option Text
transcoded_info none overlay = and_then overlay (λ o. o.audio_info)
transcoded_info (some tc) overlay = some (
    ascii "samplerate="
    ++ (decimal tc.sample_rate ++ (ascii ";channels=2;bitrate=" ++ decimal tc.bitrate_kbps)))

unfoldable pub effective_identity : ActiveMount → Option TranscodeConfig → EffectiveIdentity
effective_identity m transcode =
    let overlay = m.source_overlay in
    record {
      name = or_else (and_then overlay (λ o. o.name)) m.info.metadata.name;
      description = or_else (and_then overlay (λ o. o.description)) m.info.metadata.description;
      genre = or_else (and_then overlay (λ o. o.genre)) m.info.metadata.genre;
      url = or_else (and_then overlay (λ o. o.url)) m.info.metadata.url;
      is_public = and_then overlay (λ o. o.is_public);
      audio_info = transcoded_info transcode overlay;
      bitrate_kbps = transcoded_bitrate transcode overlay;
    }
