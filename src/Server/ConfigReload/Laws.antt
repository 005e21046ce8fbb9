-- ===== src/Server/ConfigReload/Laws.antt =====
-- crates/rustyice-server/src/config_reload.rs: the comparisons that ask for a respawn are equivalences.
use rusty_ice.Prelude.{
  ℕ, ◌≡◌, refl, ap, Bool, true, false, Option, none, some, arith, ◌==◌, ==_iff, bytes_eq,
  bytes_eq_iff, List, ◌↔◌,
}
use rusty_ice.Core.Config.{TranscodeFormat, TranscodeConfig, Order, AutoDjConfig, RelayConfig}
use rusty_ice.Server.ConfigReload.Outcome.{DiffersLaws}
use rusty_ice.Server.ConfigReload.Kinds.{
  bool_eq, option_eq, format_eq, transcode_eq, order_eq, autodj_differs, relay_differs, autodj,
  relay,
}

-- A Boolean test of equality.
abbrev Decides {ℓ} : (A : Type ℓ) → (A → A → Bool) → Type ℓ
Decides A eq = (a b : A) → (eq a b ≡ true → a ≡ b) × (a ≡ b → eq a b ≡ true)

bool_eq-Decides : Decides Bool bool_eq
unfolding bool_eq
bool_eq-Decides true b = ground arith
bool_eq-Decides false b = ground arith

option_eq-Decides :
    {A : Type 0} (eq : A → A → Bool) → Decides A eq → Decides (Option A) (option_eq eq)
unfolding option_eq
option_eq-Decides eq h none none = (λ _. refl, λ _. refl)
option_eq-Decides eq h none (some b) = (λ e. cc, λ e. cc)
option_eq-Decides eq h (some a) none = (λ e. cc, λ e. cc)
option_eq-Decides eq h (some a) (some b) = (λ e. ap some ((h a b).0 e), λ e. (h a b).1 cc)

format_eq-Decides : Decides TranscodeFormat format_eq
unfolding format_eq
format_eq-Decides TranscodeFormat.mp3 TranscodeFormat.mp3 = (λ _. refl, λ _. refl)
format_eq-Decides TranscodeFormat.mp3 TranscodeFormat.vorbis = (λ e. cc, λ e. cc)
format_eq-Decides TranscodeFormat.vorbis TranscodeFormat.mp3 = (λ e. cc, λ e. cc)
format_eq-Decides TranscodeFormat.vorbis TranscodeFormat.vorbis = (λ _. refl, λ _. refl)

order_eq-Decides : Decides Order order_eq
unfolding order_eq
order_eq-Decides Order.shuffle Order.shuffle = (λ _. refl, λ _. refl)
order_eq-Decides Order.shuffle Order.sequential = (λ e. cc, λ e. cc)
order_eq-Decides Order.sequential Order.shuffle = (λ e. cc, λ e. cc)
order_eq-Decides Order.sequential Order.sequential = (λ _. refl, λ _. refl)

transcode_eq-Decides : Decides TranscodeConfig transcode_eq
unfolding transcode_eq
transcode_eq-Decides a b = (
  λ h. ground (arith, h, format_eq-Decides a.format b.format),
  λ h. ground (arith, h, format_eq-Decides a.format b.format),
)

burst_eq-Decides : Decides (Option ℕ) (option_eq (λ m n. m == n))
burst_eq-Decides = option_eq-Decides (λ m n. m == n) (λ m n. ==_iff m n)

text_eq-Decides : Decides (Option (List ℕ)) (option_eq bytes_eq)
text_eq-Decides = option_eq-Decides bytes_eq (λ m n. bytes_eq_iff m n)

autodj_near :
    (o n : AutoDjConfig)
    → (autodj_differs o n ≡ false) ↔ (
        (o.enabled ≡ n.enabled)
        × (o.folder ≡ n.folder)
        × (o.loop_playlist ≡ n.loop_playlist)
        × (o.order ≡ n.order)
        × (o.transcode ≡ n.transcode)
        × (o.burst_size ≡ n.burst_size))
unfolding autodj_differs
autodj_near o n =
    let a = bool_eq-Decides o.enabled n.enabled in
    let b = bytes_eq_iff o.folder n.folder in
    let c = bool_eq-Decides o.loop_playlist n.loop_playlist in
    let d = order_eq-Decides o.order n.order in
    let e = transcode_eq-Decides o.transcode n.transcode in
    let f = burst_eq-Decides o.burst_size n.burst_size in ground (arith, a, b, c, d, e, f)

relay_near :
    (o n : RelayConfig)
    → (relay_differs o n ≡ false) ↔ (
        (o.enabled ≡ n.enabled)
        × (o.upstream ≡ n.upstream)
        × (o.username ≡ n.username)
        × (o.password ≡ n.password)
        × (o.transcode ≡ n.transcode)
        × (o.burst_size ≡ n.burst_size))
unfolding relay_differs
relay_near o n =
    let a = bool_eq-Decides o.enabled n.enabled in
    let b = bytes_eq_iff o.upstream n.upstream in
    let c = text_eq-Decides o.username n.username in
    let d = text_eq-Decides o.password n.password in
    let e = option_eq-Decides transcode_eq transcode_eq-Decides o.transcode n.transcode in
    let f = burst_eq-Decides o.burst_size n.burst_size in ground (arith, a, b, c, d, e, f)

pub autodj-DiffersLaws : DiffersLaws autodj
unfolding autodj
autodj-DiffersLaws = record {
  differs_refl = λ c. ground (arith, autodj_near c c);
  differs_trans =
      λ a b c h i. ground (arith, autodj_near a b, autodj_near b c, autodj_near a c, h, i);
  differs-enabled = λ a b h. ground (arith, autodj_near a b, h);
}

pub relay-DiffersLaws : DiffersLaws relay
unfolding relay
relay-DiffersLaws = record {
  differs_refl = λ c. ground (arith, relay_near c c);
  differs_trans = λ a b c h i. ground (arith, relay_near a b, relay_near b c, relay_near a c, h, i);
  differs-enabled = λ a b h. ground (arith, relay_near a b, h);
}
