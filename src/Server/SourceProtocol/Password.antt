-- ===== src/Server/SourceProtocol/Password.antt =====
-- crates/rustyice-server/src/source_protocol.rs: the password that a source sent is read back.
use rusty_ice.Prelude.{
  ℕ, zero, suc, ◌≡◌, refl, inl, inr, true, false, Option, some, List, [], ◌∷◌, ◌++◌, ◌==◌,
  bytes_eq_refl, ascii, arith, All, take-append_self, drop-append_self, Option-cases,
}
use rusty_ice.Core.Mount.{Text}
use rusty_ice.Core.Config.{starts_with}
use rusty_ice.Server.SourceHeaders.{Headers}
use rusty_ice.Server.SourceProtocol.Credentials.{
  header, strip_prefix, lead, utf8, from_utf8, split_once, password_of, read_password,
  extract_source_password,
}

abbrev pub IsUtf8 : List ℕ → Type 0
IsUtf8 bytes = utf8 0 0 0 bytes ≡ true

-- The range is for a continuation byte.
utf8_range : (lo hi lo' hi' : ℕ) (bytes : List ℕ) → utf8 0 lo hi bytes ≡ utf8 0 lo' hi' bytes
unfolding utf8
utf8_range lo hi lo' hi' [] = refl
utf8_range lo hi lo' hi' (b ∷ bs) = refl

IsUtf8-colon : (bytes : List ℕ) → IsUtf8 bytes → IsUtf8 (b':' ∷ bytes)
unfolding utf8 lead
IsUtf8-colon bytes h = h

utf8-append :
    (n lo hi : ℕ) (xs ys : List ℕ)
    → utf8 n lo hi xs ≡ true
    → IsUtf8 ys
    → utf8 n lo hi (xs ++ ys) ≡ true
unfolding utf8
utf8-append zero lo hi [] ys h k = rw (utf8_range lo hi 0 0 ys) k
utf8-append (suc n) lo hi [] ys h k = absurd (ground (arith, h))
utf8-append zero lo hi (b ∷ xs) ys h k = elim (Option-cases (lead b)) [
  | inl bad ↦ absurd (ground (arith, bad, h))
  | inr ((n, lo', hi'), ok) ↦ ground (arith, ok, h, utf8-append n lo' hi' xs ys)
]
utf8-append (suc n) lo hi (b ∷ xs) ys h k = ground (arith, h, k, utf8-append n 0x80 0xbf xs ys)

split_once-append :
    (user password : Text)
    → All (λ b. (b == b':') ≡ false) user
    → split_once (user ++ (b':' ∷ password)) ≡ some password
unfolding split_once
split_once-append [] password h = refl
split_once-append (b ∷ bs) password (a, h) = ground (arith, a, split_once-append bs password h)

strip_prefix-append : (prefix text : Text) → strip_prefix prefix (prefix ++ text) ≡ some text
unfolding strip_prefix starts_with
strip_prefix-append prefix text =
    ground (arith, take-append_self prefix text, drop-append_self prefix text, bytes_eq_refl prefix)

-- The password is read back from the credentials of a source, whatever the user name before the first
-- colon is, if the base64 decoder gives back the bytes of `user:password` and both are UTF-8.
pub extract_source_password-credentials :
    (decode : Text → Option (List ℕ)) (headers : Headers) (base64 user password : Text)
    → headers (ascii "authorization") ≡ some (some (ascii "Basic " ++ base64))
    → decode base64 ≡ some (user ++ (b':' ∷ password))
    → IsUtf8 user
    → IsUtf8 password
    → All (λ b. (b == b':') ≡ false) user
    → extract_source_password decode headers ≡ password
unfolding extract_source_password read_password header from_utf8 password_of
extract_source_password-credentials decode headers base64 user password h d u p colon =
    let valid = utf8-append 0 0 0 user (b':' ∷ password) u (IsUtf8-colon password p) in
    ground (
      arith,
      h,
      d,
      valid,
      strip_prefix-append (ascii "Basic ") base64,
      split_once-append user password colon,
    )
