-- ===== src/Admin/Login/Gates.antt =====
-- crates/rustyice-admin/src/api/auth.rs: what the cookie of a login is good for.
use rusty_ice.Prelude.{ℕ, false, [], ◌∷◌, ◌++◌, ascii, ◌==◌, ◌||◌, Bool}
use rusty_ice.Core.Mount.{Text}
use rusty_ice.Core.Config.{Config}

-- What a client sends back of the cookie of a login.
abbrev pub cookie_of : Text → Text
cookie_of token = ascii "rustyice_session=" ++ token

abbrev pub has_byte : ℕ → Text → Bool
has_byte b [] = false
has_byte b (c ∷ text) = c == b || has_byte b text
