-- ===== src/Output/HttpPassthrough/Frame.antt =====
-- crates/rustyice-output/src/http_passthrough.rs: the metadata frame as a listener parses it.
use rusty_ice.Prelude.{
  ℕ, suc, ◌+◌, ◌-◌, ◌*◌, ◌≤◌, ◌<◌, ◌≡◌, ◌↔◌, refl, List, [], ◌∷◌, ◌++◌, length, take, replicate,
  leb, if◌then◌else◌, arith, length-append, length-take, length-replicate, ascii,
}
use rusty_ice.Core.Mount.{Text}
use rusty_ice.Output.HttpPassthrough.{frame_for, meta_str, blocks_of, resize}

-- A length byte that counts blocks of 16 bytes, and that many blocks.
abbrev pub IsFrame : List ℕ → Type 0
IsFrame [] = ⊥
IsFrame (n ∷ rest) = (n < 256) × (length rest ≡ 16 * n)

length-meta_str : (t u : Text) → length (meta_str t u) ≡ 28 + length t + length u
length-meta_str t u = omega (
  arith,
  length-append t (ascii "';StreamUrl='" ++ (u ++ ascii "';")),
  length-append u (ascii "';"),
)

length-resize : (n : ℕ) (xs : List ℕ) → length (resize n xs) ≡ n
length-resize n xs = omega (
  arith,
  length-append (take n xs) (replicate (n - length xs) 0),
  length-take n xs,
  length-replicate {A = ℕ} (n - length xs) 0,
)

-- The frame of a text of `n` bytes, with `b` in its length byte.
padded-IsFrame :
    (b n : ℕ) (raw : List ℕ)
    → length raw ≡ n
    → b ≡ (if leb (blocks_of n) 255 then blocks_of n else 255)
    → IsFrame (resize (suc (blocks_of n * 16)) (b ∷ raw)) ↔ (n ≤ 4080)
padded-IsFrame b n raw h e =
    let size = length-resize (suc (blocks_of n * 16)) (b ∷ raw) in
    (λ f. ground (arith, size, f.0, f.1), λ k. (ground arith, ground (arith, size)))

-- A frame is well formed exactly when title and address together have at most 4052 bytes: beyond
-- that the length byte stays at 255 while the frame goes on.
pub frame_for-IsFrame :
    (title url : Text) → IsFrame (frame_for title url) ↔ (length title + length url ≤ 4052)
unfolding frame_for
frame_for-IsFrame [] [] = (λ f. omega arith, λ h. omega arith)
frame_for-IsFrame [] (u ∷ us) =
    let size = length-meta_str [] (u ∷ us) in
    let framed = padded-IsFrame _ _ (meta_str [] (u ∷ us)) refl refl in
    (λ f. omega (arith, framed.0 f, size), λ k. framed.1 (omega (arith, size)))
frame_for-IsFrame (t ∷ ts) url =
    let size = length-meta_str (t ∷ ts) url in
    let framed = padded-IsFrame _ _ (meta_str (t ∷ ts) url) refl refl in
    (λ f. omega (arith, framed.0 f, size), λ k. framed.1 (omega (arith, size)))
