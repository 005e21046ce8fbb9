-- ===== src/Server/Chunked/Lines.antt =====
-- crates/rustyice-server/src/chunked.rs: what `poll_fill_line` returns of a stream that has a line
-- next, in however many polls.
use rusty_ice.Prelude.{
  ℕ, zero, suc, ◌+◌, ◌≤◌, ◌<◌, ◌≡◌, ◌∙◌, inl, inr, refl, sym, ap, subst, false, ◌&&◌, none, some,
  List, [], ◌∷◌, ◌++◌, length, drop, ◌==◌, arith, length-append, take-append_self, append_assoc,
  append-nil, Bool-cases, Option-cases,
}
use rusty_ice.Server.Chunked.{
  Arrival, byte, not_yet, failed, short, find_crlf, Line, line, waits, too_long, fails, line_or,
  poll_fill_line,
}

abbrev pub crlf : List ℕ
crlf = b'\r' ∷ b'\n' ∷ []

-- A text whose CRLF is the first one, so it is read as one line.
abbrev pub IsLine : List ℕ → Type 0
IsLine l = find_crlf (l ++ crlf) ≡ some (length l)

abbrev pub bytes_in : List Arrival → List ℕ
bytes_in [] = []
bytes_in (byte b ∷ inner) = b ∷ bytes_in inner
bytes_in (not_yet ∷ inner) = bytes_in inner
bytes_in (failed ∷ inner) = bytes_in inner
bytes_in (short ∷ inner) = bytes_in inner

abbrev pub IsSound : List Arrival → Type 0
IsSound [] = Unit
IsSound (byte b ∷ inner) = IsSound inner
IsSound (not_yet ∷ inner) = IsSound inner
IsSound (failed ∷ inner) = ⊥
IsSound (short ∷ inner) = IsSound inner

-- Two ways to cut one list.
pub append_split :
    (xs ys zs ws : List ℕ)
    → xs ++ ys ≡ zs ++ ws
    → length zs ≤ length xs
    → (m : List ℕ) × (xs ≡ zs ++ m) × (ws ≡ m ++ ys)
append_split xs ys [] ws h k = (xs, refl, sym h)
append_split [] ys (z ∷ zs) ws h k = absurd (omega arith)
append_split (x ∷ xs) ys (z ∷ zs) ws h k =
    let same : x ≡ z = cc in
    let shorter : length zs ≤ length xs = omega arith in
    let tails : xs ++ ys ≡ zs ++ ws = cc in
    let (m, e, f) = append_split xs ys zs ws tails shorter in (m, cc, f)

find_crlf-tail :
    (a c n : ℕ) (xs : List ℕ)
    → find_crlf (a ∷ c ∷ xs) ≡ some (suc n)
    → ((a == b'\r' && c == b'\n') ≡ false) × (find_crlf (c ∷ xs) ≡ some n)
unfolding find_crlf
find_crlf-tail a c n xs h = elim (Bool-cases (a == b'\r' && c == b'\n')) [
  | inl here ↦ absurd (ground (arith, here, h))
  | inr later ↦ elim (Option-cases (find_crlf (c ∷ xs))) [
    | inl missing ↦ absurd (ground (arith, later, missing, h))
    | inr (i, found) ↦ (later, ground (arith, later, found, h))
  ]
]

-- In front of the first CRLF there is none.
find_crlf-prefix :
    (s t : List ℕ) (b n : ℕ)
    → find_crlf (s ++ (b ∷ t)) ≡ some n
    → length s ≤ suc n
    → find_crlf s ≡ none
unfolding find_crlf
find_crlf-prefix [] t b n h k = refl
find_crlf-prefix (x ∷ []) t b n h k = refl
find_crlf-prefix (x ∷ y ∷ s) t b zero h k = absurd (omega arith)
find_crlf-prefix (x ∷ y ∷ s) t b (suc n) h k =
    let (later, found) = find_crlf-tail x y n (s ++ (b ∷ t)) h in
    let rest = find_crlf-prefix (y ∷ s) t b n found (omega arith) in ground (arith, later, rest)

-- What a call makes of a reader that holds `t ++ rest`, where `t` completes the line `l`.
abbrev pub Reads : List ℕ → List ℕ → ℕ → Line → Type 0
Reads l rest n (line l' scratch inner) =
    (l' ≡ l) × (scratch ≡ []) × (bytes_in inner ≡ rest) × IsSound inner × (length inner ≤ n)
Reads l rest n (waits scratch inner) =
    (t : List ℕ) × (scratch ++ t ≡ l ++ crlf)
    × (bytes_in inner ≡ t ++ rest)
    × IsSound inner
    × (length inner < n)
Reads l rest n (too_long scratch inner) = ⊥
Reads l rest n (fails e scratch inner) = ⊥

drop_all : (n : ℕ) (xs : List ℕ) → length xs ≡ n → drop n xs ≡ []
drop_all zero [] h = refl
drop_all zero (x ∷ xs) h = absurd (omega arith)
drop_all (suc n) [] h = refl
drop_all (suc n) (x ∷ xs) h = drop_all n xs (omega arith)

line_or-full :
    (max : ℕ) (l : List ℕ) (inner : List Arrival) (polled : Line)
    → IsLine l
    → line_or max (l ++ crlf) inner polled ≡ line l [] inner
unfolding line_or
line_or-full max l inner polled h =
    let size : length l + 2 ≡ length (l ++ crlf) = omega (arith, length-append l crlf) in
    let none_left : drop (suc (suc (length l))) (l ++ crlf) ≡ [] =
      drop_all (suc (suc (length l))) (l ++ crlf) (omega (arith, size)) in
    ground (arith, h, take-append_self l crlf, none_left)

line_or-short :
    (max b : ℕ) (l scratch t : List ℕ) (inner : List Arrival) (polled : Line)
    → IsLine l
    → suc (suc (length l)) ≤ max
    → scratch ++ (b ∷ t) ≡ l ++ crlf
    → line_or max scratch inner polled ≡ polled
unfolding line_or
line_or-short max b l scratch t inner polled h k e =
    let whole = ap length e in
    let size : suc (length scratch) ≤ suc (suc (length l)) =
      omega (arith, whole, length-append scratch (b ∷ t), length-append l crlf) in
    let missing = find_crlf-prefix scratch t b (length l) (ap find_crlf e ∙ h) (omega arith) in
    ground (arith, missing)

weaken-Reads : (l rest : List ℕ) (n m : ℕ) (r : Line) → n ≤ m → Reads l rest n r → Reads l rest m r
weaken-Reads l rest n m (line l' scratch inner) h (a, b, c, d, k) = (a, b, c, d, omega arith)
weaken-Reads l rest n m (waits scratch inner) h (t, a, b, c, k) = (t, a, b, c, omega arith)
weaken-Reads l rest n m (too_long scratch inner) h k = k
weaken-Reads l rest n m (fails e scratch inner) h k = k

-- The whole line stands in the scratch buffer already.
full-Reads :
    (max : ℕ) (l rest : List ℕ) (inner : List Arrival)
    → IsLine l
    → bytes_in inner ≡ rest
    → IsSound inner
    → Reads l rest (length inner) (poll_fill_line max (l ++ crlf) inner)
unfolding poll_fill_line
full-Reads max l rest [] h b s = rw (line_or-full max l [] _ h) (refl, refl, b, s, omega arith)
full-Reads max l rest (byte x ∷ inner) h b s =
    rw (line_or-full max l (byte x ∷ inner) _ h) (refl, refl, b, s, omega arith)
full-Reads max l rest (not_yet ∷ inner) h b s =
    rw (line_or-full max l (not_yet ∷ inner) _ h) (refl, refl, b, s, omega arith)
full-Reads max l rest (failed ∷ inner) h b s = absurd s
full-Reads max l rest (short ∷ inner) h b s =
    weaken-Reads l rest (length inner) _ _ (omega arith) (full-Reads max l rest inner h b s)

pub poll_fill_line-Reads :
    (max : ℕ) (l rest scratch t : List ℕ) (inner : List Arrival)
    → IsLine l
    → suc (suc (length l)) ≤ max
    → scratch ++ t ≡ l ++ crlf
    → bytes_in inner ≡ t ++ rest
    → IsSound inner
    → Reads l rest (length inner) (poll_fill_line max scratch inner)
unfolding poll_fill_line
poll_fill_line-Reads max l rest scratch [] inner h k e b s =
    let full : scratch ≡ l ++ crlf = sym (append-nil scratch) ∙ e in
    subst (λ z. Reads l rest (length inner) (poll_fill_line max z inner)) (sym full)
      (full-Reads max l rest inner h b s)
poll_fill_line-Reads max l rest scratch (x ∷ t) [] h k e b s = absurd (omega (arith, ap length b))
poll_fill_line-Reads max l rest scratch (x ∷ t) (failed ∷ inner) h k e b s = absurd s
poll_fill_line-Reads max l rest scratch (x ∷ t) (short ∷ inner) h k e b s =
    weaken-Reads l rest (length inner) _ _ (omega arith)
      (poll_fill_line-Reads max l rest scratch (x ∷ t) inner h k e b s)
poll_fill_line-Reads max l rest scratch (x ∷ t) (not_yet ∷ inner) h k e b s =
    rw (line_or-short max x l scratch t (not_yet ∷ inner) (waits scratch inner) h k e)
      (x ∷ t, e, b, s, omega arith)
poll_fill_line-Reads max l rest scratch (x ∷ t) (byte y ∷ inner) h k e b s =
    let same : y ≡ x = cc in
    let others : bytes_in inner ≡ t ++ rest = cc in
    let next = scratch ++ (y ∷ []) in
    let joined : next ++ t ≡ l ++ crlf =
      append_assoc scratch (y ∷ []) t ∙ ap (λ z. scratch ++ (z ∷ t)) same ∙ e in
    rw (line_or-short max x l scratch t (byte y ∷ inner) (poll_fill_line max next inner) h k e) (
      weaken-Reads l rest (length inner) _ _ (omega arith)
        (poll_fill_line-Reads max l rest next t inner h k joined others s))
