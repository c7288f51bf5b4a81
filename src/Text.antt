-- ===== src/Text.antt =====
-- The functions of Go's standard packages `bytes` and `strings` that the handlers call.
use mathlib.Core.List.{reverse}
use serverless_error_ingest.Base.{
  ℕ, zero, suc, ◌≡◌, refl, ap, ◌≢◌, inl, inr, false, ◌&&◌, ◌||◌, Option, none, some, List, [], ◌∷◌,
  ◌++◌, arith, leb, ◌==◌, if◌then◌else◌, ==_iff, Bool-cases, Bytes, codes, length,
}

-- `if idx := strings.IndexByte(s, c); idx >= 0`, with the parts `s[:idx]` and `s[idx+1:]`.
unfoldable pub cut_byte : ℕ → Bytes → Option (Bytes × Bytes)
cut_byte c [] = none
cut_byte c (x ∷ s) =
    if x == c
    then some ([], s)
    else elim (cut_byte c s) [ none ↦ none | some (l, r) ↦ some (x ∷ l, r) ]

-- The byte does not occur.
abbrev pub Lacks : ℕ → Bytes → Type 0
Lacks c [] = Unit
Lacks c (x ∷ s) = (x ≢ c) × Lacks c s

pub cut_byte-Lacks : (c : ℕ) (l r : Bytes) → Lacks c l → cut_byte c (l ++ (c ∷ r)) ≡ some (l, r)
unfolding cut_byte
cut_byte-Lacks c [] r h = ground arith
cut_byte-Lacks c (x ∷ l) r h = ground (arith, cut_byte-Lacks c l r h.1)

pub cut_byte-none : (c : ℕ) (l : Bytes) → Lacks c l → cut_byte c l ≡ none
unfolding cut_byte
cut_byte-none c [] h = refl
cut_byte-none c (x ∷ l) h = ground (arith, cut_byte-none c l h.1)

-- The two outcomes: no occurrence, or the text before and after the first one.
pub data IsCutAt (c : ℕ) (s : Bytes) : Type 0 where
  absent : cut_byte c s ≡ none → Lacks c s → IsCutAt c s
  present : (l r : Bytes) → cut_byte c s ≡ some (l, r) → s ≡ l ++ (c ∷ r) → Lacks c l → IsCutAt c s

CutByte-cons : (c x : ℕ) (s : Bytes) → (x == c) ≡ false → IsCutAt c s → IsCutAt c (x ∷ s)
unfolding cut_byte
CutByte-cons c x s ne (absent e h) = absent (rw (ne, e)) (ground arith, h)
CutByte-cons c x s ne (present l r e split h) =
    present (x ∷ l) r (rw (ne, e)) (ap (◌∷◌ x) split) (ground arith, h)

pub cut_byte-IsCutAt : (c : ℕ) (s : Bytes) → IsCutAt c s
unfolding cut_byte
cut_byte-IsCutAt c [] = absent refl tt
cut_byte-IsCutAt c (x ∷ s) = elim (Bool-cases (x == c)) [
  | inl e ↦ present [] s (rw e) (ap (λ (t : ℕ). t ∷ s) ((==_iff x c).0 e)) tt
  | inr ne ↦ CutByte-cons c x s ne (cut_byte-IsCutAt c s)
]

abbrev pub grow : ℕ → List Bytes → List Bytes
grow x [] = (x ∷ []) ∷ []
grow x (p ∷ parts) = (x ∷ p) ∷ parts

-- `strings.Split(s, c)` for a separator of one byte.
unfoldable pub split_byte : ℕ → Bytes → List Bytes
split_byte c [] = [] ∷ []
split_byte c (x ∷ s) = let parts = split_byte c s in if x == c then [] ∷ parts else grow x parts

-- The text behind a prefix.
unfoldable pub starts_with : Bytes → Bytes → Option Bytes
starts_with [] s = some s
starts_with (c ∷ p) [] = none
starts_with (c ∷ p) (x ∷ s) = if x == c then starts_with p s else none

-- `strings.Index(s, "://")`, with the text behind it.
unfoldable pub after_scheme : Bytes → Option Bytes
after_scheme [] = none
after_scheme (x ∷ s) =
    let later = after_scheme s in
    elim (starts_with (codes "://") (x ∷ s)) [ some r ↦ some r | none ↦ later ]

-- `strings.LastIndexByte(s, c)`, with the text behind it.
unfoldable pub after_last : ℕ → Bytes → Option Bytes
after_last c [] = none
after_last c (x ∷ s) = elim (after_last c s) [
  | some r ↦ some r
  | none ↦ if x == c then some s else none
]

-- U+0085 and U+00A0 behind their first byte.
abbrev pub skip_second : Bytes → Option Bytes
skip_second [] = none
skip_second (b ∷ s) = if b == 0x85 || b == 0xa0 then some s else none

abbrev pub after_two : ℕ → ℕ → Bytes → Option Bytes
after_two b c [] = none
after_two b c (x ∷ []) = none
after_two b c (x ∷ y ∷ s) = if x == b && y == c then some s else none

-- U+2000 to U+200A, U+2028, U+2029, U+202F and U+205F behind their first byte.
abbrev pub skip_general : Bytes → Option Bytes
skip_general [] = none
skip_general (b ∷ []) = none
skip_general (b ∷ c ∷ s) =
    if (b == 0x80 && ((leb 0x80 c && leb c 0x8a) || c == 0xa8 || c == 0xa9 || c == 0xaf))
      || (b == 0x81 && c == 0x9f)
    then some s
    else none

-- The text behind one white-space rune of `unicode.IsSpace`, in UTF-8.
unfoldable pub skip_space : Bytes → Option Bytes
skip_space [] = none
skip_space (a ∷ s) =
    if (leb 9 a && leb a 13) || a == 32
    then some s
    else if a == 0xc2
    then skip_second s
    else if a == 0xe1
    then after_two 0x9a 0x80 s
    else if a == 0xe2
    then skip_general s
    else if a == 0xe3
    then after_two 0x80 0x80 s
    else none

abbrev pub skip_three_back : ℕ → ℕ → Bytes → Option Bytes
skip_three_back a b [] = none
skip_three_back a b (c ∷ s) =
    if c == 0xe1 && b == 0x9a && a == 0x80
    then some s
    else if c == 0xe3 && b == 0x80 && a == 0x80
    then some s
    else if c == 0xe2
    then elim (skip_general (b ∷ a ∷ [])) [ none ↦ none | some r ↦ some s ]
    else none

-- The same from the other end: the text is given last byte first.
unfoldable pub skip_space_back : Bytes → Option Bytes
skip_space_back [] = none
skip_space_back (a ∷ []) = if (leb 9 a && leb a 13) || a == 32 then some [] else none
skip_space_back (a ∷ b ∷ s) =
    if (leb 9 a && leb a 13) || a == 32
    then some (b ∷ s)
    else if b == 0xc2 && (a == 0x85 || a == 0xa0)
    then some s
    else skip_three_back a b s

-- Rounds of a trimming loop; each takes a byte or more, so the length is enough.
unfoldable pub trim_by : (Bytes → Option Bytes) → ℕ → Bytes → Bytes
trim_by skip zero s = s
trim_by skip (suc n) s = elim (skip s) [ none ↦ s | some r ↦ trim_by skip n r ]

-- `strings.TrimSpace`
unfoldable pub trim_space : Bytes → Bytes
unfolding trim_by skip_space skip_space_back
trim_space s =
    let left = trim_by skip_space (length s) s in
    reverse (trim_by skip_space_back (length left) (reverse left))
