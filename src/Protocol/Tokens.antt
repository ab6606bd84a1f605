-- ===== src/Protocol/Tokens.antt =====
-- split_tokens of src/protocol.cpp: the tokens are the words of the line.
use lloms.Base.{
  ℕ, zero, suc, ◌≤◌, ◌<◌, ◌≡◌, refl, true, false, List, [], ◌∷◌, ◌++◌, map, arith, All, is_nil,
  length, length-append, Bool-cases, inl, inr,
}
use lloms.Base.Text.{Text}
use lloms.Protocol.{is_blank, skip_blanks, next_token, split_loop, split_tokens}

abbrev pub IsWord : Text → Type 0
IsWord w = (is_nil w ≡ false) × All (λ c. is_blank c ≡ false) w

abbrev pub IsGap : Text → Type 0
IsGap = All (λ c. is_blank c ≡ true)

skip_blanks-gap : (g s : Text) → IsGap g → skip_blanks (g ++ s) ≡ skip_blanks s
unfolding skip_blanks
skip_blanks-gap [] s h = refl
skip_blanks-gap (c ∷ g) s h = rw h.0 (skip_blanks-gap g s h.1)

skip_blanks-word : (w s : Text) → IsWord w → skip_blanks (w ++ s) ≡ w ++ s
unfolding skip_blanks
skip_blanks-word [] s h = absurd (cc (h.0))
skip_blanks-word (c ∷ w) s h = rw h.1.0

-- What follows a word: nothing, or a blank.
abbrev Ends : Text → Type 0
Ends [] = Unit {0}
Ends (c ∷ s) = is_blank c ≡ true

next_token-word :
    (w s : Text) → All (λ c. is_blank c ≡ false) w → Ends s → next_token (w ++ s) ≡ (w, s)
unfolding next_token
next_token-word [] [] h e = refl
next_token-word [] (c ∷ s) h e = rw e
next_token-word (c ∷ w) s h e = rw (h.0, next_token-word w s h.1 e)

-- Gaps and words in turn, and what follows the last word.
abbrev pub spaced : List (Text × Text) → Text → Text
spaced [] trail = trail
spaced ((g, w) ∷ gs) trail = g ++ (w ++ spaced gs trail)

-- The words after the first stand apart from the ones before.
abbrev pub IsApart : List (Text × Text) → Type 0
IsApart = All (λ e. (is_nil e.0 ≡ false) × IsGap e.0 × IsWord e.1)

Ends-gap : (g s : Text) → IsGap g → is_nil g ≡ false → Ends (g ++ s)
Ends-gap [] s h e = absurd (cc e)
Ends-gap (c ∷ g) s h e = h.0

Ends-spaced :
    (gs : List (Text × Text)) (trail : Text) → IsApart gs → IsGap trail → Ends (spaced gs trail)
Ends-spaced [] [] a h = tt
Ends-spaced [] (c ∷ t) a h = h.0
Ends-spaced ((g, w) ∷ gs) trail a h = Ends-gap g (w ++ spaced gs trail) a.0.1 a.0.0

-- The first word may stand at the start of the line.
abbrev pub IsLine : List (Text × Text) → Type 0
IsLine [] = Unit {0}
IsLine ((g, w) ∷ gs) = IsGap g × IsWord w × IsApart gs

IsApart-IsLine : (gs : List (Text × Text)) → IsApart gs → IsLine gs
IsApart-IsLine [] a = tt
IsApart-IsLine ((g, w) ∷ gs) a = (a.0.1, a.0.2, a.1)

skip_blanks-gap_only : (g : Text) → IsGap g → skip_blanks g ≡ []
unfolding skip_blanks
skip_blanks-gap_only [] h = refl
skip_blanks-gap_only (c ∷ g) h = rw h.0 (skip_blanks-gap_only g h.1)

length-word : (w : Text) → IsWord w → 0 < length w
length-word [] h = absurd (cc (h.0))
length-word (c ∷ w) h = omega arith

is_nil-word : (w s : Text) → IsWord w → is_nil (w ++ s) ≡ false
is_nil-word [] s h = absurd (cc (h.0))
is_nil-word (c ∷ w) s h = refl

split_loop-spaced :
    (fuel : ℕ) (gs : List (Text × Text)) (trail : Text)
    → length (spaced gs trail) ≤ fuel
    → IsLine gs
    → IsGap trail
    → split_loop fuel (spaced gs trail) ≡ map (λ e. e.1) gs
unfolding split_loop
split_loop-spaced zero [] trail le l h = refl
split_loop-spaced zero ((g, w) ∷ gs) trail le l h = absurd (
    omega (
      arith,
      length-append g (w ++ spaced gs trail),
      length-append w (spaced gs trail),
      length-word w l.1,
    ))
split_loop-spaced (suc n) [] trail le l h = rw (skip_blanks-gap_only trail h)
split_loop-spaced (suc n) ((g, w) ∷ gs) trail le l h =
    let s = spaced gs trail in
    let shorter : length s ≤ n =
      omega (arith, length-append g (w ++ s), length-append w s, length-word w l.1) in
    rw (
      skip_blanks-gap g (w ++ s) l.0,
      skip_blanks-word w s l.1,
      next_token-word w s l.1.1 (Ends-spaced gs trail l.2 h),
      is_nil-word w s l.1,
      split_loop-spaced n gs trail shorter (IsApart-IsLine gs l.2) h,
    )

-- A line that is made of non-empty words without blanks, with blanks between them (at least one) and
-- maybe before and after them, is split into these words.
pub split_tokens-spaced :
    (gs : List (Text × Text)) (trail : Text)
    → IsLine gs
    → IsGap trail
    → split_tokens (spaced gs trail) ≡ map (λ e. e.1) gs
unfolding split_tokens
split_tokens-spaced gs trail = split_loop-spaced (length (spaced gs trail)) gs trail (omega arith)

next_token-All : (s : Text) → All (λ c. is_blank c ≡ false) (next_token s).0
unfolding next_token
next_token-All [] = tt
next_token-All (c ∷ s) = ground (arith, next_token-All s)

-- What the first loop leaves starts with a character of a token.
next_token-skip_blanks :
    (s : Text) → is_nil (skip_blanks s) ≡ false → is_nil (next_token (skip_blanks s)).0 ≡ false
unfolding skip_blanks next_token
next_token-skip_blanks [] h = h
next_token-skip_blanks (c ∷ s) h = elim (Bool-cases (is_blank c)) [
  | inl e ↦ rw e (next_token-skip_blanks s (rw e at h))
  | inr e ↦ rw (e, e)
]

split_loop-IsWord : (fuel : ℕ) (s : Text) → All IsWord (split_loop fuel s)
unfolding split_loop
split_loop-IsWord zero s = tt
split_loop-IsWord (suc n) s =
    let t = skip_blanks s in
    elim (Bool-cases (is_nil t)) [
      | inl e ↦ rw e tt
      | inr e ↦
          rw e
            ((next_token-skip_blanks s e, next_token-All t), split_loop-IsWord n (next_token t).1)
    ]

-- No token of a line is empty or has a blank.
pub split_tokens-IsWord : (line : Text) → All IsWord (split_tokens line)
unfolding split_tokens
split_tokens-IsWord line = split_loop-IsWord (length line) line
