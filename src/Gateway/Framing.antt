-- ===== src/Gateway/Framing.antt =====
-- The lines that a client's bytes make do not depend on how the reads of src/tcp_server.cpp cut them.
use lloms.Base.{
  ℕ, zero, suc, ◌≤◌, ◌≡◌, refl, sym, ap, ◌∙◌, false, inl, inr, Option, none, some, List, [], ◌∷◌,
  ◌++◌, arith, All, All-append, append-nil, append_assoc, ◌==◌, if◌then◌else◌, length,
  length-append, Bool-cases, Option-cases,
}
use lloms.Base.Text.{Text}
use lloms.Gateway.{
  find_newline, strip_cr, take_lines, take_input, handle_client_read, would_block, reads,
}

abbrev pub IsPartial : Text → Type 0
IsPartial = All (λ c. (c == 10) ≡ false)

-- Byte by byte: `line` is the line so far.
unfoldable pub frame : Text → Text → List Text × Text
frame line [] = ([], line)
frame line (c ∷ s) =
    let (lines, left) = frame [] s in
    let longer = frame (line ++ c ∷ []) s in
    if c == 10 then (strip_cr line ∷ lines, left) else longer

find_newline-none : (s : Text) → IsPartial s → find_newline s ≡ none
unfolding find_newline
find_newline-none [] h = refl
find_newline-none (c ∷ s) h = rw (h.0, find_newline-none s h.1)

find_newline-some : (l s : Text) → IsPartial l → find_newline (l ++ 10 ∷ s) ≡ some (l, s)
unfolding find_newline
find_newline-some [] s h = refl
find_newline-some (c ∷ l) s h = rw (h.0, find_newline-some l s h.1)

take_lines-none : (fuel : ℕ) (s : Text) → find_newline s ≡ none → take_lines fuel s ≡ ([], s)
unfolding take_lines
take_lines-none zero s e = refl
take_lines-none (suc n) s e = rw (e, take_lines)

pub take_input-none : (s : Text) → find_newline s ≡ none → take_input [] s ≡ ([], s)
unfolding take_input
take_input-none s = take_lines-none (length s) s

take_lines-frame :
    (s : Text) (fuel : ℕ) (line : Text)
    → length s ≤ fuel
    → IsPartial line
    → take_lines fuel (line ++ s) ≡ frame line s
unfolding take_lines frame
take_lines-frame [] fuel line le h =
    rw append-nil (take_lines-none fuel line (find_newline-none line h))
take_lines-frame (c ∷ s) zero line le h = absurd (omega arith)
take_lines-frame (c ∷ s) (suc n) line le h = elim (Bool-cases (c == 10)) [
  | inl e ↦
      let newline : c ≡ 10 = ground (arith, e) in
      rw (newline, find_newline-some line s h, take_lines, take_lines-frame s n [] (omega arith) tt)
  | inr e ↦ rw e (
      ap (take_lines (suc n)) (sym (append_assoc line (c ∷ []) s))
      ∙ take_lines-frame s (suc n) (line ++ c ∷ []) (omega arith)
          (All-append (λ d. (d == 10) ≡ false) line (c ∷ []) h (e, tt)))
]

pub frame-append :
    (a b line : Text)
    → frame line (a ++ b)
      ≡ ((frame line a).0 ++ (frame (frame line a).1 b).0, (frame (frame line a).1 b).1)
unfolding frame
frame-append [] b line = refl
frame-append (c ∷ a) b line = elim (Bool-cases (c == 10)) [
  | inl e ↦ rw (e, frame-append a b [])
  | inr e ↦ rw e (frame-append a b (line ++ c ∷ []))
]

frame-IsPartial : (s line : Text) → IsPartial line → IsPartial (frame line s).1
unfolding frame
frame-IsPartial [] line h = h
frame-IsPartial (c ∷ s) line h = elim (Bool-cases (c == 10)) [
  | inl e ↦ rw e (frame-IsPartial s [] tt)
  | inr e ↦ rw e (
      frame-IsPartial s (line ++ c ∷ [])
        (All-append (λ d. (d == 10) ≡ false) line (c ∷ []) h (e, tt)))
]

pub take_input-frame : (buffer s : Text) → IsPartial buffer → take_input buffer s ≡ frame buffer s
unfolding take_input
take_input-frame buffer s =
    take_lines-frame s (length (buffer ++ s)) buffer (omega (arith, length-append buffer s))

-- The first line of a buffer, and what is behind it.
pub frame-find_newline :
    (s p l r : Text)
    → find_newline s ≡ some (l, r)
    → frame p s ≡ (strip_cr (p ++ l) ∷ (frame [] r).0, (frame [] r).1)
unfolding find_newline frame
frame-find_newline [] p l r e = cc e
frame-find_newline (c ∷ s) p l r e = elim (Bool-cases (c == 10)) [
  | inl newline ↦
      let same : ◌≡◌ {A = Option (Text × Text)} (some ([], s)) (some (l, r)) = rw newline at e in
      let nothing : l ≡ [] = cc same in
      let behind : r ≡ s = cc same in rw (newline, nothing, behind, append-nil) refl
  | inr other ↦ elim (Option-cases (find_newline s)) [
    | inl none_left ↦ cc (rw (other, none_left) at e)
    | inr ((l', r'), found) ↦
        let same : ◌≡◌ {A = Option (Text × Text)} (some (c ∷ l', r')) (some (l, r)) =
          rw (other, found) at e in
        let longer : l ≡ c ∷ l' = cc same in
        let behind : r ≡ r' = cc same in
        let later = frame-find_newline s (p ++ c ∷ []) l' r' found in
        rw (other, longer, behind, later)
          (ap (λ x. (strip_cr x ∷ (frame [] r').0, (frame [] r').1)) (append_assoc p (c ∷ []) l'))
  ]
]

abbrev pub concat : List Text → Text
concat [] = []
concat (s ∷ ss) = s ++ concat ss

reads-frame :
    (chunks : List Text) (buffer : Text)
    → IsPartial buffer
    → reads buffer chunks ≡ some (frame buffer (concat chunks))
unfolding reads handle_client_read
reads-frame [] buffer h = unfold frame in refl
reads-frame (s ∷ ss) buffer h = rw (
  take_input-frame buffer s h,
  reads-frame ss (frame buffer s).1 (frame-IsPartial s buffer h),
  frame-append s (concat ss) buffer,
)

-- From a buffer without newline, calls of handle_client_read that end with EAGAIN find the lines, and leave
-- the buffer, that one call with all their bytes does, however the bytes are cut.
pub reads-concat :
    (chunks : List Text) (buffer : Text)
    → IsPartial buffer
    → reads buffer chunks ≡ handle_client_read buffer (concat chunks) would_block
unfolding handle_client_read
reads-concat chunks buffer h =
    reads-frame chunks buffer h ∙ ap some (sym (take_input-frame buffer (concat chunks) h))
