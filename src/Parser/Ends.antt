-- ===== src/Parser/Ends.antt =====
-- server/modules/Parser/Parser.cpp: where `processRequest` sees the end of a head.
use zhttpd.Base.{
  ℕ, suc, false, Bytes, List, [], ◌∷◌, ◌++◌, ◌≡◌, refl, ap, sym, ◌∙◌, arith, ◌==◌, ==_iff,
  Bool-cases, inl, inr, ◌⊎◌, All, ◌<◌, zero, take, append_assoc,
}
use zhttpd.Parser.Lines.{
  Lacks, crlf, Head, IsHead, IsHeader, render, render_headers, request_line, header_line,
}
use zhttpd.Parser.{Scan, ended, unfinished, after_byte, advance, scan}

-- What a scan sees of `xs` and then of `ys`.
abbrev pub behind_bytes : Bytes → Scan → Scan
behind_bytes xs (ended head rest) = ended (xs ++ head) rest
behind_bytes xs (unfinished sep) = unfinished sep

abbrev pub resume : Bytes → Bytes → Scan → Scan
resume xs ys (ended head rest) = ended head (rest ++ ys)
resume xs ys (unfinished sep) = behind_bytes xs (scan sep ys)

behind_bytes-cons :
    (c : ℕ) (xs : Bytes) (s : Scan) → behind_bytes (c ∷ xs) s ≡ after_byte c (behind_bytes xs s)
behind_bytes-cons c xs (ended head rest) = refl
behind_bytes-cons c xs (unfinished sep) = refl

resume-after_byte :
    (c : ℕ) (xs ys : Bytes) (s : Scan)
    → resume (c ∷ xs) ys (after_byte c s) ≡ after_byte c (resume xs ys s)
resume-after_byte c xs ys (ended head rest) = refl
resume-after_byte c xs ys (unfinished sep) = behind_bytes-cons c xs (scan sep ys)

behind_bytes-nil : (s : Scan) → behind_bytes [] s ≡ s
behind_bytes-nil (ended head rest) = refl
behind_bytes-nil (unfinished sep) = refl

-- The loop over the bytes of two texts is that over the first one and then, with its counter, over the
-- second one.
pub scan-append : (sep : ℕ) (xs ys : Bytes) → scan sep (xs ++ ys) ≡ resume xs ys (scan sep xs)
unfolding scan
scan-append sep [] ys = sym (behind_bytes-nil (scan sep ys))
scan-append sep (c ∷ xs) ys = elim (Bool-cases (advance sep c == 4)) [
  | inl e ↦ simp e refl
  | inr e ↦ simp e (
      ap (after_byte c) (scan-append (advance sep c) xs ys)
      ∙ sym (resume-after_byte c xs ys (scan (advance sep c) xs)))
]

scan_line : (xs rest : Bytes) → Lacks b'\r' xs → scan 0 (xs ++ rest) ≡ behind_bytes xs (scan 0 rest)
unfolding scan
scan_line [] rest h = sym (behind_bytes-nil _)
scan_line (c ∷ xs) rest h =
    let quiet : advance 0 c ≡ 0 = unfold advance in ground arith in
    rw quiet (rw (scan_line xs rest h.1) (sym (behind_bytes-cons c xs (scan 0 rest))))

abbrev pub end_mark : Bytes
end_mark = crlf (crlf [])

advance_cases :
    (sep c : ℕ)
    → sep < 4
    → ((advance sep c ≡ suc sep) × (take (suc sep) end_mark ≡ take sep end_mark ++ c ∷ []))
      ⊎ (advance sep c ≡ 0)
unfolding advance
advance_cases zero c h = ground arith
advance_cases (suc zero) c h = ground arith
advance_cases (suc (suc zero)) c h = ground arith
advance_cases (suc (suc (suc zero))) c h = ground arith
advance_cases (suc (suc (suc (suc n)))) c h = absurd (omega arith)

abbrev Split : ℕ → Bytes → Bytes → Bytes → Type 0
Split sep xs head rest =
    (xs ≡ head ++ rest) × ((pre : Bytes) × (take sep end_mark ++ head ≡ pre ++ end_mark))

Split-cons :
    (sep c : ℕ) (xs head rest : Bytes)
    → sep < 4
    → Split (advance sep c) xs head rest
    → Split sep (c ∷ xs) (c ∷ head) rest
Split-cons sep c xs head rest h (e, (pre, f)) = elim (advance_cases sep c h) [
  | inl (g, m) ↦ (
    ap (◌∷◌ c) e,
    (pre, sym (append_assoc (take sep end_mark) (c ∷ []) head) ∙ rw (← m) (rw g at f)),
  )
  | inr g ↦
      let f₀ : head ≡ pre ++ end_mark = rw g at f in
      (
        ap (◌∷◌ c) e,
        (
          take sep end_mark ++ c ∷ pre,
          ap (λ t. take sep end_mark ++ c ∷ t) f₀
              ∙ sym (append_assoc (take sep end_mark) (c ∷ pre) end_mark),
        ),
      )
]

after_byte-ended :
    (c : ℕ) (s : Scan) {head rest : Bytes}
    → after_byte c s ≡ ended head rest
    → (tail : Bytes) × (head ≡ c ∷ tail) × (s ≡ ended tail rest)
after_byte-ended c (ended tail rest) e = (tail, ground arith, ground arith)
after_byte-ended c (unfinished sep) e = cc

last_byte : (sep c : ℕ) → sep < 4 → advance sep c ≡ 4 → take sep end_mark ++ c ∷ [] ≡ end_mark
last_byte sep c h e = elim (advance_cases sep c h) [
  | inl (g, m) ↦ sym m ∙ ap (λ n. take n end_mark) (sym g ∙ e)
  | inr g ↦ absurd (omega arith)
]

advance-lt : (sep c : ℕ) → sep < 4 → (advance sep c == 4) ≡ false → advance sep c < 4
advance-lt sep c h e = elim (advance_cases sep c h) [
  | inl (g, m) ↦ ground arith
  | inr g ↦ omega arith
]

scan_sound :
    (sep : ℕ) (xs : Bytes) {head rest : Bytes}
    → sep < 4
    → scan sep xs ≡ ended head rest
    → Split sep xs head rest
unfolding scan
scan_sound sep [] h e = cc
scan_sound sep (c ∷ xs) {head} {rest} h e = elim (Bool-cases (advance sep c == 4)) [
  | inl f ↦
      let r = simp f at e in
      let four = (==_iff (advance sep c) 4).0 f in
      let front : head ≡ c ∷ [] = ground (arith, r) in
      let back : rest ≡ xs = ground (arith, r) in
      rw (front, back) (refl, ([], last_byte sep c h four))
  | inr f ↦
      let r = simp f at e in
      let (tail, g, k) = after_byte-ended c (scan (advance sep c) xs) r in
      rw g
        (Split-cons sep c xs tail rest h (scan_sound (advance sep c) xs (advance-lt sep c h f) k))
]

-- The head that the scan of a new request finds is a front part of what came in, and ends in an
-- empty line.
pub scan-ended :
    (xs : Bytes) {head rest : Bytes}
    → scan 0 xs ≡ ended head rest
    → (xs ≡ head ++ rest) × ((pre : Bytes) × (head ≡ pre ++ crlf (crlf [])))
scan-ended xs e = scan_sound 0 xs (omega arith) e

behind_bytes-append :
    (xs ys : Bytes) (s : Scan) → behind_bytes xs (behind_bytes ys s) ≡ behind_bytes (xs ++ ys) s
behind_bytes-append xs ys (ended head rest) = rw append_assoc
behind_bytes-append xs ys (unfinished sep) = refl

scan-crlf : (rest : Bytes) → scan 0 (crlf rest) ≡ behind_bytes (crlf []) (scan 2 rest)
unfolding scan
scan-crlf rest = sym (
    behind_bytes-cons b'\r' (b'\n' ∷ []) _
    ∙ ap (after_byte b'\r')
        (behind_bytes-cons b'\n' [] _ ∙ ap (after_byte b'\n') (behind_bytes-nil _)))

-- A line, read at the start or after the end of the line before.
scan_next_line :
    (sep c : ℕ) (xs rest : Bytes)
    → (sep ≡ 0) ⊎ (sep ≡ 2)
    → Lacks b'\r' (c ∷ xs)
    → scan sep ((c ∷ xs) ++ crlf rest) ≡ behind_bytes ((c ∷ xs) ++ crlf []) (scan 2 rest)
unfolding scan
scan_next_line sep c xs rest s h =
    let quiet : advance sep c ≡ 0 = unfold advance in ground arith in
    rw quiet (
      ap (after_byte c) (
        scan_line xs (crlf rest) h.1
        ∙ ap (behind_bytes xs) (scan-crlf rest)
        ∙ behind_bytes-append xs (crlf []) (scan 2 rest))
      ∙ sym (behind_bytes-cons c (xs ++ crlf []) (scan 2 rest)))

scan_header :
    (e : Bytes × Bytes) (rest : Bytes)
    → IsHeader e
    → scan 2 (header_line e ++ crlf rest) ≡ behind_bytes (header_line e ++ crlf []) (scan 2 rest)
scan_header ([], val) rest h = scan_next_line 2 b':' (b' ' ∷ val) rest (inr refl) h.1
scan_header (k ∷ key, val) rest h =
    scan_next_line 2 k (key ++ b':' ∷ b' ' ∷ val) rest (inr refl) h.1

pub scan_headers :
    (es : List (Bytes × Bytes)) (body : Bytes)
    → All IsHeader es
    → scan 2 (render_headers es (crlf []) ++ body) ≡ ended (render_headers es (crlf [])) body
scan_headers [] body h = unfold scan advance in refl
scan_headers (e ∷ es) body h =
    ap (scan 2) (append_assoc (header_line e) (crlf (render_headers es (crlf []))) body)
    ∙ scan_header e (render_headers es (crlf []) ++ body) h.0
    ∙ ap (behind_bytes (header_line e ++ crlf [])) (scan_headers es body h.1)
    ∙ ap (λ t. ended t body) (append_assoc (header_line e) (crlf []) (render_headers es (crlf [])))

-- Headers at the start of a text, with no line before them.
pub scan_first_header :
    (e : Bytes × Bytes) (es : List (Bytes × Bytes)) (body : Bytes)
    → All IsHeader (e ∷ es)
    → scan 0 (render_headers (e ∷ es) (crlf []) ++ body)
      ≡ ended (render_headers (e ∷ es) (crlf [])) body
scan_first_header (key, val) es body h =
    ap (scan 0) (append_assoc (header_line (key, val)) (crlf (render_headers es (crlf []))) body)
    ∙ go key (render_headers es (crlf []) ++ body) h.0.1
    ∙ ap (behind_bytes (header_line (key, val) ++ crlf [])) (scan_headers es body h.1)
    ∙ ap (λ t. ended t body)
        (append_assoc (header_line (key, val)) (crlf []) (render_headers es (crlf [])))
  where
    go :
        (k rest : Bytes)
        → Lacks b'\r' (header_line (k, val))
        → scan 0 (header_line (k, val) ++ crlf rest)
          ≡ behind_bytes (header_line (k, val) ++ crlf []) (scan 2 rest)
    go [] rest l = scan_next_line 0 b':' (b' ' ∷ val) rest (inl refl) l
    go (c ∷ k) rest l = scan_next_line 0 c (k ++ b':' ∷ b' ' ∷ val) rest (inl refl) l

scan-request_line :
    (h : Head) (rest : Bytes)
    → IsHead h
    → scan 0 (request_line h ++ crlf rest) ≡ behind_bytes (request_line h ++ crlf []) (scan 2 rest)
scan-request_line h rest v = go h.method v.first_line
  where
    go :
        (m : Bytes)
        → Lacks b'\r' (m ++ b' ' ∷ (h.path ++ b' ' ∷ h.version))
        → scan 0 ((m ++ b' ' ∷ (h.path ++ b' ' ∷ h.version)) ++ crlf rest)
          ≡ behind_bytes ((m ++ b' ' ∷ (h.path ++ b' ' ∷ h.version)) ++ crlf []) (scan 2 rest)
    go [] l = scan_next_line 0 b' ' _ rest (inl refl) l
    go (c ∷ m) l = scan_next_line 0 c _ rest (inl refl) l

-- The scan of a new request ends exactly behind the head that a client sends, whatever follows.
pub scan-render :
    (h : Head) (body : Bytes) → IsHead h → scan 0 (render h ++ body) ≡ ended (render h) body
scan-render h body v =
    let tail = render_headers h.headers (crlf []) in
    ap (scan 0) (append_assoc (request_line h) (crlf tail) body)
    ∙ scan-request_line h (tail ++ body) v
    ∙ ap (behind_bytes (request_line h ++ crlf [])) (scan_headers h.headers body v.other_lines)
    ∙ ap (λ t. ended t body) (append_assoc (request_line h) (crlf []) tail)
