-- ===== src/Rtsp/Response/Prefix.antt =====
-- rtsp.go: a response takes its own bytes from the socket and no others.
use camonitor.Prelude.{
  ℕ, zero, suc, ◌≤◌, ◌<◌, ◌≡◌, refl, ap, false, inl, inr, [], ◌∷◌, ◌++◌, none, some, arith, ltb,
  ◌==◌, length, take, drop, length-append, length-drop, drop-append, cut, cut_prefix, Bool-cases,
  Option-cases, Text, codes, is_empty, Map, lookup, ℤ, pos, negsuc,
}
use camonitor.Decimal.{parse_int}
use camonitor.Rtsp.Response.{
  Response, read_line, trim_line, status_of, add_header, read_headers, read_full, read_body,
  read_rest, read_response, text_of,
}

read_line-append :
    (s t l r : Text) → read_line s ≡ some (l, r) → read_line (s ++ t) ≡ some (l, r ++ t)
unfolding read_line
read_line-append [] t l r h = absurd (cc)
read_line-append (c ∷ s) t l r h = elim (Bool-cases (c == 10)) [
  | inl e ↦ ground (arith, h, e)
  | inr e ↦ elim (Option-cases (read_line s)) [
    | inl n ↦ absurd (ground (arith, h, e, n))
    | inr ((l', r'), o) ↦
        let ih = read_line-append s t l' r' o in
        let a : c ∷ l' ≡ l = ground (arith, h, e, o) in
        let b : r' ≡ r = ground (arith, h, e, o) in rw (← a, ← b) (ground (arith, e, ih))
  ]
]

read_headers-append :
    (line : Text) (hs : Map Text) (s t : Text) (hs' : Map Text) (r : Text)
    → read_headers line hs s ≡ some (hs', r)
    → read_headers line hs (s ++ t) ≡ some (hs', r ++ t)
unfolding read_headers
read_headers-append line hs [] t hs' r h = absurd (cc)
read_headers-append line hs (c ∷ s) t hs' r h = elim (Bool-cases (c == 10)) [
  | inl e ↦ elim (Bool-cases (is_empty (trim_line line))) [
    | inl f ↦ ground (arith, h, e, f)
    | inr f ↦ ground (
      arith,
      e,
      f,
      read_headers-append [] (add_header (trim_line line) hs) s t hs' r (ground (arith, h, e, f)),
    )
  ]
  | inr e ↦
      ground (arith, e, read_headers-append (line ++ c ∷ []) hs s t hs' r (ground (arith, h, e)))
]

take-append_le : (n : ℕ) (s t : Text) → n ≤ length s → take n (s ++ t) ≡ take n s
take-append_le zero s t h = refl
take-append_le (suc n) [] t h = absurd (omega arith)
take-append_le (suc n) (c ∷ s) t h = ap (◌∷◌ c) (take-append_le n s t (omega arith))

read_full-append :
    (n : ℕ) (s t b r : Text) → read_full n s ≡ some (b, r) → read_full n (s ++ t) ≡ some (b, r ++ t)
unfolding read_full
read_full-append n s t b r h = elim (Bool-cases (ltb (length s) n)) [
  | inl e ↦ absurd (ground (arith, h, e))
  | inr e ↦
      let fits : n ≤ length s = ground arith in
      let more : ltb (length (s ++ t)) n ≡ false = ground (arith, length-append s t) in
      ground (arith, more, h, e, take-append_le n s t fits, drop-append n s t fits)
]

read_body-append :
    (cl s t b r : Text) → read_body cl s ≡ some (b, r) → read_body cl (s ++ t) ≡ some (b, r ++ t)
unfolding read_body
read_body-append cl s t b r h = elim (Bool-cases (is_empty cl)) [
  | inl e ↦ ground (arith, h, e)
  | inr e ↦ elim (Option-cases (parse_int cl)) [
    | inl f ↦ absurd (ground (arith, h, e, f))
    | inr (pos n, f) ↦ ground (arith, e, f, read_full-append n s t b r (ground (arith, h, e, f)))
    | inr (negsuc n, f) ↦ ground (arith, e, f, h)
  ]
]

read_rest-append :
    (code : ℤ) (s t : Text) (resp : Response) (r : Text)
    → read_rest code s ≡ some (resp, r)
    → read_rest code (s ++ t) ≡ some (resp, r ++ t)
unfolding read_rest
read_rest-append code s t resp r h = elim (Option-cases (read_headers [] [] s)) [
  | inl e ↦ absurd (ground (arith, h, e))
  | inr ((hs, m), e) ↦
      let cl : Text = text_of (lookup (codes "content-length") hs) in
      elim (Option-cases (read_body cl m)) [
        | inl f ↦ absurd (ground (arith, h, e, f))
        | inr ((b, r'), f) ↦
            ground
              (arith, h, e, f, read_headers-append [] [] s t hs m e, read_body-append cl m t b r' f)
      ]
]

-- What follows a response on the socket does not change how it is read.
pub read_response-append :
    (s t : Text) (resp : Response) (r : Text)
    → read_response s ≡ some (resp, r)
    → read_response (s ++ t) ≡ some (resp, r ++ t)
unfolding read_response
read_response-append s t resp r h = elim (Option-cases (read_line s)) [
  | inl e ↦ absurd (ground (arith, h, e))
  | inr ((line, m), e) ↦ elim (Option-cases (status_of (trim_line line))) [
    | inl f ↦ absurd (ground (arith, h, e, f))
    | inr (code, f) ↦ ground (
      arith,
      h,
      e,
      f,
      read_line-append s t line m e,
      read_rest-append code m t resp r (ground (arith, h, e, f)),
    )
  ]
]

-- A frame is no response.
pub response-ne-frame : (s : Text) → read_response (b'$' ∷ s) ≡ none
unfolding read_response read_line status_of trim_line cut cut_prefix
response-ne-frame s = elim (Option-cases (read_line s)) [
  | inl e ↦ rw (e, read_response) refl
  | inr ((line, m), e) ↦ elim (Bool-cases (is_empty (trim_line line))) [
    | inl f ↦ ground (arith, e, f)
    | inr f ↦ ground (arith, e, f)
  ]
]

read_line-shorter : (s l r : Text) → read_line s ≡ some (l, r) → length r < length s
unfolding read_line
read_line-shorter [] l r h = absurd (cc)
read_line-shorter (c ∷ s) l r h = elim (Bool-cases (c == 10)) [
  | inl e ↦ let a : s ≡ r = ground (arith, h, e) in rw (← a) (omega arith)
  | inr e ↦ elim (Option-cases (read_line s)) [
    | inl n ↦ absurd (ground (arith, h, e, n))
    | inr ((l', r'), o) ↦
        let a : r' ≡ r = ground (arith, h, e, o) in
        rw (← a) (omega (arith, read_line-shorter s l' r' o))
  ]
]

read_headers-shorter :
    (line : Text) (hs : Map Text) (s : Text) (hs' : Map Text) (r : Text)
    → read_headers line hs s ≡ some (hs', r)
    → length r ≤ length s
unfolding read_headers
read_headers-shorter line hs [] hs' r h = absurd (cc)
read_headers-shorter line hs (c ∷ s) hs' r h = elim (Bool-cases (c == 10)) [
  | inl e ↦ elim (Bool-cases (is_empty (trim_line line))) [
    | inl f ↦ let a : s ≡ r = ground (arith, h, e, f) in rw (← a) (omega arith)
    | inr f ↦ omega (
      arith,
      read_headers-shorter [] (add_header (trim_line line) hs) s hs' r (ground (arith, h, e, f)),
    )
  ]
  | inr e ↦ omega (arith, read_headers-shorter (line ++ c ∷ []) hs s hs' r (ground (arith, h, e)))
]

read_body-shorter : (cl s b r : Text) → read_body cl s ≡ some (b, r) → length r ≤ length s
unfolding read_body read_full
read_body-shorter cl s b r h = elim (Bool-cases (is_empty cl)) [
  | inl e ↦ let a : s ≡ r = ground (arith, h, e) in rw (← a) (omega arith)
  | inr e ↦ elim (Option-cases (parse_int cl)) [
    | inl f ↦ absurd (ground (arith, h, e, f))
    | inr (pos n, f) ↦ elim (Bool-cases (ltb (length s) n)) [
      | inl g ↦ absurd (ground (arith, h, e, f, g))
      | inr g ↦
          let a : drop n s ≡ r = ground (arith, h, e, f, g) in
          rw (← a) (omega (arith, length-drop n s))
    ]
    | inr (negsuc n, f) ↦ let a : s ≡ r = ground (arith, h, e, f) in rw (← a) (omega arith)
  ]
]

read_rest-shorter :
    (code : ℤ) (s : Text) (resp : Response) (r : Text)
    → read_rest code s ≡ some (resp, r)
    → length r ≤ length s
unfolding read_rest
read_rest-shorter code s resp r h = elim (Option-cases (read_headers [] [] s)) [
  | inl e ↦ absurd (ground (arith, h, e))
  | inr ((hs, m), e) ↦
      let cl : Text = text_of (lookup (codes "content-length") hs) in
      elim (Option-cases (read_body cl m)) [
        | inl f ↦ absurd (ground (arith, h, e, f))
        | inr ((b, r'), f) ↦
            let a : r' ≡ r = ground (arith, h, e, f) in
            rw (← a)
              (omega (arith, read_headers-shorter [] [] s hs m e, read_body-shorter cl m b r' f))
      ]
]

-- A response takes at least one byte.
pub read_response-shorter :
    (s : Text) (resp : Response) (r : Text) → read_response s ≡ some (resp, r) → length r < length s
unfolding read_response
read_response-shorter s resp r h = elim (Option-cases (read_line s)) [
  | inl e ↦ absurd (ground (arith, h, e))
  | inr ((line, m), e) ↦ elim (Option-cases (status_of (trim_line line))) [
    | inl f ↦ absurd (ground (arith, h, e, f))
    | inr (code, f) ↦ omega (
      arith,
      read_line-shorter s line m e,
      read_rest-shorter code m resp r (ground (arith, h, e, f)),
    )
  ]
]
