-- ===== src/Stream/Sign/Tokens.antt =====
-- What a stream token is worth: until when, for which camera, and from whom.
use camonitor.Prelude.{
  ℕ, ◌≤◌, ◌≡◌, ◌≢◌, ◌∙◌, refl, sym, ap, true, [], ◌∷◌, ◌++◌, Option, none, some, arith, leb, Text,
  text_eq-to, text_eq_refl, cut, cut-append, append-cut, ℤ, pos, negsuc, length, length-append,
}
use camonitor.Clock.{Time, unix}
use camonitor.Decimal.{decimal, parse_int, parse_int-decimal, contains-decimal, max_int64}
use camonitor.Encoding.{base64_raw_url}
use camonitor.Encoding.Decode.{decode_base64_raw_url, decode-base64_raw_url}
use camonitor.Stream.Sign.{Hmac, stream_mac, sign_stream, check_parts, verify_stream}

append_right_cancel : (c c' e : Text) → c ++ e ≡ c' ++ e → c ≡ c'
append_right_cancel [] [] e h = refl
append_right_cancel [] (b ∷ c') e h = absurd (omega (arith, ap length h, length-append (b ∷ c') e))
append_right_cancel (a ∷ c) [] e h = absurd (omega (arith, ap length h, length-append (a ∷ c) e))
append_right_cancel (a ∷ c) (b ∷ c') e h =
    let t : c ≡ c' = append_right_cancel c c' e (ground arith) in ground arith

some_injective : {s t : Text} → some s ≡ some t → s ≡ t
some_injective h = cc

module _ (h : Hmac) where
  check_parts-true :
      (secret camera exp_unix : Text) (now : Time) (exp : Option ℤ) (mac : Option Text)
      → check_parts h secret camera now exp_unix exp mac ≡ true
      → (e : ℕ) × (exp ≡ some (pos e))
        × (mac ≡ some (stream_mac h secret camera exp_unix))
        × (unix now ≤ e)
  check_parts-true secret camera exp_unix now (some (pos e)) (some mac) v = (
    e,
    refl,
    ap some (text_eq-to mac (stream_mac h secret camera exp_unix) (ground arith)),
    ground arith,
  )
  check_parts-true secret camera exp_unix now (some (negsuc e)) (some mac) v = ground arith
  check_parts-true secret camera exp_unix now (some (pos e)) none v = cc
  check_parts-true secret camera exp_unix now (some (negsuc e)) none v = cc
  check_parts-true secret camera exp_unix now none (some mac) v = cc
  check_parts-true secret camera exp_unix now none none v = cc

  -- A token is accepted for its camera up to the second of its expiry, and not after it. The expiry is
  -- in the range of the machine's integers.
  pub verify-sign :
      (secret camera : Text) (exp now : Time)
      → unix exp ≤ max_int64
      → verify_stream h secret camera (sign_stream h secret camera exp) now
        ≡ leb (unix now) (unix exp)
  unfolding verify_stream stream_mac sign_stream cut
  verify-sign secret camera exp now small =
      let e = decimal (unix exp) in
      let mac = stream_mac h secret camera e in
      rw
        (
          verify_stream,
          sign_stream,
          cut-append b'.' e (base64_raw_url mac) (contains-decimal b'.' (unix exp) refl),
          parse_int-decimal (unix exp) small,
          decode-base64_raw_url mac (h.sum-IsByte secret (camera ++ (b'|' ∷ e))),
          text_eq_refl mac,
        )
        refl

  -- Whatever token is accepted for a camera, it is a time that is not over, and what decodes to the
  -- sum, under the server's secret, of that camera and that time.
  pub verify_sound :
      (secret camera token : Text) (now : Time)
      → verify_stream h secret camera token now ≡ true
      → (exp_unix : Text) × (sig : Text) × (exp : ℕ) × (token ≡ exp_unix ++ (b'.' ∷ sig))
        × (parse_int exp_unix ≡ some (pos exp))
        × (unix now ≤ exp)
        × (decode_base64_raw_url sig ≡ some (stream_mac h secret camera exp_unix))
  unfolding verify_stream
  verify_sound secret camera token now v =
      let exp_unix : Text = (cut b'.' token).0 in
      let sig : Text = (cut b'.' token).1 in
      let parts : check_parts h secret camera now exp_unix (parse_int exp_unix)
            (decode_base64_raw_url sig)
          ≡ true =
        ground arith in
      let (exp, e, m, fresh) = check_parts-true secret camera exp_unix now _ _ parts in
      (exp_unix, sig, exp, append-cut b'.' token (ground arith), e, fresh, m)

  accepted_mac :
      (secret camera token : Text) (now : Time)
      → verify_stream h secret camera token now ≡ true
      → decode_base64_raw_url (cut b'.' token).1
        ≡ some (stream_mac h secret camera (cut b'.' token).0)
  unfolding verify_stream
  accepted_mac secret camera token now v =
      let parts : check_parts h secret camera now (cut b'.' token).0 (parse_int (cut b'.' token).0)
            (decode_base64_raw_url (cut b'.' token).1)
          ≡ true =
        ground arith in
      let (exp, e, m, fresh) = check_parts-true secret camera (cut b'.' token).0 now _ _ parts in m

  -- A token is for one camera: where one is accepted for two cameras, at whatever times, the HMAC has
  -- one sum, under the server's secret, for two different messages.
  pub one_camera_or_collision :
      (secret c c' token : Text) (now now' : Time)
      → c ≢ c'
      → verify_stream h secret c token now ≡ true
      → verify_stream h secret c' token now' ≡ true
      → (m : Text) × (m' : Text) × (m ≢ m') × (h.sum secret m ≡ h.sum secret m')
  unfolding stream_mac
  one_camera_or_collision secret c c' token now now' ne v v' =
      let e : Text = b'|' ∷ (cut b'.' token).0 in
      (
        c ++ e,
        c' ++ e,
        (λ same. ne (append_right_cancel c c' e same)),
        some_injective
            (sym (accepted_mac secret c token now v) ∙ accepted_mac secret c' token now' v'),
      )
