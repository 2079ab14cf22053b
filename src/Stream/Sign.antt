-- ===== src/Stream/Sign.antt =====
-- streamsign.go: stream tokens, an expiry and an HMAC over it and the camera.
pub mod Tokens
use camonitor.Prelude.{
  ℕ, ◌<◌, ◌≤◌, ◌≡◌, ◌≢◌, ◌∙◌, refl, sym, ap, Bool, true, false, ◌&&◌, List, [], ◌∷◌, ◌++◌, Option,
  none, some, arith, leb, All, Text, text_eq, text_eq-to, text_eq_refl, cut, contains, ℤ, pos,
  negsuc,
}
use camonitor.Clock.{Time, unix}
use camonitor.Decimal.{decimal, parse_int, parse_int-decimal, contains-decimal, max_int64}
use camonitor.Encoding.{base64_raw_url}
use camonitor.Encoding.Decode.{decode_base64_raw_url, decode-base64_raw_url, IsByte}

-- `crypto/hmac` with SHA-256: the key, the message and the bytes of the sum.
pub record Hmac : Type 0 where
  pub sum : Text → Text → Text
  pub sum-IsByte : (key message : Text) → All IsByte (sum key message)

-- `now.Unix() <= exp`
abbrev pub is_fresh : ℕ → ℤ → Bool
is_fresh now (pos e) = leb now e
is_fresh now (negsuc e) = false

module _ (h : Hmac) where
  unfoldable pub stream_mac : Text → Text → Text → Text
  stream_mac secret camera exp_unix = h.sum secret (camera ++ (b'|' ∷ exp_unix))

  unfoldable pub sign_stream : Text → Text → Time → Text
  sign_stream secret camera exp =
      decimal (unix exp) ++ (b'.' ∷ base64_raw_url (stream_mac secret camera (decimal (unix exp))))

  -- What is left of the check once the parts of the token are read.
  abbrev pub check_parts : Text → Text → Time → Text → Option ℤ → Option Text → Bool
  check_parts secret camera now exp_unix (some exp) (some mac) =
      text_eq mac (stream_mac secret camera exp_unix) && is_fresh (unix now) exp
  check_parts secret camera now exp_unix _ _ = false

  unfoldable pub verify_stream : Text → Text → Text → Time → Bool
  verify_stream secret camera token now =
      let (exp_unix, sig, found) = cut b'.' token in
      found
      && check_parts secret camera now exp_unix (parse_int exp_unix) (decode_base64_raw_url sig)
