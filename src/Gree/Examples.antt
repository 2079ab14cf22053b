-- ===== src/Gree/Examples.antt =====
-- Tests of the air conditioner's client, and its theorems at concrete inputs.
use mathlib.Core.List.{Memᴰ}
use camonitor.Prelude.{
  ◌+◌, ◌%◌, ◌≡◌, refl, true, false, [], ◌∷◌, ◌++◌, map, none, some, arith, pos, All, Text, codes,
  text_eq, lookup, put, if◌then◌else◌, length-map, filter_by, to_lower,
}
use camonitor.Encoding.Decode.{IsByte}
use camonitor.Encoding.Std.{base64_std, decode_base64_std}
use camonitor.Gree.{
  gree_generic_key, gree_normalize_mac, Json, text, number, scalar, text_at, Addr, GreeClient,
  send_target, broadcast_addr, same_addr, gree_column_for,
}
use camonitor.Gree.Cipher.{
  Aes, IsCipher, gree_encrypt, gree_decrypt, gree_decrypt-encrypt, to_last_brace, each_block,
}
use camonitor.Gree.Session.{
  timed_out, datagram, no_datagram, Handshake, scan_replies, scan_and_bind, is_our_unit, open_pack,
  found_at, discover, bind, read_reply,
}
use camonitor.Gree.Session.Binding.{IsBound, handshake_binds}
use camonitor.Gree.Unit.{set, unknown_parameter, read_columns}
use camonitor.Gree.Unit.Commands.{set_unknown}
use camonitor.Gree.Unit.Readings.{UnitState}

-- A block cipher that adds one to each byte; the key is not used.
abbrev pub toy_aes : Aes
toy_aes = record {
  encrypt = λ key b. map (λ x. (x + 1) % 256) b;
  decrypt = λ key b. map (λ x. (x + 255) % 256) b;
}

stepped-IsByte : (b : Text) → All IsByte (map (λ x. (x + 1) % 256) b)
stepped-IsByte [] = tt
stepped-IsByte (x ∷ b) = (omega arith, stepped-IsByte b)

stepped_back :
    (b : Text) → All IsByte b → map (λ x. (x + 255) % 256) (map (λ x. (x + 1) % 256) b) ≡ b
stepped_back [] h = refl
stepped_back (x ∷ b) h =
    let e : ((x + 1) % 256 + 255) % 256 ≡ x = omega arith in rw (e, stepped_back b h.1) refl

toy_aes-IsCipher : IsCipher toy_aes
toy_aes-IsCipher = record {
  size = λ key b h e. omega (arith, length-map (λ x. (x + 1) % 256) b);
  bytes = λ key b h e. stepped-IsByte b;
  inverse = λ key b h e. stepped_back b h;
}

-- Every text is an object with one field for each name that the code reads, which holds the text.
abbrev pub toy_json : Json
toy_json = record {
  marshal = λ m. [];
  unmarshal = λ s. some (
      (codes "pack", scalar (text s))
      ∷ (codes "cid", scalar (text s))
      ∷ (codes "key", scalar (text s))
      ∷ []);
}

gree_decrypt-encrypt_example :
    (pack : Text) × (gree_encrypt toy_aes (codes "{1" ++ b'}' ∷ []) gree_generic_key ≡ some pack)
    × (gree_decrypt toy_aes pack gree_generic_key ≡ some (codes "{1" ++ b'}' ∷ []))
gree_decrypt-encrypt_example =
    gree_decrypt-encrypt toy_aes toy_aes-IsCipher gree_generic_key (codes "{1") (omega arith) refl

man_encoded :
    (base64_std (codes "Man") ≡ codes "TWFu")
    × (base64_std (codes "Ma") ≡ codes "TWE=")
    × (base64_std (codes "M") ≡ codes "TQ==")
    × (decode_base64_std (codes "TQ==") ≡ some (codes "M"))
    × (decode_base64_std (codes "TQ=") ≡ none)
    × (decode_base64_std (codes "TQ==TQ==") ≡ none)
unfolding base64_std decode_base64_std filter_by
man_encoded = (refl, refl, refl, refl, refl, refl)

abbrev client : GreeClient
client = record {
  mac = codes "0123456789abcde}";
  port = 7000;
  scan_targets = [];
  broadcast_only = false;
  addr = none;
  cid = [];
  key = none;
}

abbrev home : Addr
home = record { ip = codes "10.0.0.7"; port = 7000 }

abbrev away : Addr
away = record { ip = codes "10.0.0.8"; port = 7000 }

-- Packs that open to the unit's address, upper and lower case, and to that of another.
abbrev ours : Text
ours = codes "MTIzNDU2Nzg5OkJDREVGfg=="

abbrev strange : Text
strange = codes "MTIzNDU2Nzg5Ojo6Ojo6fg=="

-- The first bind times out, since the unit answers broadcasts only.
abbrev pub answers : Handshake
answers = record {
  socket = true;
  reached = λ t. true;
  scan = datagram strange away ∷ datagram ours home ∷ [];
  first_bind =
      λ target. record { sent = true; turns = datagram ours away ∷ no_datagram timed_out ∷ [] };
  second_bind = λ target. record { sent = true; turns = datagram ours home ∷ [] };
}

abbrev bound_client : GreeClient
bound_client = record client {
  broadcast_only = true;
  addr = some home;
  cid = codes "0123456789ABCDE}";
  key = some (codes "0123456789ABCDE}");
}

bound : scan_and_bind toy_json toy_aes answers client ≡ (bound_client, none)
unfolding scan_and_bind discover scan_replies open_pack is_our_unit found_at gree_normalize_mac bind
    read_reply same_addr send_target broadcast_addr text_at lookup text_eq to_lower filter_by
    gree_decrypt decode_base64_std to_last_brace each_block
bound = refl

handshake_binds_example :
    (gree_normalize_mac (codes "0123456789ABCDE}") ≡ codes "0123456789abcde}")
    × IsBound toy_json toy_aes answers bound_client
handshake_binds_example = handshake_binds toy_json toy_aes answers client bound_client bound refl

set_unknown_example :
    set toy_json toy_aes answers
      (record { sent = true; turns = [] })
      ((codes "power", pos 1) ∷ (codes "turbo boost", pos 1) ∷ [])
      bound_client
    ≡ (bound_client, some unknown_parameter, [])
set_unknown_example =
    set_unknown toy_json toy_aes answers (record { sent = true; turns = [] })
      ((codes "power", pos 1) ∷ (codes "turbo boost", pos 1) ∷ []) bound_client
      (codes "turbo boost") (pos 1) (Memᴰ.tail (Memᴰ.head refl))
      (unfold gree_column_for lookup text_eq in refl)

-- A unit that cools to 24 degrees.
abbrev cool_unit : UnitState
cool_unit k = if text_eq k (codes "SetTem") then pos 24 else pos 1

-- A reading with a column too many, one without a name, and a text where a number belongs.
reads :
    read_columns
      (text (codes "Pow") ∷ number (pos 3) ∷ text (codes "Mod") ∷ text (codes "Lig") ∷ [])
      (number (pos 1) ∷ number (pos 9) ∷ text (codes "x") ∷ [])
      []
    ≡ (codes "Pow", pos 1) ∷ ([], pos 9) ∷ []
unfolding read_columns put text_eq
reads = refl
