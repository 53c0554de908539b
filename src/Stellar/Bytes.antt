-- ===== src/Stellar/Bytes.antt =====
-- `toBytes32` of apps/api/src/shared/blockchain/stellar.service.ts: the 32 bytes of a hash that is
-- given as a text.
pub mod RoundTrip
use Prim.Native.Char.{Char, code}
use Prim.Native.String
use Prim.Native.Nat.{◌%◌}
use cred_bridge.Prelude.{
  ℕ, zero, suc, ◌+◌, ◌-◌, ◌*◌, ◌/◌, String, Bool, true, false, Option, none, some, List, [], ◌∷◌,
  leb, ◌&&◌, ◌==◌, if◌then◌else◌,
}
use cred_bridge.Authorizations.Hex.{is_hex_digit, strip_0x}

-- The value of a hexadecimal digit.
abbrev pub digit_value : Char → ℕ
digit_value c =
    if leb (code c) 57 then code c - 48 else if leb (code c) 70 then code c - 55 else code c - 87

-- `Buffer.from(s, 'hex')`: the pairs of digits up to the first that is none.
unfoldable pub hex_bytes : String → List ℕ
hex_bytes String.[] = []
hex_bytes (String.◌∷◌ a String.[]) = []
hex_bytes (String.◌∷◌ a (String.◌∷◌ b s)) =
    let rest = hex_bytes s in
    if is_hex_digit a && is_hex_digit b then (digit_value a * 16 + digit_value b) ∷ rest else []

-- `s.padEnd(n, '0')`. Lengths are in characters: where they differ from UTF-16 units a character is
-- no digit, and the bytes end before it either way.
unfoldable pub pad_end : ℕ → String → String
pad_end zero s = s
pad_end (suc n) String.[] = String.◌∷◌ "0" (pad_end n String.[])
pad_end (suc n) (String.◌∷◌ c s) = String.◌∷◌ c (pad_end n s)

-- `s.slice(0, n)`
unfoldable pub slice_to : ℕ → String → String
slice_to zero s = String.[]
slice_to (suc n) String.[] = String.[]
slice_to (suc n) (String.◌∷◌ c s) = String.◌∷◌ c (slice_to n s)

abbrev pub zeros : ℕ → List ℕ
zeros zero = []
zeros (suc n) = 0 ∷ zeros n

unfoldable pub to_bytes32 : Option String → List ℕ
unfolding hex_bytes pad_end slice_to strip_0x
to_bytes32 none = zeros 32
to_bytes32 (some s) =
    if s == "" then zeros 32 else hex_bytes (slice_to 64 (pad_end 64 (strip_0x s)))

abbrev digit_char : ℕ → Char
digit_char zero = "0"
digit_char (suc zero) = "1"
digit_char (suc (suc zero)) = "2"
digit_char (suc (suc (suc zero))) = "3"
digit_char (suc (suc (suc (suc zero)))) = "4"
digit_char (suc (suc (suc (suc (suc zero))))) = "5"
digit_char (suc (suc (suc (suc (suc (suc zero)))))) = "6"
digit_char (suc (suc (suc (suc (suc (suc (suc zero))))))) = "7"
digit_char (suc (suc (suc (suc (suc (suc (suc (suc zero)))))))) = "8"
digit_char (suc (suc (suc (suc (suc (suc (suc (suc (suc zero))))))))) = "9"
digit_char (suc (suc (suc (suc (suc (suc (suc (suc (suc (suc zero)))))))))) = "a"
digit_char (suc (suc (suc (suc (suc (suc (suc (suc (suc (suc (suc zero))))))))))) = "b"
digit_char (suc (suc (suc (suc (suc (suc (suc (suc (suc (suc (suc (suc zero)))))))))))) = "c"
digit_char (suc (suc (suc (suc (suc (suc (suc (suc (suc (suc (suc (suc (suc zero))))))))))))) = "d"
digit_char
      (suc (suc (suc (suc (suc (suc (suc (suc (suc (suc (suc (suc (suc (suc zero)))))))))))))) =
    "e"
digit_char _ = "f"

-- `buffer.toString('hex')`, the way in which document hashes are stored
unfoldable pub hex_text : List ℕ → String
hex_text [] = String.[]
hex_text (b ∷ bs) =
    String.◌∷◌ (digit_char (b / 16)) (String.◌∷◌ (digit_char (b % 16)) (hex_text bs))
