-- ===== src/Stellar/Bytes/RoundTrip.antt =====
-- `toBytes32` reads back what `toString('hex')` wrote, gives 32 bytes at most, and fewer for a text
-- that is not hexadecimal.
use Prim.Native.Char.{Char}
use Prim.Native.Nat.{◌%◌}
use cred_bridge.Prelude.{
  ℕ, zero, suc, ◌*◌, ◌/◌, ◌≤◌, ◌<◌, ◌≡◌, refl, sym, ap, ◌∙◌, String, Bool, true, false, Option,
  none, some, List, [], ◌∷◌, ◌==◌, arith, All, length, Bool-cases, inl, inr, eq_iff, not,
}
use cred_bridge.Authorizations.Hex.{is_hex_digit, strip_0x, text_length}
use cred_bridge.Stellar.Bytes.{
  digit_value, hex_bytes, pad_end, slice_to, to_bytes32, digit_char, hex_text,
}

nibble : (n : ℕ) → n < 16 → (digit_value (digit_char n) ≡ n) × (is_hex_digit (digit_char n) ≡ true)
nibble zero h = (refl, refl)
nibble (suc zero) h = (refl, refl)
nibble (suc (suc zero)) h = (refl, refl)
nibble (suc (suc (suc zero))) h = (refl, refl)
nibble (suc (suc (suc (suc zero)))) h = (refl, refl)
nibble (suc (suc (suc (suc (suc zero))))) h = (refl, refl)
nibble (suc (suc (suc (suc (suc (suc zero)))))) h = (refl, refl)
nibble (suc (suc (suc (suc (suc (suc (suc zero))))))) h = (refl, refl)
nibble (suc (suc (suc (suc (suc (suc (suc (suc zero)))))))) h = (refl, refl)
nibble (suc (suc (suc (suc (suc (suc (suc (suc (suc zero))))))))) h = (refl, refl)
nibble (suc (suc (suc (suc (suc (suc (suc (suc (suc (suc zero)))))))))) h = (refl, refl)
nibble (suc (suc (suc (suc (suc (suc (suc (suc (suc (suc (suc zero))))))))))) h = (refl, refl)
nibble (suc (suc (suc (suc (suc (suc (suc (suc (suc (suc (suc (suc zero)))))))))))) h = (refl, refl)
nibble (suc (suc (suc (suc (suc (suc (suc (suc (suc (suc (suc (suc (suc zero))))))))))))) h =
    (refl, refl)
nibble (suc (suc (suc (suc (suc (suc (suc (suc (suc (suc (suc (suc (suc (suc zero)))))))))))))) h =
    (refl, refl)
nibble
      (suc (suc (suc (suc (suc (suc (suc (suc (suc (suc (suc (suc (suc (suc (suc zero)))))))))))))))
      h =
    (refl, refl)
nibble
      (suc
        (suc (suc (suc (suc (suc (suc (suc (suc (suc (suc (suc (suc (suc (suc (suc n))))))))))))))))
      h =
    absurd (omega arith)

abbrev pub IsByte : ℕ → Type 0
IsByte b = b < 256

hex_bytes-hex_text : (bs : List ℕ) → All IsByte bs → hex_bytes (hex_text bs) ≡ bs
unfolding hex_bytes hex_text
hex_bytes-hex_text [] h = refl
hex_bytes-hex_text (b ∷ bs) (lt, rest) =
    let (high, is_high) = nibble (b / 16) (omega arith) in
    let (low, is_low) = nibble (b % 16) (omega arith) in
    rw (is_high, is_low, high, low, hex_bytes-hex_text bs rest) (ap (λ n. n ∷ bs) (omega arith))

text_length-hex_text : (bs : List ℕ) → text_length (hex_text bs) ≡ length bs * 2
unfolding text_length hex_text
text_length-hex_text [] = refl
text_length-hex_text (b ∷ bs) = omega (arith, text_length-hex_text bs)

-- A text that is long enough is padded by nothing, and cut at its length it is itself.
pad_end-full : (n : ℕ) (s : String) → n ≤ text_length s → pad_end n s ≡ s
unfolding pad_end text_length
pad_end-full zero s h = refl
pad_end-full (suc n) String.[] h = absurd (omega arith)
pad_end-full (suc n) (String.◌∷◌ c s) h = ap (String.◌∷◌ c) (pad_end-full n s (omega arith))

slice_to-full : (n : ℕ) (s : String) → text_length s ≡ n → slice_to n s ≡ s
unfolding slice_to text_length
slice_to-full zero String.[] h = refl
slice_to-full zero (String.◌∷◌ c s) h = absurd (omega arith)
slice_to-full (suc n) String.[] h = absurd (omega arith)
slice_to-full (suc n) (String.◌∷◌ c s) h = ap (String.◌∷◌ c) (slice_to-full n s (omega arith))

text_length-slice_to : (n : ℕ) (s : String) → text_length (slice_to n s) ≤ n
unfolding slice_to text_length
text_length-slice_to zero s = omega arith
text_length-slice_to (suc n) String.[] = omega arith
text_length-slice_to (suc n) (String.◌∷◌ c s) = omega (arith, text_length-slice_to n s)

length-hex_bytes : (s : String) → length (hex_bytes s) * 2 ≤ text_length s
unfolding hex_bytes text_length
length-hex_bytes String.[] = omega arith
length-hex_bytes (String.◌∷◌ a String.[]) = omega arith
length-hex_bytes (String.◌∷◌ a (String.◌∷◌ b s)) = ground (arith, length-hex_bytes s)

opposites : false ≡ true → ⊥
opposites h = cc

no_x :
    (a b : Char) → is_hex_digit b ≡ true → (String.◌∷◌ a (String.◌∷◌ b String.[]) == "0x") ≡ false
no_x a b h = elim (Bool-cases (String.◌∷◌ a (String.◌∷◌ b String.[]) == "0x")) [
  | inl same ↦ elim (opposites (sym (ap last_is_hex ((eq_iff _ _).0 same)) ∙ h)) [ ]
  | inr differ ↦ differ
]
  where
    last_is_hex : String → Bool
    last_is_hex (String.◌∷◌ c (String.◌∷◌ d s)) = is_hex_digit d
    last_is_hex _ = true

strip_0x-hex_text : (bs : List ℕ) → All IsByte bs → strip_0x (hex_text bs) ≡ hex_text bs
unfolding strip_0x hex_text
strip_0x-hex_text [] h = refl
strip_0x-hex_text (b ∷ bs) (lt, rest) =
    rw (no_x (digit_char (b / 16)) (digit_char (b % 16)) (nibble (b % 16) (omega arith)).1) refl

-- The text has a character at this place, and it is no hexadecimal digit.
unfoldable pub stops_at : ℕ → String → Bool
stops_at n String.[] = false
stops_at zero (String.◌∷◌ c s) = not (is_hex_digit c)
stops_at (suc n) (String.◌∷◌ c s) = stops_at n s

length-hex_bytes-stops_at :
    (n : ℕ) (s : String) → stops_at n s ≡ true → length (hex_bytes s) * 2 ≤ n
unfolding hex_bytes stops_at
length-hex_bytes-stops_at n String.[] h = omega arith
length-hex_bytes-stops_at n (String.◌∷◌ a String.[]) h = omega arith
length-hex_bytes-stops_at zero (String.◌∷◌ a (String.◌∷◌ b s)) h = ground arith
length-hex_bytes-stops_at (suc zero) (String.◌∷◌ a (String.◌∷◌ b s)) h = ground arith
length-hex_bytes-stops_at (suc (suc n)) (String.◌∷◌ a (String.◌∷◌ b s)) h =
    ground (arith, length-hex_bytes-stops_at n s h)

stops_at-pad_end : (k n : ℕ) (s : String) → stops_at k s ≡ true → stops_at k (pad_end n s) ≡ true
unfolding pad_end stops_at
stops_at-pad_end k zero s h = h
stops_at-pad_end k (suc n) String.[] h = cc
stops_at-pad_end zero (suc n) (String.◌∷◌ c s) h = h
stops_at-pad_end (suc k) (suc n) (String.◌∷◌ c s) h = stops_at-pad_end k n s h

stops_at-slice_to :
    (k n : ℕ) (s : String) → k < n → stops_at k s ≡ true → stops_at k (slice_to n s) ≡ true
unfolding slice_to stops_at
stops_at-slice_to k zero s lt h = absurd (omega arith)
stops_at-slice_to k (suc n) String.[] lt h = cc
stops_at-slice_to zero (suc n) (String.◌∷◌ c s) lt h = h
stops_at-slice_to (suc k) (suc n) (String.◌∷◌ c s) lt h = stops_at-slice_to k n s (omega arith) h

-- What is left of the text without its `0x` stops as early or earlier.
stops_at-strip_0x :
    (k : ℕ) (s : String)
    → stops_at (suc (suc k)) s ≡ true
    → (j : ℕ) × (j ≤ suc (suc k)) × (stops_at j (strip_0x s) ≡ true)
unfolding strip_0x stops_at
stops_at-strip_0x k String.[] h = cc
stops_at-strip_0x k (String.◌∷◌ a String.[]) h = cc
stops_at-strip_0x k (String.◌∷◌ a (String.◌∷◌ b s)) h =
    elim (Bool-cases (String.◌∷◌ a (String.◌∷◌ b String.[]) == "0x")) [
      | inl yes' ↦ (k, omega arith, rw yes' h)
      | inr no' ↦ (suc (suc k), omega arith, rw no' h)
    ]

pub cons_not_empty : (c : Char) (s : String) → (String.◌∷◌ c s == "") ≡ false
cons_not_empty c s = elim (Bool-cases (String.◌∷◌ c s == "")) [
  | inl same ↦ elim (opposites (ap is_blank ((eq_iff (String.◌∷◌ c s) "").0 same))) [ ]
  | inr differ ↦ differ
]
  where
    is_blank : String → Bool
    is_blank String.[] = true
    is_blank _ = false

not_empty : (s : String) → 0 < text_length s → (s == "") ≡ false
unfolding text_length
not_empty String.[] h = absurd (omega arith)
not_empty (String.◌∷◌ c s) h = cons_not_empty c s

not_blank : (s : String) → stops_at 8 s ≡ true → (s == "") ≡ false
unfolding stops_at
not_blank String.[] h = cc
not_blank (String.◌∷◌ c s) h = cons_not_empty c s

-- `toBytes32` of the text of 32 bytes is these bytes.
pub to_bytes32-hex_text :
    (bs : List ℕ) → length bs ≡ 32 → All IsByte bs → to_bytes32 (some (hex_text bs)) ≡ bs
unfolding to_bytes32
to_bytes32-hex_text bs full bytes =
    let size : text_length (hex_text bs) ≡ 64 = omega (arith, text_length-hex_text bs) in
    rw
      (
        not_empty (hex_text bs) (omega arith),
        strip_0x-hex_text bs bytes,
        pad_end-full 64 (hex_text bs) (omega arith),
        slice_to-full 64 (hex_text bs) size,
      )
      (hex_bytes-hex_text bs bytes)

-- `toBytes32` gives 32 bytes at most, whatever the text.
pub to_bytes32_at_most : (hash : Option String) → length (to_bytes32 hash) ≤ 32
unfolding to_bytes32
to_bytes32_at_most none = omega arith
to_bytes32_at_most (some s) = ground (
  arith,
  text_length-slice_to 64 (pad_end 64 (strip_0x s)),
  length-hex_bytes (slice_to 64 (pad_end 64 (strip_0x s))),
)

-- `toBytes32` of a text whose ninth character is no hexadecimal digit, such as a UUID with its dash,
-- gives four bytes at most.
pub to_bytes32_short : (s : String) → stops_at 8 s ≡ true → length (to_bytes32 (some s)) ≤ 4
unfolding to_bytes32
to_bytes32_short s h =
    let (j, early, at) = stops_at-strip_0x 6 s h in
    let stops = stops_at-slice_to j 64 _ (omega arith) (stops_at-pad_end j 64 (strip_0x s) at) in
    ground (arith, length-hex_bytes-stops_at j _ stops, not_blank s h)
