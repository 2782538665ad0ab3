-- ===== src/Storage/Checksums.antt =====
-- storage/checksums.py: raw digests and the checksum form `sha256:<digest>`.
use Prim.Native.Nat.{zero, suc}
use Prim.Native.String.{◌∷◌}
use metrka_core.Prelude.{ℕ, String, ◌≡◌, ◌↔◌, refl, sym, ap, ◌∙◌, true, ◌&&◌, not, str_eq, arith}
use metrka_core.Prelude.Text.{str_eq→≡}
use metrka_core.Prelude.Result.{
  Result, ok, value_error, ◌>>=◌, ◌>>◌, raise_if, bind_ok, ok-injective,
}
use metrka_core.Silver.BuildModels.{is_sha256_hex}

-- The code points before and after a position, as a regular expression takes its prefix.
unfoldable pub before : ℕ → String → String
before zero s = ""
before (suc n) String.[] = ""
before (suc n) (String.◌∷◌ c s) = c ∷ before n s

unfoldable pub from : ℕ → String → String
from zero s = s
from (suc n) String.[] = ""
from (suc n) (String.◌∷◌ c s) = from n s

-- `f"sha256:{digest}"`
abbrev pub with_prefix : String → String
with_prefix digest = "s" ∷ "h" ∷ "a" ∷ "2" ∷ "5" ∷ "6" ∷ ":" ∷ digest

unfoldable pub parse_sha256_hex : String → Result String
unfolding is_sha256_hex
parse_sha256_hex value = do
  raise_if (not (is_sha256_hex value))
      (value_error "Expected a lowercase 64-character SHA-256 hexadecimal digest")
  ok value

unfoldable pub format_sha256_checksum : String → Result String
unfolding parse_sha256_hex
format_sha256_checksum digest = parse_sha256_hex digest >>= λ hex. ok (with_prefix hex)

-- `SHA256_CHECKSUM_PATTERN.fullmatch(value)` and its group.
unfoldable pub parse_sha256_checksum : String → Result String
unfolding before from is_sha256_hex
parse_sha256_checksum value = do
  raise_if (not (str_eq (before 7 value) "sha256:" && is_sha256_hex (from 7 value)))
      (value_error "Expected checksum in 'sha256:<64 lowercase hexadecimal characters>' format")
  ok (from 7 value)

parsed_hex : (value : String) → is_sha256_hex value ≡ true → parse_sha256_hex value ≡ ok value
unfolding parse_sha256_hex
parsed_hex value h = rw h refl

parsed_hex_inv :
    (value hex : String)
    → parse_sha256_hex value ≡ ok hex
    → (is_sha256_hex value ≡ true) × (value ≡ hex)
unfolding parse_sha256_hex
parsed_hex_inv value hex h = ground (arith, h)

format_to :
    (digest : String)
    → is_sha256_hex digest ≡ true
    → format_sha256_checksum digest ≡ ok (with_prefix digest)
unfolding format_sha256_checksum
format_to digest h = rw (parsed_hex digest h) refl

append : String → String → String
append String.[] t = t
append (String.◌∷◌ c s) t = c ∷ append s t

rejoined : (n : ℕ) (s : String) → append (before n s) (from n s) ≡ s
unfolding before from append
rejoined zero s = refl
rejoined (suc n) String.[] = refl
rejoined (suc n) (String.◌∷◌ c s) = ap (λ t. c ∷ t) (rejoined n s)

prefixed : (value : String) → before 7 value ≡ "sha256:" → with_prefix (from 7 value) ≡ value
unfolding append
prefixed value e = ap (λ p. append p (from 7 value)) (sym e) ∙ rejoined 7 value

format_of_parsed :
    (value digest : String)
    → parse_sha256_checksum value ≡ ok digest
    → format_sha256_checksum digest ≡ ok value
unfolding parse_sha256_checksum
format_of_parsed value digest h =
    let starts : before 7 value ≡ "sha256:" =
      str_eq→≡ (before 7 value) "sha256:" (ground (arith, h)) in
    let same : from 7 value ≡ digest = ground (arith, h) in
    let hex : is_sha256_hex (from 7 value) ≡ true = ground (arith, h) in
    ap format_sha256_checksum (sym same)
    ∙ format_to (from 7 value) hex
    ∙ ap ok (prefixed value starts)

parse_to :
    (digest : String)
    → is_sha256_hex digest ≡ true
    → parse_sha256_checksum (with_prefix digest) ≡ ok digest
unfolding parse_sha256_checksum before from
parse_to digest h = rw h refl

parse_of_formatted :
    (value digest : String)
    → format_sha256_checksum digest ≡ ok value
    → parse_sha256_checksum value ≡ ok digest
unfolding format_sha256_checksum
parse_of_formatted value digest h = bind_ok (parse_sha256_hex digest) _ _ h (λ hex e0 h0.
    let (valid, same) = parsed_hex_inv digest hex e0 in
    let text : with_prefix digest ≡ value =
      ap with_prefix same ∙ ok-injective (with_prefix hex) value h0 in
    ap parse_sha256_checksum (sym text) ∙ parse_to digest valid)

-- Parsing and formatting are inverse to each other: a text parses to a digest exactly if the digest is
-- formatted as that text.
pub checksum_round_trip :
    (value digest : String)
    → (parse_sha256_checksum value ≡ ok digest) ↔ (format_sha256_checksum digest ≡ ok value)
checksum_round_trip value digest = (format_of_parsed value digest, parse_of_formatted value digest)
