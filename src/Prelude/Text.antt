-- ===== src/Prelude/Text.antt =====
-- Text as Python and PostgreSQL test it: `str.strip`, `len`, and the digest pattern of
-- storage/checksums.py. A text is the native `String`, a list of code points.
use Prim.Native.Char.{code}
use Prim.Native.String.{String, [], ◌∷◌}
use text.Mathlib.Text.{◌==◌ as str_eq}
use text.Mathlib.TextEquality.{eq_iff}
use Prim.Native.Nat.{ℕ, suc}
use mathlib.Core.Path.{◌≡◌, refl}
use mathlib.Core.Bool.{Bool, true, false, ◌&&◌, ◌||◌}
use mathlib.Core.Option.{Option, none, some}
use native.Mathlib.Omega.{arith}
use metrka_core.Prelude.Tests.{leb, ◌==◌, if◌then◌else◌}

-- `str.isspace` of one code point.
unfoldable pub is_space : ℕ → Bool
is_space c =
    (leb 9 c && leb c 13)
    || ((leb 28 c && leb c 32)
        || (c == 133
            || (c == 160
                || (c == 5760
                    || ((leb 8192 c && leb c 8202)
                        || (c == 8232
                            || (c == 8233 || (c == 8239 || (c == 8287 || c == 12288)))))))))

-- `not value.strip()`
unfoldable pub is_blank : String → Bool
unfolding is_space
is_blank [] = true
is_blank (c ∷ s) = is_space (code c) && is_blank s

unfoldable pub lstrip : String → String
unfolding is_space
lstrip [] = []
lstrip (c ∷ s) = let rest = lstrip s in if is_space (code c) then rest else c ∷ s

unfoldable pub rstrip : String → String
unfolding is_blank
rstrip [] = []
rstrip (c ∷ s) = if is_blank (c ∷ s) then [] else c ∷ rstrip s

-- `value.strip()`
unfoldable pub strip : String → String
unfolding lstrip rstrip
strip s = rstrip (lstrip s)

-- `len(value)`
unfoldable pub str_len : String → ℕ
str_len [] = 0
str_len (c ∷ s) = suc (str_len s)

-- Equality of optional texts, with `None` equal to itself only.
abbrev pub opt_eq : Option String → Option String → Bool
opt_eq none none = true
opt_eq none (some b) = false
opt_eq (some a) none = false
opt_eq (some a) (some b) = str_eq a b

abbrev pub is_some {ℓ} : {A : Type ℓ} → Option A → Bool
is_some none = false
is_some (some a) = true

-- `[0-9a-f]`
unfoldable pub is_hex_digit : ℕ → Bool
is_hex_digit c = (leb b'0' c && leb c b'9') || (leb b'a' c && leb c b'f')

unfoldable pub all_hex : String → Bool
unfolding is_hex_digit
all_hex [] = true
all_hex (c ∷ s) = is_hex_digit (code c) && all_hex s

pub str_eq→≡ : (a b : String) → str_eq a b ≡ true → a ≡ b
str_eq→≡ a b h = (eq_iff a b).0 h

pub ≡→str_eq : (a b : String) → a ≡ b → str_eq a b ≡ true
≡→str_eq a b h = (eq_iff a b).1 h

-- `length(btrim(value)) = 0`: PostgreSQL's `btrim` takes spaces only.
unfoldable pub is_btrim_blank : String → Bool
is_btrim_blank [] = true
is_btrim_blank (c ∷ s) = code c == 32 && is_btrim_blank s

-- What PostgreSQL calls blank, Python calls blank.
pub is_btrim_blank-is_blank : (s : String) → is_btrim_blank s ≡ true → is_blank s ≡ true
unfolding is_btrim_blank is_blank is_space
is_btrim_blank-is_blank [] h = refl
is_btrim_blank-is_blank (c ∷ s) h = ground (arith, is_btrim_blank-is_blank s)
