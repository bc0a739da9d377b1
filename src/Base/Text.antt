-- ===== src/Base/Text.antt =====
-- What the programs use of Python's `str`: `strip`, `lower`, `split("#", 1)[0]` and truncation.
use Prim.Native.Char.{Char, code}
use Prim.Native.String.{String, [], ◌∷◌}
use suburban_soc.Base.Tests.{leb, nat_beq, if◌then◌else◌}
use mathlib.Core.Bool.{Bool, true, false, ◌&&◌, ◌||◌}
use text.Mathlib.Text.{◌==◌ as str_eq}
use Prim.Native.Nat.{ℕ, zero, suc, ◌-◌}
use mathlib.Core.Path.{◌≡◌, refl}

abbrev pub in_range : ℕ → ℕ → ℕ → Bool
in_range lo hi n = leb lo n && leb n hi

-- `str.isspace` of one character.
unfoldable pub is_space : ℕ → Bool
is_space n =
    in_range 9 13 n
    || in_range 28 32 n
    || nat_beq n 133
    || nat_beq n 160
    || nat_beq n 0x1680
    || in_range 0x2000 0x200a n
    || in_range 0x2028 0x2029 n
    || nat_beq n 0x202f
    || nat_beq n 0x205f
    || nat_beq n 0x3000

unfoldable pub lstrip : String → String
unfolding is_space
lstrip [] = []
lstrip (c ∷ s) = let rest = lstrip s in if is_space (code c) then rest else c ∷ s

unfoldable pub cons_or_blank : Char → String → String
unfolding is_space
cons_or_blank c [] = if is_space (code c) then [] else c ∷ []
cons_or_blank c (d ∷ s) = c ∷ d ∷ s

unfoldable pub rstrip : String → String
unfolding cons_or_blank
rstrip [] = []
rstrip (c ∷ s) = cons_or_blank c (rstrip s)

unfoldable pub strip : String → String
unfolding lstrip rstrip
strip s = lstrip (rstrip s)

unfoldable pub nth : String → ℕ → Char → Char
nth [] n d = d
nth (c ∷ s) zero d = c
nth (c ∷ s) (suc n) d = nth s n d

-- `lower` of one character, as far as its result is ASCII: A to Z, and the Kelvin sign.
unfoldable pub lower_char : Char → Char
unfolding nth
lower_char c =
    if in_range b'A' b'Z' (code c)
    then nth "abcdefghijklmnopqrstuvwxyz" (code c - b'A') c
    else if nat_beq (code c) 0x212a
    then "k"
    else c

unfoldable pub lower : String → String
unfolding lower_char
lower [] = []
lower (c ∷ s) = lower_char c ∷ lower s

-- `replace(" ", "-")`
unfoldable pub dashed : String → String
dashed [] = []
dashed (c ∷ s) = (if nat_beq (code c) b' ' then "-" else c) ∷ dashed s

-- `line.split("#", 1)[0]`
unfoldable pub before_hash : String → String
before_hash [] = []
before_hash (c ∷ s) = let rest = before_hash s in if nat_beq (code c) b'#' then [] else c ∷ rest

-- `str.startswith` and `str.endswith`
unfoldable pub starts_with : String → String → Bool
starts_with [] s = true
starts_with (c ∷ p) [] = false
starts_with (c ∷ p) (d ∷ s) = nat_beq (code c) (code d) && starts_with p s

unfoldable pub ends_with : String → String → Bool
ends_with p [] = str_eq [] p
ends_with p (c ∷ s) = str_eq (c ∷ s) p || ends_with p s

-- `p in s`, where `p` is not empty
unfoldable pub has_text : String → String → Bool
unfolding starts_with
has_text p [] = false
has_text p (c ∷ s) = starts_with p (c ∷ s) || has_text p s

-- `s[:-len(p)]` of a text that ends with `p`, where `p` is not empty
unfoldable pub before_suffix : String → String → String
before_suffix p [] = []
before_suffix p (c ∷ s) = let rest = before_suffix p s in if str_eq (c ∷ s) p then [] else c ∷ rest

-- `+` on texts, by clauses
abbrev pub glue : String → String → String
glue [] t = t
glue (c ∷ s) t = c ∷ glue s t

strips : strip "  192.168.1.1\n" ≡ "192.168.1.1"
unfolding strip
strips = refl

lowers : lower "Home-NET1" ≡ "home-net1"
unfolding lower
lowers = refl

cuts : before_hash "10.0.0.1 # gateway # 2" ≡ "10.0.0.1 "
unfolding before_hash
cuts = refl

suffixes :
    (ends_with ".claim" "a1.claim" ≡ true)
    × (ends_with ".claim" "a1.claim.bak" ≡ false)
    × (before_suffix ".claim" "a1.claim" ≡ "a1")
    × (starts_with "agent-" "agent-x" ≡ true)
    × (starts_with "agent-" "agen" ≡ false)
unfolding ends_with before_suffix starts_with
suffixes = (refl, refl, refl, refl, refl)
