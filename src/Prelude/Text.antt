-- ===== src/Prelude/Text.antt =====
-- Rust's tests on texts. `len` counts the bytes of the UTF-8 form, as `str::len` does.
use Prim.Native.Nat.{ℕ, zero, suc, Ordering}
use Prim.Native.Char.{Char, code}
use Prim.Native.String.{String, compare}
use mathlib.Core.Path.{◌≡◌, refl}
use mathlib.Core.Bool.{Bool, true, false, ◌&&◌, ◌||◌}
use mathlib.Core.List.{List, [], ◌∷◌}
use hangar_ia.Prelude.Tests.{leb, ◌==◌, nat_eq, if◌then◌else◌}

-- `char::is_whitespace`: the Unicode property White_Space
unfoldable pub is_whitespace : ℕ → Bool
is_whitespace c =
    (leb 9 c && leb c 13)
    || (c == 32
        || (c == 133
            || (c == 160
                || (c == 5760
                    || ((leb 8192 c && leb c 8202)
                        || (c == 8232
                            || (c == 8233 || (c == 8239 || (c == 8287 || c == 12288)))))))))

-- `s.trim().is_empty()`
unfoldable pub is_blank : String → Bool
unfolding is_whitespace
is_blank String.[] = true
is_blank (String.◌∷◌ c s) = is_whitespace (code c) && is_blank s

blank_texts : (is_blank " \t\n" ≡ true) × (is_blank " a " ≡ false)
unfolding is_blank
blank_texts = (refl, refl)

-- `s.chars().take(n).collect()`
abbrev pub take_chars : ℕ → String → String
take_chars zero s = String.[]
take_chars (suc n) String.[] = String.[]
take_chars (suc n) (String.◌∷◌ c s) = String.◌∷◌ c (take_chars n s)

-- `str::is_empty`
abbrev pub is_nothing : String → Bool
is_nothing String.[] = true
is_nothing (String.◌∷◌ c s) = false

-- `str::trim`
unfoldable pub trim_start : String → String
trim_start String.[] = String.[]
trim_start (String.◌∷◌ c s) = if is_whitespace (code c) then trim_start s else String.◌∷◌ c s

unfoldable pub trim_end : String → String
trim_end String.[] = String.[]
trim_end (String.◌∷◌ c s) =
    let rest = trim_end s in
    if is_whitespace (code c) && is_nothing rest then String.[] else String.◌∷◌ c rest

unfoldable pub trim : String → String
unfolding trim_start trim_end
trim s = trim_end (trim_start s)

trimmed_text : trim "  a b\t" ≡ "a b"
unfolding trim is_whitespace
trimmed_text = refl

-- `str::split` at each character that passes a test: the pieces between them, empty ones included.
-- A piece that gets one more character at its front.
abbrev pub extend : Char → List String → List String
extend c [] = String.◌∷◌ c String.[] ∷ []
extend c (piece ∷ pieces) = String.◌∷◌ c piece ∷ pieces

unfoldable pub split : (ℕ → Bool) → String → List String
split separates String.[] = String.[] ∷ []
split separates (String.◌∷◌ c s) =
    let pieces = split separates s in
    if separates (code c) then String.[] ∷ pieces else extend c pieces

split_text : split (λ c. c == 32) "a bc " ≡ "a" ∷ "bc" ∷ "" ∷ []
unfolding split
split_text = refl

-- `s.chars().any(test)`
unfoldable pub any_char : (ℕ → Bool) → String → Bool
any_char test String.[] = false
any_char test (String.◌∷◌ c s) = test (code c) || any_char test s

-- `<=` on strings; the bytes of UTF-8 have the order of the characters.
abbrev pub text_le : String → String → Bool
text_le a b = elim (compare a b) [ Ordering.gt ↦ false | _ ↦ true ]
