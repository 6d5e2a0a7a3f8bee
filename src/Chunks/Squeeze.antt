-- ===== src/Chunks/Squeeze.antt =====
-- What the helpers of `chunk_text` do to the characters of a text, and to the size of its parts.
use Prim.Native.Char.{Char, code, len_utf8, len_utf8_def}
use Prim.Native.String.len
use text.Mathlib.TextLemmas.{nil-append, cons-append}
use text.Mathlib.TextPositions.{len_utf8-pos}
use Prim.Native.String.{◌++◌ as append}
use hangar_ia.Prelude.{
  ℕ, ◌+◌, ◌-◌, ◌≤◌, ◌<◌, String, len, ◌≡◌, refl, ◌∙◌, true, false, ◌&&◌, Bool-cases, inl, inr, List,
  [], ◌∷◌, ◌++◌, All, leb, is_nothing, extend, trim, trim_start, trim_end, is_whitespace, arith,
  ◌==◌, nat_eq, if◌then◌else◌,
}
use hangar_ia.Chunks.{split_paragraphs, lossy_parts}

-- The characters of a text that are not white space.
unfoldable pub squeeze : String → List ℕ
squeeze String.[] = []
squeeze (String.◌∷◌ c s) = if is_whitespace (code c) then squeeze s else code c ∷ squeeze s

unfoldable pub squeeze_all : List String → List ℕ
squeeze_all [] = []
squeeze_all (s ∷ ss) = squeeze s ++ squeeze_all ss

abbrev pub IsAscii : String → Type 0
IsAscii String.[] = Unit
IsAscii (String.◌∷◌ c s) = (code c < 128) × IsAscii s

pub squeeze-append : (s t : String) → squeeze (append s t) ≡ squeeze s ++ squeeze t
unfolding squeeze
squeeze-append String.[] t = rw nil-append refl
squeeze-append (String.◌∷◌ c s) t = rw (cons-append c s t) (ground (arith, squeeze-append s t))

squeeze-trim_start : (s : String) → squeeze (trim_start s) ≡ squeeze s
unfolding squeeze trim_start
squeeze-trim_start String.[] = refl
squeeze-trim_start (String.◌∷◌ c s) = elim (Bool-cases (is_whitespace (code c))) [
  | inl white ↦ rw white (squeeze-trim_start s)
  | inr black ↦ ground (arith, black)
]

squeeze-trim_end : (s : String) → squeeze (trim_end s) ≡ squeeze s
unfolding squeeze trim_end
squeeze-trim_end String.[] = refl
squeeze-trim_end (String.◌∷◌ c s) = ground (arith, squeeze-trim_end s)

pub squeeze-trim : (s : String) → squeeze (trim s) ≡ squeeze s
unfolding trim
squeeze-trim s = squeeze-trim_end (trim_start s) ∙ squeeze-trim_start s

IsAscii-trim_start : (s : String) → IsAscii s → IsAscii (trim_start s)
unfolding trim_start
IsAscii-trim_start String.[] a = tt
IsAscii-trim_start (String.◌∷◌ c s) a = elim (Bool-cases (is_whitespace (code c))) [
  | inl white ↦ rw white (IsAscii-trim_start s a.1)
  | inr black ↦ rw black a
]

IsAscii-trim_end : (s : String) → IsAscii s → IsAscii (trim_end s)
unfolding trim_end
IsAscii-trim_end String.[] a = tt
IsAscii-trim_end (String.◌∷◌ c s) a =
    elim (Bool-cases (is_whitespace (code c) && is_nothing (trim_end s))) [
      | inl white ↦ rw white tt
      | inr black ↦ rw black (a.0, IsAscii-trim_end s a.1)
    ]

pub IsAscii-trim : (s : String) → IsAscii s → IsAscii (trim s)
unfolding trim
IsAscii-trim s a = IsAscii-trim_end (trim_start s) (IsAscii-trim_start s a)

squeeze_all-extend :
    (c : Char) (ss : List String)
    → squeeze_all (extend c ss) ≡ squeeze_all ((String.◌∷◌ c String.[]) ∷ ss)
unfolding squeeze_all squeeze
squeeze_all-extend c [] = ground arith
squeeze_all-extend c (s ∷ ss) = ground arith

newline_white : is_whitespace 10 ≡ true
unfolding is_whitespace
newline_white = refl

pub squeeze_all-split : (s : String) → squeeze_all (split_paragraphs s) ≡ squeeze s
unfolding squeeze_all squeeze split_paragraphs
squeeze_all-split String.[] = refl
squeeze_all-split (String.◌∷◌ c String.[]) = ground arith
squeeze_all-split (String.◌∷◌ c (String.◌∷◌ d s)) =
    elim (Bool-cases (code c == 10 && code d == 10)) [
      | inl both ↦ ground (arith, both, squeeze_all-split s, newline_white)
      | inr other ↦ rw other (
          squeeze_all-extend c (split_paragraphs (String.◌∷◌ d s))
          ∙ ground (arith, squeeze_all-split (String.◌∷◌ d s)))
    ]

pub IsAscii-split : (s : String) → IsAscii s → All IsAscii (split_paragraphs s)
unfolding split_paragraphs
IsAscii-split String.[] a = (tt, tt)
IsAscii-split (String.◌∷◌ c String.[]) a = (a, tt)
IsAscii-split (String.◌∷◌ c (String.◌∷◌ d s)) a = elim (Bool-cases (code c == 10 && code d == 10)) [
  | inl both ↦ rw both (tt, IsAscii-split s a.1.1)
  | inr other ↦
      rw other
        (extended c (split_paragraphs (String.◌∷◌ d s)) a.0 (IsAscii-split (String.◌∷◌ d s) a.1))
]
  where
    extended :
        (c : Char) (ss : List String) → code c < 128 → All IsAscii ss → All IsAscii (extend c ss)
    extended c [] h hs = ((h, tt), tt)
    extended c (s ∷ ss) h hs = ((h, hs.0), hs.1)

len_utf8-ascii : (c : Char) → code c < 128 → len_utf8 c ≡ 1
len_utf8-ascii c h = (λ i. len_utf8_def c i) ∙ ground (arith, h)

len_cons : (c : Char) (s : String) → len (String.◌∷◌ c s) ≡ len_utf8 c + len s
len_cons c s = λ i. len.cons c s i

len_nothing : (s : String) → is_nothing s ≡ true → len s ≡ 0
len_nothing String.[] h = refl
len_nothing (String.◌∷◌ c s) h = absurd (cc)

len_something : (s : String) → is_nothing s ≡ false → 1 ≤ len s
len_something String.[] h = absurd (cc)
len_something (String.◌∷◌ c s) h = let w = len_utf8-pos c in rw (len_cons c s) (omega (arith, w.1))

-- Parts of which the first is within the room, and the others within the maximum.
abbrev Fits : ℕ → ℕ → List String → Type 0
Fits maximum room [] = Unit
Fits maximum room (part ∷ parts) = (len part ≤ room) × All (λ s. len s ≤ maximum) parts

extend-Fits :
    (c : Char) (maximum room : ℕ) (parts : List String)
    → len_utf8 c ≡ 1
    → 1 ≤ room
    → Fits maximum (room - 1) parts
    → Fits maximum room (extend c parts)
extend-Fits c maximum room [] one some f = (rw (len_cons c String.[]) (omega (arith, one)), tt)
extend-Fits c maximum room (part ∷ parts) one some f =
    (rw (len_cons c part) (omega (arith, one, f.0)), f.1)

pub Fits-each :
    (maximum : ℕ) (parts : List String)
    → Fits maximum maximum parts
    → All (λ s. len s ≤ maximum) parts
Fits-each maximum [] f = tt
Fits-each maximum (part ∷ parts) f = f

pub lossy_parts-Fits :
    (maximum room : ℕ) (s : String)
    → 1 ≤ maximum
    → IsAscii s
    → Fits maximum room (lossy_parts maximum room s)
unfolding lossy_parts
lossy_parts-Fits maximum room String.[] some a = (omega arith, tt)
lossy_parts-Fits maximum room (String.◌∷◌ c s) some a =
    let one = len_utf8-ascii c a.0 in
    elim (Bool-cases (leb (len_utf8 c) room)) [
      | inl fits ↦ rw fits (
          extend-Fits c maximum room (lossy_parts maximum (room - len_utf8 c) s) one
            (ground (arith, fits, one)) (rw one (lossy_parts-Fits maximum (room - 1) s some a.1)))
      | inr long ↦
          let none_left : (room == 0) ≡ true = ground (arith, long, one) in
          let fresh =
            extend-Fits c maximum maximum (lossy_parts maximum (maximum - len_utf8 c) s) one some
              (rw one (lossy_parts-Fits maximum (maximum - 1) s some a.1)) in
          rw (long, none_left) (omega arith, Fits-each maximum _ fresh)
    ]

pub squeeze_all-lossy_parts :
    (maximum room : ℕ) (s : String)
    → IsAscii s
    → squeeze_all (lossy_parts maximum room s) ≡ squeeze s
unfolding lossy_parts squeeze_all squeeze
squeeze_all-lossy_parts maximum room String.[] a = refl
squeeze_all-lossy_parts maximum room (String.◌∷◌ c s) a =
    let one = len_utf8-ascii c a.0 in
    elim (Bool-cases (leb (len_utf8 c) room)) [
      | inl fits ↦ rw fits (
          squeeze_all-extend c (lossy_parts maximum (room - len_utf8 c) s)
          ∙ ground (arith, squeeze_all-lossy_parts maximum (room - len_utf8 c) s a.1))
      | inr long ↦
          let none_left : (room == 0) ≡ true = ground (arith, long, one) in
          rw (long, none_left)
            (squeeze_all-extend c (lossy_parts maximum (maximum - len_utf8 c) s)
              ∙ ground (arith, squeeze_all-lossy_parts maximum (maximum - len_utf8 c) s a.1))
    ]
