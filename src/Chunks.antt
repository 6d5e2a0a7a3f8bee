-- ===== src/Chunks.antt =====
-- `chunk_text` of packages/hangar-server/src/store.rs: the paragraphs of a document, joined to chunks
-- of a number of bytes, and cut where one is longer. Lengths of texts in memory do not wrap.
pub mod Squeeze
pub mod Lossless
use Prim.Native.Char.{Char, code, len_utf8, char}
use Prim.Native.String.{◌++◌ as append}
use hangar_ia.Prelude.{
  ℕ, zero, suc, ◌+◌, ◌-◌, String, len, Bool, true, false, not, ◌&&◌, List, [], ◌∷◌, ◌++◌, leb, ltb,
  trim, is_nothing, extend, ◌==◌, nat_eq, if◌then◌else◌,
}

-- `content.split("\n\n")`
unfoldable pub split_paragraphs : String → List String
split_paragraphs String.[] = String.[] ∷ []
split_paragraphs (String.◌∷◌ c String.[]) = String.◌∷◌ c String.[] ∷ []
split_paragraphs (String.◌∷◌ c (String.◌∷◌ d s)) =
    let behind = split_paragraphs s in
    let later = split_paragraphs (String.◌∷◌ d s) in
    if code c == 10 && code d == 10 then String.[] ∷ behind else extend c later

-- U+FFFD
abbrev pub replacement : Char
replacement = char 0xFFFD tt

abbrev pub replacements : ℕ → String → String
replacements zero s = s
replacements (suc n) s = String.◌∷◌ replacement (replacements n s)

abbrev pub on_first : (String → String) → List String → List String
on_first f [] = f String.[] ∷ []
on_first f (part ∷ parts) = f part ∷ parts

-- `as_bytes().chunks(maximum)` with `from_utf8_lossy` on each part, for parts of at least four bytes:
-- a character that a boundary cuts leaves one replacement at the end of the first part, for its
-- unfinished sequence, and one for each of its other bytes at the start of the next.
unfoldable pub lossy_parts : ℕ → ℕ → String → List String
lossy_parts maximum room String.[] = String.[] ∷ []
lossy_parts maximum room (String.◌∷◌ c s) =
    let within = lossy_parts maximum (room - len_utf8 c) s in
    let fresh = lossy_parts maximum (maximum - len_utf8 c) s in
    let cut = lossy_parts maximum (maximum - (len_utf8 c - room)) s in
    if leb (len_utf8 c) room
    then extend c within
    else if room == 0
    then String.[] ∷ extend c fresh
    else String.◌∷◌ replacement String.[] ∷ on_first (replacements (len_utf8 c - room)) cut

-- `if !current.is_empty() { current.push_str("\n\n") }; current.push_str(paragraph)`
unfoldable pub push_paragraph : String → String → String
push_paragraph current paragraph =
    if is_nothing current then paragraph else append current (append "\n\n" paragraph)

-- The chunk that is pushed before a paragraph which has no room behind it, and what is left.
abbrev pub is_full : ℕ → String → String → Bool
is_full maximum current paragraph =
    not (is_nothing current) && ltb maximum (len current + len paragraph + 2)

-- The loop over the paragraphs, with the chunk that is being filled.
unfoldable pub fill_chunks : ℕ → String → List String → List String
fill_chunks maximum current [] = if is_nothing current then [] else current ∷ []
fill_chunks maximum current (raw ∷ rest) =
    let paragraph = trim raw in
    let full = is_full maximum current paragraph in
    let left = if full then String.[] else current in
    let pushed = if full then current ∷ [] else [] in
    let skipped = fill_chunks maximum current rest in
    let beside = fill_chunks maximum left rest in
    let joined = fill_chunks maximum (push_paragraph left paragraph) rest in
    if is_nothing paragraph
    then skipped
    else if ltb maximum (len paragraph)
    then pushed ++ (lossy_parts maximum maximum paragraph ++ beside)
    else pushed ++ joined

unfoldable pub chunk_text : String → ℕ → List String
chunk_text content maximum_chars = fill_chunks maximum_chars String.[] (split_paragraphs content)
