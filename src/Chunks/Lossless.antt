-- ===== src/Chunks/Lossless.antt =====
-- The characters and the sizes of the chunks of `chunk_text`.
use text.Mathlib.TextPositions.{len-append}
use Prim.Native.String.{◌++◌ as append}
use mathlib.Core.List.{append_assoc}
use hangar_ia.Prelude.{
  ℕ, ◌+◌, ◌≤◌, String, len, ◌≡◌, refl, sym, ap, ◌∙◌, true, false, Bool-cases, inl, inr, List, [],
  ◌∷◌, ◌++◌, All, All-append, ltb, is_nothing, trim, is_whitespace, arith, nat_eq,
}
use hangar_ia.Chunks.{
  split_paragraphs, lossy_parts, push_paragraph, is_full, fill_chunks, chunk_text,
}
use hangar_ia.Chunks.Squeeze.{
  Fits-each, IsAscii, IsAscii-split, IsAscii-trim, lossy_parts-Fits, squeeze, squeeze-append,
  squeeze-trim, squeeze_all, squeeze_all-lossy_parts, squeeze_all-split,
}

squeeze_all-append :
    (xs ys : List String) → squeeze_all (xs ++ ys) ≡ squeeze_all xs ++ squeeze_all ys
unfolding squeeze_all
squeeze_all-append [] ys = refl
squeeze_all-append (x ∷ xs) ys =
    rw (squeeze_all-append xs ys) (sym (append_assoc (squeeze x) (squeeze_all xs) (squeeze_all ys)))

squeeze-nothing : (s : String) → is_nothing s ≡ true → squeeze s ≡ []
unfolding squeeze
squeeze-nothing String.[] h = refl
squeeze-nothing (String.◌∷◌ c s) h = absurd (cc)

white_lines : squeeze "\n\n" ≡ []
unfolding squeeze is_whitespace
white_lines = refl

-- The empty line between two paragraphs is white space.
break : (paragraph : String) → squeeze (append "\n\n" paragraph) ≡ squeeze paragraph
break paragraph = squeeze-append "\n\n" paragraph ∙ rw white_lines refl

squeeze-push_paragraph :
    (current paragraph : String)
    → squeeze (push_paragraph current paragraph) ≡ squeeze current ++ squeeze paragraph
unfolding push_paragraph
squeeze-push_paragraph current paragraph = elim (Bool-cases (is_nothing current)) [
  | inl empty ↦ rw (empty, squeeze-nothing current empty) refl
  | inr some ↦ rw some (
      squeeze-append current (append "\n\n" paragraph)
      ∙ ap (◌++◌ (squeeze current)) (break paragraph))
]

none_before :
    (maximum : ℕ) (current paragraph : String)
    → is_full maximum current paragraph ≡ false
    → ltb maximum (len paragraph) ≡ true
    → is_nothing current ≡ true
none_before maximum current paragraph h long = ground (arith, h, long)

-- A paragraph that is pushed has room.
len-push_paragraph :
    (maximum : ℕ) (current paragraph : String)
    → is_full maximum current paragraph ≡ false
    → len paragraph ≤ maximum
    → len (push_paragraph current paragraph) ≤ maximum
unfolding push_paragraph
len-push_paragraph maximum current paragraph h short = elim (Bool-cases (is_nothing current)) [
  | inl empty ↦ rw empty short
  | inr words ↦
      let room : len current + len paragraph + 2 ≤ maximum = ground (arith, h, words) in
      rw (words, len-append current (append "\n\n" paragraph), len-append "\n\n" paragraph)
        (omega (arith, room))
]

module _ (maximum : ℕ) (some : 1 ≤ maximum) where
  fill_chunks-squeeze :
      (current : String) (raws : List String)
      → All IsAscii raws
      → squeeze_all (fill_chunks maximum current raws) ≡ squeeze current ++ squeeze_all raws
  unfolding fill_chunks squeeze_all squeeze
  fill_chunks-squeeze current [] a = elim (Bool-cases (is_nothing current)) [
    | inl empty ↦ rw (empty, squeeze-nothing current empty) refl
    | inr some_text ↦ rw some_text refl
  ]
  fill_chunks-squeeze current (raw ∷ raws) a =
      let text = trim raw in
      let ascii = IsAscii-trim raw a.0 in
      let parts = squeeze_all-lossy_parts maximum maximum text ascii ∙ squeeze-trim raw in
      elim (Bool-cases (is_nothing text)) [
        | inl blank ↦
            let gone : squeeze raw ≡ [] = sym (squeeze-trim raw) ∙ squeeze-nothing text blank in
            rw (blank, gone) (fill_chunks-squeeze current raws a.1)
        | inr words ↦ elim (Bool-cases (ltb maximum (len text))) [
          | inl long ↦ elim (Bool-cases (is_full maximum current text)) [
            | inl full ↦
                rw (words, long, full)
                  (ap (◌++◌ (squeeze current)) (
                    squeeze_all-append (lossy_parts maximum maximum text)
                      (fill_chunks maximum String.[] raws)
                    ∙ rw (parts, fill_chunks-squeeze String.[] raws a.1) refl))
            | inr open_chunk ↦
                let empty : is_nothing current ≡ true =
                  none_before maximum current text open_chunk long in
                rw (words, long, open_chunk)
                  (squeeze_all-append (lossy_parts maximum maximum text)
                      (fill_chunks maximum current raws)
                    ∙ rw
                        (parts, fill_chunks-squeeze current raws a.1, squeeze-nothing current empty)
                        refl)
          ]
          | inr short ↦ elim (Bool-cases (is_full maximum current text)) [
            | inl full ↦
                rw (words, short, full)
                  (ap (◌++◌ (squeeze current)) (
                    fill_chunks-squeeze (push_paragraph String.[] text) raws a.1
                    ∙ rw (squeeze-push_paragraph String.[] text, squeeze-trim raw) refl))
            | inr open_chunk ↦
                rw (words, short, open_chunk)
                  (fill_chunks-squeeze (push_paragraph current text) raws a.1
                    ∙ rw (squeeze-push_paragraph current text, squeeze-trim raw)
                        (append_assoc (squeeze current) (squeeze raw) (squeeze_all raws)))
          ]
        ]
      ]

  fill_chunks-Fits :
      (current : String) (raws : List String)
      → len current ≤ maximum
      → All IsAscii raws
      → All (λ s. len s ≤ maximum) (fill_chunks maximum current raws)
  unfolding fill_chunks
  fill_chunks-Fits current [] fits a = elim (Bool-cases (is_nothing current)) [
    | inl empty ↦ rw empty tt
    | inr words ↦ rw words (fits, tt)
  ]
  fill_chunks-Fits current (raw ∷ raws) fits a =
      let text = trim raw in
      let parts =
        Fits-each maximum (lossy_parts maximum maximum text)
          (lossy_parts-Fits maximum maximum text some (IsAscii-trim raw a.0)) in
      let at_most : String → Type 0 = λ s. len s ≤ maximum in
      elim (Bool-cases (is_nothing text)) [
        | inl blank ↦ rw blank (fill_chunks-Fits current raws fits a.1)
        | inr words ↦ elim (Bool-cases (ltb maximum (len text))) [
          | inl long ↦ elim (Bool-cases (is_full maximum current text)) [
            | inl full ↦
                rw (words, long, full)
                  (
                    fits,
                    All-append at_most (lossy_parts maximum maximum text)
                        (fill_chunks maximum String.[] raws) parts
                        (fill_chunks-Fits String.[] raws (omega arith) a.1),
                  )
            | inr open_chunk ↦
                rw (words, long, open_chunk)
                  (All-append at_most (lossy_parts maximum maximum text)
                    (fill_chunks maximum current raws) parts
                    (fill_chunks-Fits current raws fits a.1))
          ]
          | inr short ↦
              let small : len text ≤ maximum = ground (arith, short) in
              elim (Bool-cases (is_full maximum current text)) [
                | inl full ↦
                    rw (words, short, full)
                      (
                        fits,
                        fill_chunks-Fits (push_paragraph String.[] text) raws
                            (len-push_paragraph maximum String.[] text refl small) a.1,
                      )
                | inr open_chunk ↦
                    rw (words, short, open_chunk)
                      (fill_chunks-Fits (push_paragraph current text) raws
                        (len-push_paragraph maximum current text open_chunk small) a.1)
              ]
        ]
      ]

-- The chunks of a text: within the size, and with all its characters but white space, in order.
pub record IsChunked (content : String) (maximum : ℕ) (chunks : List String) : Type 0 where
  pub bounded : All (λ chunk. len chunk ≤ maximum) chunks
  pub lossless : squeeze_all chunks ≡ squeeze content

-- Chunking an ASCII text gives chunks of at most the size, and loses, doubles and reorders none of
-- its characters but white space.
pub chunk_text-IsChunked :
    (content : String) (maximum : ℕ)
    → 1 ≤ maximum
    → IsAscii content
    → IsChunked content maximum (chunk_text content maximum)
unfolding chunk_text squeeze
chunk_text-IsChunked content maximum some ascii =
    let pieces = split_paragraphs content in
    let pieces_ascii = IsAscii-split content ascii in
    record {
      bounded = fill_chunks-Fits maximum some String.[] pieces (omega arith) pieces_ascii;
      lossless =
          fill_chunks-squeeze maximum some String.[] pieces pieces_ascii
          ∙ squeeze_all-split content;
    }
