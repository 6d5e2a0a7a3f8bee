-- ===== src/Graph/Extraction.antt =====
-- What `extract` of packages/hangar-server/src/graph.rs finds in a text.
use mathlib.Core.List.{Memᴰ}
use hangar_ia.Prelude.{
  not, split, ◌+◌, ◌*◌, ◌≤◌, ◌<◌, String, ◌≡◌, ◌≢◌, refl, sym, ap, true, false, ◌||◌, List, [], ◌∷◌,
  ◌++◌, length, length-append, All, All-append, Bool-cases, inl, inr, arith, len, leb, any_char,
  ◌==◌, ==_iff, string_eq,
}
use hangar_ia.Graph.{
  Letters, EntityCandidate, RelationCandidate, Extracted, is_stopword, contains, is_skipped,
  candidate, collect_entities, extract, max_entities_per_chunk,
}
use hangar_ia.Graph.Pairs.{
  names, IsDistinct, Joins, IsBetween, EachApart, relate_all-Joins, relate_all-reaches,
  relate_all-EachApart, length-relate_all,
}

known : (m : String) (ns : List String) (n : String) → contains (m ∷ ns) n ≡ false → m ≢ n
known m ns n h e = ground (arith, h, (==_iff n m).1 (sym e))

IsDistinct-concat :
    (ns : List String) (n : String)
    → IsDistinct ns
    → contains ns n ≡ false
    → IsDistinct (ns ++ (n ∷ []))
IsDistinct-concat [] n d h = (tt, tt)
IsDistinct-concat (m ∷ ns) n d h = (
  All-append (λ k. m ≢ k) ns (n ∷ []) d.0 (known m ns n h, tt),
  IsDistinct-concat ns n d.1 (ground (arith, h)),
)

names-concat :
    (es : List EntityCandidate) (e : EntityCandidate)
    → names (es ++ (e ∷ [])) ≡ names es ++ (e.normalized_name ∷ [])
names-concat [] e = refl
names-concat (x ∷ es) e = ap (◌∷◌ x.normalized_name) (names-concat es e)

contains-concat :
    (ns : List String) (n m : String) → contains (ns ++ (n ∷ [])) m ≡ (contains ns m || m == n)
contains-concat [] n m = ground arith
contains-concat (k ∷ ns) n m = ground (arith, contains-concat ns n m)

module _ (letters : Letters) where
  -- A keyword is the lower case of the word that it stands for, and passes the tests.
  pub record IsKeyword (e : EntityCandidate) : Type 0 where
    pub lowered : e.normalized_name ≡ letters.to_lowercase e.display_name
    pub long : 3 ≤ len e.normalized_name
    pub meaningful : is_stopword e.normalized_name ≡ false
    pub alphabetic : any_char letters.is_alphabetic e.normalized_name ≡ true

  -- What the loop keeps of the keywords so far.
  record IsCollected (es : List EntityCandidate) : Type 0 where
    bounded : length es ≤ 8
    distinct : IsDistinct (names es)
    keywords : All IsKeyword es

  IsKeyword-candidate :
      (raw : String)
      → is_skipped letters (candidate letters raw).normalized_name ≡ false
      → IsKeyword (candidate letters raw)
  unfolding is_skipped
  IsKeyword-candidate raw h = record {
    lowered = refl;
    long = ground (arith, h);
    meaningful = ground (arith, h);
    alphabetic = ground (arith, h);
  }

  IsCollected-concat :
      (raw : String) (es : List EntityCandidate)
      → is_skipped letters (candidate letters raw).normalized_name ≡ false
      → contains (names es) (candidate letters raw).normalized_name ≡ false
      → length es < 8
      → IsCollected es
      → IsCollected (es ++ (candidate letters raw ∷ []))
  IsCollected-concat raw es kept new room c = record {
    bounded = omega (arith, length-append es (candidate letters raw ∷ []));
    distinct =
        rw (names-concat es (candidate letters raw))
          (IsDistinct-concat (names es) (candidate letters raw).normalized_name c.distinct new);
    keywords =
        All-append IsKeyword es (candidate letters raw ∷ []) c.keywords
          (IsKeyword-candidate raw kept, tt);
  }

  -- A name that is seen and one that is kept are the same.
  seen-concat :
      (seen : List String) (es : List EntityCandidate) (e : EntityCandidate)
      → ((n : String) → contains seen n ≡ contains (names es) n)
      → (n : String) → contains (e.normalized_name ∷ seen) n ≡ contains (names (es ++ (e ∷ []))) n
  seen-concat seen es e same n =
      rw (names-concat es e)
        (ground (arith, same n, contains-concat (names es) e.normalized_name n))

  collect_entities-IsCollected :
      (seen : List String) (es : List EntityCandidate) (words : List String)
      → ((n : String) → contains seen n ≡ contains (names es) n)
      → length es < 8
      → IsCollected es
      → IsCollected (collect_entities letters seen es words)
  unfolding collect_entities
  collect_entities-IsCollected seen es [] same room c = c
  collect_entities-IsCollected seen es (raw ∷ words) same room c =
      let e = candidate letters raw in
      let name = e.normalized_name in
      let found = es ++ (e ∷ []) in
      elim (Bool-cases (is_skipped letters name || contains seen name)) [
        | inl passed ↦ rw passed (collect_entities-IsCollected seen es words same room c)
        | inr taken ↦
            let kept : is_skipped letters name ≡ false = ground (arith, taken) in
            let new : contains (names es) name ≡ false = ground (arith, taken, same name) in
            let next = IsCollected-concat raw es kept new room c in
            elim (Bool-cases (leb max_entities_per_chunk (length found))) [
              | inl full ↦ rw (taken, full) next
              | inr more ↦
                  rw (taken, more)
                    (collect_entities-IsCollected (name ∷ seen) found words
                      (seen-concat seen es e same) (ground (arith, more)) next)
            ]
      ]

  pub record IsExtraction (found : Extracted) : Type 0 where
    pub bounded : length found.entities ≤ 8
    pub distinct : IsDistinct (names found.entities)
    pub keywords : All IsKeyword found.entities
    pub related : All (Joins (names found.entities)) found.relations
    pub each_two :
        (m n : String)
        → Memᴰ m (names found.entities)
        → Memᴰ n (names found.entities)
        → m ≢ n
        → (r : RelationCandidate) × Memᴰ r found.relations × IsBetween m n r
    pub once : EachApart found.relations
    pub counted :
        2 * length found.relations + length found.entities
        ≡ length found.entities * length found.entities

  -- From any text the extractor takes at most eight keywords, each once: lower-case words of at
  -- least three bytes with a letter, and no stopwords. Each of its relations joins two different
  -- keywords of the text, each two keywords are joined by a relation, no two relations join the same
  -- two, and of n keywords there are n (n - 1) / 2 relations.
  pub extract-IsExtraction : (content : String) → IsExtraction (extract letters content)
  unfolding extract
  extract-IsExtraction content =
      let words = split (λ character. not (letters.is_alphanumeric character)) content in
      let none_yet : IsCollected [] = record {
        bounded = omega arith;
        distinct = tt;
        keywords = tt;
      } in
      let c = collect_entities-IsCollected [] [] words (λ n. refl) (omega arith) none_yet in
      let es = collect_entities letters [] [] words in
      record {
        bounded = c.bounded;
        distinct = c.distinct;
        keywords = c.keywords;
        related = relate_all-Joins es c.distinct;
        each_two = relate_all-reaches es;
        once = relate_all-EachApart es c.distinct;
        counted = length-relate_all es;
      }
