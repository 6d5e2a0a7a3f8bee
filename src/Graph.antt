-- ===== src/Graph.antt =====
-- The deterministic extractor of packages/hangar-server/src/graph.rs: the keywords of a text, and a
-- relation between any two of them.
pub mod Extraction
pub mod Pairs
pub mod Store
pub mod Materialized
pub mod Traversal
use hangar_ia.Prelude.{
  text_le, ℕ, suc, String, Bool, true, false, not, ◌&&◌, ◌||◌, List, [], ◌∷◌, ◌++◌, map, any,
  length, len, ltb, leb, trim, split, any_char, ◌==◌, string_eq, if◌then◌else◌,
}

-- The tables of Unicode that `char::is_alphanumeric`, `char::is_alphabetic` and `str::to_lowercase`
-- read.
pub record Letters : Type 0 where
  pub is_alphanumeric : ℕ → Bool
  pub is_alphabetic : ℕ → Bool
  pub to_lowercase : String → String

abbrev pub deterministic_extractor : String
deterministic_extractor = "deterministic-keyword-v1"

abbrev pub extraction_version : ℕ
extraction_version = 1

abbrev pub max_entities_per_chunk : ℕ
max_entities_per_chunk = 8

pub record EntityCandidate : Type 0 where
  pub normalized_name : String
  pub display_name : String

-- The confidence is the bits of an f32.
pub record RelationCandidate : Type 0 where
  pub source_normalized_name : String
  pub target_normalized_name : String
  pub relation_type : String
  pub confidence : ℕ

pub record Extracted : Type 0 where
  pub entities : List EntityCandidate
  pub relations : List RelationCandidate

abbrev stopwords : List String
stopwords =
    "the" ∷ "and" ∷ "for" ∷ "with" ∷ "from" ∷ "that" ∷ "this" ∷ "are" ∷ "was" ∷ "were" ∷ "into"
    ∷ "about" ∷ "para" ∷ "com" ∷ "uma" ∷ "que" ∷ "dos" ∷ "das" ∷ "por" ∷ "não" ∷ "nos" ∷ "nas"
    ∷ "tem" ∷ "são" ∷ []

unfoldable pub is_stopword : String → Bool
is_stopword term = any (λ stopword. term == stopword) stopwords

-- `seen.contains(name)`
abbrev pub contains : List String → String → Bool
contains names name = any (λ other. name == other) names

-- The relation of two keywords, from the smaller name to the larger.
unfoldable pub relate : EntityCandidate → EntityCandidate → RelationCandidate
relate source target =
    let ascending = text_le source.normalized_name target.normalized_name in
    record {
      source_normalized_name = if ascending then source.normalized_name else target.normalized_name;
      target_normalized_name = if ascending then target.normalized_name else source.normalized_name;
      relation_type = "co_occurs_with";
      confidence = 0x3F000000;
    }

unfoldable pub relate_all : List EntityCandidate → List RelationCandidate
relate_all [] = []
relate_all (source ∷ rest) = map (relate source) rest ++ relate_all rest

module _ (letters : Letters) where
  -- The tests by which the loop passes over a word.
  unfoldable pub is_skipped : String → Bool
  is_skipped normalized_name =
      ltb (len normalized_name) 3
      || (is_stopword normalized_name || not (any_char letters.is_alphabetic normalized_name))

  abbrev pub candidate : String → EntityCandidate
  candidate raw = record {
    normalized_name = letters.to_lowercase (trim raw);
    display_name = trim raw;
  }

  -- The loop over the words.
  unfoldable pub collect_entities :
      List String → List EntityCandidate → List String → List EntityCandidate
  collect_entities seen entities [] = entities
  collect_entities seen entities (raw ∷ rest) =
      let entity = candidate raw in
      let name = entity.normalized_name in
      let found = entities ++ (entity ∷ []) in
      let passed = collect_entities seen entities rest in
      let more = collect_entities (name ∷ seen) found rest in
      if is_skipped name || contains seen name
      then passed
      else if leb max_entities_per_chunk (length found)
      then found
      else more

  unfoldable pub extract : String → Extracted
  extract content =
      let entities =
        collect_entities [] []
          (split (λ character. not (letters.is_alphanumeric character)) content) in
      record { entities = entities; relations = relate_all entities }

  unfoldable pub query_terms : String → List String
  query_terms query =
      map (λ (entity : EntityCandidate). entity.normalized_name) (extract query).entities
