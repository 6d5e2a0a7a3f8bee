-- ===== src/Graph/Pairs.antt =====
-- The pairs that `extract` of packages/hangar-server/src/graph.rs relates: its second loop.
use mathlib.Core.List.{Memᴰ}
use mathlib.Core.List.Memᴰ
use hangar_ia.Prelude.{
  ◌⊎◌, ◌∙◌, subst, text_le, suc, ◌+◌, ◌*◌, String, ◌≡◌, ◌≢◌, refl, sym, ap, List, [], ◌∷◌, ◌++◌,
  map, length, length-append, All, All-append, Bool-cases, inl, inr, arith, string_eq,
}
use hangar_ia.Graph.{EntityCandidate, RelationCandidate, relate, relate_all}

abbrev pub names : List EntityCandidate → List String
names entities = map (λ (e : EntityCandidate). e.normalized_name) entities

-- No name stands twice.
abbrev pub IsDistinct : List String → Type 0
IsDistinct [] = Unit
IsDistinct (n ∷ ns) = All (λ m. n ≢ m) ns × IsDistinct ns

-- A relation joins two different keywords of the list.
pub record Joins (ns : List String) (r : RelationCandidate) : Type 0 where
  pub source : Memᴰ r.source_normalized_name ns
  pub target : Memᴰ r.target_normalized_name ns
  pub proper : r.source_normalized_name ≢ r.target_normalized_name

Joins-cons : (n : String) (ns : List String) (r : RelationCandidate) → Joins ns r → Joins (n ∷ ns) r
Joins-cons n ns r j = record {
  source = Memᴰ.tail j.source;
  target = Memᴰ.tail j.target;
  proper = j.proper;
}

All-Joins :
    (n : String) (ns : List String) (rs : List RelationCandidate)
    → All (Joins ns) rs
    → All (Joins (n ∷ ns)) rs
All-Joins n ns [] h = tt
All-Joins n ns (r ∷ rs) h = (Joins-cons n ns r h.0, All-Joins n ns rs h.1)

relate-Joins :
    (a b : EntityCandidate) (ns : List String)
    → a.normalized_name ≢ b.normalized_name
    → Memᴰ b.normalized_name ns
    → Joins (a.normalized_name ∷ ns) (relate a b)
unfolding relate
relate-Joins a b ns d m = elim (Bool-cases (text_le a.normalized_name b.normalized_name)) [
  | inl up ↦ record {
    source = rw up (Memᴰ.head refl);
    target = rw up (Memᴰ.tail m);
    proper = rw up d;
  }
  | inr down ↦ record {
    source = rw down (Memᴰ.tail m);
    target = rw down (Memᴰ.head refl);
    proper = rw down (λ e. d (sym e));
  }
]

relate_row-Joins :
    (a : EntityCandidate) (bs : List EntityCandidate) (ns : List String)
    → All (λ n. a.normalized_name ≢ n) (names bs)
    → ((n : String) → Memᴰ n (names bs) → Memᴰ n ns)
    → All (Joins (a.normalized_name ∷ ns)) (map (relate a) bs)
relate_row-Joins a [] ns d m = tt
relate_row-Joins a (b ∷ bs) ns d m = (
  relate-Joins a b ns d.0 (m b.normalized_name (Memᴰ.head refl)),
  relate_row-Joins a bs ns d.1 (λ n i. m n (Memᴰ.tail i)),
)

pub relate_all-Joins :
    (es : List EntityCandidate) → IsDistinct (names es) → All (Joins (names es)) (relate_all es)
unfolding relate_all
relate_all-Joins [] d = tt
relate_all-Joins (e ∷ es) d =
    All-append (Joins (names (e ∷ es))) (map (relate e) es) (relate_all es)
      (relate_row-Joins e es (names es) d.0 (λ n i. i))
      (All-Joins e.normalized_name (names es) (relate_all es) (relate_all-Joins es d.1))

-- A relation joins these two names, in one order or the other.
abbrev pub IsBetween : String → String → RelationCandidate → Type 0
IsBetween a b r =
    ((r.source_normalized_name ≡ a) × (r.target_normalized_name ≡ b))
    ⊎ ((r.source_normalized_name ≡ b) × (r.target_normalized_name ≡ a))

-- Two relations do not join the same two names.
abbrev pub IsApart : RelationCandidate → RelationCandidate → Type 0
IsApart r s = ¬ IsBetween r.source_normalized_name r.target_normalized_name s

-- No two relations of a list join the same two names.
abbrev pub EachApart : List RelationCandidate → Type 0
EachApart [] = Unit
EachApart (r ∷ rs) = All (IsApart r) rs × EachApart rs

relate-IsBetween :
    (a b : EntityCandidate) → IsBetween a.normalized_name b.normalized_name (relate a b)
unfolding relate
relate-IsBetween a b = elim (Bool-cases (text_le a.normalized_name b.normalized_name)) [
  | inl up ↦ rw up (inl (refl, refl))
  | inr down ↦ rw down (inr (refl, refl))
]

IsBetween-swap : (a b : String) (r : RelationCandidate) → IsBetween a b r → IsBetween b a r
IsBetween-swap a b r (inl e) = inr e
IsBetween-swap a b r (inr e) = inl e

-- The relations of one keyword reach each of the later ones.
relate_row-reaches :
    (a : EntityCandidate) (bs : List EntityCandidate) (n : String)
    → Memᴰ n (names bs)
    → (r : RelationCandidate) × Memᴰ r (map (relate a) bs) × IsBetween a.normalized_name n r
relate_row-reaches a [] n m = elim m [ ]
relate_row-reaches a (b ∷ bs) n (Memᴰ.head e) = (
  relate a b,
  Memᴰ.head refl,
  subst (λ k. IsBetween a.normalized_name k (relate a b)) (sym e) (relate-IsBetween a b),
)
relate_row-reaches a (b ∷ bs) n (Memᴰ.tail m) =
    let (r, found, between) = relate_row-reaches a bs n m in (r, Memᴰ.tail found, between)

pub relate_all-reaches :
    (es : List EntityCandidate) (m n : String)
    → Memᴰ m (names es)
    → Memᴰ n (names es)
    → m ≢ n
    → (r : RelationCandidate) × Memᴰ r (relate_all es) × IsBetween m n r
unfolding relate_all
relate_all-reaches [] m n i j d = elim i [ ]
relate_all-reaches (e ∷ es) m n (Memᴰ.head q) (Memᴰ.head q') d = absurd (d (q ∙ sym q'))
relate_all-reaches (e ∷ es) m n (Memᴰ.head q) (Memᴰ.tail j) d =
    let (r, found, between) = relate_row-reaches e es n j in
    (r, Memᴰ.append_left (relate_all es) found, subst (λ k. IsBetween k n r) (sym q) between)
relate_all-reaches (e ∷ es) m n (Memᴰ.tail i) (Memᴰ.head q) d =
    let (r, found, between) = relate_row-reaches e es m i in
    (
      r,
      Memᴰ.append_left (relate_all es) found,
      IsBetween-swap n m r (subst (λ k. IsBetween k m r) (sym q) between),
    )
relate_all-reaches (e ∷ es) m n (Memᴰ.tail i) (Memᴰ.tail j) d =
    let (r, found, between) = relate_all-reaches es m n i j d in
    (r, Memᴰ.append_right (map (relate e) es) found, between)

-- Relations that join the same names join the names of both.
IsBetween-same :
    (a b : String) (r s : RelationCandidate)
    → IsBetween a b r
    → IsBetween r.source_normalized_name r.target_normalized_name s
    → IsBetween a b s
IsBetween-same a b r s (inl e) (inl q) = inl (q.0 ∙ e.0, q.1 ∙ e.1)
IsBetween-same a b r s (inl e) (inr q) = inr (q.0 ∙ e.1, q.1 ∙ e.0)
IsBetween-same a b r s (inr e) (inl q) = inr (q.0 ∙ e.0, q.1 ∙ e.1)
IsBetween-same a b r s (inr e) (inr q) = inl (q.0 ∙ e.1, q.1 ∙ e.0)

-- The relations of one keyword to two different later ones.
relate-IsApart :
    (a b c : EntityCandidate)
    → a.normalized_name ≢ b.normalized_name
    → b.normalized_name ≢ c.normalized_name
    → IsApart (relate a b) (relate a c)
relate-IsApart a b c d d' q = elim (relate-IsBetween a c) [
  | inl k ↦
      elim (IsBetween-same a.normalized_name b.normalized_name (relate a b) (relate a c)
        (relate-IsBetween a b) q) [ inl e ↦ d' (sym e.1 ∙ k.1) | inr e ↦ d (sym k.0 ∙ e.0) ]
  | inr k ↦
      elim (IsBetween-same a.normalized_name b.normalized_name (relate a b) (relate a c)
        (relate-IsBetween a b) q) [ inl e ↦ d (sym k.1 ∙ e.1) | inr e ↦ d' (sym e.0 ∙ k.0) ]
]

relate_row-IsApart :
    (a b : EntityCandidate) (cs : List EntityCandidate)
    → a.normalized_name ≢ b.normalized_name
    → All (λ n. b.normalized_name ≢ n) (names cs)
    → All (IsApart (relate a b)) (map (relate a) cs)
relate_row-IsApart a b [] d h = tt
relate_row-IsApart a b (c ∷ cs) d h = (relate-IsApart a b c d h.0, relate_row-IsApart a b cs d h.1)

apart : {n m : String} (ns : List String) → All (λ k. n ≢ k) ns → Memᴰ m ns → n ≢ m
apart [] h i = elim i [ ]
apart {n} (k ∷ ns) h (Memᴰ.head e) = λ q. h.0 (q ∙ e)
apart (k ∷ ns) h (Memᴰ.tail i) = apart ns h.1 i

Joins-IsApart :
    (a b : EntityCandidate) (ns : List String) (rs : List RelationCandidate)
    → All (λ n. a.normalized_name ≢ n) ns
    → All (Joins ns) rs
    → All (IsApart (relate a b)) rs
Joins-IsApart a b ns [] new h = tt
Joins-IsApart a b ns (s ∷ rs) new h = (
  λ q.
      elim (IsBetween-same a.normalized_name b.normalized_name (relate a b) s (relate-IsBetween a b)
        q) [
          | inl e ↦ apart ns new h.0.source (sym e.0)
          | inr e ↦ apart ns new h.0.target (sym e.1)
        ],
  Joins-IsApart a b ns rs new h.1,
)

-- A row of relations of one keyword, before the relations of the later keywords.
row-EachApart :
    (a : EntityCandidate) (bs : List EntityCandidate) (ns : List String)
    (rs : List RelationCandidate)
    → All (λ n. a.normalized_name ≢ n) (names bs)
    → IsDistinct (names bs)
    → All (λ n. a.normalized_name ≢ n) ns
    → All (Joins ns) rs
    → EachApart rs
    → EachApart (map (relate a) bs ++ rs)
row-EachApart a [] ns rs d own new joined h = h
row-EachApart a (b ∷ bs) ns rs d own new joined h = (
  All-append (IsApart (relate a b)) (map (relate a) bs) rs (relate_row-IsApart a b bs d.0 own.0)
      (Joins-IsApart a b ns rs new joined),
  row-EachApart a bs ns rs d.1 own.1 new joined h,
)

pub relate_all-EachApart :
    (es : List EntityCandidate) → IsDistinct (names es) → EachApart (relate_all es)
unfolding relate_all
relate_all-EachApart [] d = tt
relate_all-EachApart (e ∷ es) d =
    row-EachApart e es (names es) (relate_all es) d.0 d.1 d.0 (relate_all-Joins es d.1)
      (relate_all-EachApart es d.1)

length-map :
    (a : EntityCandidate) (bs : List EntityCandidate) → length (map (relate a) bs) ≡ length bs
length-map a [] = refl
length-map a (b ∷ bs) = ap suc (length-map a bs)

pub length-relate_all :
    (es : List EntityCandidate) → 2 * length (relate_all es) + length es ≡ length es * length es
unfolding relate_all
length-relate_all [] = omega arith
length-relate_all (e ∷ es) = grind (
  arith,
  length-relate_all es,
  length-map e es,
  length-append (map (relate e) es) (relate_all es),
)
