-- ===== src/Specparse/Prefix.antt =====
-- How a class is found: what `match_class` answers lies in the registry, and shortens the text.
use websocat.Base.{
  ◌<◌, ◌≡◌, inl, inr, Bool, true, not, some, List, [], ◌∷◌, ◌++◌, arith, length, is_empty,
  length-append, Bytes, Option-cases,
}
use websocat.Specifier.{SpecifierClass}
use websocat.Specifier.Table.{no_empty, all_classes}
use websocat.Specparse.{strip_prefix, match_prefixes, match_class}

pub strip_prefix-append : (pre s rest : Bytes) → strip_prefix pre s ≡ some rest → s ≡ pre ++ rest
unfolding strip_prefix
strip_prefix-append [] s rest e = ground arith
strip_prefix-append (p ∷ pre) [] rest e = cc
strip_prefix-append (p ∷ pre) (c ∷ s) rest e = ground (arith, strip_prefix-append pre s rest)

strip_prefix-lt :
    (pre s rest : Bytes)
    → not (is_empty pre) ≡ true
    → strip_prefix pre s ≡ some rest
    → length rest < length s
strip_prefix-lt [] s rest h e = cc
strip_prefix-lt (p ∷ pre) s rest h e =
    rw (strip_prefix-append (p ∷ pre) s rest e) (omega (arith, length-append pre rest))

pub match_prefixes-lt :
    (ps : List Bytes) (s rest : Bytes)
    → no_empty ps ≡ true
    → match_prefixes ps s ≡ some rest
    → length rest < length s
unfolding match_prefixes
match_prefixes-lt [] s rest h e = cc
match_prefixes-lt (p ∷ ps) s rest h e = elim (Option-cases (strip_prefix p s)) [
  | inl miss ↦ match_prefixes-lt ps s rest (ground arith) (ground arith)
  | inr (t, found) ↦ strip_prefix-lt p s rest (ground arith) (ground arith)
]

-- A property of all listed classes holds of the class found.
pub match_class-all :
    (p : SpecifierClass → Bool) (xs : List SpecifierClass) (s : Bytes) (x : SpecifierClass)
    (rest : Bytes)
    → all_classes p xs ≡ true
    → match_class xs s ≡ some (x, rest)
    → (p x ≡ true) × (match_prefixes x.get_prefixes s ≡ some rest)
unfolding match_class
match_class-all p [] s x rest h e = cc
match_class-all p (y ∷ xs) s x rest h e = elim (Option-cases (match_prefixes y.get_prefixes s)) [
  | inl miss ↦ match_class-all p xs s x rest (ground arith) (ground arith)
  | inr (t, found) ↦ ground arith
]
