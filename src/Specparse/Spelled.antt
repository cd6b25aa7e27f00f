-- ===== src/Specparse/Spelled.antt =====
-- Writing a stack out and parsing it: a text spelled from registered prefixes is read back.
use websocat.Base.{
  ℕ, suc, zero, ◌<◌, ◌≡◌, inl, inr, refl, ◌∙◌, Bool, true, false, ◌&&◌, Option, none, some, List,
  [], ◌∷◌, ◌++◌, arith, ◌==◌, if◌then◌else◌, length, All, Bytes, equal, equal-eq, Bool-cases,
  append-nil, append_assoc,
}
use websocat.Specifier.{SpecifierClass}
use websocat.Specifier.Classes.{all_specifier_classes}
use websocat.Specparse.{
  parsed, some_checks, strip_prefix, match_prefixes, match_class, parse_loop, from_str,
}
use websocat.Specparse.Rounds.{parse_loop-overlay, parse_loop-address}

-- One of the two texts begins with the other.
abbrev pub clashes : Bytes → Bytes → Bool
clashes [] p = true
clashes (x ∷ q) [] = true
clashes (x ∷ q) (y ∷ p) = x == y && clashes q p

pub data Scan : Type 0 where
  clear hit clash : Scan

abbrev pub scan_prefixes : List Bytes → Bytes → Scan
scan_prefixes [] p = clear
scan_prefixes (q ∷ qs) p =
    if equal q p then hit else if clashes q p then clash else scan_prefixes qs p

-- The class that a prefix stands for, if no prefix looked at before it can be taken for it.
abbrev pub resolve : List SpecifierClass → Bytes → Option SpecifierClass
resolve [] p = none
resolve (x ∷ xs) p = elim (scan_prefixes x.get_prefixes p) [
  | clear ↦ resolve xs p
  | hit ↦ some x
  | clash ↦ none
]

strip_prefix_self : (p rest : Bytes) → strip_prefix p (p ++ rest) ≡ some rest
unfolding strip_prefix
strip_prefix_self [] rest = refl
strip_prefix_self (x ∷ p) rest = ground (arith, strip_prefix_self p rest)

strip_prefix-clear : (q p rest : Bytes) → clashes q p ≡ false → strip_prefix q (p ++ rest) ≡ none
unfolding strip_prefix
strip_prefix-clear [] p rest h = cc
strip_prefix-clear (x ∷ q) [] rest h = cc
strip_prefix-clear (x ∷ q) (y ∷ p) rest h = ground (arith, strip_prefix-clear q p rest)

match_prefixes-clear :
    (qs : List Bytes) (p rest : Bytes)
    → scan_prefixes qs p ≡ clear
    → match_prefixes qs (p ++ rest) ≡ none
unfolding match_prefixes
match_prefixes-clear [] p rest h = refl
match_prefixes-clear (q ∷ qs) p rest h =
    ground (arith, strip_prefix-clear q p rest, match_prefixes-clear qs p rest)

match_prefixes-hit :
    (qs : List Bytes) (p rest : Bytes)
    → scan_prefixes qs p ≡ hit
    → match_prefixes qs (p ++ rest) ≡ some rest
unfolding match_prefixes
match_prefixes-hit [] p rest h = cc
match_prefixes-hit (q ∷ qs) p rest h = elim (Bool-cases (equal q p)) [
  | inl same ↦ rw (equal-eq q p same) (rw (strip_prefix_self p rest, match_prefixes))
  | inr differs ↦ ground (arith, strip_prefix-clear q p rest, match_prefixes-hit qs p rest)
]

match_class-resolve :
    (xs : List SpecifierClass) (p rest : Bytes) (x : SpecifierClass)
    → resolve xs p ≡ some x
    → match_class xs (p ++ rest) ≡ some (x, rest)
unfolding match_class
match_class-resolve [] p rest x h = cc
match_class-resolve (y ∷ xs) p rest x h = ground (
  arith,
  match_prefixes-clear y.get_prefixes p rest,
  match_prefixes-hit y.get_prefixes p rest,
  match_class-resolve xs p rest x,
)

-- One overlay as it is written: a prefix, and the class that it stands for.
pub record Layer : Type 0 where
  pub prefix : Bytes
  pub cls : SpecifierClass

abbrev pub IsLayer : Layer → Type 0
IsLayer l =
    (resolve all_specifier_classes l.prefix ≡ some l.cls)
    × (l.cls.alias_info ≡ none)
    × (l.cls.is_overlay ≡ true)

abbrev pub spell : List Layer → Bytes → Bytes
spell [] text = text
spell (l ∷ ls) text = l.prefix ++ spell ls text

abbrev pub classes_of : List Layer → List SpecifierClass
classes_of [] = []
classes_of (l ∷ ls) = l.cls ∷ classes_of ls

parse_loop-spell :
    (layers : List Layer) (p addr : Bytes) (x : SpecifierClass) (f : ℕ)
    (overlays : List SpecifierClass)
    → All IsLayer layers
    → resolve all_specifier_classes p ≡ some x
    → x.alias_info ≡ none
    → x.is_overlay ≡ false
    → length layers < f
    → parse_loop f (spell layers (p ++ addr)) overlays
      ≡ some
          (parsed (record { addr = addr; addrtype = x; overlays = overlays ++ classes_of layers }))
parse_loop-spell layers p addr x zero overlays h r plain address w = absurd (omega arith)
parse_loop-spell [] p addr x (suc f) overlays h r plain address w =
    parse_loop-address f (p ++ addr) overlays x addr (match_class-resolve _ p addr x r) plain
      address
    ∙ rw (append-nil overlays)
parse_loop-spell (l ∷ ls) p addr x (suc f) overlays h r plain address w =
    parse_loop-overlay f _ overlays l.cls _
      (match_class-resolve _ l.prefix (spell ls (p ++ addr)) l.cls h.0.0) h.0.1 h.0.2
    ∙ parse_loop-spell ls p addr x f (overlays ++ l.cls ∷ []) h.1 r plain address (omega arith)
    ∙ rw (append_assoc overlays (l.cls ∷ []) (classes_of ls))

-- A stack written with any of its classes' prefixes is parsed back, layers in the order written and
-- the address text unchanged. `resolve` requires that no earlier entry of the registry can be taken
-- for a prefix used; the text must pass the check for `open:`.
pub from_str-spell :
    (layers : List Layer) (p addr : Bytes) (x : SpecifierClass) (f : ℕ)
    → some_checks (spell layers (p ++ addr)) ≡ parsed tt
    → All IsLayer layers
    → resolve all_specifier_classes p ≡ some x
    → x.alias_info ≡ none
    → x.is_overlay ≡ false
    → length layers < f
    → from_str f (spell layers (p ++ addr))
      ≡ some (parsed (record { addr = addr; addrtype = x; overlays = classes_of layers }))
unfolding from_str
from_str-spell layers p addr x f clear_text h r plain address w =
    rw (clear_text, from_str) (parse_loop-spell layers p addr x f [] h r plain address w)
