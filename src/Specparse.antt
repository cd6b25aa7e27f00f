-- ===== src/Specparse.antt =====
-- specparse.rs: an argument such as `ws-listen:tcp-l:127.0.0.1:8080` parsed into a specifier stack.
-- Texts are their bytes.
pub mod Prefix
pub mod Rounds
pub mod Total
pub mod Shape
pub mod Aliases
pub mod Spelled
mod Tests
use websocat.Base.{
  ℕ, suc, zero, ◌+◌, ◌-◌, ◌<◌, ◌≤◌, ◌≡◌, ◌≢◌, ◌⊎◌, inl, inr, refl, sym, ap, ◌∙◌, Bool, true, false,
  not, ◌&&◌, ◌||◌, Option, none, some, List, [], ◌∷◌, ◌++◌, map, arith, ltb, leb, ◌==◌,
  if◌then◌else◌, length, take, drop, concat, get_or, is_empty, All, length-append, length-take,
  length-drop, take-append-drop, Bytes, codes, IoResult, ok, err, ErrorKind, would_block,
  broken_pipe, write_zero, other, Outcome, returns, panics, Bool-cases, Option-cases, ltb→lt,
  ltb→ge, lt→ltb, ge→ltb, ==_iff, take-all, drop-all, take-append_left, take-take_append,
  drop-append_left, min, append-nil, append_assoc, replicate, subst, ◌↔◌,
}
use websocat.Specifier.{SpecifierClass, SpecifierStack}
use websocat.Specifier.Classes.{all_specifier_classes}

pub data ParseError : Type 0 where
  open_unsupported : ParseError
  -- With the text before the first colon, and with the whole text where there is no colon.
  unknown_type unknown_type_no_colon : Bytes → ParseError

pub data Parsed {ℓ} (A : Type ℓ) : Type ℓ where
  parsed : A → Parsed A
  refused : ParseError → Parsed A

-- `&s[pre.len()..]` if `s.starts_with(pre)`.
unfoldable pub strip_prefix : Bytes → Bytes → Option Bytes
strip_prefix [] s = some s
strip_prefix (p ∷ pre) [] = none
strip_prefix (p ∷ pre) (c ∷ s) = if p == c then strip_prefix pre s else none

-- `s.find(':')`, as the text before it.
unfoldable pub before_colon : Bytes → Option Bytes
before_colon [] = none
before_colon (c ∷ s) =
    if c == b':' then some [] else elim (before_colon s) [ none ↦ none | some t ↦ some (c ∷ t) ]

-- The first of a class's prefixes that `s` starts with; what stands behind it.
unfoldable pub match_prefixes : List Bytes → Bytes → Option Bytes
unfolding strip_prefix
match_prefixes [] s = none
match_prefixes (pre ∷ pres) s = elim (strip_prefix pre s) [
  | none ↦ match_prefixes pres s
  | some rest ↦ some rest
]

-- The `my!` macro over the list of classes: the first class with such a prefix.
unfoldable pub match_class : List SpecifierClass → Bytes → Option (SpecifierClass × Bytes)
unfolding match_prefixes
match_class [] s = none
match_class (x ∷ xs) s = elim (match_prefixes x.get_prefixes s) [
  | none ↦ match_class xs s
  | some rest ↦ some (x, rest)
]

-- The only check left in a build with every feature.
unfoldable pub some_checks : Bytes → Parsed (Unit {0})
unfolding strip_prefix
some_checks s = elim (strip_prefix (codes "open:") s) [
  | some _ ↦ refused open_unsupported
  | none ↦ parsed tt
]

abbrev pub unknown : Bytes → ParseError
unknown s = elim (before_colon s) [
  | some before ↦ unknown_type before
  | none ↦ unknown_type_no_colon s
]

-- The loop `'a`, by the class found. The fuel bounds its rounds, and `none` means that it ran out.
unfoldable pub parse_loop : ℕ → Bytes → List SpecifierClass → Option (Parsed SpecifierStack)
parse_loop zero s overlays = none
parse_loop (suc f) s overlays = elim (match_class all_specifier_classes s) [
  | none ↦ some (refused (unknown s))
  | some (x, rest) ↦ elim x.alias_info [
    | some a ↦ parse_loop f (a ++ rest) overlays
    | none ↦ elim x.is_overlay [
      | true ↦ parse_loop f rest (overlays ++ x ∷ [])
      | false ↦ some (parsed (record { addr = rest; addrtype = x; overlays = overlays }))
    ]
  ]
]

unfoldable pub from_str : ℕ → Bytes → Option (Parsed SpecifierStack)
from_str f s = elim (some_checks s) [ refused e ↦ some (refused e) | parsed _ ↦ parse_loop f s [] ]
