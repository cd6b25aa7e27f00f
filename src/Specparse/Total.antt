-- ===== src/Specparse/Total.antt =====
-- Parsing ends: every argument is parsed or refused, and more fuel changes nothing.
use websocat.Base.{
  sym, subst, ℕ, suc, zero, ◌+◌, ◌-◌, ◌<◌, ◌≤◌, ◌≡◌, ◌⊎◌, inl, inr, refl, ◌∙◌, Bool, true, none,
  some, List, [], ◌∷◌, ◌++◌, arith, length, All, Bytes, codes, member, member-All, Bool-cases,
  Option-cases,
}
use websocat.Specifier.{SpecifierClass, SpecifierStack}
use websocat.Specifier.Classes.{all_specifier_classes}
use websocat.Specifier.Table.{no_empty, all_classes, all_classes-no_empty}
use websocat.Specparse.{
  Parsed, parsed, refused, open_unsupported, unknown, match_class, parse_loop, some_checks,
  from_str,
}
use websocat.Specparse.Rounds.{
  parse_loop-unknown, parse_loop-alias, parse_loop-overlay, parse_loop-address,
}
use websocat.Specparse.Prefix.{match_class-all, match_prefixes-lt}

pub some_checks-cases :
    (s : Bytes) → (some_checks s ≡ refused open_unsupported) ⊎ (some_checks s ≡ parsed tt)
unfolding some_checks
some_checks-cases s = ground arith

-- Four rounds are enough once an alias is written out.
abbrev EndsAfter : Bytes → Type 0
EndsAfter alias =
    (f : ℕ) (rest : Bytes) (overlays : List SpecifierClass)
    → (r : Parsed SpecifierStack) × (parse_loop (suc (suc (suc (suc f)))) (alias ++ rest) overlays
        ≡ some r)

abbrev aliases : List Bytes
aliases =
    codes "ws-u:tcp-l:"
    ∷ codes "ws-u:inetd:"
    ∷ codes "ws-u:unix-l:"
    ∷ codes "ws-l:abstract-l:"
    ∷ codes "ws-u:tls-accept:tcp-l:"
    ∷ codes "tls-accept:tcp-l:"
    ∷ []

aliases-EndsAfter : All EndsAfter aliases
unfolding parse_loop match_class
aliases-EndsAfter = (
  λ f rest overlays. (_, refl),
  (
    λ f rest overlays. (_, refl),
    (
      λ f rest overlays. (_, refl),
      (
        λ f rest overlays. (_, refl),
        (λ f rest overlays. (_, refl), (λ f rest overlays. (_, refl), tt)),
      ),
    ),
  ),
)

abbrev is_listed : SpecifierClass → Bool
is_listed x = elim x.alias_info [ none ↦ true | some a ↦ member a aliases ]

all_classes-is_listed : all_classes is_listed all_specifier_classes ≡ true
all_classes-is_listed = refl

found-lt :
    (s : Bytes) (x : SpecifierClass) (rest : Bytes)
    → match_class all_specifier_classes s ≡ some (x, rest)
    → length rest < length s
found-lt s x rest e =
    let (h, m) =
      match_class-all (λ y. no_empty y.get_prefixes) all_specifier_classes s x rest
        all_classes-no_empty e in
    match_prefixes-lt x.get_prefixes s rest h m

alias-EndsAfter :
    (s : Bytes) (x : SpecifierClass) (rest a : Bytes)
    → match_class all_specifier_classes s ≡ some (x, rest)
    → x.alias_info ≡ some a
    → EndsAfter a
alias-EndsAfter s x rest a e alias =
    let h = (match_class-all is_listed all_specifier_classes s x rest all_classes-is_listed e).0 in
    member-All EndsAfter a aliases (ground arith) aliases-EndsAfter

at_least_four : (f : ℕ) → 4 ≤ f → (g : ℕ) × (f ≡ suc (suc (suc (suc g))))
at_least_four f h = (f - 4, ground arith)

alias-ends :
    (f : ℕ) (s : Bytes) (overlays : List SpecifierClass) (x : SpecifierClass) (rest a : Bytes)
    → 4 ≤ f
    → match_class all_specifier_classes s ≡ some (x, rest)
    → x.alias_info ≡ some a
    → (r : Parsed SpecifierStack) × (parse_loop (suc f) s overlays ≡ some r)
alias-ends f s overlays x rest a h e alias =
    let (g, four) = at_least_four f h in
    let (r, ends) = alias-EndsAfter s x rest a e alias g rest overlays in
    (
      r,
      parse_loop-alias f s overlays x rest e a alias
          ∙ subst (λ n. parse_loop n (a ++ rest) overlays ≡ some r) (sym four) ends,
    )

pub parse_loop-ends :
    (f : ℕ) (s : Bytes) (overlays : List SpecifierClass)
    → length s + 5 ≤ f
    → (r : Parsed SpecifierStack) × (parse_loop f s overlays ≡ some r)
parse_loop-ends zero s overlays h = absurd (omega arith)
parse_loop-ends (suc f) s overlays h = elim (Option-cases (match_class all_specifier_classes s)) [
  | inl miss ↦ (refused (unknown s), parse_loop-unknown f s overlays miss)
  | inr ((x, rest), found) ↦ elim (Option-cases x.alias_info) [
    | inr (a, alias) ↦ alias-ends f s overlays x rest a (omega arith) found alias
    | inl plain ↦ elim (Bool-cases x.is_overlay) [
      | inl over ↦
          let (r, e) =
            parse_loop-ends f rest (overlays ++ x ∷ []) (omega (arith, found-lt s x rest found)) in
          (r, parse_loop-overlay f s overlays x rest found plain over ∙ e)
      | inr address ↦ (_, parse_loop-address f s overlays x rest found plain address)
    ]
  ]
]

-- Every argument is parsed or refused: five rounds more than the argument has bytes are enough,
-- whatever aliases it spells.
pub from_str-ends :
    (f : ℕ) (s : Bytes) → length s + 5 ≤ f → (r : Parsed SpecifierStack) × (from_str f s ≡ some r)
unfolding from_str
from_str-ends f s h = elim (some_checks-cases s) [
  | inl bad ↦ (refused open_unsupported, rw (bad, from_str))
  | inr clear ↦ let (r, e) = parse_loop-ends f s [] h in (r, rw (clear, from_str) e)
]
