-- ===== src/Specparse/Shape.antt =====
-- What parsing returns: an address class with its text, under overlay classes.
use websocat.Base.{
  ℕ, suc, zero, ◌≡◌, ◌≢◌, inl, inr, sym, ◌∙◌, true, false, Option, none, some, List, [], ◌∷◌, ◌++◌,
  arith, All, Bytes, Bool-cases, Option-cases, subst,
}
use websocat.Specifier.{SpecifierClass, SpecifierStack}
use websocat.Specifier.Classes.{all_specifier_classes}
use websocat.Specifier.Table.{is_regular, is_address, is_layer, all_classes-is_regular}
use websocat.Specparse.{Parsed, parsed, match_class, parse_loop, from_str}
use websocat.Specparse.Rounds.{
  parse_loop-unknown, parse_loop-alias, parse_loop-overlay, parse_loop-address,
}
use websocat.Specparse.Total.{some_checks-cases}
use websocat.Specparse.Prefix.{match_class-all}

abbrev AllLayers : List SpecifierClass → Type 0
AllLayers = All (λ x. is_layer x ≡ true)

-- The stack's address type is no alias, no overlay, and knows its own message boundaries and
-- multiplicity; each overlay is an overlay class.
pub record IsProper (st : SpecifierStack) : Type 0 where
  pub no_alias : st.addrtype.alias_info ≡ none
  pub address : is_address st.addrtype ≡ true
  pub layers : All (λ x. is_layer x ≡ true) st.overlays

AllLayers-concat :
    (xs : List SpecifierClass) (x : SpecifierClass)
    → AllLayers xs
    → is_layer x ≡ true
    → AllLayers (xs ++ x ∷ [])
AllLayers-concat [] x h l = (l, tt)
AllLayers-concat (y ∷ xs) x h l = (h.0, AllLayers-concat xs x h.1 l)

found_regular :
    (s : Bytes) (x : SpecifierClass) (rest : Bytes)
    → match_class all_specifier_classes s ≡ some (x, rest)
    → is_regular x ≡ true
found_regular s x rest e =
    (match_class-all is_regular all_specifier_classes s x rest all_classes-is_regular e).0

regular-layer :
    (x : SpecifierClass)
    → is_regular x ≡ true
    → x.alias_info ≡ none
    → x.is_overlay ≡ true
    → is_layer x ≡ true
regular-layer x h plain over = ground arith

regular-address :
    (x : SpecifierClass)
    → is_regular x ≡ true
    → x.alias_info ≡ none
    → x.is_overlay ≡ false
    → is_address x ≡ true
regular-address x h plain over = ground arith

parsed-injective :
    (st st' : SpecifierStack)
    → ◌≡◌ {A = Option (Parsed SpecifierStack)} (some (parsed st)) (some (parsed st'))
    → st ≡ st'
parsed-injective st st' e = cc

parse_loop-zero :
    (s : Bytes) (overlays : List SpecifierClass) {r : Parsed SpecifierStack}
    → some r ≢ parse_loop 0 s overlays
unfolding parse_loop
parse_loop-zero s overlays e = cc

parse_loop-IsProper :
    (f : ℕ) (s : Bytes) (overlays : List SpecifierClass) (st : SpecifierStack)
    → AllLayers overlays
    → parse_loop f s overlays ≡ some (parsed st)
    → IsProper st
parse_loop-IsProper zero s overlays st h e = absurd (parse_loop-zero s overlays (sym e))
parse_loop-IsProper (suc f) s overlays st h e =
    elim (Option-cases (match_class all_specifier_classes s)) [
      | inl miss ↦ absurd (cc (parse_loop-unknown f s overlays miss))
      | inr ((x, rest), found) ↦ elim (Option-cases x.alias_info) [
        | inr (a, alias) ↦
            parse_loop-IsProper f (a ++ rest) overlays st h
              (sym (parse_loop-alias f s overlays x rest found a alias) ∙ e)
        | inl plain ↦ elim (Bool-cases x.is_overlay) [
          | inl over ↦
              parse_loop-IsProper f rest (overlays ++ x ∷ []) st
                (AllLayers-concat overlays x h
                  (regular-layer x (found_regular s x rest found) plain over))
                (sym (parse_loop-overlay f s overlays x rest found plain over) ∙ e)
          | inr address ↦
              subst IsProper
                (parsed-injective _ st
                  (sym (parse_loop-address f s overlays x rest found plain address) ∙ e))
                (record {
                  no_alias = plain;
                  address = regular-address x (found_regular s x rest found) plain address;
                  layers = h;
                })
        ]
      ]
    ]

-- Whatever stack parsing returns is proper: nothing later meets `unreachable!()` or the panics of an
-- alias class in it.
pub from_str-IsProper :
    (f : ℕ) (s : Bytes) (st : SpecifierStack) → from_str f s ≡ some (parsed st) → IsProper st
unfolding from_str
from_str-IsProper f s st e = elim (some_checks-cases s) [
  | inl bad ↦ absurd (cc (bad, e))
  | inr clear ↦ parse_loop-IsProper f s [] st tt (rw (clear, from_str) at e)
]
