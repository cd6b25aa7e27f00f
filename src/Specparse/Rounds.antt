-- ===== src/Specparse/Rounds.antt =====
-- One round of the parsing loop, by the class that it finds.
use websocat.Base.{ℕ, suc, ◌≡◌, true, false, none, some, List, [], ◌∷◌, ◌++◌, arith, Bytes}
use websocat.Specifier.{SpecifierClass}
use websocat.Specifier.Classes.{all_specifier_classes}
use websocat.Specparse.{parsed, refused, unknown, match_class, parse_loop}

module _ (f : ℕ) (s : Bytes) (overlays : List SpecifierClass) where
  pub parse_loop-unknown :
      match_class all_specifier_classes s ≡ none
      → parse_loop (suc f) s overlays ≡ some (refused (unknown s))
  unfolding parse_loop
  parse_loop-unknown e = rw (e, parse_loop)

  module _ (x : SpecifierClass) (rest : Bytes)
      (e : match_class all_specifier_classes s ≡ some (x, rest)) where
    pub parse_loop-alias :
        (a : Bytes)
        → x.alias_info ≡ some a
        → parse_loop (suc f) s overlays ≡ parse_loop f (a ++ rest) overlays
    unfolding parse_loop
    parse_loop-alias a alias = ground (arith, e, alias)

    pub parse_loop-overlay :
        x.alias_info ≡ none
        → x.is_overlay ≡ true
        → parse_loop (suc f) s overlays ≡ parse_loop f rest (overlays ++ x ∷ [])
    unfolding parse_loop
    parse_loop-overlay alias over = ground (arith, e, alias, over)

    pub parse_loop-address :
        x.alias_info ≡ none
        → x.is_overlay ≡ false
        → parse_loop (suc f) s overlays
          ≡ some (parsed (record { addr = rest; addrtype = x; overlays = overlays }))
    unfolding parse_loop
    parse_loop-address alias over = ground (arith, e, alias, over)
