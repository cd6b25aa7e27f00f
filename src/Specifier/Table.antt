-- ===== src/Specifier/Table.antt =====
-- Facts about the registry of classes, each found by going through it.
use websocat.Base.{
  ◌≡◌, refl, Bool, true, false, ◌&&◌, not, List, [], ◌∷◌, none, some, Bytes, is_empty, Outcome,
  returns, panics,
}
use websocat.Specifier.{
  SpecifierClass, stream_oriented, message_oriented, message_boundary_status_depends_on_inner_type,
  multi_connect, single_connect, multiconnectness_depends_on_inner_type, ClassMessageBoundaryStatus,
  ClassMulticonnectStatus,
}
use websocat.Specifier.Classes.{all_specifier_classes}

-- The class decides by itself whether it keeps message boundaries, and how often it connects.
abbrev pub decides_boundaries : Outcome ClassMessageBoundaryStatus → Bool
decides_boundaries panics = false
decides_boundaries (returns stream_oriented) = true
decides_boundaries (returns message_oriented) = true
decides_boundaries (returns message_boundary_status_depends_on_inner_type) = false

abbrev pub decides_connects : Outcome ClassMulticonnectStatus → Bool
decides_connects panics = false
decides_connects (returns multi_connect) = true
decides_connects (returns single_connect) = true
decides_connects (returns multiconnectness_depends_on_inner_type) = false

abbrev pub answers {ℓ} : {A : Type ℓ} → Outcome A → Bool
answers panics = false
answers (returns _) = true

abbrev pub is_address : SpecifierClass → Bool
is_address x =
    not x.is_overlay
    && decides_boundaries x.message_boundary_status
    && decides_connects x.multiconnect_status

abbrev pub is_layer : SpecifierClass → Bool
is_layer x = x.is_overlay && answers x.message_boundary_status && answers x.multiconnect_status

-- What a class that is no alias is good for.
abbrev pub is_regular : SpecifierClass → Bool
is_regular x = elim x.alias_info [
  | some _ ↦ true
  | none ↦ elim x.is_overlay [ true ↦ is_layer x | false ↦ is_address x ]
]

abbrev pub no_empty : List Bytes → Bool
no_empty [] = true
no_empty (p ∷ ps) = not (is_empty p) && no_empty ps

abbrev pub all_classes : (SpecifierClass → Bool) → List SpecifierClass → Bool
all_classes p [] = true
all_classes p (x ∷ xs) = p x && all_classes p xs

pub all_classes-is_regular : all_classes is_regular all_specifier_classes ≡ true
all_classes-is_regular = refl

pub all_classes-no_empty : all_classes (λ x. no_empty x.get_prefixes) all_specifier_classes ≡ true
all_classes-no_empty = refl
