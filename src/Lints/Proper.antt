-- ===== src/Lints/Proper.antt =====
-- What lints ask of a proper stack has an answer, and what they make of one is proper.
use websocat.Base.{
  ◌≡◌, refl, Bool, true, false, not, ◌&&◌, List, [], ◌∷◌, ◌++◌, arith, All, Outcome, returns,
  panics, &&-parts,
}
use websocat.Specifier.{
  SpecifierClass, SpecifierStack, ClassMessageBoundaryStatus, stream_oriented, message_oriented,
  message_boundary_status_depends_on_inner_type, ClassMulticonnectStatus, multi_connect,
  single_connect, multiconnectness_depends_on_inner_type,
}
use websocat.Specifier.Table.{is_address, is_layer, decides_boundaries, decides_connects, answers}
use websocat.Specparse.Shape.{IsProper}
use websocat.Lints.Stacks.{
  multiconnect_over, multiconnect_address, is_multiconnect, oriented_over, oriented_address, orient,
  is_stream_oriented, insert_line_class, insert_line_class_in_proper_place,
}

-- The call returns.
abbrev pub Returns {ℓ} : {A : Type ℓ} → Outcome A → Type ℓ
Returns o = (a : _) × (o ≡ returns a)

abbrev pub AllLayers : List SpecifierClass → Type 0
AllLayers = All (λ x. is_layer x ≡ true)

answers-Returns {ℓ} : {A : Type ℓ} (o : Outcome A) → answers o ≡ true → Returns o
answers-Returns panics h = cc
answers-Returns (returns a) h = (a, refl)

-- A layer answers both questions.
layer-Returns :
    (x : SpecifierClass)
    → is_layer x ≡ true
    → Returns x.message_boundary_status × Returns x.multiconnect_status
layer-Returns x h =
    let (front, m) = &&-parts (x.is_overlay && answers x.message_boundary_status) _ h in
    let (over, b) = &&-parts x.is_overlay _ front in
    (answers-Returns x.message_boundary_status b, answers-Returns x.multiconnect_status m)

connects_on :
    (o : Outcome ClassMulticonnectStatus)
    → Returns o
    → Returns (elim o [
      | panics ↦ panics
      | returns multi_connect ↦ returns true
      | returns single_connect ↦ returns false
      | returns multiconnectness_depends_on_inner_type ↦ returns true
    ])
connects_on panics h = cc (h.1)
connects_on (returns multi_connect) h = (true, refl)
connects_on (returns single_connect) h = (false, refl)
connects_on (returns multiconnectness_depends_on_inner_type) h = (true, refl)

multiconnect_over-Returns :
    (xs : List SpecifierClass) (inner : Outcome Bool)
    → AllLayers xs
    → Returns inner
    → Returns (multiconnect_over xs inner)
unfolding multiconnect_over
multiconnect_over-Returns [] inner h i = i
multiconnect_over-Returns (x ∷ xs) inner h i =
    elim (multiconnect_over-Returns xs inner h.1 i).0
        as (λ b.
          multiconnect_over xs inner ≡ returns b → Returns (multiconnect_over (x ∷ xs) inner)) [
            | true ↦ λ e.
                rw (e, multiconnect_over)
                  (connects_on x.multiconnect_status (layer-Returns x h.0).1)
            | false ↦ λ e. rw (e, multiconnect_over) (false, refl)
          ]
      (multiconnect_over-Returns xs inner h.1 i).1

connects_address :
    (o : Outcome ClassMulticonnectStatus)
    → decides_connects o ≡ true
    → Returns (multiconnect_address o)
connects_address panics h = cc
connects_address (returns multi_connect) h = (true, refl)
connects_address (returns single_connect) h = (false, refl)
connects_address (returns multiconnectness_depends_on_inner_type) h = cc

orients_address :
    (o : Outcome ClassMessageBoundaryStatus)
    → decides_boundaries o ≡ true
    → Returns (oriented_address o)
orients_address panics h = cc
orients_address (returns stream_oriented) h = (true, refl)
orients_address (returns message_oriented) h = (false, refl)
orients_address (returns message_boundary_status_depends_on_inner_type) h = cc

address-decides :
    (x : SpecifierClass)
    → is_address x ≡ true
    → (decides_boundaries x.message_boundary_status ≡ true)
      × (decides_connects x.multiconnect_status ≡ true)
address-decides x h =
    let (front, m) =
      &&-parts (not x.is_overlay && decides_boundaries x.message_boundary_status) _ h in
    let (over, b) = &&-parts (not x.is_overlay) _ front in (b, m)

pub is_multiconnect-Returns : (st : SpecifierStack) → IsProper st → Returns (is_multiconnect st)
unfolding is_multiconnect
is_multiconnect-Returns st p =
    multiconnect_over-Returns st.overlays _ p.layers
      (connects_address st.addrtype.multiconnect_status (address-decides st.addrtype p.address).1)

orient-Returns :
    (o : Outcome ClassMessageBoundaryStatus) (q : Bool) → Returns o → Returns (orient o q)
orient-Returns panics q h = cc (h.1)
orient-Returns (returns stream_oriented) q h = (true, refl)
orient-Returns (returns message_oriented) q h = (false, refl)
orient-Returns (returns message_boundary_status_depends_on_inner_type) q h = (q, refl)

oriented_over-Returns :
    (xs : List SpecifierClass) (inner : Outcome Bool)
    → AllLayers xs
    → Returns inner
    → Returns (oriented_over xs inner)
unfolding oriented_over
oriented_over-Returns [] inner h i = i
oriented_over-Returns (x ∷ xs) inner h i =
    let (q, e) = oriented_over-Returns xs inner h.1 i in
    rw (e, oriented_over) (orient-Returns x.message_boundary_status q (layer-Returns x h.0).0)

pub is_stream_oriented-Returns :
    (st : SpecifierStack) → IsProper st → Returns (is_stream_oriented st)
unfolding is_stream_oriented
is_stream_oriented-Returns st p =
    oriented_over-Returns st.overlays _ p.layers (
      orients_address st.addrtype.message_boundary_status (address-decides st.addrtype p.address).0)

insert_line_class-Returns :
    (ys : List SpecifierClass) (x : SpecifierClass)
    → is_layer x ≡ true
    → AllLayers ys
    → (zs : List SpecifierClass) × (insert_line_class ys x ≡ returns zs) × AllLayers zs
unfolding insert_line_class
insert_line_class-Returns [] x l h = (x ∷ [], refl, (l, tt))
insert_line_class-Returns (y ∷ ys) x l h =
    placed (layer-Returns y h.0).0 (insert_line_class-Returns ys x l h.1)
  where
    placed :
        Returns y.message_boundary_status
        → (zs : List SpecifierClass) × (insert_line_class ys x ≡ returns zs) × AllLayers zs
        → (zs : List SpecifierClass) × (insert_line_class (y ∷ ys) x ≡ returns zs) × AllLayers zs
    placed (stream_oriented, e) below = (x ∷ y ∷ ys, ground (arith, e), (l, h))
    placed (message_oriented, e) below = (x ∷ y ∷ ys, ground (arith, e), (l, h))
    placed (message_boundary_status_depends_on_inner_type, e) (zs, e', k) =
        (y ∷ zs, ground (arith, e, e'), (h.0, k))

pub insert-IsProper :
    (st : SpecifierStack) (x : SpecifierClass)
    → is_layer x ≡ true
    → IsProper st
    → (st' : SpecifierStack) × (insert_line_class_in_proper_place st x ≡ returns st') × IsProper st'
unfolding insert_line_class_in_proper_place
insert-IsProper st x l p =
    let (zs, e, h) = insert_line_class-Returns st.overlays x l p.layers in
    (
      record st { overlays = zs },
      rw (e, insert_line_class_in_proper_place),
      record { no_alias = p.no_alias; address = p.address; layers = h },
    )

pub wrap-IsProper :
    (st : SpecifierStack) (x : SpecifierClass)
    → is_layer x ≡ true
    → IsProper st
    → IsProper (record st { overlays = x ∷ st.overlays })
wrap-IsProper st x l p = record {
  no_alias = p.no_alias;
  address = p.address;
  layers = (l, p.layers);
}

AllLayers-append :
    (xs ys : List SpecifierClass) → AllLayers xs → AllLayers ys → AllLayers (xs ++ ys)
AllLayers-append [] ys h k = k
AllLayers-append (x ∷ xs) ys h k = (h.0, AllLayers-append xs ys h.1 k)

pub push-IsProper :
    (st : SpecifierStack) (ys : List SpecifierClass)
    → AllLayers ys
    → IsProper st
    → IsProper (record st { overlays = st.overlays ++ ys })
push-IsProper st ys k p = record {
  no_alias = p.no_alias;
  address = p.address;
  layers = AllLayers-append st.overlays ys p.layers k;
}
