-- ===== src/Lints/Stacks.antt =====
-- `ClassExt` and `SpecifierStackExt`: what lints ask of a stack. Loops over the overlays in reverse
-- order recur on the inner overlays first.
use websocat.Base.{
  ℕ, ◌+◌, Bool, true, false, ◌||◌, List, [], ◌∷◌, if◌then◌else◌, Outcome, returns, panics,
}
use Prim.Native.String.{String}
use text.Mathlib.Text.{◌==◌ as str_eq}
use websocat.Specifier.{
  SpecifierClass, SpecifierStack, ClassMessageBoundaryStatus, stream_oriented, message_oriented,
  message_boundary_status_depends_on_inner_type, ClassMulticonnectStatus, multi_connect,
  single_connect, multiconnectness_depends_on_inner_type,
}

pub data StdioUsageStatus : Type 0 where
  no_stdio with_reuser indirectly is_itself : StdioUsageStatus

abbrev pub has_name : SpecifierClass → String → Bool
has_name x name = str_eq x.get_name name

unfoldable pub is_stdio : SpecifierClass → Bool
is_stdio x =
    has_name x "StdioClass"
    || has_name x "ThreadedStdioClass"
    || has_name x "ThreadedStdioSubstituteClass"

unfoldable pub is_reuser : SpecifierClass → Bool
is_reuser x = has_name x "ReuserClass" || has_name x "BroadcastReuserClass"

-- One round of the loop in `stdio_usage_status`.
abbrev pub wrap_stdio : Bool → StdioUsageStatus → StdioUsageStatus
wrap_stdio true sus = with_reuser
wrap_stdio false is_itself = indirectly
wrap_stdio false sus = sus

unfoldable pub stdio_under : List SpecifierClass → StdioUsageStatus
stdio_under [] = is_itself
stdio_under (x ∷ xs) = wrap_stdio (is_reuser x) (stdio_under xs)

unfoldable pub stdio_usage_status : SpecifierStack → StdioUsageStatus
unfolding stdio_under
stdio_usage_status st = if is_stdio st.addrtype then stdio_under st.overlays else no_stdio

unfoldable pub count_reusers : List SpecifierClass → ℕ
count_reusers [] = 0
count_reusers (x ∷ xs) = (if is_reuser x then 1 else 0) + count_reusers xs

unfoldable pub reuser_count : SpecifierStack → ℕ
unfolding count_reusers
reuser_count st = count_reusers st.overlays

unfoldable pub any_named : List SpecifierClass → String → Bool
any_named [] t = false
any_named (x ∷ xs) t = has_name x t || any_named xs t

unfoldable pub contains : SpecifierStack → String → Bool
unfolding any_named
contains st t = any_named st.overlays t || has_name st.addrtype t

-- The loop of `is_multiconnect`, from the innermost overlay out.
unfoldable pub multiconnect_over : List SpecifierClass → Outcome Bool → Outcome Bool
multiconnect_over [] inner = inner
multiconnect_over (x ∷ xs) inner = elim (multiconnect_over xs inner) [
  | panics ↦ panics
  | returns false ↦ returns false
  | returns true ↦ elim x.multiconnect_status [
    | panics ↦ panics
    | returns multi_connect ↦ returns true
    | returns single_connect ↦ returns false
    | returns multiconnectness_depends_on_inner_type ↦ returns true
  ]
]

abbrev pub multiconnect_address : Outcome ClassMulticonnectStatus → Outcome Bool
multiconnect_address panics = panics
multiconnect_address (returns multi_connect) = returns true
multiconnect_address (returns single_connect) = returns false
multiconnect_address (returns multiconnectness_depends_on_inner_type) = panics

unfoldable pub is_multiconnect : SpecifierStack → Outcome Bool
unfolding multiconnect_over
is_multiconnect st =
    multiconnect_over st.overlays (multiconnect_address st.addrtype.multiconnect_status)

-- What a class makes of the orientation `q` below it.
abbrev pub orient : Outcome ClassMessageBoundaryStatus → Bool → Outcome Bool
orient panics q = panics
orient (returns stream_oriented) q = returns true
orient (returns message_oriented) q = returns false
orient (returns message_boundary_status_depends_on_inner_type) q = returns q

unfoldable pub oriented_over : List SpecifierClass → Outcome Bool → Outcome Bool
oriented_over [] inner = inner
oriented_over (x ∷ xs) inner = elim (oriented_over xs inner) [
  | panics ↦ panics
  | returns q ↦ orient x.message_boundary_status q
]

abbrev pub oriented_address : Outcome ClassMessageBoundaryStatus → Outcome Bool
oriented_address panics = panics
oriented_address (returns stream_oriented) = returns true
oriented_address (returns message_oriented) = returns false
oriented_address (returns message_boundary_status_depends_on_inner_type) = panics

unfoldable pub is_stream_oriented : SpecifierStack → Outcome Bool
unfolding oriented_over
is_stream_oriented st =
    oriented_over st.overlays (oriented_address st.addrtype.message_boundary_status)

-- Before the outermost overlay that decides about message boundaries.
unfoldable pub insert_line_class :
    List SpecifierClass → SpecifierClass → Outcome (List SpecifierClass)
insert_line_class [] x = returns (x ∷ [])
insert_line_class (y ∷ ys) x = elim y.message_boundary_status [
  | panics ↦ panics
  | returns stream_oriented ↦ returns (x ∷ y ∷ ys)
  | returns message_oriented ↦ returns (x ∷ y ∷ ys)
  | returns message_boundary_status_depends_on_inner_type ↦ elim (insert_line_class ys x) [
    | panics ↦ panics
    | returns zs ↦ returns (y ∷ zs)
  ]
]

unfoldable pub insert_line_class_in_proper_place :
    SpecifierStack → SpecifierClass → Outcome SpecifierStack
unfolding insert_line_class
insert_line_class_in_proper_place st x = elim (insert_line_class st.overlays x) [
  | panics ↦ panics
  | returns zs ↦ returns (record st { overlays = zs })
]
