-- ===== src/Specifier.antt =====
-- specifier.rs: specifier classes and stacks. A class is what its `specifier_class!` or
-- `specifier_alias!` declaration gives; a stack is one parsed positional argument.
pub mod Classes
pub mod Table
use Prim.Native.String.{String}
use websocat.Base.{Bool, true, false, Option, none, some, List, Bytes, Outcome, returns, panics}

pub data ClassMessageBoundaryStatus : Type 0 where
  stream_oriented message_oriented : ClassMessageBoundaryStatus
  message_boundary_status_depends_on_inner_type : ClassMessageBoundaryStatus

pub data ClassMulticonnectStatus : Type 0 where
  multi_connect single_connect : ClassMulticonnectStatus
  multiconnectness_depends_on_inner_type : ClassMulticonnectStatus

-- The methods of the trait that tell classes apart; `help` and the constructors are left out.
pub record SpecifierClass : Type 0 where
  pub get_name : String
  pub get_prefixes : List Bytes
  pub alias_info : Option Bytes
  pub is_overlay : Bool
  pub message_boundary_status : Outcome ClassMessageBoundaryStatus
  pub multiconnect_status : Outcome ClassMulticonnectStatus

abbrev pub specifier_alias : String → List Bytes → Bytes → SpecifierClass
specifier_alias name prefixes alias = record {
  get_name = name;
  get_prefixes = prefixes;
  alias_info = some alias;
  is_overlay = false;
  message_boundary_status = panics;
  multiconnect_status = panics;
}

abbrev pub specifier_class :
    String
    → List Bytes
    → Bool
    → ClassMessageBoundaryStatus
    → ClassMulticonnectStatus
    → SpecifierClass
specifier_class name prefixes overlay so ms = record {
  get_name = name;
  get_prefixes = prefixes;
  alias_info = none;
  is_overlay = overlay;
  message_boundary_status = returns so;
  multiconnect_status = returns ms;
}

-- A `SpecifierNode` holds its class and nothing else. The overlays stand outermost first.
pub record SpecifierStack : Type 0 where
  pub addr : Bytes
  pub addrtype : SpecifierClass
  pub overlays : List SpecifierClass
