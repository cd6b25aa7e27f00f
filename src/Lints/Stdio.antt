-- ===== src/Lints/Stdio.antt =====
-- The lints that change the stacks: standard streams, reusers, the line mode and Prometheus.
use websocat.Base.{
  ◌+◌, Bool, true, false, not, ◌&&◌, ◌||◌, none, some, [], ◌∷◌, ◌++◌, ltb, ◌==◌, if◌then◌else◌,
  codes,
}
use Prim.Native.String.{String}
use websocat.Specifier.{SpecifierClass, SpecifierStack}
use websocat.Lints.Options.{Options, WebsocatConfiguration2}
use websocat.Lints.Monad.{Warning, LintError, Linted, done, failed, ◌>>=◌, attempt, warn_if}
use websocat.Lints.Stacks.{
  StdioUsageStatus, no_stdio, with_reuser, is_itself, has_name, stdio_usage_status, reuser_count,
  contains, is_stream_oriented, insert_line_class_in_proper_place,
}
use websocat.Specifier.Classes.Local.{async_stdio_class}
use websocat.Specifier.Classes.Overlay.{
  broadcast_reuser_class, reuser_class, line2_message_class, message2_line_class, prometheus_class,
}
use websocat.Specparse.{parsed, refused, from_str}

-- `overlays.insert(0, …)`, the outermost place, and `overlays.push(…)`, the innermost.
abbrev pub wrap : SpecifierStack → SpecifierClass → SpecifierStack
wrap st x = record st { overlays = x ∷ st.overlays }

abbrev pub push_inner : SpecifierStack → SpecifierClass → SpecifierStack
push_inner st x = record st { overlays = st.overlays ++ x ∷ [] }

unfoldable pub contains_class : WebsocatConfiguration2 → String → Bool
contains_class c x = contains c.s1 x || contains c.s2 x

unfoldable pub l_prometheus : WebsocatConfiguration2 → Linted WebsocatConfiguration2
unfolding contains_class
l_prometheus c = elim c.opts.prometheus [
  | some _ ↦
      done
        (if contains_class c "PrometheusClass"
          then c
          else record c { s2 = wrap c.s2 prometheus_class })
        []
  | none ↦ done c (warn_if (contains_class c "PrometheusClass") Warning.prometheus_meaningless)
]

-- `asyncstdio`: the class that stands for `-` and `stdio:` is replaced.
unfoldable pub use_async : SpecifierStack → SpecifierStack
use_async st =
    if has_name st.addrtype "StdioClass" then record st { addrtype = async_stdio_class } else st

unfoldable pub substitute_async : Bool → WebsocatConfiguration2 → WebsocatConfiguration2
unfolding use_async
substitute_async async c =
    if async then record c { s1 = use_async c.s1; s2 = use_async c.s2 } else c

-- `self.opts.unidirectional ^ self.opts.unidirectional_reverse`
abbrev pub xor : Bool → Bool → Bool
xor true b = not b
xor false b = b

abbrev pub both_directions : Options → Options
both_directions o =
    if xor o.unidirectional o.unidirectional_reverse
    then record o { unidirectional = false; unidirectional_reverse = false }
    else o

-- The special mode that acts like `cat(1)`.
unfoldable pub act_like_cat : WebsocatConfiguration2 → Linted (WebsocatConfiguration2 × Bool)
act_like_cat c = elim (from_str 12 (codes "mirror:")) [
  | none ↦ failed LintError.out_of_fuel
  | some (refused e) ↦ failed (LintError.parse_error e)
  | some (parsed st) ↦ done (record c { s2 = st; opts = both_directions c.opts }, false) []
]

-- With the flag `reuser_has_been_inserted`.
abbrev pub insert_broadcast : Bool → WebsocatConfiguration2 → WebsocatConfiguration2 × Bool
insert_broadcast true c = (record c { s2 = wrap c.s2 broadcast_reuser_class }, true)
insert_broadcast false c = (c, false)

-- The `match` of `l_stdio`, and the substitution behind it.
unfoldable pub l_stdio_on :
    StdioUsageStatus
    → StdioUsageStatus
    → Bool
    → Bool
    → WebsocatConfiguration2
    → Linted (WebsocatConfiguration2 × Bool)
l_stdio_on left no_stdio multiconnect async c = done (substitute_async async c, false) []
l_stdio_on no_stdio with_reuser multiconnect async c = done (substitute_async async c, false) []
l_stdio_on no_stdio _ multiconnect async c =
    let (c', inserted) = insert_broadcast multiconnect c in
    done (substitute_async async c', inserted) []
l_stdio_on is_itself is_itself multiconnect async c = act_like_cat c
l_stdio_on left right multiconnect async c = failed LintError.too_many_stdio

unfoldable pub l_stdio :
    Bool → Bool → WebsocatConfiguration2 → Linted (WebsocatConfiguration2 × Bool)
unfolding l_stdio_on
l_stdio multiconnect async c =
    l_stdio_on (stdio_usage_status c.s1) (stdio_usage_status c.s2) multiconnect async c

-- The flag only decides what is logged.
unfoldable pub l_reuser : Bool → WebsocatConfiguration2 → Linted WebsocatConfiguration2
l_reuser reuser_has_been_inserted c =
    if ltb 1 (reuser_count c.s1 + reuser_count c.s2)
    then failed LintError.too_many_reusers
    else done c []

-- By the orientations of the left and the right stack.
unfoldable pub insert_line_mode :
    Bool → Bool → WebsocatConfiguration2 → Linted WebsocatConfiguration2
insert_line_mode false false c = done c []
insert_line_mode true true c = done c []
insert_line_mode true false c = do
  s1 ← attempt (insert_line_class_in_proper_place c.s1 line2_message_class)
  s2 ← attempt (insert_line_class_in_proper_place c.s2 message2_line_class)
  done (record c { s1 = s1; s2 = s2 }) []
insert_line_mode false true c = do
  s2 ← attempt (insert_line_class_in_proper_place c.s2 line2_message_class)
  s1 ← attempt (insert_line_class_in_proper_place c.s1 message2_line_class)
  done (record c { s1 = s1; s2 = s2 }) []

unfoldable pub l_linemode : WebsocatConfiguration2 → Linted WebsocatConfiguration2
l_linemode c =
    let inserted : Linted WebsocatConfiguration2 = (do
      left ← attempt (is_stream_oriented c.s1)
      right ← attempt (is_stream_oriented c.s2)
      insert_line_mode left right c) in
    if not c.opts.no_auto_linemode && c.opts.websocket_text_mode then inserted else done c []

unfoldable pub l_reuser_for_append : Bool → WebsocatConfiguration2 → Linted WebsocatConfiguration2
l_reuser_for_append multiconnect c =
    if multiconnect
      && (has_name c.s2.addrtype "WriteFileClass" || has_name c.s2.addrtype "AppendFileClass")
      && reuser_count c.s2 == 0
    then done (record c { s2 = push_inner c.s2 reuser_class }) []
    else done c []
