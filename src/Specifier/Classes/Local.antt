-- ===== src/Specifier/Classes/Local.antt =====
-- The specifier classes for standard streams, files, processes and literals, as their `specifier_class!` and
-- `specifier_alias!` declarations give them:
-- src/stdio_peer.rs, src/stdio_threaded_peer.rs, src/file_peer.rs, src/process_peer.rs,
-- src/mirror_peer.rs, src/trivial_peer.rs.
use websocat.Base.{false, true, [], ◌∷◌, codes}
use websocat.Specifier.{
  SpecifierClass, message_oriented, multiconnectness_depends_on_inner_type, single_connect,
  specifier_class, stream_oriented,
}

abbrev pub async_stdio_class : SpecifierClass
async_stdio_class =
    specifier_class "AsyncStdioClass" (codes "asyncstdio:" ∷ []) false stream_oriented
      single_connect

abbrev pub inetd_class : SpecifierClass
inetd_class =
    specifier_class "InetdClass" (codes "inetd:" ∷ []) false stream_oriented single_connect

abbrev pub sh_c_class : SpecifierClass
sh_c_class = specifier_class "ShCClass" (codes "sh-c:" ∷ []) false stream_oriented single_connect

abbrev pub cmd_class : SpecifierClass
cmd_class = specifier_class "CmdClass" (codes "cmd:" ∷ []) false stream_oriented single_connect

abbrev pub exec_class : SpecifierClass
exec_class = specifier_class "ExecClass" (codes "exec:" ∷ []) false stream_oriented single_connect

abbrev pub read_file_class : SpecifierClass
read_file_class =
    specifier_class "ReadFileClass" (codes "readfile:" ∷ []) false stream_oriented single_connect

abbrev pub write_file_class : SpecifierClass
write_file_class =
    specifier_class "WriteFileClass" (codes "writefile:" ∷ []) false stream_oriented single_connect

abbrev pub append_file_class : SpecifierClass
append_file_class =
    specifier_class "AppendFileClass" (codes "appendfile:" ∷ []) false stream_oriented
      single_connect

abbrev pub open_async_class : SpecifierClass
open_async_class =
    specifier_class "OpenAsyncClass" (codes "open-async:" ∷ []) false message_oriented
      single_connect

abbrev pub open_fd_async_class : SpecifierClass
open_fd_async_class =
    specifier_class "OpenFdAsyncClass" (codes "open-fd:" ∷ []) false message_oriented single_connect

abbrev pub threaded_stdio_class : SpecifierClass
threaded_stdio_class =
    specifier_class "ThreadedStdioClass" (codes "threadedstdio:" ∷ []) false stream_oriented
      single_connect

abbrev pub stdio_class : SpecifierClass
stdio_class =
    specifier_class "StdioClass" (codes "-" ∷ codes "stdio:" ∷ []) false stream_oriented
      single_connect

abbrev pub mirror_class : SpecifierClass
mirror_class =
    specifier_class "MirrorClass" (codes "mirror:" ∷ []) false message_oriented single_connect

abbrev pub literal_reply_class : SpecifierClass
literal_reply_class =
    specifier_class "LiteralReplyClass" (codes "literalreply:" ∷ []) false message_oriented
      single_connect

abbrev pub clogged_class : SpecifierClass
clogged_class =
    specifier_class "CloggedClass" (codes "clogged:" ∷ []) false message_oriented single_connect

abbrev pub literal_class : SpecifierClass
literal_class =
    specifier_class "LiteralClass" (codes "literal:" ∷ []) false message_oriented single_connect

abbrev pub assert_class : SpecifierClass
assert_class =
    specifier_class "AssertClass" (codes "assert:" ∷ []) false message_oriented single_connect

abbrev pub assert2_class : SpecifierClass
assert2_class =
    specifier_class "Assert2Class" (codes "assert2:" ∷ []) false message_oriented single_connect

abbrev pub log_class : SpecifierClass
log_class =
    specifier_class "LogClass" (codes "log:" ∷ []) true stream_oriented
      multiconnectness_depends_on_inner_type

abbrev pub random_class : SpecifierClass
random_class =
    specifier_class "RandomClass" (codes "random:" ∷ []) false message_oriented single_connect

abbrev pub exit_on_specific_byte_class : SpecifierClass
exit_on_specific_byte_class =
    specifier_class "ExitOnSpecificByteClass" (codes "exit_on_specific_byte:" ∷ []) true
      stream_oriented multiconnectness_depends_on_inner_type
