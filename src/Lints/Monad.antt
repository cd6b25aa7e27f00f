-- ===== src/Lints/Monad.antt =====
-- What a lint returns: a value with the warnings given, an error, or a panic.
use websocat.Base.{
  ◌≡◌, ◌≢◌, ◌⊎◌, inl, inr, refl, Bool, true, false, List, [], ◌∷◌, ◌++◌, Bytes, Outcome, returns,
  panics,
}
use websocat.Specparse.{ParseError}

pub data Warning : Type 0 where
  listener_on_the_right exec_spaces restrict_uri_meaningless static_files_meaningless : Warning
  uri_should_begin_with_slash file_does_not_exist content_type_lacks_slash : Bytes → Warning
  set_environment_without_exec set_environment_without_server header_to_env_meaningless : Warning
  socket_leak overridden_ws_c_uri socks_destination_without_overlay : Warning
  socks_bind_script_without_overlay ping_without_websocket ping_timeout_without_interval : Warning
  ping_timeout_not_more ping_not_effective print_ping_rtts_not_effective : Warning
  protocol_unused_server protocol_unused server_protocol_unused : Warning
  exit_on_eof_useless remove_exit_on_eof broadcast_and_multicast crypto_key_meaningless : Warning
  prometheus_meaningless message_length_below_frame_length : Warning

pub data LintError : Type 0 where
  too_many_stdio too_many_reusers exec_more_than_once : LintError
  websocket_url_has_no_host bad_url socks5_not_exactly_one : LintError
  pkcs12_without_acceptor client_pkcs12_without_connector : LintError
  multicast_iface_v4_count multicast_iface_v6_count multicast_loop_without_multicast : LintError
  multiple_compress multiple_uncompress : LintError
  native_plugin_missing wasm_plugin_missing : LintError
  parse_error : ParseError → LintError
  out_of_fuel : LintError

pub data Linted {ℓ} (A : Type ℓ) : Type ℓ where
  done : A → List Warning → Linted A
  failed : LintError → Linted A
  panicked : Linted A

-- The warnings of the first part stand before those of the second.
abbrev pub with_warnings {ℓ} : {A : Type ℓ} → List Warning → Linted A → Linted A
with_warnings ws (done a vs) = done a (ws ++ vs)
with_warnings ws (failed e) = failed e
with_warnings ws panicked = panicked

infixl 5 ◌>>=◌
abbrev pub ◌>>=◌ {ℓ κ} : {A : Type ℓ} {B : Type κ} → Linted A → (A → Linted B) → Linted B
done a ws >>= f = with_warnings ws (f a)
failed e >>= f = failed e
panicked >>= f = panicked

-- A call that may panic.
abbrev pub attempt {ℓ} : {A : Type ℓ} → Outcome A → Linted A
attempt (returns a) = done a []
attempt panics = panicked

abbrev pub warn_if : Bool → Warning → List Warning
warn_if true w = w ∷ []
warn_if false w = []

pub with_warnings-eq-done {ℓ} :
    {A : Type ℓ} (m : Linted A) (us ws : List Warning) (a : A)
    → with_warnings us m ≡ done a ws
    → (vs : List Warning) × (m ≡ done a vs)
with_warnings-eq-done (done b vs) us ws a h = (vs, cc)
with_warnings-eq-done (failed e) us ws a h = cc
with_warnings-eq-done panicked us ws a h = cc

-- A successful composition has two successful parts.
pub >>=-eq-done {ℓ κ} :
    {A : Type ℓ} {B : Type κ} (m : Linted A) (f : A → Linted B) (b : B) (ws : List Warning)
    → (m >>= f) ≡ done b ws
    → (a : A) × (us : List Warning) × (vs : List Warning) × (m ≡ done a us) × (f a ≡ done b vs)
>>=-eq-done (done a us) f b ws h =
    let (vs, e) = with_warnings-eq-done (f a) us ws b h in (a, us, vs, refl, e)
>>=-eq-done (failed e) f b ws h = cc
>>=-eq-done panicked f b ws h = cc

pub Linted-cases {ℓ} :
    {A : Type ℓ} (m : Linted A)
    → ((a : A) (ws : List Warning) → m ≢ done a ws)
      ⊎ ((a : A) × (ws : List Warning) × (m ≡ done a ws))
Linted-cases (done a ws) = inr (a, ws, refl)
Linted-cases (failed e) = inl (λ a ws h. cc)
Linted-cases panicked = inl (λ a ws h. cc)
