-- ===== src/Lints/Quiet.antt =====
-- The lints that only check do not panic.
use websocat.Base.{
  ◌≡◌, refl, Bool, true, false, List, [], ◌∷◌, arith, if◌then◌else◌, Bytes, Outcome, returns,
  panics,
}
use websocat.Specifier.Classes.Overlay.{reuser_class}
use websocat.Specparse.Shape.{IsProper}
use websocat.Lints.Options.{WebsocatConfiguration2}
use websocat.Lints.Monad.{Warning, Linted, done, failed, panicked, with_warnings, ◌>>=◌, attempt}
use websocat.Lints.Stacks.{is_multiconnect}
use websocat.Lints.Stdio.{l_reuser_for_append, push_inner}
use websocat.Lints.Checks.{
  l_listener_on_the_right, l_exec, l_uri_staticfiles, l_environ, l_closebug, l_ssl, l_ping, l_proto,
  l_eeof_unidir, l_udp, l_crypto, l_sizelimits, l_compress, l_plugins, l_wasm,
}
use websocat.Lints.Fixup.{early_checks, late_checks}
use websocat.Lints.Proper.{Returns, is_multiconnect-Returns, push-IsProper}

-- No panic, and `P` of what is done.
abbrev pub IsSafe {ℓ} : {A : Type ℓ} → (A → Type 0) → Linted A → Type 0
IsSafe P (done a ws) = P a
IsSafe P (failed e) = Unit
IsSafe P panicked = true ≡ false

pub with_warnings-IsSafe {ℓ} :
    {A : Type ℓ} (P : A → Type 0) (ws : List Warning) (m : Linted A)
    → IsSafe P m
    → IsSafe P (with_warnings ws m)
with_warnings-IsSafe P ws (done a vs) h = h
with_warnings-IsSafe P ws (failed e) h = tt
with_warnings-IsSafe P ws panicked h = h

pub >>=-IsSafe {ℓ κ} :
    {A : Type ℓ} {B : Type κ} (P : A → Type 0) (Q : B → Type 0) (m : Linted A) (f : A → Linted B)
    → IsSafe P m
    → ((a : A) → P a → IsSafe Q (f a))
    → IsSafe Q (m >>= f)
>>=-IsSafe P Q (done a ws) f h g = with_warnings-IsSafe Q ws (f a) (g a h)
>>=-IsSafe P Q (failed e) f h g = tt
>>=-IsSafe P Q panicked f h g = h

-- A part that is only run for its warnings and errors.
abbrev pub Quiet : Linted (Unit {0}) → Type 0
Quiet m = IsSafe (λ _. Unit) m

abbrev is_panic {ℓ} : {A : Type ℓ} → Linted A → Bool
is_panic (done a ws) = false
is_panic (failed e) = false
is_panic panicked = true

is_panic-Quiet : (m : Linted (Unit {0})) → is_panic m ≡ false → Quiet m
is_panic-Quiet (done a ws) h = tt
is_panic-Quiet (failed e) h = tt
is_panic-Quiet panicked h = h

if-Quiet : (b : Bool) (m n : Linted (Unit {0})) → Quiet m → Quiet n → Quiet (if b then m else n)
if-Quiet true m n h k = h
if-Quiet false m n h k = k

pub attempt-IsSafe :
    {A : Type 0} (o : Outcome A) → Returns o → IsSafe (λ a. o ≡ returns a) (attempt o)
attempt-IsSafe (returns a) h = refl
attempt-IsSafe panics h = cc (h.1)

pub record AreProper (c : WebsocatConfiguration2) : Type 0 where
  pub left : IsProper c.s1
  pub right : IsProper c.s2

l_ping-Quiet : (c : WebsocatConfiguration2) → Quiet (l_ping c)
unfolding l_ping
l_ping-Quiet c = tt

l_proto-Quiet : (c : WebsocatConfiguration2) → Quiet (l_proto c)
unfolding l_proto
l_proto-Quiet c = tt

l_eeof_unidir-Quiet : (c : WebsocatConfiguration2) → Quiet (l_eeof_unidir c)
unfolding l_eeof_unidir
l_eeof_unidir-Quiet c = tt

l_crypto-Quiet : (c : WebsocatConfiguration2) → Quiet (l_crypto c)
unfolding l_crypto
l_crypto-Quiet c = tt

l_sizelimits-Quiet : (c : WebsocatConfiguration2) → Quiet (l_sizelimits c)
unfolding l_sizelimits
l_sizelimits-Quiet c = tt

l_environ-Quiet : (c : WebsocatConfiguration2) → Quiet (l_environ c)
unfolding l_environ
l_environ-Quiet c = tt

l_ssl-Quiet : (c : WebsocatConfiguration2) → Quiet (l_ssl c)
unfolding l_ssl
l_ssl-Quiet c = is_panic-Quiet (l_ssl c) (ground arith)

l_compress-Quiet : (c : WebsocatConfiguration2) → Quiet (l_compress c)
unfolding l_compress
l_compress-Quiet c = is_panic-Quiet (l_compress c) (ground arith)

l_plugins-Quiet : (c : WebsocatConfiguration2) → Quiet (l_plugins c)
unfolding l_plugins
l_plugins-Quiet c = is_panic-Quiet (l_plugins c) (ground arith)

l_wasm-Quiet : (c : WebsocatConfiguration2) → Quiet (l_wasm c)
unfolding l_wasm
l_wasm-Quiet c = is_panic-Quiet (l_wasm c) (ground arith)

l_exec-Quiet : (c : WebsocatConfiguration2) → Quiet (l_exec c)
unfolding l_exec
l_exec-Quiet c = is_panic-Quiet (l_exec c) (ground arith)

l_udp-Quiet : (c : WebsocatConfiguration2) → Quiet (l_udp c)
unfolding l_udp
l_udp-Quiet c = is_panic-Quiet (l_udp c) (ground arith)

l_uri_staticfiles-Quiet :
    (exists : Bytes → Bool) (c : WebsocatConfiguration2) → Quiet (l_uri_staticfiles exists c)
unfolding l_uri_staticfiles
l_uri_staticfiles-Quiet exists c = tt

l_listener_on_the_right-Quiet :
    (c : WebsocatConfiguration2) → AreProper c → Quiet (l_listener_on_the_right c)
unfolding l_listener_on_the_right
l_listener_on_the_right-Quiet c p = if-Quiet c.opts.oneshot _ _ tt (
    >>=-IsSafe _ (λ _. Unit) (attempt (is_multiconnect c.s2)) _
      (attempt-IsSafe _ (is_multiconnect-Returns c.s2 p.right))
      (λ right e.
        >>=-IsSafe (λ _. Unit) (λ _. Unit)
          (attempt (if right then is_multiconnect c.s1 else returns true)) _ (asked right)
          (λ left e'. tt)))
  where
    asked :
        (right : Bool)
        → IsSafe (λ _. Unit) (attempt (if right then is_multiconnect c.s1 else returns true))
    asked true = rw ((is_multiconnect-Returns c.s1 p.left).1) tt
    asked false = tt

l_closebug-Quiet : (c : WebsocatConfiguration2) → AreProper c → Quiet (l_closebug c)
unfolding l_closebug
l_closebug-Quiet c p = if-Quiet c.opts.oneshot _ _ tt (
    >>=-IsSafe _ (λ _. Unit) (attempt (is_multiconnect c.s1)) _
      (attempt-IsSafe _ (is_multiconnect-Returns c.s1 p.left)) (λ left e. tt))

-- A quiet part before another.
Quiet-then :
    {B : Type 0} (Q : B → Type 0) (m : Linted (Unit {0})) (n : Linted B)
    → Quiet m
    → IsSafe Q n
    → IsSafe Q (m >>= λ _. n)
Quiet-then Q m n h k = >>=-IsSafe (λ _. Unit) Q m (λ _. n) h (λ _ _. k)

pub late_checks-Quiet : (c : WebsocatConfiguration2) → Quiet (late_checks c)
unfolding late_checks
late_checks-Quiet c = Quiet-then _ (l_ssl c) _ (l_ssl-Quiet c) (
    Quiet-then _ (l_ping c) _ (l_ping-Quiet c) (
      Quiet-then _ (l_proto c) _ (l_proto-Quiet c) (
        Quiet-then _ (l_eeof_unidir c) _ (l_eeof_unidir-Quiet c) (
          Quiet-then _ (l_udp c) _ (l_udp-Quiet c) (
            Quiet-then _ (l_crypto c) _ (l_crypto-Quiet c) (
              Quiet-then _ (l_sizelimits c) _ (l_sizelimits-Quiet c) (
                Quiet-then _ (l_compress c) _ (l_compress-Quiet c)
                  (Quiet-then _ (l_plugins c) _ (l_plugins-Quiet c) (l_wasm-Quiet c)))))))))

if-AreProper :
    (b : Bool) (c d : WebsocatConfiguration2)
    → AreProper c
    → AreProper d
    → AreProper (if b then c else d)
if-AreProper true c d h k = h
if-AreProper false c d h k = k

l_reuser_for_append-IsSafe :
    (multiconnect : Bool) (c : WebsocatConfiguration2)
    → AreProper c
    → IsSafe AreProper (l_reuser_for_append multiconnect c)
unfolding l_reuser_for_append
l_reuser_for_append-IsSafe multiconnect c p = either _
  where
    either :
        (b : Bool)
        → IsSafe AreProper
            (if b then done (record c { s2 = push_inner c.s2 reuser_class }) [] else done c [])
    either true = record {
      left = p.left;
      right = push-IsProper c.s2 (reuser_class ∷ []) (refl, tt) p.right;
    }
    either false = p

pub early_checks-IsSafe :
    (exists : Bytes → Bool) (multiconnect : Bool) (c : WebsocatConfiguration2)
    → AreProper c
    → IsSafe AreProper (early_checks exists multiconnect c)
unfolding early_checks
early_checks-IsSafe exists multiconnect c p =
    Quiet-then _ (l_listener_on_the_right c) _ (l_listener_on_the_right-Quiet c p) (
      >>=-IsSafe AreProper AreProper (l_reuser_for_append multiconnect c) _
        (l_reuser_for_append-IsSafe multiconnect c p)
        (λ d q. Quiet-then _ (l_exec d) _ (l_exec-Quiet d) (
          Quiet-then _ (l_uri_staticfiles exists d) _ (l_uri_staticfiles-Quiet exists d) (
            Quiet-then _ (l_environ d) _ (l_environ-Quiet d)
              (Quiet-then _ (l_closebug d) _ (l_closebug-Quiet d q) q)))))
