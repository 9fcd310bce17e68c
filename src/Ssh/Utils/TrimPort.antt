-- ===== src/Ssh/Utils/TrimPort.antt =====
-- The two kinds of address that `trimPort` meets.
use text.Mathlib.TextLemmas.{nil-append, cons-append}
use cbtools_autobench.Base.{
  ◌≡◌, ◌≢◌, refl, ◌<>◌, ℕ, String, Char, code, true, none, some, arith, eqb, up_to, eq_iff,
}
use cbtools_autobench.Result.{ok, panic}
use cbtools_autobench.Value.Command.Laws.{Lacks}
use cbtools_autobench.Ssh.Utils.{trim_port}

up_to-Lacks : (x : ℕ) (s : String) → Lacks x s → up_to x s ≡ none
unfolding up_to
up_to-Lacks x String.[] h = refl
up_to-Lacks x (String.◌∷◌ c s) h = ground (arith, up_to-Lacks x s h.1)

up_to-append :
    (x : ℕ) (s : String) (c : Char) (t : String)
    → Lacks x s
    → eqb (code c) x ≡ true
    → up_to x (s <> String.◌∷◌ c t) ≡ some s
unfolding up_to
up_to-append x String.[] c t h e = rw nil-append (ground arith)
up_to-append x (String.◌∷◌ d s) c t h e =
    rw cons-append (ground (arith, up_to-append x s c t h.1 e))

-- An address that is a host without a colon, which is not empty, a colon and any port is cut to the
-- host; a text without a colon that is not empty makes `trimPort` panic, although its comment says that
-- it is returned unchanged; and a colon and a port without a host are returned unchanged.
pub trim_port_lem :
    (host port : String)
    → Lacks b':' host
    → host ≢ ""
    → (trim_port (host <> String.◌∷◌ ":" port) ≡ ok host)
      × (trim_port host ≡ panic "slice bounds out of range")
      × (trim_port (String.◌∷◌ ":" port) ≡ ok (String.◌∷◌ ":" port))
unfolding trim_port
trim_port_lem host port h e = (
  rw (up_to-append b':' host ":" port h refl, trim_port) (ground (arith, eq_iff host "")),
  rw (up_to-Lacks b':' host h, trim_port),
  refl,
)
