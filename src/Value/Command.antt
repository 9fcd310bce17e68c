-- ===== src/Value/Command.antt =====
-- value/command.go: commands that are run on a remote machine.
pub mod Laws
use cbtools_autobench.Base.{
  String, ◌<>◌, code, Char, Bool, true, false, ◌&&◌, List, [], ◌∷◌, eqb, if◌then◌else◌,
}
use cbtools_autobench.Value.Format.{Arg, str, sprintf}

-- `type Command string`
abbrev pub Command : Type 0
Command = String

-- strings.ReplaceAll(s, "\\\n", ""): a backslash and the line end behind it go.
remove_continuations : String → String
remove_continuations String.[] = String.[]
remove_continuations (String.◌∷◌ c String.[]) = String.◌∷◌ c String.[]
remove_continuations (String.◌∷◌ c (String.◌∷◌ d s)) =
    let joined = remove_continuations s in
    let kept = String.◌∷◌ c (remove_continuations (String.◌∷◌ d s)) in
    if eqb (code c) b'\\' && eqb (code d) b'\n' then joined else kept

-- strings.ReplaceAll(s, x, "") for a text `x` of one character, given by its code.
remove_char : (x : Prim.Native.Nat.ℕ) → String → String
remove_char x String.[] = String.[]
remove_char x (String.◌∷◌ c s) =
    let rest = remove_char x s in if eqb (code c) x then rest else String.◌∷◌ c rest

-- NewCommand
unfoldable pub new_command : String → List Arg → Command
unfolding remove_continuations remove_char sprintf
new_command format args =
    remove_char b'\t' (remove_char b'\n' (remove_continuations (sprintf format args)))

-- One `export` for each variable, in the order in which the map is visited.
unfoldable pub exports : List (String × String) → String
unfolding sprintf
exports [] = ""
exports ((key, value) ∷ env) = sprintf "export %s=%s; " (str key ∷ str value ∷ []) <> exports env

-- Command.ToString. The environment is listed in the order in which the map is visited; the text
-- before the loop is empty, so the sum of the parts is built from the right.
unfoldable pub to_string : Command → List (String × String) → String
unfolding exports
to_string c [] = c
to_string c (v ∷ env) = exports (v ∷ env) <> c
