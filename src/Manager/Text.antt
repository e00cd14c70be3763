-- ===== src/Manager/Text.antt =====
-- The texts of a command, of an application and of how a process ended: `str` and `ToString` of
-- src/process_manager.cc. The cache of the texts is left out; `strsignal` is an argument.
use nexer.Prelude.{
  append_assoc, ◌∙◌, ℕ, suc, ◌≡◌, refl, ap, true, List, [], ◌∷◌, ◌++◌, append-nil, arith, Bytes,
  codes, length, is_nil, ltb, if◌then◌else◌,
}
use nexer.Config.Types.{Command, App}
use Prim.Native.String.{String}

abbrev pub space : ℕ
space = 32

-- The environment, `n` of whose texts are written.
unfoldable pub put_env : ℕ → List String → Bytes
put_env n [] = []
put_env n (p ∷ ps) = (if ltb 0 n then space ∷ [] else []) ++ codes p ++ put_env (suc n) ps

unfoldable pub put_args : List String → Bytes
put_args [] = []
put_args (p ∷ ps) = space ∷ codes p ++ put_args ps

-- `str` of a command.
unfoldable pub str_command : Command → Bytes
str_command cmd =
    put_env 0 cmd.env
    ++ (if ltb 0 (length cmd.env) then space ∷ [] else [])
    ++ codes cmd.file
    ++ put_args cmd.args

-- `str` of an application of the configuration.
unfoldable pub str_app : App → Bytes
str_app app = if ltb 0 (length (codes app.name)) then codes app.name else str_command app.command

-- Texts with one space between any two.
abbrev pub words : List String → Bytes
words [] = []
words (s ∷ []) = codes s
words (s ∷ t ∷ ts) = codes s ++ space ∷ words (t ∷ ts)

put_args-words : (s : String) (ss : List String) → codes s ++ put_args ss ≡ words (s ∷ ss)
unfolding put_args
put_args-words s [] = append-nil (codes s)
put_args-words s (t ∷ ts) = ap (λ l. codes s ++ space ∷ l) (put_args-words t ts)

ltb-zero_suc : (n : ℕ) → ltb 0 (suc n) ≡ true
ltb-zero_suc n = ground arith

words_cons :
    (e : String) (es : List String) (file : String) (args : List String)
    → codes e ++ space ∷ words (es ++ file ∷ args) ≡ words ((e ∷ es) ++ file ∷ args)
words_cons e [] file args = refl
words_cons e (f ∷ es) file args = refl

put_env-later :
    (n : ℕ) (es : List String) (file : String) (args : List String)
    → put_env (suc n) es ++ space ∷ words (file ∷ args) ≡ space ∷ words (es ++ file ∷ args)
unfolding put_env
put_env-later n [] file args = refl
put_env-later n (e ∷ es) file args = rw (ltb-zero_suc n) (
    ap (λ l. space ∷ l)
      (append_assoc (codes e) (put_env (suc (suc n)) es) (space ∷ words (file ∷ args))
        ∙ ap (λ l. codes e ++ l) (put_env-later (suc n) es file args)
        ∙ words_cons e es file args))

str-words :
    (env : List String) (file : String) (args : List String)
    → put_env 0 env
        ++ (if ltb 0 (length env) then space ∷ [] else [])
        ++ codes file
        ++ put_args args
      ≡ words (env ++ file ∷ args)
unfolding put_env
str-words [] file args = put_args-words file args
str-words (e ∷ es) file args =
    let a = codes e ++ put_env 1 es in
    rw (ltb-zero_suc (length es)) (
      append_assoc (a ++ space ∷ []) (codes file) (put_args args)
      ∙ append_assoc a (space ∷ []) (codes file ++ put_args args)
      ∙ ap (λ l. a ++ space ∷ l) (put_args-words file args)
      ∙ append_assoc (codes e) (put_env 1 es) (space ∷ words (file ∷ args))
      ∙ ap (λ l. codes e ++ l) (put_env-later 0 es file args)
      ∙ words_cons e es file args)

named :
    (name : Bytes) (t u : Bytes)
    → t ≡ u
    → (if ltb 0 (length name) then name else t) ≡ (if is_nil name then u else name)
named [] t u e = e
named (c ∷ cs) t u e = rw (ltb-zero_suc (length cs)) refl

-- The text of a command is its environment, its file and its arguments, in this order, with one
-- space between any two of them, also where there is no environment or no argument; an application
-- that has a name is called by it, another one by its command.
pub str_app-words :
    (app : App)
    → str_app app ≡ (
        if is_nil (codes app.name)
        then words (app.command.env ++ app.command.file ∷ app.command.args)
        else codes app.name)
unfolding str_app str_command
str_app-words app =
    named (codes app.name) _ _ (str-words app.command.env app.command.file app.command.args)
