-- ===== src/Process/Start.antt =====
-- What a process that is made of a command is started with.
use Prim.Native.String.{String}
use nexer.Prelude.{
  suc, ◌≡◌, refl, ap, ◌∙◌, ◌⊎◌, inl, inr, Option, none, some, List, [], ◌∷◌, ◌++◌, map,
  append_assoc, append-nil, arith, length, length-append, ltb, if◌then◌else◌, lt→ltb, if_both,
}
use nexer.Config.Types.{Command}
use nexer.Process.{
  Variable, init_env, Process, new_process, push_arg, set_env, set_timeout, push_args, set_envs,
  positive, init, create_process, options_of, terminated,
}

abbrev pub texts : List String → List (Option String)
texts = map (λ s. some s)

pub push_args-args :
    (l : List String) (p : Process) → push_args l p ≡ record p { args = p.args ++ texts l }
unfolding push_args push_arg
push_args-args [] p = simp append-nil
push_args-args (a ∷ l) p =
    push_args-args l (push_arg a none p) ∙ rw (append_assoc p.args (some a ∷ []) (texts l))

pub set_envs-env :
    (l : List String) (p : Process) → set_envs l p ≡ record p { env = p.env ++ texts l }
unfolding set_envs set_env
set_envs-env [] p = simp append-nil
set_envs-env (a ∷ l) p =
    set_envs-env l (set_env a p) ∙ rw (append_assoc p.env (some a ∷ []) (texts l))

texts-append : (l k : List String) → texts l ++ texts k ≡ texts (l ++ k)
texts-append [] k = refl
texts-append (a ∷ l) k = ap (λ (m : List (Option String)). some a ∷ m) (texts-append l k)

create_process-args :
    (environ : List Variable) (cmd : Command)
    → (create_process environ cmd).args ≡ some cmd.file ∷ texts cmd.args
unfolding create_process init set_timeout new_process
create_process-args environ cmd =
    if_both (λ (p : Process). p.args ≡ some cmd.file ∷ texts cmd.args)
      (ltb 0 (positive cmd.timeout)) _ _
      (rw (push_args-args cmd.args (new_process environ cmd.file), set_envs-env) refl)
      (rw (push_args-args cmd.args (new_process environ cmd.file), set_envs-env) refl)

create_process-env :
    (environ : List Variable) (cmd : Command)
    → (create_process environ cmd).env ≡ texts (init_env environ ++ cmd.env)
unfolding create_process init set_timeout new_process
create_process-env environ cmd =
    if_both (λ (p : Process). p.env ≡ texts (init_env environ ++ cmd.env))
      (ltb 0 (positive cmd.timeout)) _ _
      (rw (push_args-args cmd.args (new_process environ cmd.file), set_envs-env)
        (texts-append (init_env environ) cmd.env))
      (rw (push_args-args cmd.args (new_process environ cmd.file), set_envs-env)
        (texts-append (init_env environ) cmd.env))

passed :
    (l : List String)
    → let e = texts l ++ none ∷ [] in
      let given : Option (List (Option String)) = if ltb 1 (length e) then some e else none in
      ((given ≡ none) × (l ≡ [])) ⊎ (given ≡ some e)
passed [] = inl (refl, refl)
passed (a ∷ l) =
    let n = length-append (texts l) (none ∷ []) in
    inr (rw (lt→ltb 1 (suc (length (texts l ++ none ∷ []))) (omega arith)))

-- A process that is made of a command is given the command's file and arguments and the inherited
-- environment followed by the command's own, each ended by a null pointer, and an environment of no
-- variables is not passed.
pub options_of-create_process :
    (environ : List Variable) (cmd : Command)
    → let o = options_of (terminated (create_process environ cmd)) in
      (o.file ≡ some cmd.file)
      × (o.argv ≡ some cmd.file ∷ texts cmd.args ++ none ∷ [])
      × (((o.environ ≡ none) × (init_env environ ++ cmd.env ≡ []))
          ⊎ (o.environ ≡ some (texts (init_env environ ++ cmd.env) ++ none ∷ [])))
unfolding options_of terminated
options_of-create_process environ cmd = (
  rw (create_process-args environ cmd) refl,
  rw (create_process-args environ cmd) refl,
  rw (create_process-env environ cmd) (passed (init_env environ ++ cmd.env)),
)
