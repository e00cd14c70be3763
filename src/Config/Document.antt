-- ===== src/Config/Document.antt =====
-- What src/config.cc uses of the parsed document (jsini, outside this repository), and its own
-- helpers over it. A helper takes the target's old value and returns `ok` with the new one: what
-- is written before a failure stays written. The messages to the log are left out.
use Prim.Native.String.{String}
use nexer.Prelude.{ℕ, ◌<◌, Bool, true, false, List, [], ◌∷◌, ◌++◌, All, if◌then◌else◌}
use nexer.Prelude.Int.{ℤ}

-- The answers of `value.type()` that the parser tells apart.
pub data JsonType : Type 0 where
  undefined boolean integer string object array other : JsonType

-- A document's values. A document is finite: what a value holds is less deep than the value.
pub record Json : Type 1 where
  pub Value : Type 0
  pub type_of : Value → JsonType
  pub is_object : Value → Bool
  pub is_array : Value → Bool
  pub is_string : Value → Bool
  pub members : Value → List (String × Value)
  pub elements : Value → List Value
  pub to_int : Value → ℤ
  pub to_bool : Value → Bool
  pub to_text : Value → String
  pub dump : Value → String
  pub depth : Value → ℕ
  pub members-depth : (v : Value) → All (λ m. depth m.1 < depth v) (members v)
  pub elements-depth : (v : Value) → All (λ e. depth e < depth v) (elements v)

abbrev pub eq_type : JsonType → JsonType → Bool
eq_type integer integer = true
eq_type boolean boolean = true
eq_type string string = true
eq_type undefined undefined = true
eq_type a b = false

-- The loop over an object's members: the callback may change the state, and `false` ends it.
unfoldable pub each_member {ℓ} :
    {V : Type 0} {S : Type ℓ} → (String → V → S → Bool × S) → List (String × V) → S → Bool × S
each_member f [] s = (true, s)
each_member f ((k, v) ∷ ms) s =
    let (ok, t) = f k v s in let rest = each_member f ms t in if ok then rest else (false, t)

-- The loop over an array's elements.
unfoldable pub each_element {ℓ} :
    {V : Type 0} {S : Type ℓ} → (V → S → Bool × S) → List V → S → Bool × S
each_element f [] s = (true, s)
each_element f (v ∷ vs) s =
    let (ok, t) = f v s in let rest = each_element f vs t in if ok then rest else (false, t)

module _ (j : Json) where
  open j use {
    Value, type_of, is_object, is_array, members, elements, to_int, to_bool, to_text, dump,
  }

  -- `Parse(value, name, fn)` over an object.
  unfoldable pub parse_object {ℓ} :
      {S : Type ℓ} → (String → Value → S → Bool × S) → Value → S → Bool × S
  parse_object f v s =
      let all = each_member f (members v) s in if is_object v then all else (false, s)

  -- `Parse(value, name, fn)` over an array.
  unfoldable pub parse_array {ℓ} : {S : Type ℓ} → (Value → S → Bool × S) → Value → S → Bool × S
  parse_array f v s =
      let all = each_element f (elements v) s in if is_array v then all else (false, s)

  -- `Parse(src, int &dst)`
  unfoldable pub parse_int : Value → ℤ → Bool × ℤ
  parse_int v dst = if eq_type (type_of v) integer then (true, to_int v) else (false, dst)

  -- `Parse(src, bool &dst)`
  unfoldable pub parse_bool : Value → Bool → Bool × Bool
  parse_bool v dst = if eq_type (type_of v) boolean then (true, to_bool v) else (false, dst)

  -- `Parse(src, std::string &dst, force)`
  unfoldable pub parse_text : Bool → Value → String → Bool × String
  parse_text force v dst =
      if eq_type (type_of v) string
      then (true, to_text v)
      else if force
      then (true, dump v)
      else (false, dst)

  -- `Parse(src, name, std::vector<std::string> &dst)`: the new string is appended, then read.
  unfoldable pub parse_texts : Value → List String → Bool × List String
  parse_texts = parse_array λ v dst. let (ok, s) = parse_text true v "" in (ok, dst ++ s ∷ [])

-- A target that is a part of a larger one.
abbrev pub within {ℓ κ} : {S : Type ℓ} {T : Type κ} → (S → T) → Bool × S → Bool × T
within put (ok, s) = (ok, put s)
