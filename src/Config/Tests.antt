-- ===== src/Config/Tests.antt =====
-- A small kind of document, runs of the parser on it, and the properties at concrete inputs.
use Prim.Native.String.{String}
use nexer.Prelude.{
  ℕ, suc, ◌+◌, ◌<◌, ◌≡◌, refl, ◌≢◌, Bool, true, false, List, [], ◌∷◌, arith, All, some,
}
use nexer.Prelude.Int.{ℤ, pos}
use mathlib.Core.Bool.{false≢true}
use text.Mathlib.TextEquality.{eq_iff}
use nexer.Config.Types.{
  Level, trace, debug, info, warn, error, fatal, critical, new_dummy, new_config,
}
use nexer.Config.Registry.{get_app, find, allocate}
use nexer.Config.Document.{
  Json, JsonType, integer, string, object, array, parse_object, parse_array, each_member,
  each_element, parse_text, parse_texts, parse_int,
}
use nexer.Config.Parser.{
  parse_config, config_entry, apps_item, parse_app, app_entry, preamble_item, push_preamble,
  store_app, assign,
}
use nexer.Config.Heap.{All-mono}
use nexer.Config.Pointers.{HasApps}
use nexer.Config.Invariant.{parse_config-HasApps}
use nexer.Config.Ending.{destroy_config, destroy_config-parse_config}
use nexer.Config.Fuel.{parse_config-fuel}
use nexer.Config.Slips.{level_name}
use nexer.Config.{parse_dummies, parse_dummy, parse_dummy_type}

-- An object or an array is built up from its first member or element.
data Doc : Type 0 where
  number : ℤ → Doc
  word : String → Doc
  no_fields no_elements : Doc
  field : String → Doc → Doc → Doc
  element : Doc → Doc → Doc

abbrev type_of : Doc → JsonType
type_of (number n) = integer
type_of (word s) = string
type_of no_fields = object
type_of no_elements = array
type_of (field k v d) = object
type_of (element v d) = array

abbrev members : Doc → List (String × Doc)
members (number n) = []
members (word s) = []
members no_fields = []
members no_elements = []
members (field k v d) = (k, v) ∷ members d
members (element v d) = []

abbrev elements : Doc → List Doc
elements (number n) = []
elements (word s) = []
elements no_fields = []
elements no_elements = []
elements (field k v d) = []
elements (element v d) = v ∷ elements d

abbrev depth : Doc → ℕ
depth (number n) = 0
depth (word s) = 0
depth no_fields = 0
depth no_elements = 0
depth (field k v d) = suc (depth v + depth d)
depth (element v d) = suc (depth v + depth d)

members-depth : (v : Doc) → All (λ m. depth m.1 < depth v) (members v)
members-depth (number n) = tt
members-depth (word s) = tt
members-depth no_fields = tt
members-depth no_elements = tt
members-depth (field k v d) =
    (omega arith, All-mono _ _ (members d) (λ m h. omega arith) (members-depth d))
members-depth (element v d) = tt

elements-depth : (v : Doc) → All (λ e. depth e < depth v) (elements v)
elements-depth (number n) = tt
elements-depth (word s) = tt
elements-depth no_fields = tt
elements-depth no_elements = tt
elements-depth (field k v d) = tt
elements-depth (element v d) =
    (omega arith, All-mono _ _ (elements d) (λ m h. omega arith) (elements-depth d))

abbrev is_object : Doc → Bool
is_object (number n) = false
is_object (word s) = false
is_object no_fields = true
is_object no_elements = false
is_object (field k v d) = true
is_object (element v d) = false

abbrev is_array : Doc → Bool
is_array (number n) = false
is_array (word s) = false
is_array no_fields = false
is_array no_elements = true
is_array (field k v d) = false
is_array (element v d) = true

abbrev is_string : Doc → Bool
is_string (number n) = false
is_string (word s) = true
is_string no_fields = false
is_string no_elements = false
is_string (field k v d) = false
is_string (element v d) = false

abbrev to_int : Doc → ℤ
to_int (number n) = n
to_int (word s) = pos 0
to_int no_fields = pos 0
to_int no_elements = pos 0
to_int (field k v d) = pos 0
to_int (element v d) = pos 0

abbrev to_text : Doc → String
to_text (number n) = ""
to_text (word s) = s
to_text no_fields = ""
to_text no_elements = ""
to_text (field k v d) = ""
to_text (element v d) = ""

abbrev doc : Json
doc = record {
  Value = Doc;
  type_of = type_of;
  is_object = is_object;
  is_array = is_array;
  is_string = is_string;
  members = members;
  elements = elements;
  to_int = to_int;
  to_bool = λ v. false;
  to_text = to_text;
  dump = to_text;
  depth = depth;
  members-depth = members-depth;
  elements-depth = elements-depth;
}

-- {"apps": [{"name": "web", "preamble": ["db"]}], "dummy": [{"type": "http", "listen": 80}]}
abbrev sample : Doc
sample =
    field "apps"
      (element
        (field "name" (word "web") (field "preamble" (element (word "db") no_elements) no_fields))
        no_elements)
      (field "dummy"
        (element (field "type" (word "http") (field "listen" (number (pos 80)) no_fields))
          no_elements)
        no_fields)

abbrev dummies : Doc
dummies = element (field "type" (word "http") no_fields) no_elements

new_config-HasApps : HasApps new_config
new_config-HasApps = record {
  apps_known = tt;
  apps_owned = refl;
  names_right = tt;
  preambles_known = tt;
  upstreams_known = tt;
}

parse_config-run :
    let (ok, c) = parse_config 20 doc sample new_config in
    (ok ≡ true) × (c.apps ≡ 0 ∷ 1 ∷ []) × (c.app_map ≡ ("web", 1) ∷ ("db", 0) ∷ [])
unfolding parse_config parse_object each_member config_entry parse_array each_element apps_item
    parse_app app_entry preamble_item push_preamble store_app get_app find allocate assign
    parse_text parse_texts parse_dummies parse_dummy parse_dummy_type parse_int
parse_config-run = (refl, refl, refl)

parse_dummies-run : parse_dummies doc dummies [] ≡ (true, new_dummy ∷ [])
unfolding parse_dummies parse_array each_element parse_dummy parse_object each_member
    parse_dummy_type
parse_dummies-run = refl

parse_config-fuel_example :
    parse_config 20 doc sample new_config ≡ parse_config 30 doc sample new_config
parse_config-fuel_example =
    parse_config-fuel 20 30 doc sample new_config (omega arith) (omega arith)

-- "LOUD" names no level.
loud : (l : Level) → "LOUD" ≢ level_name l
loud trace q = false≢true ((eq_iff "LOUD" "TRACE").1 q)
loud debug q = false≢true ((eq_iff "LOUD" "DEBUG").1 q)
loud info q = false≢true ((eq_iff "LOUD" "INFO").1 q)
loud warn q = false≢true ((eq_iff "LOUD" "WARN").1 q)
loud error q = false≢true ((eq_iff "LOUD" "ERROR").1 q)
loud fatal q = false≢true ((eq_iff "LOUD" "FATAL").1 q)
loud critical q = false≢true ((eq_iff "LOUD" "CRITICAL").1 q)

parse_config-HasApps_example : HasApps (parse_config 20 doc sample new_config).1
parse_config-HasApps_example = parse_config-HasApps 20 doc sample new_config new_config-HasApps

destroy_config-parse_config_example :
    (left : ℕ → Bool) × (destroy_config (parse_config 20 doc sample new_config).1 ≡ some left)
    × ((p : ℕ) → left p ≡ false)
destroy_config-parse_config_example =
    destroy_config-parse_config 20 doc sample new_config new_config-HasApps
