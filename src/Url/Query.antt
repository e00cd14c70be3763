-- ===== src/Url/Query.antt =====
-- `ParseQueryString` of src/url.cc: a machine over the bytes with two states. The result is the
-- list of the calls that it makes of the callback `cb`, in order.
pub mod Split
use nexer.Prelude.{true, false, Bytes, List, if◌then◌else◌, ◌∷◌, [], not, ◌==◌, is_nil, ◌||◌, ◌++◌}

pub data State : Type 0 where
  in_key in_value : State

abbrev pub Pair : Type 0
Pair = Bytes × Bytes

-- `run_cb`, less its `clear` calls: one more call of `cb` unless key and value are both empty.
pub run_cb : Bytes → Bytes → List Pair → List Pair
run_cb key value calls =
    if not (is_nil key) || not (is_nil value) then calls ++ (key, value) ∷ [] else calls

-- The loop from `p` to `q`, and the last `run_cb` behind it.
unfoldable pub loop : State → Bytes → Bytes → List Pair → Bytes → List Pair
loop state key value calls [] = run_cb key value calls
loop in_key key value calls (c ∷ s) = elim (c == b'=') [
  | true ↦ loop in_value key value calls s
  | false ↦ elim (c == b'&') [
    | true ↦ loop in_key [] [] (run_cb key value calls) s
    | false ↦ loop in_key (key ++ c ∷ []) value calls s
  ]
]
loop in_value key value calls (c ∷ s) = elim (c == b'&') [
  | true ↦ loop in_key [] [] (run_cb key value calls) s
  | false ↦ loop in_value key (value ++ c ∷ []) calls s
]

unfoldable pub parse_query_string : Bytes → List Pair
unfolding loop run_cb
parse_query_string qs = loop in_key [] [] [] qs
