-- ===== src/Url/Query/Split.antt =====
-- `ParseQueryString` against a description by splitting: fields between ampersands, each split at
-- its first equals sign.
use nexer.Url.Query.{
  State, in_key, in_value, Pair, run_cb, loop, parse_query_string, Bytes, List, ◌∷◌, if◌then◌else◌,
  ◌++◌,
}
use nexer.Prelude.{
  ◌≡◌, is_nil, append-nil, [], ◌==◌, ◌&&◌, Bool-cases, inl, refl, ==_iff, inr, append_assoc,
}

-- The field before the first ampersand, and the fields behind it.
abbrev fields : Bytes → Bytes × List Bytes
fields [] = ([], [])
fields (c ∷ s) =
    let rest : Bytes × List Bytes = fields s in
    if c == b'&' then ([], rest.0 ∷ rest.1) else (c ∷ rest.0, rest.1)

abbrev split : Bytes → Pair
split [] = ([], [])
split (c ∷ s) = let rest : Pair = split s in if c == b'=' then ([], s) else (c ∷ rest.0, rest.1)

-- A field with an empty name and an empty value is left out.
abbrev kept : Pair → List Pair
kept (k, v) = if is_nil k && is_nil v then [] else (k, v) ∷ []

abbrev pairs : List Bytes → List Pair
pairs [] = []
pairs (f ∷ fs) = kept (split f) ++ pairs fs

abbrev pub pairs_of : Bytes → List Pair
pairs_of qs = pairs ((fields qs).0 ∷ (fields qs).1)

run_cb-kept : (k v : Bytes) (calls : List Pair) → run_cb k v calls ≡ calls ++ kept (k, v)
unfolding run_cb
run_cb-kept [] [] calls = rw append-nil
run_cb-kept [] (x ∷ v) calls = refl
run_cb-kept (x ∷ k) v calls = refl

-- What the machine still does in each state.
abbrev ends : State → Bytes → Bytes → List Pair → Bytes → List Pair
ends in_key k v calls s =
    let f = split (fields s).0 in calls ++ (kept (k ++ f.0, v ++ f.1) ++ pairs (fields s).1)
ends in_value k v calls s = calls ++ (kept (k, v ++ (fields s).0) ++ pairs (fields s).1)

loop-ends :
    (s : Bytes) (st : State) (k v : Bytes) (calls : List Pair)
    → loop st k v calls s ≡ ends st k v calls s
unfolding loop
loop-ends [] in_key k v calls = simp (run_cb-kept, append-nil)
loop-ends [] in_value k v calls = simp (run_cb-kept, append-nil)
loop-ends (c ∷ s) in_key k v calls = elim (Bool-cases (c == b'=')) [
  | inl e ↦ rw ((==_iff c b'=').0 e) (simp (loop-ends s, append-nil))
  | inr e ↦ elim (Bool-cases (c == b'&')) [
    | inl a ↦ rw ((==_iff c b'&').0 a) (simp (loop-ends s, run_cb-kept, append-nil, append_assoc))
    | inr a ↦ rw (a, e, loop, a) (simp (loop-ends s, append_assoc))
  ]
]
loop-ends (c ∷ s) in_value k v calls = elim (Bool-cases (c == b'&')) [
  | inl a ↦ rw ((==_iff c b'&').0 a) (simp (loop-ends s, run_cb-kept, append-nil, append_assoc))
  | inr a ↦ rw (a, loop) (simp (loop-ends s, append_assoc))
]

-- The callback is called once for each field between ampersands, in their order, with the bytes
-- before its first equals sign as the key and those behind it as the value; a field with neither
-- is passed over.
pub parse_query_string-pairs_of : (qs : Bytes) → parse_query_string qs ≡ pairs_of qs
unfolding parse_query_string
parse_query_string-pairs_of qs = loop-ends qs in_key [] [] []
