-- ===== src/Url/Parts.antt =====
-- What `ParseUrl` leaves in the parts of a URL.
use nexer.Url.Print.{Free, Rooted}
use nexer.Url.{
  Url, clear, span, host_end, port_end, path_end, query_end, fragment_end, parse_fragment,
  parse_query, parse_path, parse_port, parse_url, ℕ, Bytes, Bool, ◌∷◌, at, find_separator,
}
use nexer.Prelude.{
  codes, ◌||◌, Bool-cases, ◌≡◌, inl, [], inr, drop, ◌⊎◌, ◌==◌, false, ==_iff, Option-cases, refl,
  arith,
}

-- Whether a byte is one of some others, and that none of the bytes of a part is.
abbrev pub one_of : ℕ → Bytes → Bool
one_of c [] = false
one_of c (d ∷ ds) = c == d || one_of c ds

abbrev pub Without : Bytes → Bytes → Type 0
Without ends [] = Unit
Without ends (c ∷ s) = (one_of c ends ≡ false) × Without ends s

-- No part holds a byte that ends it, and the path is absolute or nothing follows.
pub record HasParts (u : Url) : Type 0 where
  pub host_free : Without (0 ∷ codes ":/?#") u.host
  pub port_free : Without (0 ∷ codes "/?#") u.port
  pub path_free : Without (0 ∷ codes "?#") u.path
  pub query_free : Without (0 ∷ codes "#") u.query
  pub fragment_free : Without (0 ∷ []) u.fragment
  pub rooted : Rooted u

Without-Free :
    (stop : ℕ → Bool) (ends s : Bytes)
    → ((c : ℕ) → stop c ≡ false → one_of c ends ≡ false)
    → Free stop s
    → Without ends s
Without-Free stop ends [] h f = tt
Without-Free stop ends (c ∷ s) h (e, f) = (h c e, Without-Free stop ends s h f)

host-Without : (s : Bytes) → Free host_end s → Without (0 ∷ codes ":/?#") s
host-Without s f = Without-Free host_end (0 ∷ codes ":/?#") s (λ c e. ground arith) f

port-Without : (s : Bytes) → Free port_end s → Without (0 ∷ codes "/?#") s
port-Without s f = Without-Free port_end (0 ∷ codes "/?#") s (λ c e. ground arith) f

path-Without : (s : Bytes) → Free path_end s → Without (0 ∷ codes "?#") s
path-Without s f = Without-Free path_end (0 ∷ codes "?#") s (λ c e. ground arith) f

query-Without : (s : Bytes) → Free query_end s → Without (0 ∷ codes "#") s
query-Without s f = Without-Free query_end (0 ∷ codes "#") s (λ c e. ground arith) f

fragment-Without : (s : Bytes) → Free fragment_end s → Without (0 ∷ []) s
fragment-Without s f = Without-Free fragment_end (0 ∷ []) s (λ c e. ground arith) f

span-Free : (stop : ℕ → Bool) (s : Bytes) → Free stop (span stop s).0
unfolding span
span-Free stop [] = tt
span-Free stop (c ∷ s) = elim (Bool-cases (stop c)) [
  | inl e ↦ rw e tt
  | inr e ↦ rw e (e, span-Free stop s)
]

abbrev IsRoot : Bytes → Type 0
IsRoot path = (p : Bytes) × (path ≡ b'/' ∷ p)

module _ (scheme host port : Bytes) (fh : Free host_end host) (fp : Free port_end port) where
  abbrev url : Bytes → Bytes → Url
  url path query = record {
    scheme = scheme;
    host = host;
    port = port;
    path = path;
    query = query;
    fragment = [];
  }

  parse_fragment-HasParts :
      (path query s : Bytes)
      → Free path_end path
      → Free query_end query
      → IsRoot path ⊎ (path ≡ []) × (query ≡ []) × (at b'#' s ≡ false)
      → HasParts (parse_fragment (url path query) s)
  unfolding parse_fragment
  parse_fragment-HasParts path query s fa fq r = elim (Bool-cases (at b'#' s)) [
    | inl m ↦ rw m (record {
      host_free = host-Without host fh;
      port_free = port-Without port fp;
      path_free = path-Without path fa;
      query_free = query-Without query fq;
      fragment_free =
          fragment-Without (span fragment_end (drop 1 s)).0 (span-Free fragment_end (drop 1 s));
      rooted = elim r [ inl h ↦ inl h | inr (_, _, e) ↦ cc ];
    })
    | inr m ↦ rw m (record {
      host_free = host-Without host fh;
      port_free = port-Without port fp;
      path_free = path-Without path fa;
      query_free = query-Without query fq;
      fragment_free = tt;
      rooted = elim r [ inl h ↦ inl h | inr (a, b, _) ↦ inr (a, b, refl) ];
    })
  ]

  parse_query-HasParts :
      (path s : Bytes)
      → Free path_end path
      → IsRoot path ⊎ (path ≡ []) × (at b'?' s ≡ false) × (at b'#' s ≡ false)
      → HasParts (parse_query (url path []) s)
  unfolding parse_query
  parse_query-HasParts path s fa r = elim (Bool-cases (at b'?' s)) [
    | inl m ↦ rw m (
        parse_fragment-HasParts path _ _ fa (span-Free query_end (drop 1 s))
          (elim r [ inl h ↦ inl h | inr (_, e, _) ↦ cc ]))
    | inr m ↦ rw m (
        parse_fragment-HasParts path [] s fa tt
          (elim r [ inl h ↦ inl h | inr (a, _, b) ↦ inr (a, refl, b) ]))
  ]

  parse_path-HasParts : (s : Bytes) → HasParts (parse_path (url [] []) s)
  unfolding parse_path
  parse_path-HasParts [] = unfold span in parse_query-HasParts [] [] tt (inr (refl, refl, refl))
  parse_path-HasParts (c ∷ s) = elim (Bool-cases (c == 0)) [
    | inl z ↦
        rw ((==_iff c 0).0 z)
          (unfold span in parse_query-HasParts [] (0 ∷ s) tt (inr (refl, refl, refl)))
    | inr z ↦ elim (Bool-cases (c == b'/')) [
      | inl e ↦ rw ((==_iff c b'/').0 e) (
          parse_query-HasParts (span path_end (b'/' ∷ s)).0 _ (span-Free path_end (b'/' ∷ s))
            (inl ((span path_end s).0, unfold span in refl)))
      | inr e ↦
          rw (z, e) (parse_query-HasParts _ _ (refl, span-Free path_end (c ∷ s)) (inl (_, refl)))
    ]
  ]

abbrev fresh : Bytes → Bytes → Bytes → Url
fresh scheme host port = record {
  scheme = scheme;
  host = host;
  port = port;
  path = [];
  query = [];
  fragment = [];
}

parse_port-HasParts :
    (scheme host s : Bytes) → Free host_end host → HasParts (parse_port (fresh scheme host []) s)
unfolding parse_port
parse_port-HasParts scheme host s fh = elim (Bool-cases (at b':' s)) [
  | inl m ↦ rw m (parse_path-HasParts scheme host _ fh (span-Free port_end (drop 1 s)) _)
  | inr m ↦ rw m (parse_path-HasParts scheme host [] fh tt s)
]

-- Of any string, `ParseUrl` makes a URL whose host holds none of `:`, `/`, `?` and `#`, whose port none of
-- `/`, `?` and `#`, whose path none of `?` and `#`, and whose query no `#`; no part but the scheme holds a
-- zero byte; and the path begins with a slash, or is empty together with the query and the fragment.
pub parse_url-HasParts : (old : Url) (s : Bytes) → HasParts (parse_url old s)
unfolding parse_url clear
parse_url-HasParts old s = elim (Option-cases (find_separator s)) [
  | inl e ↦ rw (e, parse_url) (parse_path-HasParts [] [] [] tt tt s)
  | inr ((scheme, rest), e) ↦
      rw (e, parse_url)
        (parse_port-HasParts scheme _ ((span host_end rest).1) (span-Free host_end rest))
]
