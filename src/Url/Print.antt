-- ===== src/Url/Print.antt =====
-- The textual form of a URL, and `ParseUrl` of it.
use nexer.Prelude.{
  ◌&&◌, ℕ, Bool, true, false, ◌||◌, [], ◌∷◌, ◌++◌, ◌≡◌, ◌⊎◌, inl, inr, refl, some, Bytes, All,
  arith, ◌==◌, append-nil, not,
}
use nexer.Url.{
  Url, clear, span, host_end, port_end, path_end, query_end, fragment_end, find_separator,
  parse_fragment, parse_query, parse_path, parse_port, parse_host, parse_url, at, nonempty,
}

-- No byte of the text is one that `stop` picks.
abbrev pub Free : (ℕ → Bool) → Bytes → Type 0
Free stop = All (λ c. stop c ≡ false)

-- The text is empty, or begins with a byte that `stop` picks.
abbrev Stops : (ℕ → Bool) → Bytes → Type 0
Stops stop [] = Unit
Stops stop (c ∷ s) = stop c ≡ true

abbrev pub scheme_end : ℕ → Bool
scheme_end c = c == 0 || c == b':'

-- A part behind its mark, left out where it is empty.
abbrev pub marked : ℕ → Bytes → Bytes
marked mark [] = []
marked mark (c ∷ s) = mark ∷ c ∷ s

abbrev pub print_url : Url → Bytes
print_url u =
    u.scheme
    ++ b':'
      ∷ b'/'
      ∷ b'/'
      ∷ (u.host
          ++ (marked b':' u.port ++ (u.path ++ (marked b'?' u.query ++ marked b'#' u.fragment))))

-- What stands where the path does: an absolute path, or nothing up to the end of the URL.
abbrev pub Rooted : Url → Type 0
Rooted u = ((p : Bytes) × (u.path ≡ b'/' ∷ p)) ⊎ (u.path ≡ []) × (u.query ≡ []) × (u.fragment ≡ [])

pub record IsUrl (u : Url) : Type 0 where
  pub scheme_free : Free scheme_end u.scheme
  pub host_free : Free host_end u.host
  pub port_free : Free port_end u.port
  pub path_free : Free path_end u.path
  pub query_free : Free query_end u.query
  pub fragment_free : Free fragment_end u.fragment
  pub rooted : Rooted u

span-append :
    (stop : ℕ → Bool) (s rest : Bytes)
    → Free stop s
    → Stops stop rest
    → span stop (s ++ rest) ≡ (s, rest)
unfolding span
span-append stop [] [] f e = refl
span-append stop [] (c ∷ rest) f e = rw e
span-append stop (c ∷ s) rest f e = rw (f.0, span-append stop s rest f.1 e)

find_separator-append :
    (s rest : Bytes)
    → Free scheme_end s
    → find_separator (s ++ b':' ∷ b'/' ∷ b'/' ∷ rest) ≡ some (s, rest)
unfolding find_separator
find_separator-append [] rest f = refl
find_separator-append (c ∷ s) rest f = ground (arith, f.0, find_separator-append s rest f.1)

marked_fragment-Stops :
    (stop : ℕ → Bool) (f : Bytes) → stop b'#' ≡ true → Stops stop (marked b'#' f)
marked_fragment-Stops stop [] h = tt
marked_fragment-Stops stop (c ∷ f) h = h

marked_query-Stops :
    (stop : ℕ → Bool) (q f : Bytes)
    → stop b'?' ≡ true
    → stop b'#' ≡ true
    → Stops stop (marked b'?' q ++ marked b'#' f)
marked_query-Stops stop [] f h k = marked_fragment-Stops stop f k
marked_query-Stops stop (c ∷ q) f h k = h

path-Stops :
    (stop : ℕ → Bool) (u : Url)
    → Rooted u
    → stop b'/' ≡ true
    → Stops stop (u.path ++ (marked b'?' u.query ++ marked b'#' u.fragment))
path-Stops stop u (inl (p, e)) h = rw e h
path-Stops stop u (inr (e, eq, ef)) h = rw (e, eq, ef) tt

span-all : (stop : ℕ → Bool) (s : Bytes) → Free stop s → span stop s ≡ (s, [])
unfolding span
span-all stop [] f = refl
span-all stop (c ∷ s) f = rw (f.0, span-all stop s f.1)

parse_fragment-marked :
    (u : Url) (f : Bytes)
    → Free fragment_end f
    → parse_fragment u (marked b'#' f) ≡ record u { fragment = u.fragment ++ f }
unfolding parse_fragment
parse_fragment-marked u [] h = rw append-nil
parse_fragment-marked u (c ∷ f) h = rw (span-all fragment_end (c ∷ f) h)

not_at-marked : (f : Bytes) → at b'?' (marked b'#' f) ≡ false
not_at-marked [] = refl
not_at-marked (c ∷ f) = refl

parse_query-marked :
    (u : Url) (q f : Bytes)
    → Free query_end q
    → Free fragment_end f
    → parse_query u (marked b'?' q ++ marked b'#' f)
      ≡ record u { query = u.query ++ q; fragment = u.fragment ++ f }
unfolding parse_query
parse_query-marked u [] f hq hf =
    rw (not_at-marked f, append-nil u.query) (parse_fragment-marked u f hf)
parse_query-marked u (c ∷ q) f hq hf =
    rw (span-append query_end (c ∷ q) (marked b'#' f) hq (marked_fragment-Stops query_end f refl))
      (parse_fragment-marked _ f hf)

module _ (v : Url) (ok : IsUrl v) where
  abbrev tail : Bytes
  tail = marked b'?' v.query ++ marked b'#' v.fragment

  abbrev from_path : Url → Url
  from_path u = record u {
    path = u.path ++ v.path;
    query = u.query ++ v.query;
    fragment = u.fragment ++ v.fragment;
  }

  not_rooted : (nonempty (v.path ++ tail) && not (at b'/' (v.path ++ tail))) ≡ false
  not_rooted = elim ok.rooted [ inl (p, e) ↦ rw e refl | inr (e, eq, ef) ↦ rw (e, eq, ef) refl ]

  parse_path-tail : (u : Url) → parse_path u (v.path ++ tail) ≡ from_path u
  unfolding parse_path
  parse_path-tail u =
      rw
        (
          not_rooted,
          span-append path_end v.path tail ok.path_free
              (marked_query-Stops path_end v.query v.fragment refl refl),
        )
        (parse_query-marked _ v.query v.fragment ok.query_free ok.fragment_free)

  not_at_colon : at b':' (v.path ++ tail) ≡ false
  not_at_colon = elim ok.rooted [ inl (p, e) ↦ rw e refl | inr (e, eq, ef) ↦ rw (e, eq, ef) refl ]

  parse_port-marked :
      (u : Url) (p : Bytes)
      → Free port_end p
      → parse_port u (marked b':' p ++ (v.path ++ tail))
        ≡ from_path (record u { port = u.port ++ p })
  unfolding parse_port
  parse_port-marked u [] h = rw (not_at_colon, append-nil u.port) (parse_path-tail u)
  parse_port-marked u (c ∷ p) h =
      rw (span-append port_end (c ∷ p) (v.path ++ tail) h (path-Stops port_end v ok.rooted refl))
        (parse_path-tail _)

  port-Stops : (p : Bytes) → Stops host_end (marked b':' p ++ (v.path ++ tail))
  port-Stops [] = path-Stops host_end v ok.rooted refl
  port-Stops (c ∷ p) = refl

  parse_host-marked :
      (u : Url)
      → parse_host u (v.host ++ (marked b':' v.port ++ (v.path ++ tail)))
        ≡ from_path (record u { host = u.host ++ v.host; port = u.port ++ v.port })
  unfolding parse_host
  parse_host-marked u =
      rw (span-append host_end v.host _ ok.host_free (port-Stops v.port))
        (parse_port-marked _ v.port ok.port_free)

-- Reading back the printed form of a well-formed URL (a scheme with no colon, parts free of the
-- bytes that end them, a path that is absolute or absent together with query and fragment) gives
-- that URL, whatever the target held before.
pub parse_url-print_url : (old u : Url) → IsUrl u → parse_url old (print_url u) ≡ u
unfolding parse_url clear
parse_url-print_url old u ok =
    rw (find_separator-append u.scheme _ ok.scheme_free, parse_url)
      (parse_host-marked u ok (record (clear old) { scheme = (clear old).scheme ++ u.scheme }))
