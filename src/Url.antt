-- ===== src/Url.antt =====
-- include/url.h and src/url.cc: `ParseUrl`, `ParseQueryString` and `DecodeUrlComponent`.
-- A C string is the list of the bytes from the pointer on; a byte 0 ends it, and so does the
-- end of the list.
pub mod Tests
pub mod Decode
pub mod Query
pub mod Parts
pub mod Print
use nexer.Prelude.{
  ℕ, ◌+◌, ◌-◌, ◌*◌, ◌%◌, Bool, true, false, ◌&&◌, ◌||◌, List, [], ◌∷◌, ◌++◌, Option, none, some,
  Bytes, ltb, leb, ◌==◌, if◌then◌else◌, is_nil, length, drop, not,
}

pub record Url : Type 0 where
  pub scheme : Bytes
  pub host : Bytes
  pub port : Bytes
  pub path : Bytes
  pub query : Bytes
  pub fragment : Bytes

-- `clear`
pub clear : Url → Url
clear url = record { scheme = []; host = []; port = []; path = []; query = []; fragment = [] }

-- The bytes that a loop `while (*s && ...) part.push_back(*s++)` takes, and what `s` points to
-- behind them; the test says where the loop stops.
pub span : (ℕ → Bool) → Bytes → Bytes × Bytes
span stop [] = ([], [])
span stop (c ∷ s) =
    let more : Bytes × Bytes = span stop s in if stop c then ([], c ∷ s) else (c ∷ more.0, more.1)

abbrev pub host_end : ℕ → Bool
host_end c = c == 0 || c == b':' || c == b'/' || c == b'?' || c == b'#'

abbrev pub port_end : ℕ → Bool
port_end c = c == 0 || c == b'/' || c == b'?' || c == b'#'

abbrev pub path_end : ℕ → Bool
path_end c = c == 0 || c == b'?' || c == b'#'

abbrev pub query_end : ℕ → Bool
query_end c = c == 0 || c == b'#'

abbrev pub fragment_end : ℕ → Bool
fragment_end c = c == 0

-- Is `*s` the byte `c`?
abbrev pub at : ℕ → Bytes → Bool
at c [] = false
at c (x ∷ s) = x == c

-- Does `s` begin with "://"?
abbrev pub at_separator : Bytes → Bool
at_separator s = at b':' s && at b'/' (drop 1 s) && at b'/' (drop 2 s)

abbrev prepend : ℕ → Option (Bytes × Bytes) → Option (Bytes × Bytes)
prepend c none = none
prepend c (some (p, r)) = some (c ∷ p, r)

-- `strstr(s, "://")`: the bytes before the first "://", and those behind it (`p + 3`).
pub find_separator : Bytes → Option (Bytes × Bytes)
find_separator [] = none
find_separator (c ∷ s) =
    let later : Option (Bytes × Bytes) = find_separator s in
    if c == 0 then none else if at_separator (c ∷ s) then some ([], drop 2 s) else prepend c later

-- `*s` is not the end of the string.
abbrev pub nonempty : Bytes → Bool
nonempty [] = false
nonempty (x ∷ s) = not (x == 0)

pub parse_fragment : Url → Bytes → Url
parse_fragment url s =
    if at b'#' s
    then record url { fragment = url.fragment ++ (span fragment_end (drop 1 s)).0 }
    else url

pub parse_query : Url → Bytes → Url
parse_query url s =
    let taken = span query_end (drop 1 s) in
    if at b'?' s
    then parse_fragment (record url { query = url.query ++ taken.0 }) taken.1
    else parse_fragment url s

pub parse_path : Url → Bytes → Url
parse_path url s =
    let rooted = if nonempty s && not (at b'/' s) then url.path ++ b'/' ∷ [] else url.path in
    let taken = span path_end s in parse_query (record url { path = rooted ++ taken.0 }) taken.1

pub parse_port : Url → Bytes → Url
parse_port url s =
    let taken = span port_end (drop 1 s) in
    if at b':' s
    then parse_path (record url { port = url.port ++ taken.0 }) taken.1
    else parse_path url s

pub parse_host : Url → Bytes → Url
parse_host url s =
    let taken = span host_end s in parse_port (record url { host = url.host ++ taken.0 }) taken.1

-- `ParseUrl`
unfoldable pub parse_url : Url → Bytes → Url
unfolding clear span find_separator parse_host parse_port parse_path parse_query parse_fragment
parse_url url s = elim (find_separator s) [
  | none ↦ parse_path (clear url) s
  | some (scheme, rest) ↦
      let cleared = clear url in
      parse_host (record cleared { scheme = cleared.scheme ++ scheme }) rest
]
