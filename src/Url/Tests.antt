-- ===== src/Url/Tests.antt =====
-- Runs of the URL functions, and the properties at concrete inputs.
use nexer.Prelude.{◌≡◌, refl, inl, true, false, [], ◌∷◌, arith, codes}
use nexer.Url.Print.{print_url, IsUrl, parse_url-print_url}
use nexer.Url.Parts.{HasParts, parse_url-HasParts}
use nexer.Url.Query.{parse_query_string}
use nexer.Url.Query.Split.{parse_query_string-pairs_of}
use nexer.Url.Decode.{decode}
use nexer.Url.Decode.Encodes.{done, space, escape, decode-Encodes}
use nexer.Url.{Url, parse_url}

abbrev blank : Url
blank = record { scheme = []; host = []; port = []; path = []; query = []; fragment = [] }

abbrev sample : Url
sample = record {
  scheme = codes "http";
  host = codes "a.b";
  port = codes "80";
  path = codes "/x";
  query = codes "k=v";
  fragment = codes "top";
}

sample-IsUrl : IsUrl sample
sample-IsUrl = record {
  scheme_free = ground arith;
  host_free = ground arith;
  port_free = ground arith;
  path_free = ground arith;
  query_free = ground arith;
  fragment_free = ground arith;
  rooted = inl (codes "x", refl);
}

parse_url-sample : parse_url blank (codes "http://a.b:80/x?k=v#top") ≡ sample
unfolding parse_url
parse_url-sample = refl

parse_url-no_path : (parse_url blank (codes "http://h?q")).path ≡ codes "/"
unfolding parse_url
parse_url-no_path = refl

parse_url-print_url_example : parse_url sample (print_url sample) ≡ sample
parse_url-print_url_example = parse_url-print_url sample sample sample-IsUrl

parse_url-HasParts_example : HasParts (parse_url blank (codes "ftp://h:/?#"))
parse_url-HasParts_example = parse_url-HasParts blank (codes "ftp://h:/?#")

parse_query_string-run :
    parse_query_string (codes "a=1&&=2&b=c=d")
    ≡ (codes "a", codes "1") ∷ ([], codes "2") ∷ (codes "b", codes "c=d") ∷ []
unfolding parse_query_string
parse_query_string-run = refl

parse_query_string-pairs_of_example :
    parse_query_string (codes "a=1&b") ≡ (codes "a", codes "1") ∷ (codes "b", []) ∷ []
parse_query_string-pairs_of_example = parse_query_string-pairs_of (codes "a=1&b")

decode-run : decode (codes "a%2Fb+c%zz") ≡ (codes "a/b c%zz", 8)
unfolding decode
decode-run = refl

decode-Encodes_example : decode (codes "%2f+") ≡ (codes "/ ", 2)
decode-Encodes_example = decode-Encodes (
    escape {hi = 2} {lo = 15} true false refl (omega arith) (omega arith) refl refl
      (space refl done))
