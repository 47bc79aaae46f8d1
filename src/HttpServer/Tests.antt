-- ===== src/HttpServer/Tests.antt =====
-- The dispatch of a query.
use go_http.Prelude.{
  ◌≡◌, refl, ◌⊎◌, false, List, [], ◌∷◌, ◌++◌, none, Bytes, codes, length, All, has_prefix,
}
use go_http.Int.{pos}
use go_http.Requests.{Request}
use go_http.Transfer.Body.{limited_reader}
use go_http.HttpServer.Dispatch.{process, extend, served, handed, process_first}

abbrev asked : Bytes → Request
asked path = record {
  method = codes "GET";
  url = record { scheme = []; host = []; path = path; raw_path = path; raw_query = [] };
  proto = codes "HTTP/1.1";
  proto_major = 1;
  proto_minor = 1;
  header = [];
  body = record {
    reader = limited_reader 0 [];
    trailing = false;
    closing = false;
    closed = false;
    request_body_limit_hit = false;
  };
  content_length = pos 0;
  transfer_encoding = [];
  close = false;
  host = [];
  trailer = none;
}

abbrev subs : List Bytes
subs = codes "/api/" ∷ codes "/" ∷ codes "/static/" ∷ []

process_first_example :
    ((process [] subs (asked (codes "/static/a")) ≡ handed (asked (codes "/static/a")))
      × All (λ u. has_prefix (codes "/static/a") u ≡ false) subs)
    ⊎ ((before after : List Bytes) × (prefix rest : Bytes) × (process [] subs
            (asked (codes "/static/a"))
          ≡ served (length before) (record (asked (codes "/static/a")) {
            url = record (asked (codes "/static/a")).url { path = rest };
          }))
        × (subs ≡ before ++ (prefix ∷ after))
        × All (λ u. has_prefix (codes "/static/a") u ≡ false) before
        × (prefix ++ rest ≡ codes "/static/a"))
process_first_example =
    process_first [] subs (asked (codes "/static/a")) (asked (codes "/static/a"))
      (unfold extend in refl)
