-- ===== src/Requests/Finished.antt =====
-- What `ReadRequest` (http/request.go) makes of the header that `Request.Write` writes.
use go_http.Prelude.{
  Bool, true, ◌||◌, ◌≡◌, refl, ap, ◌∙◌, false, List, [], ◌∷◌, ◌++◌, Bytes, codes, is_empty, str_eq,
  if◌then◌else◌, map,
}
use go_http.Header.{Header, index, get, del, is_excluded, values_of}
use go_http.Transfer.{ok}
use go_http.Transfer.Writer.{TransferWriter}
use go_http.Transfer.Reader.{Transferred, body_reader, read_transfer, read_fields}
use go_http.Transfer.Announced.{te_key, cl_key, trailer_key}
use go_http.Transfer.Found.{Announces, Found, Found-request, coding_values, length_values}
use go_http.Mime.Headers.{append_lines, clean}
use go_http.Mime.Values.{line_values, Distinct}
use go_http.Requests.{Url, Request}
use go_http.Requests.Reading.{build_request, finish_header, fix_pragma_cache_control}
use go_http.Requests.Writing.{Outgoing, write_exclude_header}
use go_http.Requests.Lines.{agent_lines, framing_lines, request_lines}
use go_http.Requests.Framed.{
  index-sent_header, lookup-framing, lookup-fixed, get-host, framing-coding, framing-length,
  framing-others,
}

abbrev pub http11 : Bytes
http11 = codes "HTTP/1.1"

-- the keys that `ReadRequest` may take out of the header or put into it
abbrev pub read_keys : List Bytes
read_keys =
    codes "Host" ∷ codes "Cache-Control" ∷ codes "Transfer-Encoding" ∷ codes "Content-Length" ∷ []

-- the request that is read
abbrev pub request_of : Bytes → Url → Bytes → Header → Transferred → Request
request_of method url host h u = record {
  method = method;
  url = url;
  proto = http11;
  proto_major = 1;
  proto_minor = 1;
  header = h;
  body = u.body;
  content_length = u.content_length;
  transfer_encoding = u.transfer_encoding;
  close = u.close;
  host = host;
  trailer = u.trailer;
}

finish_header-ok :
    (method : Bytes) (url : Url) (g h : Header) (u : Transferred) (wire : Bytes)
    → read_fields false 200
        (codes "GET")
        false
        (fix_pragma_cache_control (del g (codes "Host")))
        wire
      ≡ (h, ok u)
    → finish_header method url http11 1 1 (g, wire)
      ≡ ok
          (request_of method url (if is_empty url.host then get g (codes "Host") else url.host) h u)
unfolding finish_header build_request read_transfer
finish_header-ok method url g h u wire e =
    ap
      (build_request method url http11 1 1
        (if is_empty url.host then get g (codes "Host") else url.host))
      e

pub or_false : (a b : Bool) → (a || b) ≡ false → (a ≡ false) × (b ≡ false)
or_false false b e = (refl, e)
or_false true b e = absurd (cc)

pub finish_header-Announces :
    (method : Bytes) (url : Url) (r : Outgoing) (host : Bytes) (t : TransferWriter) (wire : Bytes)
    → Distinct r.header
    → Announces t
    → (q : Request) × (finish_header method url http11 1 1
          (append_lines (request_lines r host t) [], wire)
        ≡ ok q)
      × (q.method ≡ method)
      × (q.url ≡ url)
      × (q.host ≡ (if is_empty url.host then host else url.host))
      × (q.body.reader ≡ body_reader t.transfer_encoding t.content_length false wire)
      × ((j : Bytes)
          → is_excluded read_keys j ≡ false
          → index q.header j
            ≡ line_values j ((codes "Host", host) ∷ (agent_lines r.header ++ framing_lines t))
              ++ (if is_excluded write_exclude_header j then [] else map clean (index r.header j)))
unfolding is_excluded str_eq
finish_header-Announces method url r host t wire distinct a =
    let g = append_lines (request_lines r host t) [] in
    let h = fix_pragma_cache_control (del g (codes "Host")) in
    let f : Found false false 200 (codes "GET") t h wire =
      Found-request t h wire
        (lookup-fixed g trailer_key refl refl
          ∙ lookup-framing r host t distinct trailer_key [] refl refl refl (framing-others t).0)
        (lookup-fixed g te_key refl refl
          ∙ lookup-framing r host t distinct te_key (coding_values t) refl refl refl
              (framing-coding t))
        (lookup-fixed g cl_key refl refl
          ∙ lookup-framing r host t distinct cl_key (length_values t) refl refl refl
              (framing-length t))
        a in
    (
      request_of method url (if is_empty url.host then get g (codes "Host") else url.host) f.left
          f.found,
      finish_header-ok method url g f.left f.found wire f.reads,
      refl,
      refl,
      ap (λ x. if is_empty url.host then x else url.host) (get-host r host t distinct),
      f.reader,
      λ j out.
          let (not_host, rest) = or_false _ _ out in
          let (not_cache, framing) = or_false _ _ rest in
          let (not_coding, last) = or_false _ _ framing in
          ap values_of
            (f.keeps j not_coding (or_false _ _ last).0 ∙ lookup-fixed g j not_host not_cache)
          ∙ index-sent_header r host t distinct j,
    )
