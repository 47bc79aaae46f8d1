-- ===== src/Handlers/Tests.antt =====
-- The helper handlers at concrete requests and interleavings.
use go_http.Prelude.{
  ◌≤◌, ◌≡◌, ◌⊎◌, ◌++◌, refl, true, false, [], ◌∷◌, some, none, inr, Option, Bytes, codes,
}
use go_http.Response.Calls.{Call}
use go_http.Int.{pos}
use go_http.Transfer.{ok}
use go_http.Transfer.Body.{limited_reader}
use go_http.Requests.{Url, Request}
use go_http.Handlers.{html_escape, redirect_note, location, begins_with_slash}
use go_http.Handlers.Rooted.{location-Rooted}
use go_http.Handlers.Escaped.{marks, redirect_note-marks}
use go_http.Handlers.Timeout.{
  TimeoutWriter, new_timeout_writer, begin_write, land, time_out, Reach, here, next, writes, lands,
  times_out, replies, Reach-one_reply, Reach-timed_out, sent,
}

escaped : html_escape (codes "a<b & \"c\"") ≡ codes "a&lt;b &amp; &quot;c&quot;"
unfolding html_escape
escaped = refl

redirect_note-marks_example : marks (redirect_note (codes "/\"><script>") 302) ≡ 6
redirect_note-marks_example = redirect_note-marks (codes "/\"><script>") 302

-- a write passes its test, the time is up, and the write lands
abbrev passed : TimeoutWriter
passed = record {
  timed_out = false;
  wrote_header = false;
  calls = [];
  in_flight = some (Call.body (codes "x"));
}

abbrev out_of_time : TimeoutWriter
unfolding time_out
out_of_time = time_out (codes "late") passed

abbrev landed_late : TimeoutWriter
unfolding land time_out
landed_late = land (Call.body (codes "x")) out_of_time

late_run : Reach (codes "late") new_timeout_writer landed_late
unfolding begin_write time_out land
late_run =
    next (next (next here (writes (codes "x") refl refl)) (times_out refl refl))
      (lands (Call.body (codes "x")) refl refl)

late_end : Reach (codes "late") out_of_time landed_late
unfolding time_out land
late_end = next here (lands (Call.body (codes "x")) refl refl)

Reach-one_reply_example : replies landed_late.calls ≤ 1
Reach-one_reply_example = Reach-one_reply (codes "late") landed_late late_run

Reach-timed_out_example :
    (sent landed_late.calls ≡ sent out_of_time.calls)
    ⊎ ((c : Call) × (out_of_time.in_flight ≡ some c)
        × (sent landed_late.calls ≡ sent out_of_time.calls ++ sent (c ∷ [])))
unfolding time_out
Reach-timed_out_example = Reach-timed_out (codes "late") out_of_time landed_late refl late_end

abbrev path_url : Bytes → Url
path_url p = record { scheme = []; host = []; path = p; raw_path = p; raw_query = [] }

abbrev asked_dir : Request
asked_dir = record {
  method = codes "GET";
  url = path_url (codes "/dir/page");
  proto = codes "HTTP/1.1";
  proto_major = 1;
  proto_minor = 1;
  header = [];
  body = record {
    reader = limited_reader 0 [];
    trailing = false;
    closing = false;
    closed = false;
    request_body_limit_hit = false;
  };
  content_length = pos 0;
  transfer_encoding = [];
  close = false;
  host = [];
  trailer = none;
}

abbrev parse_path : Bytes → Option Url
parse_path p = some (path_url p)

abbrev as_is : Bytes → Bytes
as_is p = p

redirected : location parse_path as_is asked_dir (codes "other?q=/") ≡ ok (codes "/dir/other?q=/")
unfolding location
redirected = refl

location-Rooted_example : begins_with_slash (codes "/dir/other?q=/") ≡ true
location-Rooted_example =
    location-Rooted parse_path as_is asked_dir (codes "other?q=/") (codes "/dir/other?q=/")
      (path_url (codes "other?q=/")) (λ p h. h) refl refl (inr refl) redirected
