-- ===== src/Serve/Order.antt =====
-- A turn of a server's loop (http/server.go), from a request to the reply that is finished.
use go_http.Prelude.{List, [], ◌∷◌}
use go_http.Header
use go_http.Header.{Header}
use go_http.Response.{Response}
use go_http.Response.Calls.{Call}

-- The calls that set the header up, and what they make of it.
abbrev pub Prepares : Call → Type 0
Prepares (Call.set_field k v) = Unit
Prepares (Call.add_field k v) = Unit
Prepares (Call.del_field k) = Unit
Prepares _ = ⊥

abbrev pub edit : Call → Header → Header
edit (Call.set_field k v) h = Header.set h k v
edit (Call.add_field k v) h = Header.add h k v
edit (Call.del_field k) h = Header.del h k
edit _ h = h

abbrev pub edit_all : List Call → Header → Header
edit_all [] h = h
edit_all (c ∷ cs) h = edit_all cs (edit c h)

abbrev with_header : Response → Header → Response
with_header w h = record w { header = h }
