-- ===== src/Lib.antt =====
-- The HTTP library of GoHTTP: the reading and the writing of requests and responses, the framing of
-- their bodies, headers and cookies, a server's connections with the replies of its handlers,
-- persistent connections of a client and a server, the redirects that a client follows, and the limiter
-- of file descriptors.
--
-- A message's body is framed by http/transfer.go. `newTransferWriter` decides from the fields of a
-- Request or a Response how it is sent, `WriteHeader` says so in the header, and `WriteBody` sends it,
-- in chunks with the writer of http/chunked.go. `readTransfer` decides from the header how a body is
-- read, with the chunked reader of http/request.go, and `body.Close` reads what a handler left, so that
-- the next message of a persistent connection begins where it should. `Request.Write` and
-- `Response.Write` put a first line and the header in front of that, `ReadRequest` and `ReadResponse`
-- read all of it. http/server.go runs a connection: it reads a request, hands the handler a `response`
-- to write, and finishes the reply; http/persist.go pairs the requests and the responses of a connection
-- that its user drives. http/client.go follows redirects over any transport. Headers are those of
-- http/header.go, and http/lex.go and http/cookie.go read and write what stands in them. http/fs.go
-- finds the ranges of a file that are asked for, and http/sniff.go the type of its data.
--
-- The files, by the code that they model:
--   Chunked      http/chunked.go; readLine and chunkedReader of http/request.go
--   Transfer     http/transfer.go: Writer for the transferWriter, Reader for readTransfer and the
--                functions that it calls, Body for the body and its Close
--   Requests     http/request.go: the Request; Reading for ReadRequest, Writing for Request.Write
--   Responses    http/response.go: ReadResponse and Response.Write
--   Response     http/server.go: the `response` that a handler writes. Calls has the calls of a handler
--                as a data type and `finishRequest`; Promise, Stream and Accepted say what a reply
--                promises and which bytes of the calls it has taken
--   Serve        http/server.go: the loop of `conn.serve`
--   Handlers     http/server.go: Error, NotFound, StripPrefix and Redirect; Timeout for TimeoutHandler
--   Mux          http/server.go: the ServeMux
--   HttpServer   server/server.go: Dispatch for `process`
--   Redirects    http/client.go: Client.Do and the loop that follows redirects
--   Persist      http/persist.go: Server for the ServerConn, Client for the ClientConn
--   Header       http/header.go, with the functions of net/textproto behind it
--   Mime         the reader of headers of net/textproto, which ReadRequest and ReadResponse call
--   Status       http/status.go
--   Lex          http/lex.go
--   Cookie       http/cookie.go, and the methods for cookies of http/request.go
--   Version      atoi and ParseHTTPVersion of http/request.go
--   MaxBytes     MaxBytesReader of http/request.go
--   Range        parseRange of http/fs.go
--   Sniff        http/sniff.go
--   FdLimiter    util/fdlimiter.go
--   Errors       the errors that these return
--   Prelude, Int, Strconv, Utf8: numbers, lists and text, and what the code calls of the packages
--                "strings", "strconv" and "utf8"
-- A definition has the name of the function or the method that it models, in this language's spelling
-- (`fixTransferEncoding` is `fix_transfer_encoding`). The parts of a long function are definitions of
-- their own, named for what they do. The module below a component that is named for a property
-- (Chunked.RoundTrip, FdLimiter.Safety) proves it, and Tests has runs from the repository's tests and
-- the theorems at concrete inputs.
--
-- How state is modelled. A method on a struct is a function from the struct to the struct. A Go map is
-- an association list that keeps each key once, and a header that a function changes is returned with
-- its outcome. A connection is the list of its bytes that have not been read; how many bytes come in
-- for each read is a parameter, for which the theorems hold whatever it is. What a server's connection
-- has sent is the list `out` of the response. A handler is the list of the calls that it makes of its
-- ResponseWriter, ReadFrom and Hijack included. A reader that is the body of a message to be sent is the list of the pieces that its
-- reads return. FdLimiter has a relation of steps too, one for each part of a method that runs under the
-- mutex or waits: there calls from many threads interleave. Persist has one for each part of a call up
-- to a wait for its turn in the pipeline, so that what one call does while another reads from the
-- connection or writes to it comes before or after. Handlers.Timeout has one for the steps of a handler
-- and of the timer beside it.
--
-- Parameters. The clock's text, the parser and the printer of package "url", `path.Clean`, the encoder
-- of "base64", the RoundTripper and the CheckRedirect of a client, which may change the requests that
-- they get, are arguments, for which the theorems hold whatever they
-- are, but for what a theorem names as its condition. What `conn.readRequest` returns is an argument of
-- the server's loop, for which Serve.next_of puts `ReadRequest`.
--
-- Bounds and fuel. An int and an int64 have 64 bits; Range writes the wrap-around out, and the other
-- counts that are added to are lengths of texts. The loops of the chunked reader and of `body.Close` run
-- on fuel, and the theorems that they end give the amount: one more than the length of the body; a reply
-- gives `body.Close` two more than the bytes to come. The loops over a trailer and over the lines of a
-- header run on the length of the input, of which each turn takes a byte at least. The loop of a server's
-- connection runs on fuel, one for each request. The loop of redirects runs on fuel, of which ten are
-- enough with the default check.
--
-- Not modelled. Text is a list of bytes, and the functions of the package "strings" that read UTF-8 are
-- those for ASCII. Writers take all that is written to them. The dates of cookies are parsed and printed by
-- the package "time", which is a parameter. A notify channel is always read from. Forms and multipart
-- bodies (http/request.go), the accept loop, TLS and the limit on the size of a request's header
-- (http/server.go), the convenience functions of the client, the transport's sockets
-- (http/transport.go), the serving of files, the proxies (http/reverseproxy.go), the flags of a Query
-- (server/query.go), the subservers, the connections of the Server with
-- their slots (server/server.go, util/roc.go) and the cache are not modelled.
pub mod Prelude
pub mod Int
pub mod Strconv
pub mod Errors
pub mod Chunked
pub mod Lex
pub mod Header
pub mod Utf8
pub mod Cookie
pub mod Transfer
pub mod MaxBytes
pub mod FdLimiter
pub mod Sniff
pub mod Version
pub mod Range
pub mod Mux
pub mod Persist
pub mod Status
pub mod Mime
pub mod Requests
pub mod Redirects
pub mod HttpServer
pub mod Response
pub mod Responses
pub mod Serve
pub mod Handlers
