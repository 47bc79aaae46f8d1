-- ===== src/Response/Performed.antt =====
-- The calls of a handler, against the promise of a ResponseWriter (http/server.go).
use go_http.Prelude.{ℕ, ◌≡◌, refl, ap, ◌∙◌, Bool, List, [], ◌∷◌, Bytes, All}
use go_http.Transfer.{ok, ◌>>=◌}
use go_http.Response.{Response, sniff, close_body, request_too_large}
use go_http.Response.Calls.{Call, perform, perform_all, written_of}
use go_http.Response.Promise.{
  Promise, promise, promise_all, Keeps, Refines, Refines-aside, Refines-read, Refines-sniff,
  Refines-close, Refines-large, flush-again, write_header-again,
}
use go_http.Response.Written.{kept, refused, write-Kept}
use go_http.Response.Copied.{read_from-Refines}

-- Every call but a hijack returns, and keeps the promise.
pub perform-Refines :
    (c s : Bool) (base : Bytes) (p : Promise) (w : Response) (call : Call)
    → Refines c s base p w
    → Keeps call
    → (date : Bytes) (sizes : ℕ → ℕ)
    → (u : Response) × (perform date sizes call w ≡ ok u) × Refines c s base (promise c call p) u
unfolding perform promise
perform-Refines c s base p w (Call.set_field k v) r h date sizes =
    (_, refl, Refines-aside c s base p w r _ _ _ _ _)
perform-Refines c s base p w (Call.add_field k v) r h date sizes =
    (_, refl, Refines-aside c s base p w r _ _ _ _ _)
perform-Refines c s base p w (Call.del_field k) r h date sizes =
    (_, refl, Refines-aside c s base p w r _ _ _ _ _)
perform-Refines c s base p w (Call.reply code) r h date sizes =
    (w, ap ok (write_header-again c s base p w r date sizes code), r)
perform-Refines c s base p w (Call.body text) r h date sizes =
    elim (write-Kept c s base p w text r date sizes) [
      | kept u n e k ↦ (u, ap written_of e, k)
      | refused u x e k ↦ (u, ap written_of e, k)
    ]
perform-Refines c s base p w Call.flush_now r h date sizes =
    (sniff w, flush-again c s base p w r date sizes, Refines-sniff c s base p w r)
perform-Refines c s base p w Call.hijack_now r h date sizes = absurd h
perform-Refines c s base p w (Call.read_request size give) r h date sizes =
    (_, refl, Refines-read c s base p w r size give)
perform-Refines c s base p w Call.close_request r h date sizes =
    (close_body sizes w, refl, Refines-close c s base p w r sizes)
perform-Refines c s base p w (Call.source direct pieces) r h date sizes =
    read_from-Refines c s base p w r date sizes direct pieces
perform-Refines c s base p w Call.exceed_limit r h date sizes =
    (request_too_large w, refl, Refines-large c s base p w r)

-- Any calls of a handler but a hijack return, and keep the promise.
pub perform_all-Refines :
    (c s : Bool) (base : Bytes) (p : Promise) (w : Response) (calls : List Call)
    → Refines c s base p w
    → All Keeps calls
    → (date : Bytes) (sizes : ℕ → ℕ)
    → (u : Response) × (perform_all date sizes calls w ≡ ok u)
      × Refines c s base (promise_all c calls p) u
unfolding perform_all promise_all
perform_all-Refines c s base p w [] r h date sizes = (w, refl, r)
perform_all-Refines c s base p w (call ∷ calls) r h date sizes =
    let (v, e, k) = perform-Refines c s base p w call r h.0 date sizes in
    let (u, f, l) = perform_all-Refines c s base (promise c call p) v calls k h.1 date sizes in
    (u, ap (λ o. o >>= perform_all date sizes calls) e ∙ f, l)
