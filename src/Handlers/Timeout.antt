-- ===== src/Handlers/Timeout.antt =====
-- `TimeoutHandler` (http/server.go): the handler with a time limit runs beside the timer. A write of
-- the handler takes the lock only for its test, so that what the timer does may come between the
-- test and the call of the ResponseWriter.
use go_http.Prelude.{
  ℕ, ◌+◌, ◌≤◌, ◌≡◌, refl, sym, subst, ap, ◌∙◌, ◌⊎◌, inl, inr, Bool, true, false, ◌||◌, List, [],
  ◌∷◌, ◌++◌, Option, none, some, Bytes, codes, arith, is_empty, if_true, append-nil, if◌then◌else◌,
}
use go_http.Response.Calls.{Call}

-- `timeoutWriter`, with the calls that have reached the ResponseWriter `tw.w`, and the call that the
-- handler is about to make, past its test
pub record TimeoutWriter : Type 0 where
  pub timed_out : Bool
  pub wrote_header : Bool
  pub calls : List Call
  pub in_flight : Option Call

abbrev pub new_timeout_writer : TimeoutWriter
new_timeout_writer = record {
  timed_out = false;
  wrote_header = false;
  calls = [];
  in_flight = none;
}

-- `timeoutHandler.errorBody`
unfoldable pub error_body : Bytes → Bytes
error_body body =
    if is_empty body
    then codes "<html><head><title>Timeout</title></head><body><h1>Timeout</h1></body></html>"
    else body

-- the test of `timeoutWriter.Write`; a write that fails it gets `ErrHandlerTimeout`
unfoldable pub begin_write : Bytes → TimeoutWriter → TimeoutWriter
begin_write text tw = if tw.timed_out then tw else record tw { in_flight = some (Call.body text) }

-- the test of `timeoutWriter.WriteHeader`
unfoldable pub begin_header : ℕ → TimeoutWriter → TimeoutWriter
begin_header code tw =
    if tw.timed_out || tw.wrote_header
    then tw
    else record tw { wrote_header = true; in_flight = some (Call.reply code) }

-- the call behind the test
unfoldable pub land : Call → TimeoutWriter → TimeoutWriter
land c tw = record tw { calls = tw.calls ++ (c ∷ []); in_flight = none }

-- the case of the timer in `timeoutHandler.ServeHTTP`
unfoldable pub time_out : Bytes → TimeoutWriter → TimeoutWriter
unfolding error_body
time_out body tw = record tw {
  calls =
      if tw.wrote_header
      then tw.calls
      else tw.calls ++ (Call.reply 503 ∷ Call.body (error_body body) ∷ []);
  timed_out = true;
}

-- `timeoutWriter.Header` hands out the header map of the ResponseWriter with no test: the handler may
-- change it at any time.
unfoldable pub touch : Call → TimeoutWriter → TimeoutWriter
touch c tw = record tw { calls = tw.calls ++ (c ∷ []) }

-- The calls of the header map.
abbrev pub Edits : Call → Type 0
Edits (Call.set_field k v) = Unit
Edits (Call.add_field k v) = Unit
Edits (Call.del_field k) = Unit
Edits _ = ⊥

-- The handler makes one call at a time; the timer runs once, between any two of its steps.
pub data Step (body : Bytes) (tw u : TimeoutWriter) : Type 0 where
  writes : (text : Bytes) → tw.in_flight ≡ none → u ≡ begin_write text tw → Step body tw u
  heads : (code : ℕ) → tw.in_flight ≡ none → u ≡ begin_header code tw → Step body tw u
  lands : (c : Call) → tw.in_flight ≡ some c → u ≡ land c tw → Step body tw u
  touches : (c : Call) → Edits c → tw.in_flight ≡ none → u ≡ touch c tw → Step body tw u
  times_out : tw.timed_out ≡ false → u ≡ time_out body tw → Step body tw u

pub data Reach (body : Bytes) (s : TimeoutWriter) : TimeoutWriter → Type 0 where
  here : Reach body s s
  next : {t u : TimeoutWriter} → Reach body s t → Step body t u → Reach body s u

-- how many calls write a header
abbrev pub is_reply : Call → ℕ
is_reply (Call.reply code) = 1
is_reply _ = 0

abbrev pub replies : List Call → ℕ
replies [] = 0
replies (c ∷ cs) = is_reply c + replies cs

abbrev flying : Option Call → ℕ
flying none = 0
flying (some c) = is_reply c

replies-append : (cs ds : List Call) → replies (cs ++ ds) ≡ replies cs + replies ds
replies-append [] ds = omega arith
replies-append (c ∷ cs) ds = omega (arith, replies-append cs ds)

-- The header is written once at most, and not before somebody has decided to.
record IsOnce (tw : TimeoutWriter) : Type 0 where
  counted :
      replies tw.calls + flying tw.in_flight ≤ (if tw.wrote_header || tw.timed_out then 1 else 0)

begin_write-IsOnce :
    (text : Bytes) (tw : TimeoutWriter)
    → tw.in_flight ≡ none
    → IsOnce tw
    → IsOnce (begin_write text tw)
unfolding begin_write
begin_write-IsOnce text tw e h = ground (arith, h.counted)

begin_header-IsOnce :
    (code : ℕ) (tw : TimeoutWriter)
    → tw.in_flight ≡ none
    → IsOnce tw
    → IsOnce (begin_header code tw)
unfolding begin_header
begin_header-IsOnce code tw e h = ground (arith, h.counted)

reply-Edits : (c : Call) → Edits c → is_reply c ≡ 0
reply-Edits (Call.set_field k v) h = refl
reply-Edits (Call.add_field k v) h = refl
reply-Edits (Call.del_field k) h = refl
reply-Edits _ h = absurd h

touch-IsOnce : (c : Call) (tw : TimeoutWriter) → Edits c → IsOnce tw → IsOnce (touch c tw)
unfolding touch
touch-IsOnce c tw p h = record {
  counted = omega (arith, h.counted, reply-Edits c p, replies-append tw.calls (c ∷ []));
}

land-IsOnce :
    (c : Call) (tw : TimeoutWriter) → tw.in_flight ≡ some c → IsOnce tw → IsOnce (land c tw)
unfolding land
land-IsOnce c tw e h = ground (arith, h.counted, replies-append tw.calls (c ∷ []))

time_out-IsOnce :
    (body : Bytes) (tw : TimeoutWriter)
    → tw.timed_out ≡ false
    → IsOnce tw
    → IsOnce (time_out body tw)
unfolding time_out
time_out-IsOnce body tw e h =
    ground (
      arith,
      h.counted,
      replies-append tw.calls (Call.reply 503 ∷ Call.body (error_body body) ∷ []),
    )

Step-IsOnce : (body : Bytes) (tw u : TimeoutWriter) → Step body tw u → IsOnce tw → IsOnce u
Step-IsOnce body tw u (writes text e s) h = subst IsOnce (sym s) (begin_write-IsOnce text tw e h)
Step-IsOnce body tw u (heads code e s) h = subst IsOnce (sym s) (begin_header-IsOnce code tw e h)
Step-IsOnce body tw u (lands c e s) h = subst IsOnce (sym s) (land-IsOnce c tw e h)
Step-IsOnce body tw u (touches c p e s) h = subst IsOnce (sym s) (touch-IsOnce c tw p h)
Step-IsOnce body tw u (times_out e s) h = subst IsOnce (sym s) (time_out-IsOnce body tw e h)

Reach-IsOnce : (body : Bytes) (s t : TimeoutWriter) → IsOnce s → Reach body s t → IsOnce t
Reach-IsOnce body s t h here = h
Reach-IsOnce body s t h (next {t = u} r st) = Step-IsOnce body u t st (Reach-IsOnce body s u h r)

-- However the steps of the handler and of the timer are ordered, at most one call of WriteHeader
-- reaches the ResponseWriter: the handler's, or the one with status 503.
pub Reach-one_reply :
    (body : Bytes) (t : TimeoutWriter) → Reach body new_timeout_writer t → replies t.calls ≤ 1
Reach-one_reply body t r =
    let h : IsOnce t =
      Reach-IsOnce body new_timeout_writer t (record { counted = omega arith }) r in
    ground (arith, h.counted)

-- The calls of Write and WriteHeader among those that have reached the ResponseWriter.
abbrev is_sending : Call → Bool
is_sending (Call.reply code) = true
is_sending (Call.body text) = true
is_sending _ = false

abbrev pub sent : List Call → List Call
sent [] = []
sent (c ∷ cs) = if is_sending c then c ∷ sent cs else sent cs

sent-append : (cs ds : List Call) → sent (cs ++ ds) ≡ sent cs ++ sent ds
sent-append [] ds = refl
sent-append (c ∷ cs) ds = ground (arith, sent-append cs ds)

-- What may have changed since the timer ran.
data Late (s t : TimeoutWriter) : Type 0 where
  quiet : t.timed_out ≡ true → sent t.calls ≡ sent s.calls → t.in_flight ≡ s.in_flight → Late s t
  landed :
      (c : Call)
      → t.timed_out ≡ true
      → s.in_flight ≡ some c
      → sent t.calls ≡ sent s.calls ++ sent (c ∷ [])
      → t.in_flight ≡ none
      → Late s t

begin_write-late : (text : Bytes) (t : TimeoutWriter) → t.timed_out ≡ true → begin_write text t ≡ t
unfolding begin_write
begin_write-late text t o = if_true t.timed_out _ _ o

begin_header-late : (code : ℕ) (t : TimeoutWriter) → t.timed_out ≡ true → begin_header code t ≡ t
unfolding begin_header
begin_header-late code t o = if_true (t.timed_out || t.wrote_header) _ _ (ground arith)

sent-Edits : (c : Call) → Edits c → sent (c ∷ []) ≡ []
sent-Edits (Call.set_field k v) h = refl
sent-Edits (Call.add_field k v) h = refl
sent-Edits (Call.del_field k) h = refl
sent-Edits _ h = absurd h

touch-sent : (c : Call) (t : TimeoutWriter) → Edits c → sent (touch c t).calls ≡ sent t.calls
unfolding touch
touch-sent c t p =
    sent-append t.calls (c ∷ [])
    ∙ ap (λ l. sent t.calls ++ l) (sent-Edits c p)
    ∙ append-nil (sent t.calls)

touch-Late : (b : Call) (s t : TimeoutWriter) → Edits b → Late s t → Late s (touch b t)
unfolding touch
touch-Late b s t p (quiet o c f) = quiet o (touch-sent b t p ∙ c) f
touch-Late b s t p (landed d o i c f) = landed d o i (touch-sent b t p ∙ c) f

Step-Late : (body : Bytes) (s t u : TimeoutWriter) → Late s t → Step body t u → Late s u
unfolding land
Step-Late body s t u (quiet o c f) (writes text e st) =
    subst (Late s) (sym (st ∙ begin_write-late text t o)) (quiet o c f)
Step-Late body s t u (quiet o c f) (heads code e st) =
    subst (Late s) (sym (st ∙ begin_header-late code t o)) (quiet o c f)
Step-Late body s t u (quiet o c f) (lands d e st) =
    subst (Late s) (sym st)
      (landed d o (sym f ∙ e) (sent-append t.calls (d ∷ []) ∙ ap (λ l. l ++ sent (d ∷ [])) c) refl)
Step-Late body s t u (landed d o i c f) (writes text e st) =
    subst (Late s) (sym (st ∙ begin_write-late text t o)) (landed d o i c f)
Step-Late body s t u (landed d o i c f) (heads code e st) =
    subst (Late s) (sym (st ∙ begin_header-late code t o)) (landed d o i c f)
Step-Late body s t u (landed d o i c f) (lands b e st) = absurd (cc)
Step-Late body s t u l (touches c p e st) = subst (Late s) (sym st) (touch-Late c s t p l)
Step-Late body s t u (quiet o c f) (times_out e st) = absurd (cc)
Step-Late body s t u (landed d o i c f) (times_out e st) = absurd (cc)

Reach-Late : (body : Bytes) (s t : TimeoutWriter) → s.timed_out ≡ true → Reach body s t → Late s t
Reach-Late body s t o here = quiet o refl refl
Reach-Late body s t o (next {t = u} r st) = Step-Late body s u t (Reach-Late body s u o r) st

-- Once the time is up, whatever the handler tries, no call of Write or WriteHeader reaches the
-- ResponseWriter any more, but for the one that was past its test by then. The handler may still change
-- the header map, which Header hands out with no test.
pub Reach-timed_out :
    (body : Bytes) (s t : TimeoutWriter)
    → s.timed_out ≡ true
    → Reach body s t
    → (sent t.calls ≡ sent s.calls)
      ⊎ ((c : Call) × (s.in_flight ≡ some c) × (sent t.calls ≡ sent s.calls ++ sent (c ∷ [])))
Reach-timed_out body s t o r = elim (Reach-Late body s t o r) [
  | quiet p c f ↦ inl c
  | landed d p i c f ↦ inr (d, i, c)
]
