-- ===== src/Persist/Twice.antt =====
-- A request that is written twice on a ClientConn (http/persist.go) before its first response is read.
use go_http.Prelude.{
  ℕ, suc, ◌<◌, Bool, true, false, List, [], ◌∷◌, ◌++◌, Option, none, some, ◌≡◌, refl, ◌∙◌, arith,
  ◌==◌, Option-cases, Bool-cases, inl, inr, All, subst,
}
use go_http.Errors.{Error, persist_eof}
use go_http.Persist.{
  Conn, PipeReq, lookup, assign, delete, Waiting, answering, leaving, hijack, new_conn,
}
use go_http.Persist.Client.{
  after_writing, write, begin_read, Step, writes, begins, answers, leaves, hijacks, Leads, here,
  more,
}

abbrev pub id_of : Waiting → ℕ
id_of (answering id close) = id
id_of (leaving id) = id

-- The turn is one that nobody has: the ids in use are all later.
abbrev Stuck : Conn → Type 0
Stuck s =
    All (λ e. s.turn < e.1) s.pipereq × All (λ w. s.turn < id_of w) s.waiting × (s.turn < s.next)

assign-All :
    (P : ℕ → Type 0) (req id : ℕ) (m : PipeReq)
    → P id
    → All (λ e. P e.1) m
    → All (λ e. P e.1) (assign req id m)
unfolding assign
assign-All P req id [] p h = (p, tt)
assign-All P req id ((r, i) ∷ m) p (q, h) = elim (Bool-cases (r == req)) [
  | inl b ↦ rw b (p, h)
  | inr b ↦ rw b (q, assign-All P req id m p h)
]

delete-All :
    (P : ℕ → Type 0) (req : ℕ) (m : PipeReq) → All (λ e. P e.1) m → All (λ e. P e.1) (delete req m)
unfolding delete
delete-All P req [] h = tt
delete-All P req ((r, i) ∷ m) (q, h) = elim (Bool-cases (r == req)) [
  | inl b ↦ rw b h
  | inr b ↦ rw b (q, delete-All P req m h)
]

lookup-All :
    (P : ℕ → Type 0) (req id : ℕ) (m : PipeReq) → lookup req m ≡ some id → All (λ e. P e.1) m → P id
unfolding lookup
lookup-All P req id [] e h = absurd (ground arith)
lookup-All P req id ((r, i) ∷ m) e (q, h) = elim (Bool-cases (r == req)) [
  | inl b ↦ subst P (ground arith) q
  | inr b ↦ lookup-All P req id m (rw b at e) h
]

irrefl : (n : ℕ) → ¬ (n < n)
irrefl n h = absurd (omega arith)

not_here :
    (P : Waiting → Type 0) (w : Waiting) (before after : List Waiting)
    → All P (before ++ (w ∷ after))
    → P w
not_here P w [] after h = h.0
not_here P w (v ∷ before) after h = not_here P w before after h.1

abbrev After : Conn → Conn → Type 0
After s t = Stuck t × (t.turn ≡ s.turn) × (t.nread ≡ s.nread)

after_writing-Stuck :
    (req : ℕ) (write_error : Option Error) (s : Conn) (we : Option Error) (c : Bool)
    → Stuck s
    → After s
        (after_writing s.next req write_error (record s { c = c; next = suc s.next; we = we })).0
unfolding after_writing
after_writing-Stuck req none s we c (p, w, n) =
    ((assign-All (λ i. s.turn < i) req s.next s.pipereq n p, w, omega arith), refl, refl)
after_writing-Stuck req (some x) s we c (p, w, n) = ((p, (n, w), omega arith), refl, refl)

write-Stuck :
    (req : ℕ) (close : Bool) (write_error : Option Error) (s : Conn)
    → Stuck s
    → After s (write req close write_error s).0
unfolding write
write-Stuck req close write_error s (p, w, n) = elim (Option-cases s.re) [
  | inr (e, q) ↦ rw (write, q) ((p, (n, w), omega arith), refl, refl)
  | inl q ↦ elim (Option-cases s.we) [
    | inr (e, u) ↦ rw (write, q, u) ((p, (n, w), omega arith), refl, refl)
    | inl u ↦ elim (Bool-cases s.c) [
      | inr c ↦ rw (write, q, u, c) ((p, (n, w), omega arith), refl, refl)
      | inl c ↦ elim (Bool-cases close) [
        | inl k ↦
            rw (write, q, u, c, k)
              (after_writing-Stuck req write_error s (some persist_eof) true (p, w, n))
        | inr k ↦ rw (write, q, u, c, k) (after_writing-Stuck req write_error s s.we true (p, w, n))
      ]
    ]
  ]
]

begin_read-Stuck : (req : ℕ) (s : Conn) → Stuck s → After s (begin_read req s).0
unfolding begin_read
begin_read-Stuck req s (p, w, n) = elim (Option-cases (lookup req s.pipereq)) [
  | inl e ↦ rw (begin_read, e) ((delete-All (λ i. s.turn < i) req s.pipereq p, w, n), refl, refl)
  | inr (id, e) ↦
      let late = lookup-All (λ i. s.turn < i) req id s.pipereq e p in
      rw (begin_read, e) ((delete-All (λ i. s.turn < i) req s.pipereq p, (late, w), n), refl, refl)
]

step-Stuck : (s t : Conn) → Step s t → Stuck s → After s t
step-Stuck s _ (writes req close write_error) h = write-Stuck req close write_error s h
step-Stuck s _ (begins req) h = begin_read-Stuck req s h
step-Stuck s _ (answers before after close close_error reading e) (p, w, n) = absurd (
    irrefl s.turn (
      not_here (λ x. s.turn < id_of x) (answering s.turn close) before after
        (subst (All (λ x. s.turn < id_of x)) e w)))
step-Stuck s _ (leaves before after e) (p, w, n) = absurd (
    irrefl s.turn (
      not_here (λ x. s.turn < id_of x) (leaving s.turn) before after
        (subst (All (λ x. s.turn < id_of x)) e w)))
step-Stuck s _ hijacks h = unfold hijack in (h, refl, refl)

Leads-Stuck : (s t : Conn) → Leads s t → Stuck s → After s t
Leads-Stuck s _ here h = (h, refl, refl)
Leads-Stuck s t (more {t = u} l step) h =
    let (stuck, same, read) = Leads-Stuck s u l h in
    let (stuck', same', read') = step-Stuck u t step stuck in (stuck', same' ∙ same, read' ∙ read)

-- A request that is written twice, with success, on a new ClientConn loses its first id: in every state
-- that follows, whatever is written and read, the turn is still the first one and no call that waits
-- has it, so that no response is ever read on the connection.
pub write_twice :
    (req : ℕ) (t : Conn)
    → Leads (write req false none (write req false none new_conn).0).0 t
    → (t.turn ≡ 0) × (t.nread ≡ 0) × All (λ w. 0 < id_of w) t.waiting
unfolding write after_writing assign
write_twice req t l =
    let twice = (write req false none (write req false none new_conn).0).0 in
    let kept : assign req 1 ((req, 0) ∷ []) ≡ (req, 1) ∷ [] = ground arith in
    let later : All (λ e. 0 < e.1) (assign req 1 ((req, 0) ∷ [])) = rw kept (omega arith, tt) in
    let (stuck', same, read) = Leads-Stuck twice t l (later, tt, omega arith) in
    (same, read, rw same at stuck'.1)
