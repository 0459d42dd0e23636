-- ===== src/Wayland/Connection/Descriptors.antt =====
-- No descriptor is lost or taken out of order by ReadMsg.
use dankgo.Prelude.{
  ℕ, ◌≡◌, refl, sym, arith, ◌∙◌, ap, Bool, true, false, Option, none, some, List, [], ◌∷◌, ◌++◌,
  append_assoc, append-nil, if◌then◌else◌, Bool-cases, inl, inr, ◌==◌, ltb, length, ◌&&◌, ◌-◌, ◌/◌,
  ◌%◌, drop,
}
use dankgo.Prelude.Text.{Bytes}
use dankgo.Wayland.Wire.{uint32}
use dankgo.Wayland.Connection.{
  Context, Received, broken, read, Ancillary, passed, truncated, malformed, take_ancillary,
  read_msg_unix, event_takes_fd, pop_fd, Message, Reading, finish, finish_at, body_read, sized,
  words, header_read, read_msg,
}

abbrev pub passed_in : Ancillary → List ℕ
passed_in (passed fds) = fds
passed_in (truncated fds) = []
passed_in (malformed fds) = []

abbrev pub cut_in : Ancillary → List ℕ
cut_in (passed fds) = []
cut_in (truncated fds) = fds
cut_in (malformed fds) = fds

-- The descriptors that come with a read, and those of it that must be closed.
abbrev pub passed_by : Received → List ℕ
passed_by broken = []
passed_by (read bytes anc) = passed_in anc

abbrev pub cut_by : Received → List ℕ
cut_by broken = []
cut_by (read bytes anc) = cut_in anc

abbrev listed : Option ℕ → List ℕ
listed none = []
listed (some fd) = fd ∷ []

abbrev pub handed : Option Message → List ℕ
handed none = []
handed (some m) = listed m.fd

-- The descriptor handed out and the queue are these in their order, and these were closed.
abbrev pub Accounts : List ℕ → List ℕ → Reading → Type 0
Accounts queue closed out = (handed out.1 ++ out.0.0.fds ≡ queue) × (out.0.1 ≡ closed)

abbrev pub when : Bool → List ℕ → List ℕ
when b fds = if b then fds else []

-- Whether the two words announce more bytes.
abbrev pub announces : Option ℕ → Option ℕ → Bool
announces (some sender) (some word) = ltb 8 (word / 65536)
announces _ _ = false

abbrev pub is_whole : Ancillary → Bool
is_whole (passed fds) = true
is_whole (truncated fds) = false
is_whole (malformed fds) = false

-- Whether the header is complete, its control messages are whole, and it announces a body.
abbrev pub has_body : Received → Bool
has_body broken = false
has_body (read bytes anc) =
    is_whole anc && (length bytes == 8 && announces (uint32 bytes) (uint32 (drop 4 bytes)))

pop_fd-Accounts :
    (ctx : Context) (closed : List ℕ) (sender opcode : ℕ) (msg : Bytes) (fds : List ℕ)
    → Accounts fds closed (finish_at ctx closed sender opcode msg (pop_fd fds))
unfolding pop_fd
pop_fd-Accounts ctx closed sender opcode msg [] = (refl, refl)
pop_fd-Accounts ctx closed sender opcode msg (fd ∷ fds) = (refl, refl)

finish-Accounts :
    (sender opcode : ℕ) (msg : Bytes) (ctx : Context) (closed : List ℕ)
    → Accounts ctx.fds closed (finish sender opcode msg ctx closed)
finish-Accounts sender opcode msg ctx closed =
    elim (Bool-cases (event_takes_fd ctx sender opcode)) [
      | inl h ↦ rw h (pop_fd-Accounts ctx closed sender opcode msg ctx.fds)
      | inr h ↦ rw h (refl, refl)
    ]

body_read-Accounts :
    (sender opcode size : ℕ) (closed : List ℕ) (x : (Context × List ℕ) × Option Bytes)
    → Accounts x.0.0.fds (closed ++ x.0.1) (body_read sender opcode size closed x)
body_read-Accounts sender opcode size closed ((ctx, more), none) = (refl, refl)
body_read-Accounts sender opcode size closed ((ctx, more), some msg) =
    elim (Bool-cases (length msg == size)) [
      | inl h ↦ rw h (finish-Accounts sender opcode msg ctx (closed ++ more))
      | inr h ↦ rw h (refl, refl)
    ]

read_msg_unix-queue :
    (r : Received) (ctx : Context)
    → ((read_msg_unix r ctx).0.0.fds ≡ ctx.fds ++ passed_by r)
      × ((read_msg_unix r ctx).0.1 ≡ cut_by r)
unfolding read_msg_unix take_ancillary
read_msg_unix-queue broken ctx = (sym (append-nil ctx.fds), refl)
read_msg_unix-queue (read bytes (passed fds)) ctx = (refl, refl)
read_msg_unix-queue (read bytes (truncated fds)) ctx = (sym (append-nil ctx.fds), refl)
read_msg_unix-queue (read bytes (malformed fds)) ctx = (sym (append-nil ctx.fds), refl)

sized-Accounts :
    (body : Received) (sender word : ℕ) (ctx : Context) (closed : List ℕ)
    → Accounts
        (ctx.fds ++ when (ltb 8 (word / 65536)) (passed_by body))
        (closed ++ when (ltb 8 (word / 65536)) (cut_by body))
        (sized body sender word ctx closed)
sized-Accounts body sender word ctx closed = elim (Bool-cases (ltb 0 (word / 65536 - 8))) [
  | inl h ↦
      let x =
        body_read-Accounts sender (word % 65536) (word / 65536 - 8) closed
          (read_msg_unix body ctx) in
      let q = read_msg_unix-queue body ctx in
      rw (h, above (word / 65536) true h) (x.0 ∙ q.0, x.1 ∙ ap (λ f. closed ++ f) (q.1))
  | inr h ↦
      let x = finish-Accounts sender (word % 65536) [] ctx closed in
      rw (h, above (word / 65536) false h)
        (x.0 ∙ sym (append-nil ctx.fds), x.1 ∙ sym (append-nil closed))
]
  where
    above : (n : ℕ) (b : Bool) → ltb 0 (n - 8) ≡ b → ltb 8 n ≡ b
    above n true h = ground arith
    above n false h = ground arith

words-Accounts :
    (body : Received) (s w : Option ℕ) (ctx : Context) (closed : List ℕ)
    → Accounts
        (ctx.fds ++ when (announces s w) (passed_by body))
        (closed ++ when (announces s w) (cut_by body))
        (words body s w ctx closed)
words-Accounts body (some s) (some w) ctx closed = sized-Accounts body s w ctx closed
words-Accounts body none w ctx closed = (sym (append-nil ctx.fds), sym (append-nil closed))
words-Accounts body (some s) none ctx closed = (sym (append-nil ctx.fds), sym (append-nil closed))

complete-Accounts :
    (body : Received) (bytes : Bytes) (ctx : Context) (closed : List ℕ)
    → let b = length bytes == 8 && announces (uint32 bytes) (uint32 (drop 4 bytes)) in
      Accounts
        (ctx.fds ++ when b (passed_by body))
        (closed ++ when b (cut_by body))
        (header_read body ((ctx, closed), some bytes))
complete-Accounts body bytes ctx closed = elim (Bool-cases (length bytes == 8)) [
  | inl h ↦ rw h (words-Accounts body (uint32 bytes) (uint32 (drop 4 bytes)) ctx closed)
  | inr h ↦ rw h (sym (append-nil ctx.fds), sym (append-nil closed))
]

-- Of the descriptors that the program learns of, reading a message loses none, on its error paths too: those
-- queued before and those that came with the header, and with the body exactly if the header is complete, its
-- control messages are whole and it announces a body, are the one handed out and the queue, in the order of
-- arrival; and exactly those of a truncated control message, or in front of one that does not parse, are closed.
pub read_msg-Accounts :
    (header body : Received) (ctx : Context)
    → Accounts
        (ctx.fds ++ (passed_by header ++ when (has_body header) (passed_by body)))
        (cut_by header ++ when (has_body header) (cut_by body))
        (read_msg header body ctx)
unfolding read_msg read_msg_unix take_ancillary
read_msg-Accounts broken body ctx = (sym (append-nil ctx.fds), refl)
read_msg-Accounts (read bytes (passed fds)) body ctx =
    let x = complete-Accounts body bytes (record ctx { fds = ctx.fds ++ fds }) [] in
    (x.0 ∙ append_assoc ctx.fds fds _, x.1)
read_msg-Accounts (read bytes (truncated fds)) body ctx =
    (sym (append-nil ctx.fds), sym (append-nil fds))
read_msg-Accounts (read bytes (malformed fds)) body ctx =
    (sym (append-nil ctx.fds), sym (append-nil fds))
