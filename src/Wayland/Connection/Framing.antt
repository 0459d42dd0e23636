-- ===== src/Wayland/Connection/Framing.antt =====
-- A message written with a header of two words is read back by ReadMsg.
use dankgo.Prelude.{
  ℕ, suc, ◌≡◌, refl, true, Option, none, some, List, [], ◌∷◌, ◌++◌, Bool-cases, inl, inr, ◌==◌, ltb,
  length, arith, ◌+◌, ◌-◌, ◌*◌, ◌/◌, ◌%◌, ◌^◌, ◌<◌, drop,
}
use dankgo.Prelude.Text.{Bytes}
use dankgo.Wayland.Wire.{uint32, put_uint32, uint32-put_uint32}
use dankgo.Wayland.Connection.{
  Context, read, passed, take_ancillary, read_msg_unix, event_takes_fd, pop_fd, finish, finish_at,
  sized, read_msg,
}

-- The first word is the object, the second the size of the whole message and the opcode.
abbrev pub header_of : ℕ → ℕ → Bytes → Bytes
header_of sender opcode msg = put_uint32 sender ++ put_uint32 ((length msg + 8) * 65536 + opcode)

header-length : (s w : ℕ) → (length (put_uint32 s ++ put_uint32 w) == 8) ≡ true
unfolding put_uint32
header-length s w = refl

header-word : (s w : ℕ) → w < 2 ^ 32 → uint32 (drop 4 (put_uint32 s ++ put_uint32 w)) ≡ some w
unfolding put_uint32
header-word s w h = uint32-put_uint32 w [] h

pop_fd-message :
    (ctx : Context) (closed : List ℕ) (sender opcode : ℕ) (msg : Bytes) (fds : List ℕ)
    → (fd : Option ℕ) × ((finish_at ctx closed sender opcode msg (pop_fd fds)).1
        ≡ some (record { sender_id = sender; opcode = opcode; fd = fd; msg = msg }))
unfolding pop_fd
pop_fd-message ctx closed sender opcode msg [] = (none, refl)
pop_fd-message ctx closed sender opcode msg (fd ∷ fds) = (some fd, refl)

finish-message :
    (sender opcode : ℕ) (msg : Bytes) (ctx : Context) (closed : List ℕ)
    → (fd : Option ℕ) × ((finish sender opcode msg ctx closed).1
        ≡ some (record { sender_id = sender; opcode = opcode; fd = fd; msg = msg }))
finish-message sender opcode msg ctx closed = elim (Bool-cases (event_takes_fd ctx sender opcode)) [
  | inl h ↦ rw h (pop_fd-message ctx closed sender opcode msg ctx.fds)
  | inr h ↦ rw h (none, refl)
]

sized-message :
    (sender opcode : ℕ) (msg : Bytes) (g : List ℕ) (ctx : Context) (closed : List ℕ)
    → opcode < 65536
    → (fd : Option ℕ) × ((sized
          (read msg (passed g))
          sender
          ((length msg + 8) * 65536 + opcode)
          ctx
          closed).1
        ≡ some (record { sender_id = sender; opcode = opcode; fd = fd; msg = msg }))
unfolding read_msg_unix take_ancillary
sized-message sender opcode [] g ctx closed h =
    let o : (8 * 65536 + opcode) % 65536 ≡ opcode = omega (arith, h) in
    let e : (8 * 65536 + opcode) / 65536 - 8 ≡ 0 = omega (arith, h) in
    rw (e, o) (finish-message sender opcode [] ctx closed)
sized-message sender opcode (x ∷ msg) g ctx closed h =
    let n = suc (length msg) in
    let o : ((n + 8) * 65536 + opcode) % 65536 ≡ opcode = omega (arith, h) in
    let e : ((n + 8) * 65536 + opcode) / 65536 - 8 ≡ n = omega (arith, h) in
    let positive : ltb 0 n ≡ true = ground arith in
    let same : (n == n) ≡ true = ground arith in
    rw (e, o, positive, same)
      (finish-message sender opcode (x ∷ msg) (record ctx { fds = ctx.fds ++ g }) (closed ++ []))

-- A message whose header and body arrive whole is read back with its sender, opcode and body,
-- whatever descriptors come with it, up to the size that the header can hold.
pub read_msg-header_of :
    (sender opcode : ℕ) (msg : Bytes) (f g : List ℕ) (ctx : Context)
    → sender < 2 ^ 32
    → opcode < 65536
    → length msg + 8 < 65536
    → (fd : Option ℕ) × ((read_msg
          (read (header_of sender opcode msg) (passed f))
          (read msg (passed g))
          ctx).1
        ≡ some (record { sender_id = sender; opcode = opcode; fd = fd; msg = msg }))
unfolding read_msg read_msg_unix take_ancillary
read_msg-header_of sender opcode msg f g ctx hs ho hm =
    let w = (length msg + 8) * 65536 + opcode in
    let small : w < 2 ^ 32 = omega (arith, ho, hm) in
    rw
      (
        header-length sender w,
        uint32-put_uint32 sender (put_uint32 w) hs,
        header-word sender w small,
      )
      (sized-message sender opcode msg g (record ctx { fds = ctx.fds ++ f }) [] ho)
