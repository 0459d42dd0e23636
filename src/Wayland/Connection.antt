-- ===== src/Wayland/Connection.antt =====
-- wayland/client/context.go and event.go: the objects of a connection, the queue of file descriptors
-- that arrived, and the reading and dispatch of one message. What the socket returns is an argument.
-- The descriptor -1 is `none`.
pub mod Descriptors
pub mod Framing
pub mod Objects
use dankgo.Prelude.{
  ℕ, zero, suc, ◌+◌, ◌-◌, ◌/◌, ◌%◌, ◌^◌, Bool, true, false, not, ◌||◌, Option, none, some, List, [],
  ◌∷◌, ◌++◌, if◌then◌else◌, ltb, ◌==◌, length, drop,
}
use dankgo.Prelude.Text.{Bytes}
use dankgo.Wayland.Wire.{uint32}

-- A registered object: the opcodes of its events that take a descriptor, whether it is a zombie and
-- whether it has a Dispatch method.
pub record Proxy : Type 0 where
  pub takes_fd : ℕ → Bool
  pub zombie : Bool
  pub dispatches : Bool

pub record Context : Type 0 where
  pub objects : ℕ → Option Proxy
  pub current_id : ℕ
  pub fds : List ℕ

abbrev pub store : ℕ → Option Proxy → (ℕ → Option Proxy) → ℕ → Option Proxy
store id p objects i = if i == id then p else objects i

-- The identifier is a uint32.
unfoldable pub register : Proxy → Context → Context × ℕ
register p ctx =
    let id = (ctx.current_id + 1) % 2 ^ 32 in
    (record ctx { current_id = id; objects = store id (some p) ctx.objects }, id)

unfoldable pub register_with_id : Proxy → ℕ → Context → Context
register_with_id p id ctx = record ctx { objects = store id (some p) ctx.objects }

unfoldable pub delete_id : ℕ → Context → Context
delete_id id ctx = record ctx { objects = store id none ctx.objects }

unfoldable pub get_proxy : Context → ℕ → Option Proxy
get_proxy ctx id = ctx.objects id

-- The control messages of one read: descriptors; descriptors in front of the place where the kernel cut them
-- off; or those in front of a message that does not parse. The program learns of no descriptor behind that.
pub data Ancillary : Type 0 where
  passed : List ℕ → Ancillary
  truncated : List ℕ → Ancillary
  malformed : List ℕ → Ancillary

-- What ReadMsgUnix returns.
pub data Received : Type 0 where
  broken : Received
  read : Bytes → Ancillary → Received

-- The context, the descriptors that were closed, and whether there was no error.
unfoldable pub take_ancillary : Ancillary → Context → (Context × List ℕ) × Bool
take_ancillary (passed fds) ctx = ((record ctx { fds = ctx.fds ++ fds }, []), true)
take_ancillary (truncated fds) ctx = ((ctx, fds), false)
take_ancillary (malformed fds) ctx = ((ctx, fds), false)

abbrev pub read_bytes : Bytes → (Context × List ℕ) × Bool → (Context × List ℕ) × Option Bytes
read_bytes bytes (out, true) = (out, some bytes)
read_bytes bytes (out, false) = (out, none)

-- readMsgUnix: `none` is an error.
unfoldable pub read_msg_unix : Received → Context → (Context × List ℕ) × Option Bytes
unfolding take_ancillary
read_msg_unix broken ctx = ((ctx, []), none)
read_msg_unix (read bytes anc) ctx = read_bytes bytes (take_ancillary anc ctx)

abbrev takes : ℕ → Option Proxy → Bool
takes opcode none = false
takes opcode (some p) = p.takes_fd opcode

unfoldable pub event_takes_fd : Context → ℕ → ℕ → Bool
event_takes_fd ctx sender opcode = takes opcode (ctx.objects sender)

unfoldable pub pop_fd : List ℕ → List ℕ × Option ℕ
pop_fd [] = ([], none)
pop_fd (fd ∷ fds) = (fds, some fd)

pub record Message : Type 0 where
  pub sender_id : ℕ
  pub opcode : ℕ
  pub fd : Option ℕ
  pub msg : Bytes

-- The context afterwards, the descriptors that were closed, and the message or an error.
abbrev pub Reading : Type 0
Reading = (Context × List ℕ) × Option Message

abbrev pub finish_at : Context → List ℕ → ℕ → ℕ → Bytes → List ℕ × Option ℕ → Reading
finish_at ctx closed sender opcode msg (fds, fd) = (
  (record ctx { fds = fds }, closed),
  some (record { sender_id = sender; opcode = opcode; fd = fd; msg = msg }),
)

-- The end of ReadMsg, with the message complete.
abbrev pub finish : ℕ → ℕ → Bytes → Context → List ℕ → Reading
finish sender opcode msg ctx closed =
    if event_takes_fd ctx sender opcode
    then finish_at ctx closed sender opcode msg (pop_fd ctx.fds)
    else (
      (ctx, closed),
      some (record { sender_id = sender; opcode = opcode; fd = none; msg = msg }),
    )

abbrev pub body_read : ℕ → ℕ → ℕ → List ℕ → (Context × List ℕ) × Option Bytes → Reading
body_read sender opcode size closed ((ctx, more), none) = ((ctx, closed ++ more), none)
body_read sender opcode size closed ((ctx, more), some msg) =
    if length msg == size
    then finish sender opcode msg ctx (closed ++ more)
    else ((ctx, closed ++ more), none)

-- ReadMsg behind the header: `word` is the opcode and the size.
abbrev pub sized : Received → ℕ → ℕ → Context → List ℕ → Reading
sized body sender word ctx closed =
    let opcode = word % 65536 in
    let size = word / 65536 - 8 in
    if ltb 0 size
    then body_read sender opcode size closed (read_msg_unix body ctx)
    else finish sender opcode [] ctx closed

abbrev pub words : Received → Option ℕ → Option ℕ → Context → List ℕ → Reading
words body (some sender) (some word) ctx closed = sized body sender word ctx closed
words body _ _ ctx closed = ((ctx, closed), none)

abbrev pub header_read : Received → (Context × List ℕ) × Option Bytes → Reading
header_read body (out, none) = (out, none)
header_read body ((ctx, closed), some bytes) =
    if length bytes == 8
    then words body (uint32 bytes) (uint32 (drop 4 bytes)) ctx closed
    else ((ctx, closed), none)

-- ReadMsg, with what the socket returns for the header and for the rest of the message.
unfoldable pub read_msg : Received → Received → Context → Reading
unfolding read_msg_unix event_takes_fd pop_fd
read_msg header body ctx = header_read body (read_msg_unix header ctx)

-- What the function returned by GetDispatch does with a message.
pub data Dispatched : Type 0 where
  ignored : Option ℕ → Dispatched
  unsupported : Dispatched
  sent : Message → Dispatched

abbrev to_sender : Message → Option Proxy → Dispatched
to_sender m none = ignored m.fd
to_sender m (some p) =
    if p.zombie then ignored m.fd else if p.dispatches then sent m else unsupported

-- An ignored message's descriptor is closed.
unfoldable pub dispatch : Context → Message → Dispatched
dispatch ctx m = to_sender m (ctx.objects m.sender_id)
