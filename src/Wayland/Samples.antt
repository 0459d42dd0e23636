-- ===== src/Wayland/Samples.antt =====
-- A connection that reads one message with a descriptor and registers an object.
use dankgo.Prelude.{
  ℕ, ◌≡◌, true, false, Option, some, [], ◌∷◌, ◌++◌, ◌+◌, length, drop, arith, ◌==◌,
}
use dankgo.Prelude.Text.{Bytes}
use dankgo.Wayland.Wire.{
  uint32, put_uint32, put_string, string_of, uint32-put_uint32, put_string-string_of,
}
use dankgo.Wayland.Connection.{Proxy, Context, read, passed, truncated, register, read_msg}
use dankgo.Wayland.Connection.Descriptors.{
  Accounts, passed_by, cut_by, when, has_body, read_msg-Accounts,
}
use dankgo.Wayland.Connection.Framing.{header_of, read_msg-header_of}
use dankgo.Wayland.Connection.Objects.{new_context}

uint32-put_uint32_example : uint32 (put_uint32 305419896 ++ 7 ∷ []) ≡ some 305419896
uint32-put_uint32_example = uint32-put_uint32 305419896 (7 ∷ []) (omega arith)

abbrev buffer : Bytes
buffer = 9 ∷ 9 ∷ 9 ∷ 9 ∷ 9 ∷ 9 ∷ 9 ∷ 9 ∷ []

abbrev hi : Bytes
hi = 104 ∷ 105 ∷ []

put_string-string_of_example :
    (out : Bytes) × ((put_string buffer hi ≡ some out)
      × ((uint32 out ≡ some (length hi + 1))
          × ((string_of (drop 4 out) ≡ some hi)
              × (drop (length hi + 5) out ≡ drop (length hi + 5) buffer))))
put_string-string_of_example =
    put_string-string_of buffer hi (λ h. omega (arith, h), (λ h. omega (arith, h), tt))
      (omega arith) (omega arith)

abbrev keyboard : Proxy
keyboard = record { takes_fd = λ opcode. opcode == 0; zombie = false; dispatches = true }

abbrev ctx1 : Context
ctx1 = (register keyboard new_context).0

-- The header comes with a descriptor, the control message of the body is cut off.
read_msg-Accounts_example :
    let header = read (header_of 1 0 hi) (passed (5 ∷ [])) in
    let body = read hi (truncated (6 ∷ [])) in
    Accounts
      (ctx1.fds ++ (passed_by header ++ when (has_body header) (passed_by body)))
      (cut_by header ++ when (has_body header) (cut_by body))
      (read_msg header body ctx1)
read_msg-Accounts_example =
    read_msg-Accounts (read (header_of 1 0 hi) (passed (5 ∷ []))) (read hi (truncated (6 ∷ [])))
      ctx1

read_msg-header_of_example :
    (fd : Option ℕ) × ((read_msg
        (read (header_of 1 0 hi) (passed (5 ∷ [])))
        (read hi (passed []))
        ctx1).1
      ≡ some (record { sender_id = 1; opcode = 0; fd = fd; msg = hi }))
read_msg-header_of_example =
    read_msg-header_of 1 0 hi (5 ∷ []) [] ctx1 (omega arith) (omega arith) (omega arith)
