-- ===== src/Socket.antt =====
-- socket/client.c and socket/server.c: a client sends a message with an open file over a socket; the server
-- prints the message and the start of the file.
pub mod Laws
use mm_exper.Base.{ℕ, zero, suc, ◌+◌, ◌*◌, Bool, true, false, not, ◌&&◌, ◌==◌, ltb, length}
use mm_exper.Base.{if◌then◌else◌, Option, none, some, List, [], ◌∷◌, ◌++◌}
use mm_exper.Base.Int.{ℤ, pos}
use mm_exper.Base.Text.{Bytes, codes}
use mm_exper.Base.Output.{Output, text, str, int}

-- `struct custom_socket_msg`; `name` has MAX_NAME_SIZE bytes.
pub record Message : Type 0 where
  pub name : Bytes
  pub n : ℤ

abbrev pub message_size : ℕ
message_size = 24

-- A control message with a file, by its descriptor in the process that has it, and what `read` of 512 bytes
-- of it returns, or none for an error.
pub record Control : Type 0 where
  pub cmsg_level : ℕ
  pub cmsg_type : ℕ
  pub fd : ℕ
  pub content : Option Bytes

-- SOL_SOCKET and SCM_RIGHTS.
pub record Constants : Type 0 where
  pub sol_socket : ℕ
  pub scm_rights : ℕ

-- What `recvmsg` returns: an error, or a size with what it stored.
pub data Received : Type 0 where
  recv_failed : Received
  received : ℕ → Message → Option Control → Received

-- What `accept` returns, or none for an error, and what is received from there.
pub record Connection : Type 0 where
  pub accepted_fd : Option ℕ
  pub received_from : Received

-- Where the server is: in its loop, at the end with an error, or past the end of an array.
pub data Where : Type 0 where
  waiting failed out_of_bounds : Where

pub record Server : Type 0 where
  pub at : Where
  pub open_fds : List ℕ
  pub out : Output

-- The bytes up to the first zero; none if the array has no zero.
abbrev pub c_string : Bytes → Option Bytes
c_string [] = none
c_string (zero ∷ cs) = some []
c_string (suc c ∷ cs) = elim (c_string cs) [ none ↦ none | some s ↦ some (suc c ∷ s) ]

-- `close`.
abbrev pub close : ℕ → List ℕ → List ℕ
close fd [] = []
close fd (g ∷ fds) = let rest = close fd fds in if fd == g then fds else g ∷ rest

abbrev pub add_out : Output → Server → Server
add_out out s = record s { out = s.out ++ out }

abbrev pub waiting_line : Output
waiting_line = text "Waiting for connection...\n" ∷ []

-- `output_file` behind `read`; `buf` has 512 bytes.
abbrev pub output_read : ℕ → Bytes → Server → Server
output_read fd bytes s =
    if not (ltb (length bytes) 512)
    then record s { at = out_of_bounds }
    else elim (c_string (bytes ++ 0 ∷ [])) [
      | none ↦ record s { at = out_of_bounds }
      | some shown ↦ record s {
        open_fds = close fd s.open_fds;
        out = s.out ++ text "OUTPUT:\n" ∷ str shown ∷ [];
      }
    ]

abbrev pub output_file : ℕ → Option Bytes → Server → Server
output_file fd none s = record s { at = failed }
output_file fd (some bytes) s = output_read fd bytes s

module _ (constants : Constants) where
  -- From CMSG_FIRSTHDR on; `recvmsg` has opened the file that came along.
  abbrev pub on_control : Option Control → Server → Server
  on_control none s = add_out (text "<no fd>\n" ∷ []) s
  on_control (some control) s =
      if not
        (control.cmsg_level == constants.sol_socket && control.cmsg_type == constants.scm_rights)
      then record s { at = failed }
      else output_file control.fd control.content (record s { open_fds = control.fd ∷ s.open_fds })

  abbrev pub on_message : Message → Option Control → Server → Server
  on_message message control s = elim (c_string message.name) [
    | none ↦ record s { at = out_of_bounds }
    | some name ↦ on_control control (
        add_out
          (text "CONNECT: name=[" ∷ str name ∷ text "], n=[" ∷ int message.n ∷ text "]\n" ∷ []) s)
  ]

  abbrev pub on_received : Received → Server → Server
  on_received recv_failed s = record s { at = failed }
  on_received (received size message control) s =
      if not (size == message_size) then record s { at = failed } else on_message message control s

  abbrev pub on_accepted : Option ℕ → Received → Server → Server
  on_accepted none r s = record s { at = failed }
  on_accepted (some fd) r s =
      on_received r
        (add_out (text "Server connected.\n" ∷ []) (record s { open_fds = fd ∷ s.open_fds }))

  -- A round of the loop.
  unfoldable pub serve : Connection → Server → Server
  serve c s = on_accepted c.accepted_fd c.received_from (add_out waiting_line s)

  abbrev is_waiting : Where → Bool
  is_waiting waiting = true
  is_waiting _ = false

  -- The loop, as long as connections come; behind the last it waits for another.
  unfoldable pub run_server : List Connection → Server → Server
  run_server [] s = add_out waiting_line s
  run_server (c ∷ cs) s =
      let next = serve c s in
      let rest = run_server cs next in if is_waiting next.at then rest else next

-- What the client asks of the system: the descriptor of its file, or none; whether `socket`, `connect` and
-- `sendmsg` succeed.
pub record ClientOs : Type 0 where
  pub opened : Option ℕ
  pub makes_socket : Bool
  pub connects : Bool
  pub sends : Bool

-- What the client sends, or none, and whether it returns EXIT_SUCCESS. `garbage` is what is in the array
-- behind the name.
abbrev pub client_message : Bytes → Message
client_message garbage = record { name = codes "lozzy" ++ 0 ∷ garbage; n = pos 100 }

pub record Sent : Type 0 where
  pub message : Message
  pub cmsg_level : ℕ
  pub cmsg_type : ℕ
  pub fd : ℕ

unfoldable pub client : Constants → ClientOs → Bytes → Option Sent × Bool
client constants os garbage = elim os.opened [
  | none ↦ (none, false)
  | some send_fd ↦
      if os.makes_socket && os.connects && os.sends
      then (
        some (record {
          message = client_message garbage;
          cmsg_level = constants.sol_socket;
          cmsg_type = constants.scm_rights;
          fd = send_fd;
        }),
        true,
      )
      else (none, false)
]

-- `main` of the server: whether `socket`, `bind` and `listen` succeed, the descriptor of the first, and the
-- connections that come.
unfoldable pub server : Constants → Option ℕ → Bool → Bool → List Connection → Server
server constants none bound listens cs = record { at = failed; open_fds = []; out = [] }
server constants (some sock_fd) bound listens cs =
    let idle : Server = record {
      at = waiting;
      open_fds = sock_fd ∷ [];
      out = text "set up.\n" ∷ [];
    } in
    let served = run_server constants cs idle in
    if bound && listens then served else record { at = failed; open_fds = sock_fd ∷ []; out = [] }
