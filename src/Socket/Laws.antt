-- ===== src/Socket/Laws.antt =====
-- What the server does with the clients of this repository.
use mathlib.Core.List.{append_assoc}
use mm_exper.Base.{ℕ, zero, suc, ◌<◌, ◌≡◌, refl, ap, ◌∙◌, arith, true, false}
use mm_exper.Base.{◌&&◌, ◌==◌, ltb, length, map}
use mm_exper.Base.{Option, none, some, List, [], ◌∷◌, ◌++◌}
use mm_exper.Base.Int.{pos}
use mm_exper.Base.Text.{Bytes, codes}
use mm_exper.Base.Output.{Output, text, str, int, outputs}
use mm_exper.Socket.{
  message_size, Constants, Received, received, Connection, Where, waiting, out_of_bounds, Server,
  c_string, close, output_read, serve, run_server, ClientOs, client_message, Sent, client, server,
  waiting_line,
}

-- A connection of a client: the descriptors that the server gets for the connection and for the file,
-- what is behind the name in the message, and what is read of the file.
pub record Visit : Type 0 where
  pub accepted : ℕ
  pub fd : ℕ
  pub garbage : Bytes
  pub content : Bytes

-- What the server receives: what the client sent, with a new descriptor, or the end of the stream.
abbrev pub arrival : Visit → Option Sent → Received
arrival v none = received 0 (record { name = v.garbage; n = pos 0 }) none
arrival v (some sent) = received message_size sent.message (
    some (record {
      cmsg_level = sent.cmsg_level;
      cmsg_type = sent.cmsg_type;
      fd = v.fd;
      content = some v.content;
    }))

abbrev pub connection : Constants → ClientOs → Visit → Connection
connection constants os v = record {
  accepted_fd = some v.accepted;
  received_from = arrival v (client constants os v.garbage).0;
}

-- A text without zeros that `read` of 512 bytes returns as a whole, with room for a zero behind it.
abbrev pub NoZeros : Bytes → Type 0
NoZeros [] = Unit
NoZeros (c ∷ cs) = (0 < c) × NoZeros cs

abbrev pub Short : List Visit → Type 0
Short [] = Unit
Short (v ∷ vs) = (length v.content < 512) × NoZeros v.content × Short vs

abbrev pub visit_output : Visit → Output
visit_output v =
    text "Waiting for connection...\n"
    ∷ text "Server connected.\n"
    ∷ text "CONNECT: name=["
    ∷ str (codes "lozzy")
    ∷ text "], n=["
    ∷ int (pos 100)
    ∷ text "]\n"
    ∷ text "OUTPUT:\n"
    ∷ str v.content
    ∷ []

-- The descriptors of the connections, the last in front.
abbrev pub kept : List Visit → List ℕ → List ℕ
kept [] fds = fds
kept (v ∷ vs) fds = kept vs (v.accepted ∷ fds)

c_string-append : (s garbage : Bytes) → NoZeros s → c_string (s ++ 0 ∷ garbage) ≡ some s
c_string-append [] garbage h = refl
c_string-append (zero ∷ cs) garbage h = absurd (omega (arith, h.0))
c_string-append (suc c ∷ cs) garbage h = rw (c_string-append cs garbage h.1) refl

close_head : (fd : ℕ) (fds : List ℕ) → close fd (fd ∷ fds) ≡ fds
close_head fd fds = ground arith

output_read_lem :
    (fd : ℕ) (bytes : Bytes) (s : Server)
    → length bytes < 512
    → NoZeros bytes
    → output_read fd bytes s ≡ record s {
      open_fds = close fd s.open_fds;
      out = s.out ++ text "OUTPUT:\n" ∷ str bytes ∷ [];
    }
output_read_lem fd bytes s short zeros = rw (fits short, c_string-append bytes [] zeros) refl
  where
    fits : length bytes < 512 → ltb (length bytes) 512 ≡ true
    fits short = ground arith

module _ (constants : Constants) (os : ClientOs) {send_fd : ℕ} (opened : os.opened ≡ some send_fd)
    (makes : os.makes_socket ≡ true) (connects : os.connects ≡ true) (sends : os.sends ≡ true) where
  sent_lem :
      (garbage : Bytes)
      → client constants os garbage ≡ (
        some (record {
          message = client_message garbage;
          cmsg_level = constants.sol_socket;
          cmsg_type = constants.scm_rights;
          fd = send_fd;
        }),
        true,
      )
  unfolding client
  sent_lem garbage = rw (opened, makes, connects, sends) refl

  same_constants :
      (constants.sol_socket == constants.sol_socket && constants.scm_rights == constants.scm_rights)
      ≡ true
  same_constants = ground arith

  serve-visit :
      (v : Visit) (s : Server)
      → length v.content < 512
      → NoZeros v.content
      → s.at ≡ waiting
      → serve constants (connection constants os v) s
        ≡ record { at = waiting; open_fds = v.accepted ∷ s.open_fds; out = s.out ++ visit_output v }
  unfolding serve
  serve-visit v s short zeros at =
      rw (sent_lem v.garbage, same_constants)
        (output_read_lem v.fd v.content _ short zeros ∙ simp (close_head, at, append_assoc))

  run_server-visits :
      (vs : List Visit) (s : Server)
      → Short vs
      → s.at ≡ waiting
      → run_server constants (map (connection constants os) vs) s ≡ record {
        at = waiting;
        open_fds = kept vs s.open_fds;
        out = s.out ++ (outputs (map visit_output vs) ++ waiting_line);
      }
  unfolding run_server
  run_server-visits [] s short at =
      ap (λ (w : Where). record { at = w; open_fds = s.open_fds; out = s.out ++ waiting_line }) at
  run_server-visits (v ∷ vs) s (fits, zeros, short) at = rw (serve-visit v s fits zeros at) (
      run_server-visits vs
        (record { at = waiting; open_fds = v.accepted ∷ s.open_fds; out = s.out ++ visit_output v })
        short refl
      ∙ simp append_assoc)

  serve-long :
      (v : Visit) (s : Server)
      → length v.content ≡ 512
      → (serve constants (connection constants os v) s).at ≡ out_of_bounds
  unfolding serve
  serve-long v s long =
      rw (sent_lem v.garbage, same_constants, too_long (length v.content) long) refl
    where
      too_long : (n : ℕ) → n ≡ 512 → ltb n 512 ≡ false
      too_long n e = ground arith

  run_server-long :
      (vs : List Visit) (v : Visit) (s : Server)
      → Short vs
      → length v.content ≡ 512
      → s.at ≡ waiting
      → (run_server constants (map (connection constants os) (vs ++ v ∷ [])) s).at ≡ out_of_bounds
  unfolding run_server
  run_server-long [] v s short long at = rw (serve-long v s long) refl
  run_server-long (u ∷ vs) v s (fits, zeros, short) long at =
      rw (serve-visit u s fits zeros at) (run_server-long vs v _ short long refl)

  -- Clients whose calls all succeed, with files that have fewer than 512 bytes, none of them zero: the server
  -- whose socket is set up prints the name and the number of each client and all of its file, closes
  -- the file, and says that it waits for the next; but it keeps the descriptor of each connection open, besides that
  -- of its socket. A further client with a file of which `read` returns 512 bytes makes it write a zero
  -- behind the end of its buffer.
  pub server-visits :
      (sock_fd : ℕ) (vs : List Visit)
      → Short vs
      → (server constants (some sock_fd) true true (map (connection constants os) vs) ≡ record {
        at = waiting;
        open_fds = kept vs (sock_fd ∷ []);
        out = text "set up.\n" ∷ outputs (map visit_output vs) ++ waiting_line;
      })
        × ((v : Visit)
            → length v.content ≡ 512
            → (server constants
                (some sock_fd)
                true
                true
                (map (connection constants os) (vs ++ v ∷ []))).at
              ≡ out_of_bounds)
  unfolding server
  server-visits sock_fd vs short =
      (run_server-visits vs _ short refl, λ v long. run_server-long vs v _ short long refl)
