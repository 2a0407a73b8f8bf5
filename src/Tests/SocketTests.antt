-- ===== src/Tests/SocketTests.antt =====
-- socket/client.c and socket/server.c: two clients.
use mm_exper.Base.{◌≡◌, refl, arith, true, false, some, List, [], ◌∷◌, ◌++◌, map, length}
use mm_exper.Base.Text.{codes}
use mm_exper.Base.Output.{text, outputs}
use mm_exper.Socket.{
  Constants, ClientOs, waiting, failed, out_of_bounds, server, client, run_server, serve,
  waiting_line,
}
use mm_exper.Socket.Laws.{Visit, Short, connection, kept, visit_output, server-visits}

abbrev linux : Constants
linux = record { sol_socket = 1; scm_rights = 1 }

abbrev working : ClientOs
working = record { opened = some 3; makes_socket = true; connects = true; sends = true }

abbrev two_visits : List Visit
two_visits =
    record { accepted = 4; fd = 5; garbage = []; content = codes "hi" }
    ∷ record { accepted = 5; fd = 6; garbage = codes "x"; content = codes "hi" }
    ∷ []

-- A client that cannot send ends the server.
ended :
    (server linux
      (some 3)
      true
      true
      (map (connection linux (record working { sends = false })) two_visits)).at
    ≡ failed
unfolding server run_server serve client
ended = refl

two_visits-Short : Short two_visits
two_visits-Short = (
  omega arith,
  (omega arith, (omega arith, tt)),
  (omega arith, (omega arith, (omega arith, tt)), tt),
)

server-visits_example :
    (server linux (some 3) true true (map (connection linux working) two_visits) ≡ record {
      at = waiting;
      open_fds = kept two_visits (3 ∷ []);
      out = text "set up.\n" ∷ outputs (map visit_output two_visits) ++ waiting_line;
    })
    × ((v : Visit)
        → length v.content ≡ 512
        → (server linux
            (some 3)
            true
            true
            (map (connection linux working) (two_visits ++ v ∷ []))).at
          ≡ out_of_bounds)
server-visits_example =
    server-visits linux working refl refl refl refl 3 two_visits two_visits-Short
