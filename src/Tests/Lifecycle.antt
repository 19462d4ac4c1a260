-- ===== src/Tests/Lifecycle.antt =====
-- Runs of Start, Stop and ServerLoop.
use tftpserver.Prelude.{ℕ, ◌≡◌, refl, true, false, [], ◌∷◌, List, Bytes, arith}
use tftpserver.Prelude.Int.{pos, negsuc}
use tftpserver.Server.Lifecycle.{
  initial_lifecycle, Answers, start, LifecycleCall, start_call, stop_call, perform_all, Round,
  server_loop,
}
use tftpserver.Server.Lifecycle.Sound.{IsSound, perform_all-IsSound}
use tftpserver.Server.Lifecycle.Loop.{Served, server_loop-Served}
use tftpserver.System.{socket_call, setsockopt_call, bind_call, close_call}
use tftpserver.Tests.{client}

-- The first call of `bind` fails, and the second Start succeeds.
abbrev good_answers : Answers
good_answers = record { socket = pos 4; setsockopt = pos 0; bind = pos 0 }

abbrev lifecycle_calls : List LifecycleCall
lifecycle_calls =
    start_call 8 0 (record { socket = pos 3; setsockopt = pos 0; bind = negsuc 0 })
    ∷ start_call 8 0 good_answers
    ∷ stop_call
    ∷ []

failed_start :
    (start 8 0
      (record { socket = pos 3; setsockopt = pos 0; bind = negsuc 0 })
      initial_lifecycle).1.log
    ≡ close_call (pos 3) ∷ bind_call (pos 3) ∷ setsockopt_call (pos 3) ∷ socket_call (pos 3) ∷ []
unfolding start
failed_start = refl

perform_all-IsSound_example : IsSound (perform_all lifecycle_calls initial_lifecycle)
perform_all-IsSound_example = perform_all-IsSound lifecycle_calls

abbrev zeros : ℕ → Bytes
zeros ℕ.zero = []
zeros (ℕ.suc n) = 0 ∷ zeros n

-- A round that brings a datagram of four bytes.
abbrev full_round : Round
full_round = record {
  flag = true;
  recvlen = pos 4;
  buffer = zeros 516;
  client = client;
  pool_there = true;
  shutting_down = false;
  submits = true;
}

-- A datagram, a failed `recvfrom`, a datagram when the pool is shutting down, and the cleared flag.
abbrev some_rounds : List Round
some_rounds =
    full_round
    ∷ record full_round { recvlen = negsuc 0 }
    ∷ record full_round { shutting_down = true }
    ∷ record full_round { flag = false }
    ∷ []

server_loop-Served_example : Served some_rounds (server_loop some_rounds)
server_loop-Served_example =
    server_loop-Served some_rounds
      ((refl, omega arith), ((refl, omega arith), ((refl, omega arith), ((refl, omega arith), tt))))
