-- ===== src/Dtls/Socket/Examples.antt =====
-- A socket that gets two datagrams, an error, and another datagram. See DTLS/dtls_socket.cpp.
use helpz.Prelude.{◌≡◌, refl, true, List, [], ◌∷◌}
use helpz.Dtls.Socket.{Socket, Reception, datagram, failure, start_receive, receive_all}
use helpz.Dtls.Socket.Receives.{datagrams_in_order}

abbrev idle_socket : Socket
idle_socket = record { has_socket = true; receives = 0; processed = []; sends = []; messages = 0 }

abbrev receptions : List Reception
receptions = datagram 1 (5 ∷ []) ∷ (datagram 2 (6 ∷ []) ∷ (failure ∷ (datagram 1 (7 ∷ []) ∷ [])))

datagrams_in_order_example :
    ((receive_all (λ endpoint. true) receptions (start_receive idle_socket)).processed
      ≡ (1, 5 ∷ []) ∷ ((2, 6 ∷ []) ∷ []))
    × ((receive_all (λ endpoint. true) receptions (start_receive idle_socket)).receives ≡ 0)
unfolding start_receive
datagrams_in_order_example =
    datagrams_in_order (λ endpoint. true) receptions (start_receive idle_socket) refl refl
