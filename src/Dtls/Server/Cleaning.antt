-- ===== src/Dtls/Server/Cleaning.antt =====
-- When the clients of a server are cleaned. See DTLS/dtls_server.cpp.
use helpz.Prelude.{ℕ, ◌+◌, ◌*◌, ◌≡◌, Bool, true, false, List, [], ◌∷◌, arith, length, map}
use helpz.Dtls.Server.{Server, cleaning, cleanings}

-- Rounds without an error.
abbrev pub rounds_at : List (ℕ × ℕ) → List (Bool × (ℕ × ℕ))
rounds_at = map (λ (t : ℕ × ℕ). (false, t))

-- Without errors the timer stays armed and its times do not drift: after each number of rounds it ends that
-- many timeouts later, whenever the handler ran.
pub cleanings_lem :
    (times : List (ℕ × ℕ)) (server : Server)
    → server.is_armed ≡ true
    → let last = (cleanings (rounds_at times) server).0 in
      (last.is_armed ≡ true)
      × (last.expiry ≡ server.expiry + length times * server.cleaning_timeout)
unfolding cleanings cleaning
cleanings_lem [] server armed = (armed, omega arith)
cleanings_lem ((checked, now) ∷ times) server armed =
    let next = (cleaning false checked now server).0 in
    let rest = cleanings_lem times next armed in
    (ground (arith, armed, rest.0), ground (arith, armed, rest.1))

-- After an error nothing is cleaned any more.
pub cleanings_end :
    (checked now : ℕ) (rounds : List (Bool × (ℕ × ℕ))) (server : Server)
    → server.is_armed ≡ true
    → cleanings ((true, (checked, now)) ∷ rounds) server ≡ (record server { is_armed = false }, [])
unfolding cleanings cleaning
cleanings_end checked now [] server armed = ground (arith, armed)
cleanings_end checked now ((err, (c, n)) ∷ rounds) server armed = ground (arith, armed)
