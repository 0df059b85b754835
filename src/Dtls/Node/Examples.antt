-- ===== src/Dtls/Node/Examples.antt =====
-- The theorems on `Node` of DTLS/dtls_node.cpp at small inputs, and tests.
use helpz.Prelude.{
  ℕ, suc, ◌≡◌, refl, Bool, true, false, Option, none, some, List, [], ◌∷◌, ◌++◌, map, arith, leb,
  ◌==◌, if◌then◌else◌,
}
use helpz.Dtls.Node.{
  Notice, Node, tally, writer_set, writer_reset, proto_closed, ready_write, bytes_processed, sent,
  channel_closed,
}
use helpz.Dtls.Node.Calls.{received, bytes_written, closed, calls}
use helpz.Dtls.Node.Channel.{
  record_received, alert, emit_data, Call, Channel, client, After, process_received_data,
}
use helpz.Dtls.Node.Writers.{Balanced, calls-Balanced}
use helpz.Dtls.Node.Handshake.{Steady, handshake_lem, is_gentle, tells_ready}
use helpz.Dtls.Node.Faults.{close_notify_faults}

-- A channel that is active from the second datagram on: it answers what comes before with a flight,
-- and takes what comes later for a record.
abbrev toy_call : Bool → List ℕ → ℕ → Call ℕ
toy_call throws bytes c = record {
  callbacks = (if leb 2 c then record_received bytes else emit_data (c ∷ [])) ∷ [];
  throws = throws;
  channel = suc c;
}

abbrev toy : Channel ℕ
toy = record {
  is_active = λ c. leb 2 c;
  received_data = toy_call false;
  timeout_check = λ c. ([], c);
  send = λ bytes c. record { callbacks = emit_data bytes ∷ []; throws = false; channel = c };
}

-- The same, but the call in which it gets active throws.
abbrev failing : Channel ℕ
failing = record toy { received_data = λ bytes c. toy_call (c == 1) bytes c }

-- It answers a close notification with one of its own.
abbrev closing : Channel ℕ
closing = record toy {
  received_data = λ bytes c. record {
    callbacks = alert true ∷ (emit_data (21 ∷ []) ∷ []);
    throws = false;
    channel = c;
  };
}

abbrev create : ℕ → Option ℕ
create c = some 7

abbrev node : Node
node = record { receiver_endpoint = 1; protocol = none; has_channel = true; last_msg_recv_time = 0 }

abbrev datagrams : List (List ℕ)
datagrams = (5 ∷ []) ∷ ((6 ∷ []) ∷ ((8 ∷ []) ∷ []))

toy_stays :
    (bytes : List ℕ) (c : ℕ)
    → toy.is_active c ≡ true
    → toy.is_active (toy.received_data bytes c).channel ≡ true
toy_stays bytes c h = ground arith

gentle_call :
    (b : Bool) (bytes : List ℕ) (c : ℕ)
    → is_gentle (if b then record_received bytes else emit_data (c ∷ [])) ≡ true
gentle_call true bytes c = refl
gentle_call false bytes c = refl

toy-Steady : Steady toy
toy-Steady = record {
  stays = toy_stays;
  checked = λ c. refl;
  returns = λ bytes c. refl;
  gentle = λ bytes c. (gentle_call (leb 2 c) bytes c, tt);
}

-- What the calls tell: a flight for each datagram of the handshake, then the protocol, then a record.
abbrev told : List Notice
told =
    sent 1 (0 ∷ [])
    ∷ (sent 1 (1 ∷ []) ∷ (writer_set 7 ∷ (ready_write 7 ∷ (bytes_processed 7 (8 ∷ []) ∷ []))))

runs :
    calls toy (client create) (map received datagrams) 0 node
    ≡ some (record {
      notices = told;
      channel = 3;
      node = record node { protocol = some 7 };
      throws = false;
    })
unfolding calls
runs = refl

handshake_lem_example :
    (a : After ℕ) × (calls toy (client create) (map received datagrams) 0 node ≡ some a)
    × (a.node.protocol ≡ (if toy.is_active a.channel then some 7 else none))
    × (tally tells_ready a.notices ≡ (if toy.is_active a.channel then 1 else 0))
handshake_lem_example =
    handshake_lem create toy 7 (λ c. refl) toy-Steady datagrams 0 node refl refl refl

abbrev calls_then : After ℕ
calls_then = record {
  notices =
      told ++ (sent 1 (9 ∷ []) ∷ (proto_closed 7 ∷ (writer_reset 7 ∷ (channel_closed 1 ∷ []))));
  channel = 3;
  node = record node { has_channel = false };
  throws = false;
}

runs_then :
    calls toy
      (client create)
      (received (5 ∷ [])
        ∷ (received (6 ∷ []) ∷ (received (8 ∷ []) ∷ (bytes_written (9 ∷ []) ∷ (closed ∷ [])))))
      0
      node
    ≡ some calls_then
unfolding calls
runs_then = refl

calls-Balanced_example : Balanced 7 calls_then.notices none none
calls-Balanced_example =
    calls-Balanced create toy 7
      (received (5 ∷ [])
        ∷ (received (6 ∷ []) ∷ (received (8 ∷ []) ∷ (bytes_written (9 ∷ []) ∷ (closed ∷ [])))))
      0 node calls_then runs_then

abbrev lost_then : After ℕ
lost_then = record { notices = sent 1 (1 ∷ []) ∷ []; channel = 3; node = node; throws = false }

close_notify_faults_example :
    process_received_data closing (client create) (21 ∷ []) 2 (record node { protocol = some 7 })
    ≡ none
close_notify_faults_example =
    close_notify_faults (client create) closing (21 ∷ []) 2 (record node { protocol = some 7 }) 7 []
      (emit_data (21 ∷ [])) [] refl refl refl
