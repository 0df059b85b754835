-- ===== src/Dtls/Socket/Receives.antt =====
-- What a socket of a server hands over of what comes in. See DTLS/dtls_socket.cpp.
use helpz.Prelude.{
  ℕ, ◌≡◌, refl, ap, sym, ◌∙◌, Bool, true, false, List, [], ◌∷◌, ◌++◌, arith, if◌then◌else◌,
  append_assoc, append-nil,
}
use helpz.Dtls.Socket.{
  Socket, Reception, datagram, failure, start_receive, handle_receive, error_message, receive_one,
  receive_all,
}

-- The datagrams before the first error, of endpoints with a node.
abbrev pub before_failure : (ℕ → Bool) → List Reception → List (ℕ × List ℕ)
before_failure has_node [] = []
before_failure has_node (failure ∷ receptions) = []
before_failure has_node (datagram endpoint bytes ∷ receptions) =
    (if has_node endpoint then (endpoint, bytes) ∷ [] else []) ++ before_failure has_node receptions

abbrev pub has_failure : List Reception → Bool
has_failure [] = false
has_failure (failure ∷ receptions) = true
has_failure (datagram endpoint bytes ∷ receptions) = has_failure receptions

module _ (has_node : ℕ → Bool) where
  one_deaf :
      (reception : Reception) (socket : Socket)
      → socket.receives ≡ 0
      → receive_one has_node reception socket ≡ socket
  unfolding receive_one
  one_deaf reception socket none_left = ground (arith, none_left)

  -- With no receive under way nothing is done.
  deaf :
      (receptions : List Reception) (socket : Socket)
      → socket.receives ≡ 0
      → receive_all has_node receptions socket ≡ socket
  unfolding receive_all
  deaf [] socket none_left = refl
  deaf (reception ∷ receptions) socket none_left =
      ap (receive_all has_node receptions) (one_deaf reception socket none_left)
      ∙ deaf receptions socket none_left

  one_failure :
      (socket : Socket)
      → socket.receives ≡ 1
      → ((receive_one has_node failure socket).processed ≡ socket.processed)
        × ((receive_one has_node failure socket).receives ≡ 0)
  unfolding receive_one handle_receive error_message
  one_failure socket one = ground (arith, one)

  one_datagram :
      (endpoint : ℕ) (bytes : List ℕ) (socket : Socket)
      → socket.has_socket ≡ true
      → socket.receives ≡ 1
      → ((receive_one has_node (datagram endpoint bytes) socket).has_socket ≡ true)
        × ((receive_one has_node (datagram endpoint bytes) socket).receives ≡ 1)
        × ((receive_one has_node (datagram endpoint bytes) socket).processed
            ≡ socket.processed ++ (if has_node endpoint then (endpoint, bytes) ∷ [] else []))
  unfolding receive_one handle_receive start_receive
  one_datagram endpoint bytes socket has one = ground (arith, has, one, append-nil socket.processed)

  -- What a socket of a server hands over: with one receive under way at first, the
  -- datagrams that come in before the first error, in their order and each once, but for those of
  -- endpoints without a node. Behind the first error none is handed over, and no receive is under way
  -- then; without an error one is.
  pub datagrams_in_order :
      (receptions : List Reception) (socket : Socket)
      → socket.has_socket ≡ true
      → socket.receives ≡ 1
      → ((receive_all has_node receptions socket).processed
          ≡ socket.processed ++ before_failure has_node receptions)
        × ((receive_all has_node receptions socket).receives
            ≡ (if has_failure receptions then 0 else 1))
  unfolding receive_all
  datagrams_in_order [] socket has one = (sym (append-nil socket.processed), one)
  datagrams_in_order (failure ∷ receptions) socket has one =
      let (same, none_left) = one_failure socket one in
      let stays = deaf receptions (receive_one has_node failure socket) none_left in
      (
        ap (λ s. s.processed) stays ∙ (same ∙ sym (append-nil socket.processed)),
        ap (λ s. s.receives) stays ∙ none_left,
      )
  datagrams_in_order (datagram endpoint bytes ∷ receptions) socket has one =
      let (has_still, one_again, handed) = one_datagram endpoint bytes socket has one in
      let (processed, receives) =
        datagrams_in_order receptions (receive_one has_node (datagram endpoint bytes) socket)
          has_still one_again in
      (
        processed
            ∙ (ap (λ p. p ++ before_failure has_node receptions) handed
                ∙ append_assoc socket.processed
                    (if has_node endpoint then (endpoint, bytes) ∷ [] else [])
                    (before_failure has_node receptions)),
        receives,
      )
