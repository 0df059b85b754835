-- ===== src/Dtls/Clients/Frozen.antt =====
-- The clients that `remove_frozen_clients` takes away. See DTLS/dtls_server_controller.cpp.
use helpz.Prelude.{
  ℕ, ◌-◌, ◌⊎◌, All, Option-cases, ◌≤◌, ◌<◌, ◌≡◌, refl, ap, subst, ◌∙◌, inl, inr, true, false, [],
  ◌∷◌, none, some, arith, Bool-cases, ◌==◌, lookup, emplace, KeysFrom, lookup-emplace,
  emplace-KeysFrom, ==_refl,
}
use helpz.Dtls.Node.{Node}
use helpz.Dtls.Clients.{
  Clients, find_client, server_node, get_node, is_frozen, check_frozen_clients, erase_frozen,
  remove_frozen_clients,
}
use helpz.Dtls.Clients.Lookup.{new_client}
use helpz.Dtls.Clients.Removed.{without, kept, lookup-kept}

erase_frozen-kept :
    (now frozen_timeout : ℕ) (clients : Clients)
    → (erase_frozen now frozen_timeout clients).1 ≡ kept (is_frozen now frozen_timeout) clients
unfolding erase_frozen
erase_frozen-kept now frozen_timeout [] = refl
erase_frozen-kept now frozen_timeout ((endpoint, node) ∷ rest) =
    elim (Bool-cases (is_frozen now frozen_timeout node)) [
      | inl e ↦ rw e (erase_frozen-kept now frozen_timeout rest)
      | inr e ↦ rw e (ap (λ t. (endpoint, node) ∷ t) (erase_frozen-kept now frozen_timeout rest))
    ]

-- Who is frozen stays so.
check_frozen_clients-kept :
    (checked now frozen_timeout : ℕ) (clients : Clients)
    → checked ≤ now
    → check_frozen_clients checked frozen_timeout (kept (is_frozen now frozen_timeout) clients)
      ≡ false
unfolding check_frozen_clients
check_frozen_clients-kept checked now frozen_timeout [] h = refl
check_frozen_clients-kept checked now frozen_timeout ((endpoint, node) ∷ rest) h =
    let rest_lem = check_frozen_clients-kept checked now frozen_timeout rest h in
    elim (Bool-cases (is_frozen now frozen_timeout node)) [
      | inl e ↦ rw e rest_lem
      | inr e ↦
          let fresh : is_frozen checked frozen_timeout node ≡ false = ground arith in
          rw e (rw fresh rest_lem)
    ]

-- A node that has been heard within the timeout at a time.
abbrev pub IsHeard : ℕ → ℕ → ℕ × Node → Type 0
IsHeard time frozen_timeout e = time - e.1.last_msg_recv_time ≤ frozen_timeout

All-IsHeard :
    (time frozen_timeout : ℕ) (clients : Clients)
    → check_frozen_clients time frozen_timeout clients ≡ false
    → All (IsHeard time frozen_timeout) clients
unfolding check_frozen_clients
All-IsHeard time frozen_timeout [] h = tt
All-IsHeard time frozen_timeout ((endpoint, node) ∷ rest) h =
    elim (Bool-cases (is_frozen time frozen_timeout node)) [
      | inl e ↦ cc (rw e at h)
      | inr e ↦ (ground (arith, e), All-IsHeard time frozen_timeout rest (rw e at h))
    ]

-- After `remove_frozen_clients` each client that is left had been heard within the timeout at the time of
-- the check, whoever was there before. Under an endpoint stands what stood there, or nothing where a
-- client stood that had not been heard within the timeout at the later time of the loop. The keys of the
-- map rise.
pub remove_frozen_clients_lem :
    (checked now frozen_timeout endpoint : ℕ) (clients : Clients)
    → KeysFrom 0 clients
    → checked ≤ now
    → let left = (remove_frozen_clients checked now frozen_timeout clients).1 in
      All (IsHeard checked frozen_timeout) left
      × ((find_client endpoint left ≡ find_client endpoint clients)
          ⊎ ((node : Node) × (find_client endpoint clients ≡ some node)
              × (frozen_timeout < now - node.last_msg_recv_time)
              × (find_client endpoint left ≡ none)))
unfolding remove_frozen_clients find_client
remove_frozen_clients_lem checked now frozen_timeout endpoint clients sorted h =
    elim (Bool-cases (check_frozen_clients checked frozen_timeout clients)) [
      | inl e ↦
          let after = lookup-kept (is_frozen now frozen_timeout) 0 endpoint clients sorted in
          rw (e, erase_frozen-kept now frozen_timeout clients)
            (
              All-IsHeard checked frozen_timeout (kept (is_frozen now frozen_timeout) clients)
                  (check_frozen_clients-kept checked now frozen_timeout clients h),
              elim (Option-cases (lookup endpoint clients)) [
                | inl absent ↦ inl (after ∙ rw absent refl)
                | inr (node, there) ↦ elim (Bool-cases (is_frozen now frozen_timeout node)) [
                  | inl frozen ↦
                      inr (node, there, ground (arith, frozen), after ∙ rw there (rw frozen refl))
                  | inr fresh ↦ inl (after ∙ rw there (rw fresh refl))
                ]
              ],
            )
      | inr e ↦ rw e (All-IsHeard checked frozen_timeout clients e, inl refl)
    ]

fresh_client :
    (checked frozen_timeout endpoint : ℕ) (node : Node) (clients : Clients)
    → check_frozen_clients checked frozen_timeout clients ≡ false
    → lookup endpoint clients ≡ some node
    → is_frozen checked frozen_timeout node ≡ false
unfolding check_frozen_clients
fresh_client checked frozen_timeout endpoint node [] h found = cc found
fresh_client checked frozen_timeout endpoint node ((key, other) ∷ rest) h found =
    elim (Bool-cases (is_frozen checked frozen_timeout other)) [
      | inl e ↦ cc (rw e at h)
      | inr e ↦ elim (Bool-cases (key == endpoint)) [
        | inl same ↦
            let there : other ≡ node = cc (rw same at found) in
            subst (λ z. is_frozen checked frozen_timeout z ≡ false) there e
        | inr differs ↦
            fresh_client checked frozen_timeout endpoint node rest (rw e at h) (rw differs at found)
      ]
    ]

frozen_removed :
    (checked now frozen_timeout endpoint : ℕ) (node : Node) (clients : Clients)
    → KeysFrom 0 clients
    → checked ≤ now
    → lookup endpoint clients ≡ some node
    → is_frozen checked frozen_timeout node ≡ true
    → lookup endpoint (remove_frozen_clients checked now frozen_timeout clients).1 ≡ none
unfolding remove_frozen_clients
frozen_removed checked now frozen_timeout endpoint node clients sorted h found frozen =
    elim (Bool-cases (check_frozen_clients checked frozen_timeout clients)) [
      | inl e ↦
          let still : is_frozen now frozen_timeout node ≡ true = ground arith in
          rw (e, erase_frozen-kept now frozen_timeout clients)
            (lookup-kept (is_frozen now frozen_timeout) 0 endpoint clients sorted
              ∙ (ap (without (is_frozen now frozen_timeout)) found ∙ rw still refl))
      | inr e ↦
          let fresh = fresh_client checked frozen_timeout endpoint node clients e found in
          cc (fresh, frozen)
    ]

-- A client that has just been made counts as frozen, since its last message is of the epoch: if the
-- next call that follows is `remove_frozen_clients`, the client is taken away. The time since the
-- epoch is longer than the timeout, and the keys of the map rise.
pub new_client_removed :
    (checked now frozen_timeout endpoint : ℕ) (clients : Clients)
    → KeysFrom 0 clients
    → find_client endpoint clients ≡ none
    → frozen_timeout < checked
    → checked ≤ now
    → find_client endpoint
        (remove_frozen_clients checked now frozen_timeout (get_node endpoint clients).1).1
      ≡ none
unfolding find_client
new_client_removed checked now frozen_timeout endpoint clients sorted absent late h =
    rw (new_client endpoint clients sorted absent) (
      frozen_removed checked now frozen_timeout endpoint (server_node endpoint)
        (emplace endpoint (server_node endpoint) clients)
        (emplace-KeysFrom 0 endpoint (server_node endpoint) clients (omega arith) sorted) h
        (lookup-emplace 0 endpoint endpoint (server_node endpoint) clients sorted absent
          ∙ rw (==_refl endpoint) refl)
        (ground arith))
