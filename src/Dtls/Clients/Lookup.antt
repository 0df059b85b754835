-- ===== src/Dtls/Clients/Lookup.antt =====
-- The clients that `get_node` finds or makes. See DTLS/dtls_server_controller.cpp.
use helpz.Prelude.{
  ℕ, ◌≡◌, refl, ◌∙◌, inl, inr, false, none, some, arith, Option-cases, ◌==◌, lookup, emplace,
  KeysFrom, lookup-emplace, emplace-KeysFrom, ==_refl,
}
use helpz.Dtls.Node.{Node}
use helpz.Dtls.Clients.{Clients, find_client, server_node, create_client, get_node}

pub new_client :
    (endpoint : ℕ) (clients : Clients)
    → KeysFrom 0 clients
    → lookup endpoint clients ≡ none
    → get_node endpoint clients
      ≡ (some (server_node endpoint), emplace endpoint (server_node endpoint) clients)
unfolding get_node create_client find_client
new_client endpoint clients sorted e =
    let found : lookup endpoint (emplace endpoint (server_node endpoint) clients)
        ≡ some (server_node endpoint) =
      lookup-emplace 0 endpoint endpoint (server_node endpoint) clients sorted e
      ∙ rw (==_refl endpoint) refl in
    rw (get_node, e) (rw (create_client, e) (rw found refl))

old_client :
    (endpoint : ℕ) (node : Node) (clients : Clients)
    → lookup endpoint clients ≡ some node
    → get_node endpoint clients ≡ (some node, clients)
unfolding get_node find_client
old_client endpoint node clients e = rw (get_node, e) refl

-- `get_node` gives a node for every endpoint: the client that is there, or else a new one, which
-- stays under its endpoint. What stands under another endpoint stays, and the keys of
-- the map rise, before and after.
pub get_node_lem :
    (endpoint other : ℕ) (clients : Clients)
    → KeysFrom 0 clients
    → (endpoint == other) ≡ false
    → ((get_node endpoint clients).0
        ≡ some (elim (find_client endpoint clients) [
          | none ↦ server_node endpoint
          | some node ↦ node
        ]))
      × ((find_client endpoint (get_node endpoint clients).1 ≡ (get_node endpoint clients).0)
          × ((find_client other (get_node endpoint clients).1 ≡ find_client other clients)
              × KeysFrom 0 (get_node endpoint clients).1))
unfolding find_client
get_node_lem endpoint other clients sorted differs = elim (Option-cases (lookup endpoint clients)) [
  | inl e ↦
      let new : Node = server_node endpoint in
      rw (new_client endpoint clients sorted e, e)
        (
          refl,
          (
            lookup-emplace 0 endpoint endpoint new clients sorted e ∙ rw (==_refl endpoint) refl,
            (
              lookup-emplace 0 endpoint other new clients sorted e ∙ rw differs refl,
              emplace-KeysFrom 0 endpoint new clients (omega arith) sorted,
            ),
          ),
        )
  | inr (node, e) ↦ rw (old_client endpoint node clients e, e) (refl, (refl, (refl, sorted)))
]
