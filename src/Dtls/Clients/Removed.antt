-- ===== src/Dtls/Clients/Removed.antt =====
-- The clients that `remove_copy` takes away. See DTLS/dtls_server_controller.cpp.
use helpz.Prelude.{
  List, ◌++◌, not, ◌∙◌, ℕ, suc, ◌≡◌, refl, sym, ap, inl, inr, ◌≢◌, ◌⊎◌, Option-cases, Bool, true,
  false, [], ◌∷◌, Option, none, some, arith, Bool-cases, ◌==◌, if◌then◌else◌, lookup, KeysFrom,
  lookup_below, KeysFrom-mono,
}
use helpz.Dtls.Node.{Notice, Node, before_remove_copy, proto_closed, writer_reset, channel_closed}
use helpz.Dtls.Clients.{
  copy_notices, Clients, find_client, is_copy, check_copy, erase_copies, remove_copy,
}

-- A client that does not pass the test.
abbrev pub without : (Node → Bool) → Option Node → Option Node
without test none = none
without test (some node) = if test node then none else some node

-- The clients that do not pass the test.
abbrev pub kept : (Node → Bool) → Clients → Clients
kept test [] = []
kept test ((endpoint, node) ∷ rest) =
    let rest_kept = kept test rest in if test node then rest_kept else (endpoint, node) ∷ rest_kept

pub kept-KeysFrom :
    (test : Node → Bool) (lo : ℕ) (clients : Clients)
    → KeysFrom lo clients
    → KeysFrom lo (kept test clients)
kept-KeysFrom test lo [] s = tt
kept-KeysFrom test lo ((endpoint, node) ∷ rest) s = ground (
  arith,
  kept-KeysFrom test (suc endpoint) rest s.1,
  KeysFrom-mono {lo = lo} {hi = suc endpoint} (kept test rest),
)

pub lookup-kept :
    (test : Node → Bool) (lo endpoint : ℕ) (clients : Clients)
    → KeysFrom lo clients
    → lookup endpoint (kept test clients) ≡ without test (lookup endpoint clients)
lookup-kept test lo endpoint [] s = refl
lookup-kept test lo endpoint ((key, node) ∷ rest) s =
    let rest_lem = lookup-kept test (suc key) endpoint rest s.1 in
    let above =
      lookup_below endpoint (suc key) (kept test rest) (kept-KeysFrom test (suc key) rest s.1) in
    elim (Bool-cases (test node)) [
      | inl passes ↦ elim (Bool-cases (key == endpoint)) [
        | inl same ↦ rw (passes, same) (rw passes (above (ground arith)))
        | inr other ↦ rw (passes, other) rest_lem
      ]
      | inr fails ↦ elim (Bool-cases (key == endpoint)) [
        | inl same ↦ rw (fails, same) (rw fails refl)
        | inr other ↦ rw (fails, other) rest_lem
      ]
    ]

erase_copies-kept :
    (same : ℕ → ℕ → Bool) (client : ℕ) (clients : Clients)
    → (erase_copies same client clients).1 ≡ kept (is_copy same client) clients
unfolding erase_copies
erase_copies-kept same client [] = refl
erase_copies-kept same client ((endpoint, node) ∷ rest) =
    elim (Bool-cases (is_copy same client node)) [
      | inl e ↦ rw e (erase_copies-kept same client rest)
      | inr e ↦ rw e (ap (λ t. (endpoint, node) ∷ t) (erase_copies-kept same client rest))
    ]

no_copy-kept :
    (same : ℕ → ℕ → Bool) (client : ℕ) (clients : Clients)
    → check_copy same client clients ≡ false
    → kept (is_copy same client) clients ≡ clients
unfolding check_copy
no_copy-kept same client [] h = refl
no_copy-kept same client ((endpoint, node) ∷ rest) h =
    elim (Bool-cases (is_copy same client node)) [
      | inl e ↦ cc (rw e at h)
      | inr e ↦ rw e (ap (λ t. (endpoint, node) ∷ t) (no_copy-kept same client rest (rw e at h)))
    ]

removed :
    (same : ℕ → ℕ → Bool) (client : ℕ) (clients : Clients)
    → (remove_copy same client clients).1 ≡ kept (is_copy same client) clients
unfolding remove_copy
removed same client clients = elim (Bool-cases (check_copy same client clients)) [
  | inl e ↦ rw e (erase_copies-kept same client clients)
  | inr e ↦ rw e (sym (no_copy-kept same client clients e))
]

-- What each of the clients is told, in the order of the map.
unfoldable pub all_notices : Clients → List Notice
all_notices [] = []
all_notices ((endpoint, node) ∷ rest) = copy_notices node ++ all_notices rest

-- The clients that pass the test.
abbrev pub chosen : (Node → Bool) → Clients → Clients
chosen test clients = kept (λ node. not (test node)) clients

erase_copies-all_notices :
    (same : ℕ → ℕ → Bool) (client : ℕ) (clients : Clients)
    → (erase_copies same client clients).0 ≡ all_notices (chosen (is_copy same client) clients)
unfolding erase_copies all_notices
erase_copies-all_notices same client [] = refl
erase_copies-all_notices same client ((endpoint, node) ∷ rest) =
    elim (Bool-cases (is_copy same client node)) [
      | inl e ↦ rw e (ap (λ t. copy_notices node ++ t) (erase_copies-all_notices same client rest))
      | inr e ↦ rw e (erase_copies-all_notices same client rest)
    ]

no_copy-chosen :
    (same : ℕ → ℕ → Bool) (client : ℕ) (clients : Clients)
    → check_copy same client clients ≡ false
    → chosen (is_copy same client) clients ≡ []
unfolding check_copy
no_copy-chosen same client [] h = refl
no_copy-chosen same client ((endpoint, node) ∷ rest) h =
    elim (Bool-cases (is_copy same client node)) [
      | inl e ↦ cc (rw e at h)
      | inr e ↦ rw e (no_copy-chosen same client rest (rw e at h))
    ]

told :
    (same : ℕ → ℕ → Bool) (client : ℕ) (clients : Clients)
    → (remove_copy same client clients).0 ≡ all_notices (chosen (is_copy same client) clients)
unfolding remove_copy all_notices
told same client clients = elim (Bool-cases (check_copy same client clients)) [
  | inl e ↦ rw e (erase_copies-all_notices same client clients)
  | inr e ↦ rw e (rw (no_copy-chosen same client clients e) refl)
]

-- The protocol of a node is not the given one but equal to it; or there is none, or it is not so.
copy_cases :
    (same : ℕ → ℕ → Bool) (client : ℕ) (node : Node)
    → ((p : ℕ) × (node.protocol ≡ some p)
        × (p ≢ client)
        × (same p client ≡ true)
        × (is_copy same client node ≡ true))
      ⊎ (((node.protocol ≡ none)
            ⊎ ((p : ℕ) × (node.protocol ≡ some p) × ((p ≡ client) ⊎ (same p client ≡ false))))
          × (is_copy same client node ≡ false))
copy_cases same client node = elim (Option-cases node.protocol) [
  | inl nobody ↦ inr (inl nobody, rw nobody refl)
  | inr (p, there) ↦ elim (Bool-cases (p == client)) [
    | inl own ↦ inr (inr (p, there, inl (ground (arith, own))), rw (there, own) refl)
    | inr differs ↦ elim (Bool-cases (same p client)) [
      | inl equal ↦ inl (p, there, ground (arith, differs), equal, rw (there, differs, equal) refl)
      | inr unequal ↦ inr (inr (p, there, inr unequal), rw (there, differs, unequal) refl)
    ]
  ]
]

-- What the clients with another protocol that is equal to the given one are told, in the order of the map:
-- that a copy is removed, that the connection is closed, and that there is no writer any more; then the
-- channel, if there is one, is closed.
unfoldable pub farewells : (ℕ → ℕ → Bool) → ℕ → Clients → List Notice
farewells same client [] = []
farewells same client ((endpoint, node) ∷ rest) =
    elim node.protocol [
      | none ↦ []
      | some p ↦
          if p == client
          then []
          else if same p client
          then before_remove_copy p
            ∷ (proto_closed p
                ∷ (writer_reset p
                    ∷ (if node.has_channel
                        then channel_closed node.receiver_endpoint ∷ []
                        else [])))
          else []
    ]
    ++ farewells same client rest

all_notices-farewells :
    (same : ℕ → ℕ → Bool) (client : ℕ) (clients : Clients)
    → all_notices (chosen (is_copy same client) clients) ≡ farewells same client clients
unfolding all_notices farewells
all_notices-farewells same client [] = refl
all_notices-farewells same client ((endpoint, node) ∷ rest) =
    let others = all_notices-farewells same client rest in
    elim (Option-cases node.protocol) [
      | inl nobody ↦ rw nobody others
      | inr (p, there) ↦ elim (Bool-cases (p == client)) [
        | inl own ↦ rw (there, own) others
        | inr differs ↦ elim (Bool-cases (same p client)) [
          | inl equal ↦ ground (arith, there, differs, equal, others)
          | inr unequal ↦ rw (there, differs, unequal) others
        ]
      ]
    ]

-- `remove_copy` takes away the clients with another protocol that is equal to the given one, and no
-- others: what stood under an endpoint is gone exactly if it is a node whose protocol is not the given one
-- and equal to it, and else stands there still. Each of those, in the order of the map, and nobody else, is
-- told that a copy is removed and that its connection is closed, loses its writer and has its channel
-- closed. The keys of the map rise, before and after.
pub remove_copy_lem :
    (same : ℕ → ℕ → Bool) (client endpoint : ℕ) (clients : Clients)
    → KeysFrom 0 clients
    → let before = find_client endpoint clients in
      let after = find_client endpoint (remove_copy same client clients).1 in
      (((before ≡ none) × (after ≡ none))
        ⊎ ((node : Node) × (before ≡ some node)
            × (((p : ℕ) × (node.protocol ≡ some p)
                  × (p ≢ client)
                  × (same p client ≡ true)
                  × (after ≡ none))
                ⊎ (((node.protocol ≡ none)
                      ⊎ ((p : ℕ) × (node.protocol ≡ some p)
                          × ((p ≡ client) ⊎ (same p client ≡ false))))
                    × (after ≡ some node)))))
      × (KeysFrom 0 (remove_copy same client clients).1
          × ((remove_copy same client clients).0 ≡ farewells same client clients))
unfolding find_client
remove_copy_lem same client endpoint clients sorted =
    let after =
      ap (lookup endpoint) (removed same client clients)
      ∙ lookup-kept (is_copy same client) 0 endpoint clients sorted in
    (
      elim (Option-cases (lookup endpoint clients)) [
        | inl absent ↦ inl (absent, after ∙ rw absent refl)
        | inr (node, there) ↦ inr (
          node,
          there,
          elim (copy_cases same client node) [
            | inl (p, has, other, equal, copy) ↦
                inl (p, has, other, equal, after ∙ rw there (rw copy refl))
            | inr (known, no_copy) ↦ inr (known, after ∙ rw there (rw no_copy refl))
          ],
        )
      ],
      (
        rw (removed same client clients) (kept-KeysFrom (is_copy same client) 0 clients sorted),
        told same client clients ∙ all_notices-farewells same client clients,
      ),
    )
