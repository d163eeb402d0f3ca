-- ===== src/Server/Names.antt =====
-- A new connection has a name that no other connection has.
use cpp_ai_service.Base.{
  ℕ, ◌+◌, ◌^◌, ◌<◌, ◌≤◌, ◌≡◌, ◌∙◌, refl, sym, ap, subst, List, [], ◌∷◌, Bytes, Option, none, some,
  length, arith, Bool-cases, Option-cases, inl, inr, same_bytes, same_bytes_iff,
}
use cpp_ai_service.Base.Dictionary.{bytes_key, lookup, assign, lookup-assign, lookup-erase}
use cpp_ai_service.Server.LoopPool.{LoopPool, get_next_loop}
use cpp_ai_service.Server.Acceptance.{
  Peer, TcpServer, new_server, run_in, connection_name, add_connection, new_connection, handle_read,
  remove_connection_in_loop, ServerEvent, accepting, removing, serve_one, serve,
}
use cpp_ai_service.Server.Identifiers.{name_inj}

some_inj : {s t : TcpServer} → some s ≡ some t → s ≡ t
some_inj {s} e = ap (λ (o : Option TcpServer). elim o [ some t ↦ t | none ↦ s ]) e

-- Every connection in the map has the name of an identifier that was given out.
record IsNamed (s : TcpServer) : Type 0 where
  named :
      (k : Bytes) (peer : Peer)
      → lookup k s.connections ≡ some peer
      → (id : ℕ) × (id < s.next_conn_id) × (k ≡ connection_name s id)

removed-IsNamed :
    (s : TcpServer) (peer : Peer) → IsNamed s → IsNamed (remove_connection_in_loop s peer)
unfolding remove_connection_in_loop run_in connection_name
removed-IsNamed s peer n = record {
  named = λ k other e. n.named k other (ground (arith, lookup-erase peer.name k s.connections, e));
}

-- A connection that is accepted is the one that is put into the map.
new_connection_lem :
    (s after : TcpServer) (sockfd : ℕ)
    → new_connection s sockfd ≡ some after
    → (peer : Peer) × (peer.name ≡ connection_name s s.next_conn_id)
      × (after.connections ≡ assign peer.name peer s.connections)
      × (after.next_conn_id ≡ s.next_conn_id + 1)
      × (after.name ≡ s.name)
      × (after.ip_port ≡ s.ip_port)
unfolding new_connection add_connection run_in
new_connection_lem s after sockfd e = elim (Option-cases (get_next_loop s.pool).0) [
  | inl none_found ↦ absurd (ground (arith, none_found, e))
  | inr (loop, found) ↦
      let peer : Peer = record {
        name = connection_name s s.next_conn_id;
        sockfd = sockfd;
        loop = loop;
      } in
      let made =
        add_connection
          (record s { pool = (get_next_loop s.pool).1; next_conn_id = s.next_conn_id + 1 }) peer in
      let done : new_connection s sockfd ≡ some made = rw found refl in
      let same : made ≡ after = some_inj (sym done ∙ e) in
      (
        peer,
        refl,
        sym (ap (λ (t : TcpServer). t.connections) same),
        sym (ap (λ (t : TcpServer). t.next_conn_id) same),
        sym (ap (λ (t : TcpServer). t.name) same),
        sym (ap (λ (t : TcpServer). t.ip_port) same),
      )
]

-- The names go by the name and the address of the server.
same_names :
    (s after : TcpServer) (id : ℕ)
    → after.name ≡ s.name
    → after.ip_port ≡ s.ip_port
    → connection_name after id ≡ connection_name s id
unfolding connection_name
same_names s after id e f = rw (e, f) refl

-- Where the next name is in the map, an identifier was given out twice.
next_free :
    (s : TcpServer)
    → length s.ip_port ≤ 21
    → s.next_conn_id < 2 ^ 31
    → IsNamed s
    → lookup (connection_name s s.next_conn_id) s.connections ≡ none
next_free s short small n =
    elim (Option-cases (lookup (connection_name s s.next_conn_id) s.connections)) [
      | inl e ↦ e
      | inr (peer, e) ↦
          let (id, before, same) = n.named (connection_name s s.next_conn_id) peer e in
          let twice =
            name_inj s s.next_conn_id id short small (omega (arith, before, small)) same in
          absurd (omega (arith, before, twice))
    ]

accepted-IsNamed :
    (s after : TcpServer) (sockfd : ℕ)
    → new_connection s sockfd ≡ some after
    → IsNamed s
    → IsNamed after
accepted-IsNamed s after sockfd e n =
    let (peer, name, connections, next, same_name, same_port) =
      new_connection_lem s after sockfd e in
    record {
      named = λ k other f.
          let found =
            sym (
              ap (λ (m : List (Bytes × Peer)). lookup k m) connections
              ∙ lookup-assign peer.name k peer s.connections)
            ∙ f in
          elim (Bool-cases (same_bytes peer.name k)) [
            | inl y ↦ (
              s.next_conn_id,
              omega (arith, next),
              sym ((same_bytes_iff peer.name k).0 y)
                  ∙ name
                  ∙ sym (same_names s after s.next_conn_id same_name same_port),
            )
            | inr y ↦
                let (id, before, same) = n.named k other (ground (arith, y, found)) in
                (
                  id,
                  omega (arith, before, next),
                  same ∙ sym (same_names s after id same_name same_port),
                )
          ];
    }

served-IsNamed :
    (events : List ServerEvent) (s after : TcpServer)
    → serve s events ≡ some after
    → IsNamed s
    → IsNamed after × (after.ip_port ≡ s.ip_port)
unfolding serve serve_one handle_read remove_connection_in_loop run_in
served-IsNamed [] s after e n =
    let same : s ≡ after = some_inj e in
    (subst IsNamed same n, sym (ap (λ (t : TcpServer). t.ip_port) same))
served-IsNamed (removing peer ∷ events) s after e n =
    served-IsNamed events (remove_connection_in_loop s peer) after e (removed-IsNamed s peer n)
served-IsNamed (accepting none ∷ events) s after e n = served-IsNamed events s after e n
served-IsNamed (accepting (some sockfd) ∷ events) s after e n =
    elim (Option-cases (new_connection s sockfd)) [
      | inl f ↦ absurd (ground (arith, f, e))
      | inr (middle, f) ↦
          let (m, port) =
            served-IsNamed events middle after (rw f at e) (accepted-IsNamed s middle sockfd f n) in
          let (peer, name, connections, next, same_name, same_port) =
            new_connection_lem s middle sockfd f in
          (m, port ∙ same_port)
    ]

fresh-IsNamed :
    (loop : ℕ) (name ip_port : Bytes) (pool : LoopPool)
    → IsNamed (new_server loop name ip_port pool)
unfolding new_server lookup
fresh-IsNamed loop name ip_port pool = record { named = λ j other f. absurd (ground (arith, f)) }

-- On a server that began with no connections, after any connections were accepted and removed, as long
-- as the identifiers fit 31 bits and the address of the server has at most 21 bytes: a connection that
-- is accepted takes the place of no other, all that were in the map are still there.
pub new_connection_keeps :
    (loop : ℕ) (name ip_port : Bytes) (pool : LoopPool) (events : List ServerEvent)
    (s after : TcpServer) (sockfd : ℕ)
    → length ip_port ≤ 21
    → serve (new_server loop name ip_port pool) events ≡ some s
    → s.next_conn_id < 2 ^ 31
    → new_connection s sockfd ≡ some after
    → (k : Bytes) (peer : Peer) → lookup k s.connections ≡ some peer
    → lookup k after.connections ≡ some peer
unfolding new_server
new_connection_keeps loop name ip_port pool events s after sockfd short e small accepted k peer
      found =
    let start = fresh-IsNamed loop name ip_port pool in
    let (n, port) = served-IsNamed events (new_server loop name ip_port pool) s e start in
    let free = next_free s (subst (λ (b : Bytes). length b ≤ 21) (sym port) short) small n in
    let (added, own_name, connections, _, _, _) = new_connection_lem s after sockfd accepted in
    ap (λ (m : List (Bytes × Peer)). lookup k m) connections
    ∙ lookup-assign added.name k added s.connections
    ∙ (elim (Bool-cases (same_bytes added.name k)) [
      | inl y ↦ absurd (
          ground (
            arith,
            sym free
                ∙ ap (λ (j : Bytes). lookup j s.connections)
                    (sym own_name ∙ (same_bytes_iff added.name k).0 y)
                ∙ found,
          ))
      | inr y ↦ rw y found
    ])
