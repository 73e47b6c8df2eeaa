-- ===== src/Discovery/Session/Registered.antt =====
-- A client's registration, and the server's loop for its connection.
use Prim.Native.String.{String}
use peer_mesh.Prelude.{
  ℕ, ◌≡◌, ◌≢◌, refl, ap, sym, ◌∙◌, some, [], ◌∷◌, ◌==◌, string_eq, if_cases, Result, ok, err,
}
use peer_mesh.Prelude.Assoc.{beq_self}
use peer_mesh.Net.{Ip}
use peer_mesh.Discovery.Server
use peer_mesh.Discovery.Server.{
  Server, Conn, new_peer, get_peer, register, read_register, handle_register, handle_message,
  register_read,
}
use peer_mesh.Discovery.Server.Views.{register-get_peer}
use peer_mesh.Discovery.Server.Connection.{
  unread, got, handle_connection, IsAbsent, handle_connection-leaves,
}
use peer_mesh.Discovery.Wire.{registration}
use peer_mesh.Discovery.Client.{Client, ClientConfig, new_client, Error}

abbrev IsMade : ClientConfig → Client → Type 0
IsMade config c =
    (c.peer_id ≡ config.peer_id) × (c.local_ip ≡ config.local_ip) × (config.peer_id ≢ "")

-- NewClient refuses an empty ID.
new_client-peer_id :
    (config : ClientConfig) (c : Client) → new_client config ≡ ok c → IsMade config c
unfolding new_client
new_client-peer_id config c =
    if_cases (λ r. r ≡ ok c → IsMade config c) (config.server_url == "") (λ _ e. cc)
      (λ _.
        if_cases (λ r. r ≡ ok c → IsMade config c) (config.peer_id == "") (λ _ e. cc)
          (λ named e. (
            ap (λ (r : Result Error Client). elim r [ err x ↦ "" | ok d ↦ d.peer_id ]) (sym e),
            ap (λ (r : Result Error Client). elim r [ err x ↦ [] | ok d ↦ d.local_ip ]) (sym e),
            λ empty. cc (named, (string_eq.beq_iff config.peer_id "").1 empty),
          )))

module _ (print_ip : Ip → String) where
  handle_message-registration :
      (s : Server) (conn : Conn) (id : String) (ip : Ip) (now : ℕ)
      → handle_message s conn (registration print_ip id ip) now
        ≡ register s conn id (print_ip ip) now
  unfolding handle_message handle_register read_register register_read
  handle_message-registration s conn id ip now = refl

  reads_own :
      (id : String) (ip : Ip) (peer_id local_ip : String)
      → read_register (registration print_ip id ip).payload ≡ ok (peer_id, local_ip)
      → peer_id ≡ id
  unfolding read_register
  reads_own id ip peer_id local_ip e =
      ap (λ (r : Result Server.Error (String × String)). elim r [ err x ↦ id | ok p ↦ p.0 ]) (sym e)

  -- Whatever configuration NewClient takes: once the server has handled the client's registration, on a
  -- connection that the registry did not know, GetPeer gives the peer that the registration names,
  -- under the configured ID, and when then a read on the connection fails, no entry of the
  -- registry is the connection's.
  pub registration-listed :
      (config : ClientConfig) (c : Client) (s : Server) (conn : Conn) (now : ℕ)
      → new_client config ≡ ok c
      → IsAbsent conn.number s.peers
      → let msg = registration print_ip c.peer_id c.local_ip in
        (get_peer (handle_connection s conn (got msg now ∷ [])).server config.peer_id
          ≡ some (new_peer conn config.peer_id (print_ip config.local_ip) now))
        × IsAbsent conn.number (handle_connection s conn (got msg now ∷ unread ∷ [])).server.peers
  unfolding handle_connection
  registration-listed config c s conn now made absent =
      let (id, ip, named) = new_client-peer_id config c made in
      rw (id, ip)
        (
          rw (handle_message-registration s conn config.peer_id config.local_ip now) (
              register-get_peer s conn config.peer_id (print_ip config.local_ip) now config.peer_id
              ∙ rw (beq_self config.peer_id) refl),
          handle_connection-leaves s conn config.peer_id
              (got (registration print_ip config.peer_id config.local_ip) now ∷ []) named absent
              (λ _. reads_own config.peer_id config.local_ip, tt),
        )
