-- ===== src/Discovery/Wire.antt =====
-- What the server and the client write, as the other side's encoding/json decodes it. IP.String and the
-- text of a time are parameters.
use Prim.Native.String.{String}
use peer_mesh.Prelude.{ℕ, List, [], ◌∷◌, ◌==◌, string_eq, if◌then◌else◌}
use peer_mesh.Net.{Ip}
use peer_mesh.Discovery.Message.{
  Peer, Json, null, boolean, number, text, array, object, Items, nil, cons, Fields, end, field,
  Message,
}
use peer_mesh.Discovery.Server.{Sent}

-- The tag `omitempty`.
abbrev pub unless_empty : String → String → Fields → Fields
unless_empty key s rest = if s == "" then rest else field key (text s) rest

abbrev pub untyped : String → Json → Message
untyped type payload = record { type = type; payload = payload; from = "" }

abbrev pub left_message : String → Message
left_message id = untyped "peer_left" (object (field "id" (text id) end))

module _ (print_ip : Ip → String) where
  abbrev pub joined_message : Peer → Message
  joined_message p = untyped "peer_joined" (
      object (
        field "id" (text p.id) (
          field "ip" (text (print_ip p.ip)) (
            field "port" (number p.port)
              (field "public_ip" (text p.public_ip) (field "local_ip" (text p.local_ip) end))))))

  abbrev pub registration : String → Ip → Message
  registration peer_id local_ip =
      untyped "register"
        (object (field "peer_id" (text peer_id) (field "local_ip" (text (print_ip local_ip)) end)))

  module _ (print_time : ℕ → String) where
    -- The fields of Peer by their json tags.
    abbrev pub peer_json : Peer → Json
    peer_json p = object (
        field "id" (text p.id) (
          field "ip" (text (print_ip p.ip)) (
            field "port" (number p.port) (
              field "last_seen" (text (print_time p.last_seen)) (
                field "is_online" (boolean p.is_online) (
                  unless_empty "public_ip" p.public_ip
                    (unless_empty "local_ip" p.local_ip end)))))))

    abbrev pub items_json : List Peer → Items
    items_json [] = nil
    items_json (p ∷ ps) = cons (peer_json p) (items_json ps)

    -- A nil slice becomes null.
    abbrev pub peers_json : List Peer → Json
    peers_json [] = null
    peers_json (p ∷ ps) = array (items_json (p ∷ ps))

    abbrev pub list_message : List Peer → Message
    list_message ps = untyped "peer_list" (object (field "peers" (peers_json ps) end))

    unfoldable pub sent_message : Sent → Message
    sent_message Sent.ping = untyped "ping" null
    sent_message Sent.pong = untyped "pong" null
    sent_message (Sent.peer_list ps) = list_message ps
    sent_message (Sent.peer_joined p) = joined_message p
    sent_message (Sent.peer_left id) = left_message id
