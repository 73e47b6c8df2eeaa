-- ===== src/Discovery/Message.antt =====
-- src/internal/discovery/client.go: the peers and messages that the client and the server share, and what
-- encoding/json makes of a message's payload.
use Prim.Native.String.{String}
use peer_mesh.Prelude.{ℕ, Bool, Option, none, some, ◌==◌, string_eq, if◌then◌else◌}
use peer_mesh.Prelude.Int.{ℤ}
use peer_mesh.Net.{Ip}

pub record Peer : Type 0 where
  pub id : String
  pub ip : Ip
  pub port : ℤ
  pub last_seen : ℕ
  pub is_online : Bool
  pub public_ip : String
  pub local_ip : String

-- A decoded value. A number, a float64 in Go, is the integer that int() makes of it.
mutual
  pub data Json : Type 0 where
    null : Json
    boolean : Bool → Json
    number : ℤ → Json
    text : String → Json
    array : Items → Json
    object : Fields → Json

  pub data Items : Type 0 where
    nil : Items
    cons : Json → Items → Items

  pub data Fields : Type 0 where
    end : Fields
    field : String → Json → Fields → Fields

-- An absent payload is null.
pub record Message : Type 0 where
  pub type : String
  pub payload : Json
  pub from : String

-- `m[key]` of a map: a key that is missing gives nil, as null does.
abbrev pub index : String → Fields → Json
index key end = null
index key (field k value rest) = if k == key then value else index key rest

-- The type assertions `v.(string)`, `v.(float64)`, `v.(map[string]interface{})` and
-- `v.([]interface{})`.
abbrev pub as_text : Json → Option String
as_text (text s) = some s
as_text v = none

abbrev pub as_number : Json → Option ℤ
as_number (number n) = some n
as_number v = none

abbrev pub as_object : Json → Option Fields
as_object (object fields) = some fields
as_object v = none

abbrev pub as_array : Json → Option Items
as_array (array items) = some items
as_array v = none
