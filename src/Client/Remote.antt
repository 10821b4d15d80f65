-- ===== src/Client/Remote.antt =====
-- A resource on the network and its files at their owner: src/client/middfs-client-rsrc.c on the one
-- side of an exchange, and src/client/middfs-client-handler.c on the other.
pub mod Status
pub mod Content
pub mod Attributes
pub mod Network
use middfs.Common.{ℕ, ◌≡◌, List, Option, some, ◌>>=◌, ℤ, pos, minus_one}
use middfs.Pkt.{CString, Packet, zero_packet}
use middfs.Serial.Decode.Received.{received_packet}
use middfs.Conn.{hs_suc}
use middfs.Conn.Reading.{arrives}
use middfs.Client.Os.{ClientEnv, World}
use middfs.Client.Rsrc.{ClientRsrc, mr_network, mr_local}
use middfs.Client.Handler.{handle_request}

-- One exchange in which the owner's answer comes through: if the owner's handler answers the packet as it
-- arrives, the requester's `packet_xchg` returns 0 with the answer as it arrives, in a variable `t`
-- that is otherwise arbitrary. The state of the network is that of the owner's files.
-- Client/Remote/Network says when `packet_xchg` does so.
abbrev pub Linked : {F G M : Type 0} → ClientEnv F G → ClientEnv G M → Packet → Packet → G → Type 0
Linked client owner out_pkt in_pkt files =
    (answer : Packet) (files1 : _)
    → handle_request owner (arrives out_pkt) zero_packet files ≡ some (hs_suc, answer, files1)
    → (t : Packet) × (client.xchg out_pkt in_pkt files
        ≡ some (pos 0, received_packet t answer, files1))

-- The same path as a resource of the requester, and as one of its owner.
abbrev pub network_rsrc : List ℕ → List ℕ → ℤ → ClientRsrc
network_rsrc owner path fd = record {
  mr_type = mr_network;
  mr_rsrc = record { mr_owner = some owner; mr_path = some path };
  mr_fd = fd;
}

abbrev pub local_rsrc : List ℕ → List ℕ → ClientRsrc
local_rsrc owner path = record {
  mr_type = mr_local;
  mr_rsrc = record { mr_owner = some owner; mr_path = some path };
  mr_fd = minus_one;
}
