-- ===== src/Tests/Server.antt =====
-- The theorems on the server at concrete inputs.
use middfs.Common.{ℕ, get_elem?, ◌+◌, ◌≡◌, refl, arith, [], ◌∷◌, ◌++◌, true, false}
use middfs.Common.{none, some, length, ◌⊎◌, inl, inr, pos, minus_one}
use middfs.Text.{strcmp}
use middfs.Pkt.{Packet, Dir, zero_packet}
use middfs.Serial.Format.{packet_bytes}
use middfs.Serial.Valid.{IsDir}
use middfs.Serial.Reader.{DState}
use middfs.Buf.Contents.{NoMemory, Holds}
use middfs.Sock.{
  Sockinfo, mfd_pkt_in, mss_reqrd, mss_rspfwd, mss_reqfwd, mss_rspwr, mss_closed,
  middfs_sockend_init,
}
use middfs.Conn.{HandlerE, hs_del, hs_suc}
use middfs.Server.Clients.{
  Client, Clients, In, client_cmp, clients_add, clients_remove, client_find, clients_readdir,
}
use middfs.Server.Clients.Sorted.{IsClients, clients_add-IsClients, clients_remove-IsClients}
use middfs.Server.Clients.Find.{entries_for, client_find-clients_add, clients_readdir-IsDir}
use middfs.Server.Handler.{ServerEnv, request_reply, handle_pkt_wr_fin, handle_rsp_rd_fin}
use middfs.Server.Handler.States.{
  Moves, Step, IsConn, request_reply-Moves, handle_pkt_wr_fin-Moves, handle_rsp_rd_fin-Appends,
}
use middfs.Tests.Library.{
  always, always-IsRealloc, insertion_sort, insertion_sort-IsQsort, linear_search,
  linear_search-IsBsearch,
}
use middfs.Tests.Data.{
  write_pkt, write_pkt-IsPacket, write_pkt-length, ok_state, ok_state-IsOk, small_buffer,
  small_buffer-Holds, bob, two_clients,
}

pub two_clients-IsClients : IsClients two_clients
unfolding client_cmp strcmp
two_clients-IsClients = (((refl, tt), (tt, tt)), omega arith)

abbrev cat : Client
cat = record { username = 97 ∷ 99 ∷ []; ip = 51 ∷ []; port = 4323 }

client_find-clients_add_example :
    ((clients_add insertion_sort true cat two_clients ≡ some (minus_one, two_clients))
      × (true ≡ false)
      × (length two_clients.vec ≡ two_clients.len))
    ⊎ ((after : Clients) × (d : Client) × (clients_add insertion_sort true cat two_clients
          ≡ some (pos 0, after))
        × (client_find linear_search (98 ∷ []) after ≡ some d)
        × (d.username ≡ 98 ∷ [])
        × In d (two_clients.vec ++ (cat ∷ [])))
client_find-clients_add_example =
    client_find-clients_add insertion_sort linear_search true cat two_clients bob
      insertion_sort-IsQsort linear_search-IsBsearch two_clients-IsClients (inr (inl refl))

clients_add-IsClients_example :
    ((clients_add insertion_sort true cat two_clients ≡ some (minus_one, two_clients))
      × (true ≡ false)
      × (length two_clients.vec ≡ two_clients.len))
    ⊎ ((after : Clients) × (clients_add insertion_sort true cat two_clients ≡ some (pos 0, after))
        × (after.vec ≡ insertion_sort (two_clients.vec ++ (cat ∷ [])))
        × IsClients after
        × (length after.vec ≡ length two_clients.vec + 1))
clients_add-IsClients_example =
    clients_add-IsClients insertion_sort insertion_sort-IsQsort true cat two_clients
      two_clients-IsClients

clients_remove-IsClients_example :
    (after : Clients) × (clients_remove insertion_sort 0 two_clients ≡ some after)
    × IsClients after
    × (length after.vec + 1 ≡ length two_clients.vec)
    × ((j : ℕ) (c : Client) → get_elem? two_clients.vec j ≡ some c → (j ≡ 0) ⊎ In c after.vec)
clients_remove-IsClients_example =
    clients_remove-IsClients insertion_sort insertion_sort-IsQsort two_clients 0
      two_clients-IsClients (omega arith)

abbrev no_dir : Dir
no_dir = record { mdir_count = 0; mdir_ents = none }

clients_readdir-IsDir_example :
    (after : DState) × (listing : Dir) × (clients_readdir two_clients no_dir ok_state
      ≡ (pos 0, listing, after))
    × (listing.mdir_ents ≡ some (entries_for two_clients.vec))
    × IsDir listing
clients_readdir-IsDir_example =
    clients_readdir-IsDir two_clients no_dir ok_state ok_state-IsOk
      (
        ((omega arith, omega arith), ((omega arith, omega arith), tt)),
        (((omega arith, omega arith), tt), tt),
      )
      (omega arith)

abbrev pub test_env : ServerEnv
test_env = record {
  realloc = always;
  fuel = 40;
  qsort = insertion_sort;
  bsearch = linear_search;
  can_grow = true;
  inet_connect = λ ip port. pos 5;
  peer_address = λ fd. some (49 ∷ []);
  alloc = ok_state;
  out_pkt = zero_packet;
}

abbrev pub reading : Sockinfo
reading = record {
  type = mfd_pkt_in;
  state = mss_reqrd;
  in_end = middfs_sockend_init (pos 4);
  out_end = middfs_sockend_init minus_one;
  revents = 1;
}

request_reply-Moves_example :
    (status : HandlerE) × (after : Sockinfo) × (pkt : Packet) × (request_reply test_env two_clients
        reading write_pkt
      ≡ some (status, after, pkt))
    × Moves test_env reading write_pkt
        (client_find linear_search (98 ∷ []) two_clients)
        status
        after
        pkt
unfolding middfs_sockend_init
request_reply-Moves_example =
    request_reply-Moves test_env two_clients reading write_pkt (98 ∷ []) refl refl refl

abbrev pub forwarding : Sockinfo
forwarding = record reading {
  state = mss_rspfwd;
  out_end = record { fd = pos 5; buf = small_buffer; live = true };
}

handle_rsp_rd_fin-Appends_example :
    (status : HandlerE) × (after : Sockinfo) × (handle_rsp_rd_fin test_env two_clients forwarding
        write_pkt
      ≡ some (status, after, two_clients))
    × Step forwarding.state after.state
    × IsConn after
    × (after.out_end.fd ≡ forwarding.out_end.fd)
    × (after.in_end.fd ≡ forwarding.in_end.fd)
    × (((status ≡ hs_del) × Holds after.out_end.buf (8 ∷ 9 ∷ []) × NoMemory always)
        ⊎ ((status ≡ hs_suc) × Holds after.out_end.buf ((8 ∷ 9 ∷ []) ++ packet_bytes write_pkt)))
unfolding middfs_sockend_init
handle_rsp_rd_fin-Appends_example =
    handle_rsp_rd_fin-Appends test_env two_clients forwarding write_pkt (8 ∷ 9 ∷ []) refl
      (refl, refl) always-IsRealloc write_pkt-IsPacket (omega (arith, write_pkt-length))
      (omega (arith, write_pkt-length)) small_buffer-Holds

abbrev sending : Sockinfo
sending = record forwarding { state = mss_reqfwd }

handle_pkt_wr_fin-Moves_example :
    (status : HandlerE) × (after : Sockinfo) × (handle_pkt_wr_fin two_clients sending
      ≡ some (status, after, two_clients))
    × Step sending.state after.state
    × IsConn after
    × (((sending.state ≡ mss_rspwr) × (status ≡ hs_del) × (after.state ≡ mss_closed))
        ⊎ ((sending.state ≡ mss_reqfwd)
            × (status ≡ hs_suc)
            × (after.state ≡ mss_rspfwd)
            × (after.in_end.fd ≡ sending.out_end.fd)
            × (after.out_end.fd ≡ sending.in_end.fd)))
unfolding middfs_sockend_init
handle_pkt_wr_fin-Moves_example =
    handle_pkt_wr_fin-Moves two_clients sending (refl, refl) (inl refl)
