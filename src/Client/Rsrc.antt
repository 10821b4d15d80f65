-- ===== src/Client/Rsrc.antt =====
-- src/client/middfs-client-rsrc.c: resources, local or on the network. That the texts which
-- `asprintf` and `strdup` build have memory is taken for granted, as the source does.
pub mod Access
pub mod Paths
pub mod Split
pub mod Bounds
pub mod Isolation
pub mod Content
use middfs.Common.{ℕ, List, [], ◌∷◌, ◌++◌, Bool, true, false}
use middfs.Common.{Option, none, some, if◌then◌else◌, length, take, drop, ◌==◌, ◌>>=◌}
use middfs.Common.{ℤ, pos, is_neg, minus_one}
use middfs.Errno.{minus, eio, einval}
use middfs.Text.{same_text, strspn, strcspn}
use middfs.Pkt.{CString, Rsrc, Packet, zero_packet, zero_request, packet_init}
use middfs.Pkt.Kinds.{mpkt_request_type}
use middfs.Pkt.Init.{request_init, conf_username, conf_homepath}
use middfs.Conf.{conf_get}
use middfs.Client.Exchange.{response_validate}
use middfs.Client.Os.{Sys, fails, done, status, Os, ClientEnv, World}

pub data RsrcType : Type 0 where
  mr_network mr_local mr_root : RsrcType

pub record ClientRsrc : Type 0 where
  pub mr_type : RsrcType
  pub mr_rsrc : Rsrc
  pub mr_fd : ℤ

-- The `switch` over the type: for the network, the root and a local resource.
abbrev pub by_type : {A : Type 0} → RsrcType → A → A → A → A
by_type mr_network network root local = network
by_type mr_root network root local = root
by_type mr_local network root local = local

-- '/'
abbrev pub slash : ℕ
slash = 47

abbrev pub root_rsrc : ClientRsrc
root_rsrc = record {
  mr_type = mr_root;
  mr_rsrc = record { mr_owner = some []; mr_path = some [] };
  mr_fd = minus_one;
}

-- The path behind the owner's name, or "/".
abbrev pub or_slash : List ℕ → List ℕ
or_slash [] = slash ∷ []
or_slash (c ∷ cs) = c ∷ cs

module _ {F N : Type 0} (env : ClientEnv F N) where
  -- A null pointer for `%s` stops the process.
  unfoldable pub middfs_localpath_tmp : CString → Option (List ℕ)
  middfs_localpath_tmp path = do
    home ← conf_get env.memory conf_homepath env.environ
    user ← conf_get env.memory conf_username env.environ
    tail ← path
    some (home ++ (slash ∷ (user ++ tail)))

  unfoldable pub middfs_abspath : List ℕ → F → ℤ × List ℕ
  middfs_abspath [] files = (minus einval, [])
  middfs_abspath (c ∷ path) files =
      if c == slash then (pos 0, c ∷ path) else elim (env.os.getcwd files) [
        | fails e ↦ (minus e, c ∷ path)
        | done cwd ↦ (pos 0, cwd ++ (slash ∷ (c ∷ path)))
      ]

  -- The resource of a path in a user's directory, from the owner's name on.
  unfoldable pub owned_rsrc : List ℕ → Option ClientRsrc
  owned_rsrc owner_begin =
      let owner = take (strcspn slash owner_begin) owner_begin in
      let owner_end = drop (strcspn slash owner_begin) owner_begin in
      (do
        username ← conf_get env.memory conf_username env.environ
        some (record {
          mr_type = if same_text owner username then mr_local else mr_network;
          mr_rsrc = record { mr_owner = some owner; mr_path = some (or_slash owner_end) };
          mr_fd = minus_one;
        }))

  unfoldable pub rsrc_from : List ℕ → Option (ℤ × ClientRsrc)
  rsrc_from [] = some (pos 0, root_rsrc)
  rsrc_from (c ∷ cs) = do r ← owned_rsrc (c ∷ cs); some (pos 0, r)

  -- On an error the resource stays as it was.
  unfoldable pub client_rsrc_init : List ℕ → ClientRsrc → Option (ℤ × ClientRsrc)
  client_rsrc_init path client_rsrc =
      if strspn slash path == 0
      then some (minus einval, client_rsrc)
      else rsrc_from (drop (strspn slash path) path)

  -- `none` is a null pointer.
  unfoldable pub client_rsrc_delete : Option ClientRsrc → World F N → ℤ × World F N
  client_rsrc_delete none w = (pos 0, w)
  client_rsrc_delete (some client_rsrc) w =
      let (result, files) = env.os.close client_rsrc.mr_fd w.files in
      if is_neg client_rsrc.mr_fd then (pos 0, w) else (status result, record w { files = files })

  -- `packet_init` and `request_init` on a packet of zeros.
  unfoldable pub request_for : ℕ → ClientRsrc → Packet
  request_for type client_rsrc = record (packet_init mpkt_request_type zero_packet) {
    mpkt_request = request_init env.memory env.environ type client_rsrc.mr_rsrc zero_request;
  }

  -- The exchange of a request for a response that carries nothing but its type.
  unfoldable pub ask : Packet → ℕ → World F N → Option (ℤ × World F N)
  ask out type w = do
    (xchg, in_pkt, net) ← env.xchg out zero_packet w.net
    let retv = response_validate in_pkt type
    some (
      if is_neg xchg then minus eio else if is_neg retv then retv else pos 0,
      record w { net = net },
    )

  -- A call on the path of a local resource.
  unfoldable pub on_localpath :
      ClientRsrc → (List ℕ → F → Sys Unit × F) → World F N → Option (ℤ × World F N)
  on_localpath client_rsrc call w = do
    localpath ← middfs_localpath_tmp client_rsrc.mr_rsrc.mr_path
    let (result, files) = call localpath w.files
    some (status result, record w { files = files })
