-- ===== src/Pkt/Init.antt =====
-- request_init and connect_init of src/lib/middfs-pkt.c, which read the configuration.
use middfs.Common.{ℕ, List, [], ◌∷◌, false, if◌then◌else◌, ℤ, pos, minus_one}
use middfs.Conf.{Memory, Environ, conf_get, conf_get_uint32}
use middfs.Pkt.{Rsrc, Request, Connect}

-- "username"
abbrev pub conf_username : List ℕ
conf_username = 117 ∷ 115 ∷ 101 ∷ 114 ∷ 110 ∷ 97 ∷ 109 ∷ 101 ∷ []

-- "localport"
abbrev pub conf_localport : List ℕ
conf_localport = 108 ∷ 111 ∷ 99 ∷ 97 ∷ 108 ∷ 112 ∷ 111 ∷ 114 ∷ 116 ∷ []

-- "homepath"
abbrev pub conf_homepath : List ℕ
conf_homepath = 104 ∷ 111 ∷ 109 ∷ 101 ∷ 112 ∷ 97 ∷ 116 ∷ 104 ∷ []

unfoldable pub request_init : Memory → Environ → ℕ → Rsrc → Request → Request
request_init memory environ type rsrc req = record req {
  mreq_type = type;
  mreq_requester = conf_get memory conf_username environ;
  mreq_rsrc = rsrc;
}

unfoldable pub connect_init : (List ℕ → ℕ × List ℕ) → Memory → Environ → Connect → ℤ × Connect
connect_init strtoull memory environ conn =
    let (port, err) = conf_get_uint32 strtoull memory conf_localport environ false in
    let filled = record conn { name = conf_get memory conf_username environ; port = port } in
    (if err then minus_one else pos 0, filled)
