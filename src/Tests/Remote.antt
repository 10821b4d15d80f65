-- ===== src/Tests/Remote.antt =====
-- The theorems on resources at concrete inputs: ann's client works on bob's file.
use middfs.Common.{ℕ, ◌≡◌, refl, arith, List, [], ◌∷◌, ◌++◌, some, ◌⊎◌, ℤ, pos, minus_one, ◌>>=◌}
use middfs.Text.{strcmp}
use middfs.Pkt.{Packet, zero_packet, zero_response}
use middfs.Client.Os.{World}
use middfs.Client.Rsrc.{mr_network, root_rsrc}
use middfs.Client.Rsrc.Split.{Relative, Root, Owned, client_rsrc_init-Splits}
use middfs.Client.Rsrc.Bounds.{AtMost, Inside, read_response-Inside}
use middfs.Client.Rsrc.Isolation.{truncate_op, run_op, run_op-keeps_files}
use middfs.Client.Rsrc.Access.{client_rsrc_truncate, client_rsrc_rename, client_rsrc_lstat}
use middfs.Client.Rsrc.Content.{read_response, read_result, client_rsrc_read}
use middfs.Client.Rsrc.Paths.{home_path}
use middfs.Client.Remote.{network_rsrc, local_rsrc}
use middfs.Client.Remote.Status.{Agree, client_rsrc_truncate-remote, client_rsrc_rename-remote}
use middfs.Client.Remote.Content.{opened_read, client_rsrc_read-remote}
use middfs.Client.Remote.Attributes.{remote_stat, client_rsrc_lstat-remote}
use middfs.Conf.{conf_get, conf_envvar, getenv}
use middfs.Pkt.{packet_init, response_init}
use middfs.Pkt.Init.{request_init}
use middfs.Pkt.Kinds.{req_has_mode, req_has_size, req_has_to, req_has_off, req_has_data}
use middfs.Serial.Format.{sign_extend}
use middfs.Serial.Decode.Received.{
  received_packet, received_request, received_fields, received_response,
}
use middfs.Client.Exchange.{response_validate}
use middfs.Client.Rsrc.{request_for, ask, middfs_localpath_tmp}
use middfs.Client.Handler.{
  handler_of, handle_request_truncate, dispatch, run_request, with_status, answered, handle_request,
}
use middfs.Tests.System.{
  served, one_file, one_file-IsOs, bob_env, bob_env-Configured, ann_env, ann_env-Configured,
  ann_env-Linked,
}

-- "bob" and "/x"
abbrev bob_name : List ℕ
bob_name = 98 ∷ 111 ∷ 98 ∷ []

abbrev x_path : List ℕ
x_path = 47 ∷ 120 ∷ []

-- Ann has a file of one byte, and bob one of three.
abbrev world : World (List ℕ) (List ℕ)
world = record { files = 9 ∷ []; net = 5 ∷ 6 ∷ 7 ∷ [] }

client_rsrc_init-Splits_example :
    Relative ann_env ann_env-Configured root_rsrc (47 ∷ (bob_name ++ x_path))
    ⊎ (Root ann_env ann_env-Configured root_rsrc (47 ∷ (bob_name ++ x_path))
        ⊎ Owned ann_env ann_env-Configured root_rsrc (47 ∷ (bob_name ++ x_path)))
client_rsrc_init-Splits_example =
    client_rsrc_init-Splits ann_env ann_env-Configured root_rsrc (47 ∷ (bob_name ++ x_path))

client_rsrc_truncate-remote_example :
    Agree ann_env bob_env bob_env-Configured
      (client_rsrc_truncate ann_env (network_rsrc bob_name x_path (pos 3)) 2)
      (client_rsrc_truncate bob_env (local_rsrc bob_name x_path) 2)
      world
      0
client_rsrc_truncate-remote_example =
    client_rsrc_truncate-remote ann_env bob_env bob_env-Configured one_file-IsOs bob_name x_path
      (pos 3) 2 world 0 (omega arith) (ann_env-Linked _ _ _)

client_rsrc_rename-remote_example :
    Agree ann_env bob_env bob_env-Configured
      (client_rsrc_rename ann_env
        (network_rsrc bob_name x_path (pos 3))
        (network_rsrc bob_name (47 ∷ []) (pos 4)))
      (client_rsrc_rename bob_env (local_rsrc bob_name x_path) (local_rsrc bob_name (47 ∷ [])))
      world
      0
client_rsrc_rename-remote_example =
    client_rsrc_rename-remote ann_env bob_env bob_env-Configured one_file-IsOs bob_name x_path
      (47 ∷ []) (pos 3) (pos 4) world 0 (ann_env-Linked _ _ _)

-- Two bytes from offset 1 on.
client_rsrc_read-remote_example :
    client_rsrc_read ann_env (network_rsrc bob_name x_path (pos 3)) (0 ∷ 0 ∷ 0 ∷ []) 2 1 world ≡ (do
      let r =
          opened_read one_file 2 1
            (one_file.open_file (home_path bob_env bob_env-Configured x_path) 2 0 world.net)
      (retv, buf1) ← read_result r.0 (0 ∷ 0 ∷ 0 ∷ [])
      some (retv, buf1, record world { net = r.1 }))
client_rsrc_read-remote_example =
    client_rsrc_read-remote ann_env bob_env bob_env-Configured one_file-IsOs ann_env-Configured
      bob_name x_path (pos 3) (0 ∷ 0 ∷ 0 ∷ []) 2 1 world (omega arith) (omega arith) (omega arith)
      refl (ann_env-Linked _ _ _)

client_rsrc_lstat-remote_example :
    (let r = one_file.stat (home_path bob_env bob_env-Configured x_path) world.net in
      client_rsrc_lstat ann_env (network_rsrc bob_name x_path (pos 3)) world
      ≡ some (
        (remote_stat ann_env bob_env bob_env-Configured r.0).0,
        (remote_stat ann_env bob_env bob_env-Configured r.0).1,
        record world { net = r.1 },
      ))
client_rsrc_lstat-remote_example =
    client_rsrc_lstat-remote ann_env bob_env bob_env-Configured one_file-IsOs bob_name x_path
      (pos 3) world (ann_env-Linked _ _ _)

-- A response with three bytes, for a buffer of two.
abbrev three_bytes : Packet
three_bytes = record zero_packet {
  mpkt_magic = 1800;
  mpkt_type = 4;
  mpkt_response = record zero_response {
    mrsp_type = 1;
    mrsp_data = record { mdata_buf = some (1 ∷ 2 ∷ 3 ∷ []); mdata_nbytes = 3 };
  };
}

read_response-Inside_example :
    (retv : ℤ) × (after : List ℕ) × (read_response three_bytes (0 ∷ 0 ∷ []) 2 ≡ some (retv, after))
    × AtMost 2 retv
    × Inside 2 (0 ∷ 0 ∷ []) after
read_response-Inside_example =
    read_response-Inside three_bytes (0 ∷ 0 ∷ []) 2 (omega arith) (omega arith) (omega arith)
      (omega arith)

-- Bob's file is cut, and ann's is as before.
abbrev world_after : World (List ℕ) (List ℕ)
world_after = record { files = 9 ∷ []; net = 5 ∷ 6 ∷ [] }

ann_truncates :
    run_op ann_env (truncate_op 2) (network_rsrc bob_name x_path minus_one) world
    ≡ some (pos 0, world_after)
unfolding client_rsrc_truncate request_for request_init packet_init received_packet received_request
    received_fields req_has_mode req_has_size req_has_to req_has_off req_has_data run_request
    dispatch handler_of handle_request_truncate ask served handle_request answered with_status
    response_init received_response response_validate middfs_localpath_tmp conf_get conf_envvar
    getenv strcmp sign_extend
ann_truncates = refl

run_op-keeps_files_example : world_after.files ≡ world.files
run_op-keeps_files_example =
    run_op-keeps_files ann_env (truncate_op 2) mr_network
      (network_rsrc bob_name x_path minus_one).mr_rsrc minus_one world world_after (pos 0) refl
      ann_truncates
