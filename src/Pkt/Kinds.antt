-- ===== src/Pkt/Kinds.antt =====
-- The enumerations of src/lib/middfs-pkt.h, and the req_has_* functions of src/lib/middfs-pkt.c,
-- which say what fields a request of each type carries.
use middfs.Common.{ℕ, Bool, ◌||◌, ◌==◌}

abbrev pub mpkt_magic_value : ℕ
mpkt_magic_value = 1800

-- enum middfs_packet_type
abbrev pub mpkt_none_type : ℕ
mpkt_none_type = 0

abbrev pub mpkt_connect_type : ℕ
mpkt_connect_type = 1

abbrev pub mpkt_disconnect_type : ℕ
mpkt_disconnect_type = 2

abbrev pub mpkt_request_type : ℕ
mpkt_request_type = 3

abbrev pub mpkt_response_type : ℕ
mpkt_response_type = 4

-- enum middfs_request_type
abbrev pub mreq_none_type : ℕ
mreq_none_type = 0

abbrev pub mreq_getattr_type : ℕ
mreq_getattr_type = 1

abbrev pub mreq_access_type : ℕ
mreq_access_type = 2

abbrev pub mreq_readlink_type : ℕ
mreq_readlink_type = 3

abbrev pub mreq_mkdir_type : ℕ
mreq_mkdir_type = 4

abbrev pub mreq_symlink_type : ℕ
mreq_symlink_type = 5

abbrev pub mreq_unlink_type : ℕ
mreq_unlink_type = 6

abbrev pub mreq_rmdir_type : ℕ
mreq_rmdir_type = 7

abbrev pub mreq_rename_type : ℕ
mreq_rename_type = 8

abbrev pub mreq_chmod_type : ℕ
mreq_chmod_type = 9

abbrev pub mreq_truncate_type : ℕ
mreq_truncate_type = 10

abbrev pub mreq_open_type : ℕ
mreq_open_type = 11

abbrev pub mreq_create_type : ℕ
mreq_create_type = 12

abbrev pub mreq_read_type : ℕ
mreq_read_type = 13

abbrev pub mreq_write_type : ℕ
mreq_write_type = 14

abbrev pub mreq_readdir_type : ℕ
mreq_readdir_type = 15

-- enum middfs_response_type
abbrev pub mrsp_ok_type : ℕ
mrsp_ok_type = 0

abbrev pub mrsp_data_type : ℕ
mrsp_data_type = 1

abbrev pub mrsp_stat_type : ℕ
mrsp_stat_type = 2

abbrev pub mrsp_dir_type : ℕ
mrsp_dir_type = 3

abbrev pub mrsp_error_type : ℕ
mrsp_error_type = 4

unfoldable pub req_has_mode : ℕ → Bool
req_has_mode type =
    type == mreq_access_type
    || type == mreq_chmod_type
    || type == mreq_create_type
    || type == mreq_open_type

unfoldable pub req_has_size : ℕ → Bool
req_has_size type =
    type == mreq_readlink_type
    || type == mreq_truncate_type
    || type == mreq_read_type
    || type == mreq_write_type

unfoldable pub req_has_to : ℕ → Bool
req_has_to type = type == mreq_symlink_type || type == mreq_rename_type

unfoldable pub req_has_off : ℕ → Bool
req_has_off type = type == mreq_read_type || type == mreq_write_type

unfoldable pub req_has_data : ℕ → Bool
req_has_data type = type == mreq_write_type
