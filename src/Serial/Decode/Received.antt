-- ===== src/Serial/Decode/Received.antt =====
-- What a target value becomes when a packet is read into it: the fields that travel are replaced.
use middfs.Common.{some, ◌==◌, if◌then◌else◌}
use middfs.Pkt.{Request, Data, Response, Packet}
use middfs.Pkt.Kinds.{req_has_mode, req_has_size, req_has_to, req_has_off, req_has_data}
use middfs.Pkt.Kinds.{mpkt_connect_type, mpkt_request_type, mpkt_response_type}
use middfs.Pkt.Kinds.{mrsp_ok_type, mrsp_data_type, mrsp_stat_type, mrsp_dir_type, mrsp_error_type}
use middfs.Serial.Format.{sign_extend, block_bytes}

-- `size` and `off` arrive as they were cut to 32 bits and extended again.
unfoldable pub received_fields : Request → Request → Request
received_fields s r =
    let r0 = record s {
      mreq_type = r.mreq_type;
      mreq_requester = r.mreq_requester;
      mreq_rsrc = r.mreq_rsrc;
    } in
    let r1 = if req_has_mode r.mreq_type then record r0 { mreq_mode = r.mreq_mode } else r0 in
    let r2 =
      if req_has_size r.mreq_type then record r1 { mreq_size = sign_extend r.mreq_size } else r1 in
    let r3 = if req_has_to r.mreq_type then record r2 { mreq_to = r.mreq_to } else r2 in
    if req_has_off r.mreq_type then record r3 { mreq_off = sign_extend r.mreq_off } else r3

unfoldable pub received_request : Request → Request → Request
received_request s r =
    let r4 = received_fields s r in
    if req_has_data r.mreq_type
    then record r4 { mreq_data = some (block_bytes r.mreq_data r.mreq_size) }
    else r4

unfoldable pub received_data : Data → Data → Data
received_data s d = record {
  mdata_nbytes = d.mdata_nbytes;
  mdata_buf =
      if d.mdata_nbytes == 0 then s.mdata_buf else some (block_bytes d.mdata_buf d.mdata_nbytes);
}

unfoldable pub received_response : Response → Response → Response
received_response s r =
    let t = record s { mrsp_type = r.mrsp_type } in
    if r.mrsp_type == mrsp_ok_type
    then t
    else if r.mrsp_type == mrsp_data_type
    then record t { mrsp_data = received_data s.mrsp_data r.mrsp_data }
    else if r.mrsp_type == mrsp_stat_type
    then record t { mrsp_stat = r.mrsp_stat }
    else if r.mrsp_type == mrsp_dir_type
    then record t { mrsp_dir = r.mrsp_dir }
    else if r.mrsp_type == mrsp_error_type
    then record t { mrsp_error = r.mrsp_error }
    else t

unfoldable pub received_packet : Packet → Packet → Packet
received_packet s p =
    let t = record s { mpkt_magic = p.mpkt_magic; mpkt_type = p.mpkt_type } in
    if p.mpkt_type == mpkt_request_type
    then record t { mpkt_request = received_request s.mpkt_request p.mpkt_request }
    else if p.mpkt_type == mpkt_response_type
    then record t { mpkt_response = received_response s.mpkt_response p.mpkt_response }
    else if p.mpkt_type == mpkt_connect_type
    then record t { mpkt_connect = p.mpkt_connect }
    else t
