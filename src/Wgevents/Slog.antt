-- ===== src/Wgevents/Slog.antt =====
-- pkg/wg/wglog/wgevents/events_generate.go: the methods `Nice` and `Slog` of the events.
use point_c.Base.{List, [], ◌∷◌, Bytes, codes, Option, none, some}
use point_c.Wgevents.Kind.{
  EventKind, event_assuming_default_mtu, event_bind_close_failed, event_bind_updated,
  event_cookie_response_invalid, event_create_cookie_reply_failed,
  event_create_initiation_message_failed, event_create_response_message_failed,
  event_decode_cookie_reply_failed, event_decryption_worker_stopped, event_derive_keypair_failed,
  event_device_closed, event_device_closing, event_dropped_packets_from_multi_segment_read,
  event_event_worker_started, event_event_worker_stopped, event_handshake_did_not_complete,
  event_handshake_flood, event_handshake_replay, event_handshake_send_failed,
  event_ipv4_packet_disallowed, event_ipv6_packet_disallowed,
  event_initiation_message_decode_failed, event_interface_close_ignore_requested_state,
  event_interface_down_requested, event_interface_state_changed, event_interface_up_requested,
  event_invalid_mac1, event_invalid_operation, event_invalid_packet_in_handshake_queue,
  event_load_mtu_failed, event_mtu_too_large, event_mtu_updated, event_message_unknown_type,
  event_negative_mtu, event_packet_data_send_failed, event_packet_i_p_version_invalid,
  event_packet_i_p_version_unknown, event_packet_receive_failed, event_peer_starting,
  event_peer_stopping, event_received_handshake_initiation, event_received_handshake_response,
  event_received_invalid_initiation, event_received_invalid_response,
  event_receiving_cookie_response, event_receiving_keepalive_packet, event_removing_all_keys,
  event_response_message_decode_failed, event_retrying_handshake,
  event_retrying_handshake_no_response, event_send_cookie_denied,
  event_send_handshake_initiation_failed, event_sending_handshake_initiation,
  event_sending_handshake_response, event_sending_keepalive_packet, event_sequential_reader_stopped,
  event_sequential_receiver_started, event_sequential_receiver_stopped,
  event_sequential_sender_started, event_started_decryption_worker, event_started_encryption_worker,
  event_started_handshake_worker, event_started_receiving_incoming, event_stopped_encryption_worker,
  event_stopped_handshake_worker, event_stopped_receiving_incoming, event_tun_reader_started,
  event_tun_reader_stopped, event_tun_write_failed, event_tun_packet_read_failed,
  event_uapi_adding_allowed_i_p, event_uapi_created, event_uapi_removing_all_allowed_i_ps,
  event_uapi_removing_all_peers, event_uapi_removing_peer, event_uapi_updating_endpoint,
  event_uapi_updating_f_w_mark, event_uapi_updating_listen_port,
  event_uapi_updating_persistent_keepalive, event_uapi_updating_preshared_key,
  event_uapi_updating_private_key, event_udp_gso_disabled, event_update_bind, event_value,
}

-- The methods of slog.Logger that log at each level.
pub data Level : Type 0 where
  debug info warn error : Level

-- What `Nice` returns, the level of `Slog`, and the names of the attributes, which are the fields
-- of the struct.
pub record Methods : Type 0 where
  pub nice : Bytes
  pub level : Level
  pub names : List Bytes

abbrev methods_of : Bytes → Level → List Bytes → Option Methods
methods_of nice level names = some (record { nice = nice; level = level; names = names })

-- The methods of the structs, in the order of the file; `none` for a struct of another part.
unfoldable pub methods_from_assuming_default_mtu : EventKind → Option Methods
methods_from_assuming_default_mtu event_assuming_default_mtu =
    methods_of (codes "Trouble determining MTU, assuming default") error (codes "Err" ∷ [])
methods_from_assuming_default_mtu event_bind_close_failed =
    methods_of (codes "Bind close failed") error (codes "Err" ∷ [])
methods_from_assuming_default_mtu event_bind_updated =
    methods_of (codes "UDP bind has been updated") info ([])
methods_from_assuming_default_mtu event_cookie_response_invalid =
    methods_of (codes "Could not decrypt invalid cookie response") warn ([])
methods_from_assuming_default_mtu event_create_cookie_reply_failed =
    methods_of (codes "Failed to create cookie reply") error (codes "Err" ∷ [])
methods_from_assuming_default_mtu event_create_initiation_message_failed =
    methods_of (codes "Failed to create initiation message") error (codes "Peer" ∷ codes "Err" ∷ [])
methods_from_assuming_default_mtu event_create_response_message_failed =
    methods_of (codes "Failed to create response message") error (codes "Peer" ∷ codes "Err" ∷ [])
methods_from_assuming_default_mtu event_decode_cookie_reply_failed =
    methods_of (codes "Failed to decode cookie reply") warn ([])
methods_from_assuming_default_mtu event_decryption_worker_stopped =
    methods_of (codes "Routine: decryption worker stopped") debug (codes "ID" ∷ [])
methods_from_assuming_default_mtu event_derive_keypair_failed =
    methods_of (codes "Failed to derive keypair") error (codes "Peer" ∷ codes "Err" ∷ [])
methods_from_assuming_default_mtu _ = none

unfoldable pub methods_from_device_closed : EventKind → Option Methods
methods_from_device_closed event_device_closed = methods_of (codes "Device closed") debug ([])
methods_from_device_closed event_device_closing = methods_of (codes "Device closing") debug ([])
methods_from_device_closed event_dropped_packets_from_multi_segment_read =
    methods_of (codes "Dropped some packets from multi-segment read") error (codes "Err" ∷ [])
methods_from_device_closed event_event_worker_started =
    methods_of (codes "Routine: event worker - started") debug ([])
methods_from_device_closed event_event_worker_stopped =
    methods_of (codes "Routine: event worker - stopped") debug ([])
methods_from_device_closed event_handshake_did_not_complete =
    methods_of (codes "Handshake did not complete, giving up") info
      (codes "Peer" ∷ codes "Attempts" ∷ [])
methods_from_device_closed event_handshake_flood =
    methods_of (codes "ConsumeMessageInitiation: handshake flood") warn (codes "Peer" ∷ [])
methods_from_device_closed event_handshake_replay =
    methods_of (codes "ConsumeMessageInitiation: handshake replay") warn
      (codes "Peer" ∷ codes "Timestamp" ∷ [])
methods_from_device_closed event_handshake_send_failed =
    methods_of (codes "Failed to send handshake response") error (codes "Peer" ∷ codes "Err" ∷ [])
methods_from_device_closed event_ipv4_packet_disallowed =
    methods_of (codes "IPv4 packet with disallowed source address from") warn (codes "Peer" ∷ [])
methods_from_device_closed _ = none

unfoldable pub methods_from_ipv6_packet_disallowed : EventKind → Option Methods
methods_from_ipv6_packet_disallowed event_ipv6_packet_disallowed =
    methods_of (codes "IPv6 packet with disallowed source address from") warn (codes "Peer" ∷ [])
methods_from_ipv6_packet_disallowed event_initiation_message_decode_failed =
    methods_of (codes "Failed to decode initiation message") error ([])
methods_from_ipv6_packet_disallowed event_interface_close_ignore_requested_state =
    methods_of (codes "Interface closed, ignored requested state") warn (codes "Want" ∷ [])
methods_from_ipv6_packet_disallowed event_interface_down_requested =
    methods_of (codes "Interface down requested") debug ([])
methods_from_ipv6_packet_disallowed event_interface_state_changed =
    methods_of (codes "Interface state changed") info
      (codes "Old" ∷ codes "Want" ∷ codes "Now" ∷ [])
methods_from_ipv6_packet_disallowed event_interface_up_requested =
    methods_of (codes "Interface up requested") debug ([])
methods_from_ipv6_packet_disallowed event_invalid_mac1 =
    methods_of (codes "Received packet with invalid mac1") warn ([])
methods_from_ipv6_packet_disallowed event_invalid_operation =
    methods_of (codes "invalid UAPI operation") error (codes "Op" ∷ [])
methods_from_ipv6_packet_disallowed event_invalid_packet_in_handshake_queue =
    methods_of (codes "Invalid packet ended up in the handshake queue") error ([])
methods_from_ipv6_packet_disallowed event_load_mtu_failed =
    methods_of (codes "Failed to load updated MTU of device") error (codes "Err" ∷ [])
methods_from_ipv6_packet_disallowed _ = none

unfoldable pub methods_from_mtu_too_large : EventKind → Option Methods
methods_from_mtu_too_large event_mtu_too_large =
    methods_of (codes "MTU too large, capped") warn (codes "MTU" ∷ codes "Cap" ∷ [])
methods_from_mtu_too_large event_mtu_updated =
    methods_of (codes "MTU updated") info (codes "MTU" ∷ [])
methods_from_mtu_too_large event_message_unknown_type =
    methods_of (codes "Received message with unknown type") warn ([])
methods_from_mtu_too_large event_negative_mtu =
    methods_of (codes "MTU not updated to negative value") error (codes "MTU" ∷ [])
methods_from_mtu_too_large event_packet_data_send_failed =
    methods_of (codes "Failed to send data packets") error (codes "Peer" ∷ codes "Err" ∷ [])
methods_from_mtu_too_large event_packet_i_p_version_invalid =
    methods_of (codes "Packet with invalid IP version from") warn (codes "Peer" ∷ [])
methods_from_mtu_too_large event_packet_i_p_version_unknown =
    methods_of (codes "Received packet with unknown IP version") debug ([])
methods_from_mtu_too_large event_packet_receive_failed =
    methods_of (codes "Failed to receive packet") error (codes "RecvName" ∷ codes "Err" ∷ [])
methods_from_mtu_too_large event_peer_starting =
    methods_of (codes "Starting") debug (codes "Peer" ∷ [])
methods_from_mtu_too_large event_peer_stopping =
    methods_of (codes "Stopping") debug (codes "Peer" ∷ [])
methods_from_mtu_too_large event_received_handshake_initiation =
    methods_of (codes "Received handshake initiation") debug (codes "Peer" ∷ [])
methods_from_mtu_too_large _ = none

unfoldable pub methods_from_received_handshake_response : EventKind → Option Methods
methods_from_received_handshake_response event_received_handshake_response =
    methods_of (codes "Received handshake response") debug (codes "Peer" ∷ [])
methods_from_received_handshake_response event_received_invalid_initiation =
    methods_of (codes "Received invalid initiation message") warn (codes "Destination" ∷ [])
methods_from_received_handshake_response event_received_invalid_response =
    methods_of (codes "Received invalid response message") warn (codes "Destination" ∷ [])
methods_from_received_handshake_response event_receiving_cookie_response =
    methods_of (codes "Receiving cookie response") debug (codes "Destination" ∷ [])
methods_from_received_handshake_response event_receiving_keepalive_packet =
    methods_of (codes "Receiving keepalive packet") debug (codes "Peer" ∷ [])
methods_from_received_handshake_response event_removing_all_keys =
    methods_of (codes "Removing all keys, since we haven't received a new one") debug
      (codes "Peer" ∷ codes "Timeout" ∷ [])
methods_from_received_handshake_response event_response_message_decode_failed =
    methods_of (codes "Failed to decode response message") error ([])
methods_from_received_handshake_response event_retrying_handshake =
    methods_of (codes "Handshake did not complete, retrying") warn
      (codes "Peer" ∷ codes "Timeout" ∷ codes "Try" ∷ [])
methods_from_received_handshake_response event_retrying_handshake_no_response =
    methods_of (codes "Retrying handshake because we stopped hearing back") debug
      (codes "Peer" ∷ codes "Timeout" ∷ [])
methods_from_received_handshake_response _ = none

unfoldable pub methods_from_send_cookie_denied : EventKind → Option Methods
methods_from_send_cookie_denied event_send_cookie_denied =
    methods_of (codes "Sending cookie response for denied handshake message") warn
      (codes "Destination" ∷ [])
methods_from_send_cookie_denied event_send_handshake_initiation_failed =
    methods_of (codes "Failed to send handshake initiation") error (codes "Peer" ∷ codes "Err" ∷ [])
methods_from_send_cookie_denied event_sending_handshake_initiation =
    methods_of (codes "Sending handshake initiation") debug (codes "Peer" ∷ [])
methods_from_send_cookie_denied event_sending_handshake_response =
    methods_of (codes "Sending handshake response") debug (codes "Peer" ∷ [])
methods_from_send_cookie_denied event_sending_keepalive_packet =
    methods_of (codes "Sending keepalive packet") debug (codes "Peer" ∷ [])
methods_from_send_cookie_denied event_sequential_reader_stopped =
    methods_of (codes "Routine: sequential sender - stopped") debug (codes "Peer" ∷ [])
methods_from_send_cookie_denied event_sequential_receiver_started =
    methods_of (codes "Routine: sequential receiver - started") debug (codes "Peer" ∷ [])
methods_from_send_cookie_denied event_sequential_receiver_stopped =
    methods_of (codes "Routine: sequential receiver - stopped") debug (codes "Peer" ∷ [])
methods_from_send_cookie_denied event_sequential_sender_started =
    methods_of (codes "Routine: sequential sender - started") debug (codes "Peer" ∷ [])
methods_from_send_cookie_denied event_started_decryption_worker =
    methods_of (codes "Routine: decryption worker started") debug (codes "ID" ∷ [])
methods_from_send_cookie_denied _ = none

unfoldable pub methods_from_started_encryption_worker : EventKind → Option Methods
methods_from_started_encryption_worker event_started_encryption_worker =
    methods_of (codes "Routine: encryption worker started") debug (codes "ID" ∷ [])
methods_from_started_encryption_worker event_started_handshake_worker =
    methods_of (codes "Routine: handshake worker started") debug (codes "ID" ∷ [])
methods_from_started_encryption_worker event_started_receiving_incoming =
    methods_of (codes "Routine: receive incoming stopped") debug (codes "RecvName" ∷ [])
methods_from_started_encryption_worker event_stopped_encryption_worker =
    methods_of (codes "Routine: encryption worker stopped") debug (codes "ID" ∷ [])
methods_from_started_encryption_worker event_stopped_handshake_worker =
    methods_of (codes "Routine: handshake worker stopped") debug (codes "ID" ∷ [])
methods_from_started_encryption_worker event_stopped_receiving_incoming =
    methods_of (codes "Routine: receive incoming started") debug (codes "RecvName" ∷ [])
methods_from_started_encryption_worker event_tun_reader_started =
    methods_of (codes "Routine: TUN reader - started") debug ([])
methods_from_started_encryption_worker event_tun_reader_stopped =
    methods_of (codes "Routine: TUN reader - stopped") debug ([])
methods_from_started_encryption_worker event_tun_write_failed =
    methods_of (codes "Failed to write packets to TUN device") error (codes "Err" ∷ [])
methods_from_started_encryption_worker event_tun_packet_read_failed =
    methods_of (codes "Failed to read packet from TUN device") error (codes "Err" ∷ [])
methods_from_started_encryption_worker event_uapi_adding_allowed_i_p =
    methods_of (codes "UAPI: Adding allowedip") debug (codes "Peer" ∷ [])
methods_from_started_encryption_worker _ = none

unfoldable pub methods_from_uapi_created : EventKind → Option Methods
methods_from_uapi_created event_uapi_created =
    methods_of (codes "UAPI: Created") debug (codes "Peer" ∷ [])
methods_from_uapi_created event_uapi_removing_all_allowed_i_ps =
    methods_of (codes "UAPI: Removing all allowedips") debug (codes "Peer" ∷ [])
methods_from_uapi_created event_uapi_removing_all_peers =
    methods_of (codes "UAPI: Removing all peers") debug ([])
methods_from_uapi_created event_uapi_removing_peer =
    methods_of (codes "UAPI: Removing") debug (codes "Peer" ∷ [])
methods_from_uapi_created event_uapi_updating_endpoint =
    methods_of (codes "UAPI: Updating endpoint") debug (codes "Peer" ∷ [])
methods_from_uapi_created event_uapi_updating_f_w_mark =
    methods_of (codes "UAPI: Updating fwmark") debug ([])
methods_from_uapi_created event_uapi_updating_listen_port =
    methods_of (codes "UAPI: Updating listen port") debug ([])
methods_from_uapi_created event_uapi_updating_persistent_keepalive =
    methods_of (codes "UAPI: Updating persistent keepalive interval") debug (codes "Peer" ∷ [])
methods_from_uapi_created event_uapi_updating_preshared_key =
    methods_of (codes "UAPI: Updating preshared key") debug (codes "Peer" ∷ [])
methods_from_uapi_created event_uapi_updating_private_key =
    methods_of (codes "UAPI: Updating private key") debug ([])
methods_from_uapi_created event_udp_gso_disabled =
    methods_of (codes "disabled UDP GSO, NIC(s) may not support checksum offload") warn
      (codes "OnLAddr" ∷ [])
methods_from_uapi_created _ = none

unfoldable pub methods_from_update_bind : EventKind → Option Methods
methods_from_update_bind event_update_bind =
    methods_of (codes "Unable to update bind") error (codes "Err" ∷ [])
methods_from_update_bind event_value = methods_of (codes "error") error (codes "Err" ∷ [])
methods_from_update_bind _ = none

abbrev first : List (Option Methods) → Methods
first [] = record { nice = []; level = debug; names = [] }
first (none ∷ ms) = first ms
first (some m ∷ ms) = m

-- The methods of each event.
unfoldable pub methods : EventKind → Methods
unfolding methods_from_assuming_default_mtu methods_from_device_closed
    methods_from_ipv6_packet_disallowed methods_from_mtu_too_large
    methods_from_received_handshake_response methods_from_send_cookie_denied
    methods_from_started_encryption_worker methods_from_uapi_created methods_from_update_bind
methods k = first (
    methods_from_assuming_default_mtu k
    ∷ methods_from_device_closed k
    ∷ methods_from_ipv6_packet_disallowed k
    ∷ methods_from_mtu_too_large k
    ∷ methods_from_received_handshake_response k
    ∷ methods_from_send_cookie_denied k
    ∷ methods_from_started_encryption_worker k
    ∷ methods_from_uapi_created k
    ∷ methods_from_update_bind k
    ∷ [])
