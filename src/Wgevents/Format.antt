-- ===== src/Wgevents/Format.antt =====
-- pkg/wg/wglog/wgevents/events_generate.go: the methods of the events and the cases of the two
-- logger functions.
use point_c.Base.{List, [], ◌∷◌, Bytes, codes}
use point_c.Wgevents.Kind.{
  ArgType, error_type, int_type, string_type, peer_type, uint32_type, timestamp_type, stringer_type,
  EventKind, event_assuming_default_mtu, event_bind_close_failed, event_bind_updated,
  event_cookie_response_invalid, event_create_cookie_reply_failed,
  event_create_initiation_message_failed, event_create_response_message_failed,
  event_decode_cookie_reply_failed, event_decryption_worker_stopped, event_derive_keypair_failed,
  event_device_closed, event_device_closing, event_dropped_packets_from_multi_segment_read,
  event_event_worker_started, event_event_worker_stopped, event_handshake_did_not_complete,
  event_handshake_flood, event_handshake_replay, event_handshake_send_failed,
  event_ipv4_packet_disallowed, event_ipv6_packet_disallowed,
  event_initiation_message_decode_failed, event_interface_close_ignore_requested_state,
  event_interface_down_requested, event_interface_state_changed, event_interface_up_requested,
  event_invalid_mac1, event_invalid_operation, event_invalid_packet_in_handshake_queue,
  event_load_mtu_failed, event_mtu_too_large, event_mtu_updated, event_message_unknown_type,
  event_negative_mtu, event_packet_data_send_failed, event_packet_i_p_version_invalid,
  event_packet_i_p_version_unknown, event_packet_receive_failed, event_peer_starting,
  event_peer_stopping, event_received_handshake_initiation, event_received_handshake_response,
  event_received_invalid_initiation, event_received_invalid_response,
  event_receiving_cookie_response, event_receiving_keepalive_packet, event_removing_all_keys,
  event_response_message_decode_failed, event_retrying_handshake,
  event_retrying_handshake_no_response, event_send_cookie_denied,
  event_send_handshake_initiation_failed, event_sending_handshake_initiation,
  event_sending_handshake_response, event_sending_keepalive_packet, event_sequential_reader_stopped,
  event_sequential_receiver_started, event_sequential_receiver_stopped,
  event_sequential_sender_started, event_started_decryption_worker, event_started_encryption_worker,
  event_started_handshake_worker, event_started_receiving_incoming, event_stopped_encryption_worker,
  event_stopped_handshake_worker, event_stopped_receiving_incoming, event_tun_reader_started,
  event_tun_reader_stopped, event_tun_write_failed, event_tun_packet_read_failed,
  event_uapi_adding_allowed_i_p, event_uapi_created, event_uapi_removing_all_allowed_i_ps,
  event_uapi_removing_all_peers, event_uapi_removing_peer, event_uapi_updating_endpoint,
  event_uapi_updating_f_w_mark, event_uapi_updating_listen_port,
  event_uapi_updating_persistent_keepalive, event_uapi_updating_preshared_key,
  event_uapi_updating_private_key, event_udp_gso_disabled, event_update_bind, event_value,
}

-- The method `Format` of each.
unfoldable pub event_format : EventKind → Bytes
event_format event_assuming_default_mtu = codes "Trouble determining MTU, assuming default: %v"
event_format event_bind_close_failed = codes "Bind close failed: %v"
event_format event_bind_updated = codes "UDP bind has been updated"
event_format event_cookie_response_invalid = codes "Could not decrypt invalid cookie response"
event_format event_create_cookie_reply_failed = codes "Failed to create cookie reply: %v"
event_format event_create_initiation_message_failed =
    codes "%v - Failed to create initiation message: %v"
event_format event_create_response_message_failed =
    codes "%v - Failed to create response message: %v"
event_format event_decode_cookie_reply_failed = codes "Failed to decode cookie reply"
event_format event_decryption_worker_stopped = codes "Routine: decryption worker %d - stopped"
event_format event_derive_keypair_failed = codes "%v - Failed to derive keypair: %v"
event_format event_device_closed = codes "Device closed"
event_format event_device_closing = codes "Device closing"
event_format event_dropped_packets_from_multi_segment_read =
    codes "Dropped some packets from multi-segment read: %v"
event_format event_event_worker_started = codes "Routine: event worker - started"
event_format event_event_worker_stopped = codes "Routine: event worker - stopped"
event_format event_handshake_did_not_complete =
    codes "%s - Handshake did not complete after %d attempts, giving up"
event_format event_handshake_flood = codes "%v - ConsumeMessageInitiation: handshake flood"
event_format event_handshake_replay = codes "%v - ConsumeMessageInitiation: handshake replay @ %v"
event_format event_handshake_send_failed = codes "%v - Failed to send handshake response: %v"
event_format event_ipv4_packet_disallowed =
    codes "IPv4 packet with disallowed source address from %v"
event_format event_ipv6_packet_disallowed =
    codes "IPv6 packet with disallowed source address from %v"
event_format event_initiation_message_decode_failed = codes "Failed to decode initiation message"
event_format event_interface_close_ignore_requested_state =
    codes "Interface closed, ignored requested state %s"
event_format event_interface_down_requested = codes "Interface down requested"
event_format event_interface_state_changed = codes "Interface state was %s, requested %s, now %s"
event_format event_interface_up_requested = codes "Interface up requested"
event_format event_invalid_mac1 = codes "Received packet with invalid mac1"
event_format event_invalid_operation = codes "invalid UAPI operation: %v"
event_format event_invalid_packet_in_handshake_queue =
    codes "Invalid packet ended up in the handshake queue"
event_format event_load_mtu_failed = codes "Failed to load updated MTU of device: %v"
event_format event_mtu_too_large = codes "MTU updated: %v (too large, capped at %v)"
event_format event_mtu_updated = codes "MTU updated: %v"
event_format event_message_unknown_type = codes "Received message with unknown type"
event_format event_negative_mtu = codes "MTU not updated to negative value: %v"
event_format event_packet_data_send_failed = codes "%v - Failed to send data packets: %v"
event_format event_packet_i_p_version_invalid = codes "Packet with invalid IP version from %v"
event_format event_packet_i_p_version_unknown = codes "Received packet with unknown IP version"
event_format event_packet_receive_failed = codes "Failed to receive %s packet: %v"
event_format event_peer_starting = codes "%v - Starting"
event_format event_peer_stopping = codes "%v - Stopping"
event_format event_received_handshake_initiation = codes "%v - Received handshake initiation"
event_format event_received_handshake_response = codes "%v - Received handshake response"
event_format event_received_invalid_initiation = codes "Received invalid initiation message from %s"
event_format event_received_invalid_response = codes "Received invalid response message from %s"
event_format event_receiving_cookie_response = codes "Receiving cookie response from %s"
event_format event_receiving_keepalive_packet = codes "%v - Receiving keepalive packet"
event_format event_removing_all_keys =
    codes "%s - Removing all keys, since we haven't received a new one in %d seconds"
event_format event_response_message_decode_failed = codes "Failed to decode response message"
event_format event_retrying_handshake =
    codes "%s - Handshake did not complete after %d seconds, retrying (try %d)"
event_format event_retrying_handshake_no_response =
    codes "%s - Retrying handshake because we stopped hearing back after %d seconds"
event_format event_send_cookie_denied =
    codes "Sending cookie response for denied handshake message for %v"
event_format event_send_handshake_initiation_failed =
    codes "%v - Failed to send handshake initiation: %v"
event_format event_sending_handshake_initiation = codes "%v - Sending handshake initiation"
event_format event_sending_handshake_response = codes "%v - Sending handshake response"
event_format event_sending_keepalive_packet = codes "%v - Sending keepalive packet"
event_format event_sequential_reader_stopped = codes "%v - Routine: sequential sender - stopped"
event_format event_sequential_receiver_started = codes "%v - Routine: sequential receiver - started"
event_format event_sequential_receiver_stopped = codes "%v - Routine: sequential receiver - stopped"
event_format event_sequential_sender_started = codes "%v - Routine: sequential sender - started"
event_format event_started_decryption_worker = codes "Routine: decryption worker %d - started"
event_format event_started_encryption_worker = codes "Routine: encryption worker %d - started"
event_format event_started_handshake_worker = codes "Routine: handshake worker %d - started"
event_format event_started_receiving_incoming = codes "Routine: receive incoming %s - stopped"
event_format event_stopped_encryption_worker = codes "Routine: encryption worker %d - stopped"
event_format event_stopped_handshake_worker = codes "Routine: handshake worker %d - stopped"
event_format event_stopped_receiving_incoming = codes "Routine: receive incoming %s - started"
event_format event_tun_reader_started = codes "Routine: TUN reader - started"
event_format event_tun_reader_stopped = codes "Routine: TUN reader - stopped"
event_format event_tun_write_failed = codes "Failed to write packets to TUN device: %v"
event_format event_tun_packet_read_failed = codes "Failed to read packet from TUN device: %v"
event_format event_uapi_adding_allowed_i_p = codes "%v - UAPI: Adding allowedip"
event_format event_uapi_created = codes "%v - UAPI: Created"
event_format event_uapi_removing_all_allowed_i_ps = codes "%v - UAPI: Removing all allowedips"
event_format event_uapi_removing_all_peers = codes "UAPI: Removing all peers"
event_format event_uapi_removing_peer = codes "%v - UAPI: Removing"
event_format event_uapi_updating_endpoint = codes "%v - UAPI: Updating endpoint"
event_format event_uapi_updating_f_w_mark = codes "UAPI: Updating fwmark"
event_format event_uapi_updating_listen_port = codes "UAPI: Updating listen port"
event_format event_uapi_updating_persistent_keepalive =
    codes "%v - UAPI: Updating persistent keepalive interval"
event_format event_uapi_updating_preshared_key = codes "%v - UAPI: Updating preshared key"
event_format event_uapi_updating_private_key = codes "UAPI: Updating private key"
event_format event_udp_gso_disabled =
    codes "disabled UDP GSO on %s, NIC(s) may not support checksum offload"
event_format event_update_bind = codes "Unable to update bind: %v"
event_format event_value = codes "%v"

-- The types of the fields of each, in the order of `Args`.
abbrev pub arg_types : EventKind → List ArgType
arg_types event_assuming_default_mtu = error_type ∷ []
arg_types event_bind_close_failed = error_type ∷ []
arg_types event_bind_updated = []
arg_types event_cookie_response_invalid = []
arg_types event_create_cookie_reply_failed = error_type ∷ []
arg_types event_create_initiation_message_failed = peer_type ∷ error_type ∷ []
arg_types event_create_response_message_failed = peer_type ∷ error_type ∷ []
arg_types event_decode_cookie_reply_failed = []
arg_types event_decryption_worker_stopped = int_type ∷ []
arg_types event_derive_keypair_failed = peer_type ∷ error_type ∷ []
arg_types event_device_closed = []
arg_types event_device_closing = []
arg_types event_dropped_packets_from_multi_segment_read = error_type ∷ []
arg_types event_event_worker_started = []
arg_types event_event_worker_stopped = []
arg_types event_handshake_did_not_complete = peer_type ∷ int_type ∷ []
arg_types event_handshake_flood = peer_type ∷ []
arg_types event_handshake_replay = peer_type ∷ timestamp_type ∷ []
arg_types event_handshake_send_failed = peer_type ∷ error_type ∷ []
arg_types event_ipv4_packet_disallowed = peer_type ∷ []
arg_types event_ipv6_packet_disallowed = peer_type ∷ []
arg_types event_initiation_message_decode_failed = []
arg_types event_interface_close_ignore_requested_state = stringer_type ∷ []
arg_types event_interface_down_requested = []
arg_types event_interface_state_changed = stringer_type ∷ stringer_type ∷ stringer_type ∷ []
arg_types event_interface_up_requested = []
arg_types event_invalid_mac1 = []
arg_types event_invalid_operation = string_type ∷ []
arg_types event_invalid_packet_in_handshake_queue = []
arg_types event_load_mtu_failed = error_type ∷ []
arg_types event_mtu_too_large = int_type ∷ int_type ∷ []
arg_types event_mtu_updated = int_type ∷ []
arg_types event_message_unknown_type = []
arg_types event_negative_mtu = int_type ∷ []
arg_types event_packet_data_send_failed = peer_type ∷ error_type ∷ []
arg_types event_packet_i_p_version_invalid = peer_type ∷ []
arg_types event_packet_i_p_version_unknown = []
arg_types event_packet_receive_failed = string_type ∷ error_type ∷ []
arg_types event_peer_starting = peer_type ∷ []
arg_types event_peer_stopping = peer_type ∷ []
arg_types event_received_handshake_initiation = peer_type ∷ []
arg_types event_received_handshake_response = peer_type ∷ []
arg_types event_received_invalid_initiation = string_type ∷ []
arg_types event_received_invalid_response = string_type ∷ []
arg_types event_receiving_cookie_response = string_type ∷ []
arg_types event_receiving_keepalive_packet = peer_type ∷ []
arg_types event_removing_all_keys = peer_type ∷ int_type ∷ []
arg_types event_response_message_decode_failed = []
arg_types event_retrying_handshake = peer_type ∷ int_type ∷ uint32_type ∷ []
arg_types event_retrying_handshake_no_response = peer_type ∷ int_type ∷ []
arg_types event_send_cookie_denied = string_type ∷ []
arg_types event_send_handshake_initiation_failed = peer_type ∷ error_type ∷ []
arg_types event_sending_handshake_initiation = peer_type ∷ []
arg_types event_sending_handshake_response = peer_type ∷ []
arg_types event_sending_keepalive_packet = peer_type ∷ []
arg_types event_sequential_reader_stopped = peer_type ∷ []
arg_types event_sequential_receiver_started = peer_type ∷ []
arg_types event_sequential_receiver_stopped = peer_type ∷ []
arg_types event_sequential_sender_started = peer_type ∷ []
arg_types event_started_decryption_worker = int_type ∷ []
arg_types event_started_encryption_worker = int_type ∷ []
arg_types event_started_handshake_worker = int_type ∷ []
arg_types event_started_receiving_incoming = string_type ∷ []
arg_types event_stopped_encryption_worker = int_type ∷ []
arg_types event_stopped_handshake_worker = int_type ∷ []
arg_types event_stopped_receiving_incoming = string_type ∷ []
arg_types event_tun_reader_started = []
arg_types event_tun_reader_stopped = []
arg_types event_tun_write_failed = error_type ∷ []
arg_types event_tun_packet_read_failed = error_type ∷ []
arg_types event_uapi_adding_allowed_i_p = peer_type ∷ []
arg_types event_uapi_created = peer_type ∷ []
arg_types event_uapi_removing_all_allowed_i_ps = peer_type ∷ []
arg_types event_uapi_removing_all_peers = []
arg_types event_uapi_removing_peer = peer_type ∷ []
arg_types event_uapi_updating_endpoint = peer_type ∷ []
arg_types event_uapi_updating_f_w_mark = []
arg_types event_uapi_updating_listen_port = []
arg_types event_uapi_updating_persistent_keepalive = peer_type ∷ []
arg_types event_uapi_updating_preshared_key = peer_type ∷ []
arg_types event_uapi_updating_private_key = []
arg_types event_udp_gso_disabled = string_type ∷ []
arg_types event_update_bind = error_type ∷ []
arg_types event_value = error_type ∷ []
