-- ===== src/Wgevents/Named.antt =====
-- pkg/wg/wglog/wgevents/events_generate.go: `Slog` names every field of an event.
use point_c.Base.{◌≡◌, refl, length}
use point_c.Wgevents.Kind.{
  EventKind, event_assuming_default_mtu, event_bind_close_failed, event_bind_updated,
  event_cookie_response_invalid, event_create_cookie_reply_failed,
  event_create_initiation_message_failed, event_create_response_message_failed,
  event_decode_cookie_reply_failed, event_decryption_worker_stopped, event_derive_keypair_failed,
  event_device_closed, event_device_closing, event_dropped_packets_from_multi_segment_read,
  event_event_worker_started, event_event_worker_stopped, event_handshake_did_not_complete,
  event_handshake_flood, event_handshake_replay, event_handshake_send_failed,
  event_ipv4_packet_disallowed, event_ipv6_packet_disallowed,
  event_initiation_message_decode_failed, event_interface_close_ignore_requested_state,
  event_interface_down_requested, event_interface_state_changed, event_interface_up_requested,
  event_invalid_mac1, event_invalid_operation, event_invalid_packet_in_handshake_queue,
  event_load_mtu_failed, event_mtu_too_large, event_mtu_updated, event_message_unknown_type,
  event_negative_mtu, event_packet_data_send_failed, event_packet_i_p_version_invalid,
  event_packet_i_p_version_unknown, event_packet_receive_failed, event_peer_starting,
  event_peer_stopping, event_received_handshake_initiation, event_received_handshake_response,
  event_received_invalid_initiation, event_received_invalid_response,
  event_receiving_cookie_response, event_receiving_keepalive_packet, event_removing_all_keys,
  event_response_message_decode_failed, event_retrying_handshake,
  event_retrying_handshake_no_response, event_send_cookie_denied,
  event_send_handshake_initiation_failed, event_sending_handshake_initiation,
  event_sending_handshake_response, event_sending_keepalive_packet, event_sequential_reader_stopped,
  event_sequential_receiver_started, event_sequential_receiver_stopped,
  event_sequential_sender_started, event_started_decryption_worker, event_started_encryption_worker,
  event_started_handshake_worker, event_started_receiving_incoming, event_stopped_encryption_worker,
  event_stopped_handshake_worker, event_stopped_receiving_incoming, event_tun_reader_started,
  event_tun_reader_stopped, event_tun_write_failed, event_tun_packet_read_failed,
  event_uapi_adding_allowed_i_p, event_uapi_created, event_uapi_removing_all_allowed_i_ps,
  event_uapi_removing_all_peers, event_uapi_removing_peer, event_uapi_updating_endpoint,
  event_uapi_updating_f_w_mark, event_uapi_updating_listen_port,
  event_uapi_updating_persistent_keepalive, event_uapi_updating_preshared_key,
  event_uapi_updating_private_key, event_udp_gso_disabled, event_update_bind, event_value,
}
use point_c.Wgevents.Format.{arg_types}
use point_c.Wgevents.Slog.{methods}

pub length-names : (k : EventKind) → length (methods k).names ≡ length (arg_types k)
unfolding methods
length-names event_assuming_default_mtu = refl
length-names event_bind_close_failed = refl
length-names event_bind_updated = refl
length-names event_cookie_response_invalid = refl
length-names event_create_cookie_reply_failed = refl
length-names event_create_initiation_message_failed = refl
length-names event_create_response_message_failed = refl
length-names event_decode_cookie_reply_failed = refl
length-names event_decryption_worker_stopped = refl
length-names event_derive_keypair_failed = refl
length-names event_device_closed = refl
length-names event_device_closing = refl
length-names event_dropped_packets_from_multi_segment_read = refl
length-names event_event_worker_started = refl
length-names event_event_worker_stopped = refl
length-names event_handshake_did_not_complete = refl
length-names event_handshake_flood = refl
length-names event_handshake_replay = refl
length-names event_handshake_send_failed = refl
length-names event_ipv4_packet_disallowed = refl
length-names event_ipv6_packet_disallowed = refl
length-names event_initiation_message_decode_failed = refl
length-names event_interface_close_ignore_requested_state = refl
length-names event_interface_down_requested = refl
length-names event_interface_state_changed = refl
length-names event_interface_up_requested = refl
length-names event_invalid_mac1 = refl
length-names event_invalid_operation = refl
length-names event_invalid_packet_in_handshake_queue = refl
length-names event_load_mtu_failed = refl
length-names event_mtu_too_large = refl
length-names event_mtu_updated = refl
length-names event_message_unknown_type = refl
length-names event_negative_mtu = refl
length-names event_packet_data_send_failed = refl
length-names event_packet_i_p_version_invalid = refl
length-names event_packet_i_p_version_unknown = refl
length-names event_packet_receive_failed = refl
length-names event_peer_starting = refl
length-names event_peer_stopping = refl
length-names event_received_handshake_initiation = refl
length-names event_received_handshake_response = refl
length-names event_received_invalid_initiation = refl
length-names event_received_invalid_response = refl
length-names event_receiving_cookie_response = refl
length-names event_receiving_keepalive_packet = refl
length-names event_removing_all_keys = refl
length-names event_response_message_decode_failed = refl
length-names event_retrying_handshake = refl
length-names event_retrying_handshake_no_response = refl
length-names event_send_cookie_denied = refl
length-names event_send_handshake_initiation_failed = refl
length-names event_sending_handshake_initiation = refl
length-names event_sending_handshake_response = refl
length-names event_sending_keepalive_packet = refl
length-names event_sequential_reader_stopped = refl
length-names event_sequential_receiver_started = refl
length-names event_sequential_receiver_stopped = refl
length-names event_sequential_sender_started = refl
length-names event_started_decryption_worker = refl
length-names event_started_encryption_worker = refl
length-names event_started_handshake_worker = refl
length-names event_started_receiving_incoming = refl
length-names event_stopped_encryption_worker = refl
length-names event_stopped_handshake_worker = refl
length-names event_stopped_receiving_incoming = refl
length-names event_tun_reader_started = refl
length-names event_tun_reader_stopped = refl
length-names event_tun_write_failed = refl
length-names event_tun_packet_read_failed = refl
length-names event_uapi_adding_allowed_i_p = refl
length-names event_uapi_created = refl
length-names event_uapi_removing_all_allowed_i_ps = refl
length-names event_uapi_removing_all_peers = refl
length-names event_uapi_removing_peer = refl
length-names event_uapi_updating_endpoint = refl
length-names event_uapi_updating_f_w_mark = refl
length-names event_uapi_updating_listen_port = refl
length-names event_uapi_updating_persistent_keepalive = refl
length-names event_uapi_updating_preshared_key = refl
length-names event_uapi_updating_private_key = refl
length-names event_udp_gso_disabled = refl
length-names event_update_bind = refl
length-names event_value = refl
