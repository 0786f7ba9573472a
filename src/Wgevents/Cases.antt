-- ===== src/Wgevents/Cases.antt =====
-- pkg/wg/wglog/wgevents/events_generate.go: the method `IsErrorf` and the order of the cases in
-- `Events`.
use point_c.Base.{Bool, true, false, List, [], ◌∷◌, ◌++◌}
use point_c.Wgevents.Kind.{
  EventKind, event_assuming_default_mtu, event_bind_close_failed, event_bind_updated,
  event_cookie_response_invalid, event_create_cookie_reply_failed,
  event_create_initiation_message_failed, event_create_response_message_failed,
  event_decode_cookie_reply_failed, event_decryption_worker_stopped, event_derive_keypair_failed,
  event_device_closed, event_device_closing, event_dropped_packets_from_multi_segment_read,
  event_event_worker_started, event_event_worker_stopped, event_handshake_did_not_complete,
  event_handshake_flood, event_handshake_replay, event_handshake_send_failed,
  event_ipv4_packet_disallowed, event_ipv6_packet_disallowed,
  event_initiation_message_decode_failed, event_interface_close_ignore_requested_state,
  event_interface_down_requested, event_interface_state_changed, event_interface_up_requested,
  event_invalid_mac1, event_invalid_operation, event_invalid_packet_in_handshake_queue,
  event_load_mtu_failed, event_mtu_too_large, event_mtu_updated, event_message_unknown_type,
  event_negative_mtu, event_packet_data_send_failed, event_packet_i_p_version_invalid,
  event_packet_i_p_version_unknown, event_packet_receive_failed, event_peer_starting,
  event_peer_stopping, event_received_handshake_initiation, event_received_handshake_response,
  event_received_invalid_initiation, event_received_invalid_response,
  event_receiving_cookie_response, event_receiving_keepalive_packet, event_removing_all_keys,
  event_response_message_decode_failed, event_retrying_handshake,
  event_retrying_handshake_no_response, event_send_cookie_denied,
  event_send_handshake_initiation_failed, event_sending_handshake_initiation,
  event_sending_handshake_response, event_sending_keepalive_packet, event_sequential_reader_stopped,
  event_sequential_receiver_started, event_sequential_receiver_stopped,
  event_sequential_sender_started, event_started_decryption_worker, event_started_encryption_worker,
  event_started_handshake_worker, event_started_receiving_incoming, event_stopped_encryption_worker,
  event_stopped_handshake_worker, event_stopped_receiving_incoming, event_tun_reader_started,
  event_tun_reader_stopped, event_tun_write_failed, event_tun_packet_read_failed,
  event_uapi_adding_allowed_i_p, event_uapi_created, event_uapi_removing_all_allowed_i_ps,
  event_uapi_removing_all_peers, event_uapi_removing_peer, event_uapi_updating_endpoint,
  event_uapi_updating_f_w_mark, event_uapi_updating_listen_port,
  event_uapi_updating_persistent_keepalive, event_uapi_updating_preshared_key,
  event_uapi_updating_private_key, event_udp_gso_disabled, event_update_bind, event_value,
}

-- The method `IsErrorf` of each.
abbrev pub is_errorf : EventKind → Bool
is_errorf event_assuming_default_mtu = true
is_errorf event_bind_close_failed = true
is_errorf event_bind_updated = false
is_errorf event_cookie_response_invalid = false
is_errorf event_create_cookie_reply_failed = true
is_errorf event_create_initiation_message_failed = true
is_errorf event_create_response_message_failed = true
is_errorf event_decode_cookie_reply_failed = false
is_errorf event_decryption_worker_stopped = false
is_errorf event_derive_keypair_failed = true
is_errorf event_device_closed = false
is_errorf event_device_closing = false
is_errorf event_dropped_packets_from_multi_segment_read = false
is_errorf event_event_worker_started = false
is_errorf event_event_worker_stopped = false
is_errorf event_handshake_did_not_complete = false
is_errorf event_handshake_flood = false
is_errorf event_handshake_replay = false
is_errorf event_handshake_send_failed = true
is_errorf event_ipv4_packet_disallowed = false
is_errorf event_ipv6_packet_disallowed = false
is_errorf event_initiation_message_decode_failed = true
is_errorf event_interface_close_ignore_requested_state = false
is_errorf event_interface_down_requested = false
is_errorf event_interface_state_changed = false
is_errorf event_interface_up_requested = false
is_errorf event_invalid_mac1 = false
is_errorf event_invalid_operation = true
is_errorf event_invalid_packet_in_handshake_queue = true
is_errorf event_load_mtu_failed = true
is_errorf event_mtu_too_large = false
is_errorf event_mtu_updated = false
is_errorf event_message_unknown_type = false
is_errorf event_negative_mtu = true
is_errorf event_packet_data_send_failed = true
is_errorf event_packet_i_p_version_invalid = false
is_errorf event_packet_i_p_version_unknown = false
is_errorf event_packet_receive_failed = false
is_errorf event_peer_starting = false
is_errorf event_peer_stopping = false
is_errorf event_received_handshake_initiation = false
is_errorf event_received_handshake_response = false
is_errorf event_received_invalid_initiation = false
is_errorf event_received_invalid_response = false
is_errorf event_receiving_cookie_response = false
is_errorf event_receiving_keepalive_packet = false
is_errorf event_removing_all_keys = false
is_errorf event_response_message_decode_failed = true
is_errorf event_retrying_handshake = false
is_errorf event_retrying_handshake_no_response = false
is_errorf event_send_cookie_denied = false
is_errorf event_send_handshake_initiation_failed = true
is_errorf event_sending_handshake_initiation = false
is_errorf event_sending_handshake_response = false
is_errorf event_sending_keepalive_packet = false
is_errorf event_sequential_reader_stopped = false
is_errorf event_sequential_receiver_started = false
is_errorf event_sequential_receiver_stopped = false
is_errorf event_sequential_sender_started = false
is_errorf event_started_decryption_worker = false
is_errorf event_started_encryption_worker = false
is_errorf event_started_handshake_worker = false
is_errorf event_started_receiving_incoming = false
is_errorf event_stopped_encryption_worker = false
is_errorf event_stopped_handshake_worker = false
is_errorf event_stopped_receiving_incoming = false
is_errorf event_tun_reader_started = false
is_errorf event_tun_reader_stopped = false
is_errorf event_tun_write_failed = true
is_errorf event_tun_packet_read_failed = true
is_errorf event_uapi_adding_allowed_i_p = false
is_errorf event_uapi_created = false
is_errorf event_uapi_removing_all_allowed_i_ps = false
is_errorf event_uapi_removing_all_peers = false
is_errorf event_uapi_removing_peer = false
is_errorf event_uapi_updating_endpoint = false
is_errorf event_uapi_updating_f_w_mark = false
is_errorf event_uapi_updating_listen_port = false
is_errorf event_uapi_updating_persistent_keepalive = false
is_errorf event_uapi_updating_preshared_key = false
is_errorf event_uapi_updating_private_key = false
is_errorf event_udp_gso_disabled = false
is_errorf event_update_bind = true
is_errorf event_value = true

-- The cases of `Verbosef` that make an event, in the order of its switch.
abbrev pub verbosef_from_bind_updated : List EventKind
verbosef_from_bind_updated =
    event_bind_updated ∷ event_cookie_response_invalid ∷ event_decode_cookie_reply_failed
    ∷ event_decryption_worker_stopped ∷ event_device_closed ∷ event_device_closing
    ∷ event_dropped_packets_from_multi_segment_read ∷ event_event_worker_started
    ∷ event_event_worker_stopped ∷ event_handshake_did_not_complete ∷ event_handshake_flood
    ∷ event_handshake_replay ∷ event_ipv4_packet_disallowed ∷ event_ipv6_packet_disallowed
    ∷ event_interface_close_ignore_requested_state ∷ event_interface_down_requested ∷ []

abbrev pub verbosef_from_interface_state_changed : List EventKind
verbosef_from_interface_state_changed =
    event_interface_state_changed ∷ event_interface_up_requested ∷ event_invalid_mac1
    ∷ event_mtu_too_large ∷ event_mtu_updated ∷ event_message_unknown_type
    ∷ event_packet_i_p_version_invalid ∷ event_packet_i_p_version_unknown
    ∷ event_packet_receive_failed ∷ event_peer_starting ∷ event_peer_stopping
    ∷ event_received_handshake_initiation ∷ event_received_handshake_response ∷ []

abbrev pub verbosef_from_received_invalid_initiation : List EventKind
verbosef_from_received_invalid_initiation =
    event_received_invalid_initiation ∷ event_received_invalid_response
    ∷ event_receiving_cookie_response ∷ event_receiving_keepalive_packet ∷ event_removing_all_keys
    ∷ event_retrying_handshake ∷ event_retrying_handshake_no_response ∷ event_send_cookie_denied
    ∷ event_sending_handshake_initiation ∷ event_sending_handshake_response
    ∷ event_sending_keepalive_packet ∷ []

abbrev pub verbosef_from_sequential_reader_stopped : List EventKind
verbosef_from_sequential_reader_stopped =
    event_sequential_reader_stopped ∷ event_sequential_receiver_started
    ∷ event_sequential_receiver_stopped ∷ event_sequential_sender_started
    ∷ event_started_decryption_worker ∷ event_started_encryption_worker
    ∷ event_started_handshake_worker ∷ event_started_receiving_incoming
    ∷ event_stopped_encryption_worker ∷ event_stopped_handshake_worker
    ∷ event_stopped_receiving_incoming ∷ event_tun_reader_started ∷ event_tun_reader_stopped
    ∷ event_uapi_adding_allowed_i_p ∷ []

abbrev pub verbosef_from_uapi_created : List EventKind
verbosef_from_uapi_created =
    event_uapi_created ∷ event_uapi_removing_all_allowed_i_ps ∷ event_uapi_removing_all_peers
    ∷ event_uapi_removing_peer ∷ event_uapi_updating_endpoint ∷ event_uapi_updating_f_w_mark
    ∷ event_uapi_updating_listen_port ∷ event_uapi_updating_persistent_keepalive
    ∷ event_uapi_updating_preshared_key ∷ event_uapi_updating_private_key ∷ []

abbrev pub verbosef_cases : List EventKind
verbosef_cases =
    verbosef_from_bind_updated
    ++ (verbosef_from_interface_state_changed
        ++ (verbosef_from_received_invalid_initiation
            ++ (verbosef_from_sequential_reader_stopped ++ (verbosef_from_uapi_created))))

-- The cases of `Errorf` that make an event, in the order of its switch.
abbrev pub errorf_from_assuming_default_mtu : List EventKind
errorf_from_assuming_default_mtu =
    event_assuming_default_mtu ∷ event_bind_close_failed ∷ event_create_cookie_reply_failed
    ∷ event_create_initiation_message_failed ∷ event_create_response_message_failed
    ∷ event_derive_keypair_failed ∷ event_handshake_send_failed
    ∷ event_initiation_message_decode_failed ∷ event_invalid_operation
    ∷ event_invalid_packet_in_handshake_queue ∷ event_load_mtu_failed ∷ event_negative_mtu ∷ []

abbrev pub errorf_from_packet_data_send_failed : List EventKind
errorf_from_packet_data_send_failed =
    event_packet_data_send_failed ∷ event_response_message_decode_failed
    ∷ event_send_handshake_initiation_failed ∷ event_tun_write_failed ∷ event_tun_packet_read_failed
    ∷ event_update_bind ∷ event_value ∷ []

abbrev pub errorf_cases : List EventKind
errorf_cases = errorf_from_assuming_default_mtu ++ (errorf_from_packet_data_send_failed)
