-- ===== src/Wgevents/Kind.antt =====
-- pkg/wg/wglog/wgevents/events_generate.go: the events, with the format, the argument types and the
-- logger function of each.

-- The types that arguments are asserted to.
pub data ArgType : Type 0 where
  error_type int_type string_type peer_type uint32_type timestamp_type stringer_type : ArgType

-- The event structs.
pub data EventKind : Type 0 where
  event_assuming_default_mtu : EventKind
  event_bind_close_failed : EventKind
  event_bind_updated : EventKind
  event_cookie_response_invalid : EventKind
  event_create_cookie_reply_failed : EventKind
  event_create_initiation_message_failed : EventKind
  event_create_response_message_failed : EventKind
  event_decode_cookie_reply_failed : EventKind
  event_decryption_worker_stopped : EventKind
  event_derive_keypair_failed : EventKind
  event_device_closed : EventKind
  event_device_closing : EventKind
  event_dropped_packets_from_multi_segment_read : EventKind
  event_event_worker_started : EventKind
  event_event_worker_stopped : EventKind
  event_handshake_did_not_complete : EventKind
  event_handshake_flood : EventKind
  event_handshake_replay : EventKind
  event_handshake_send_failed : EventKind
  event_ipv4_packet_disallowed : EventKind
  event_ipv6_packet_disallowed : EventKind
  event_initiation_message_decode_failed : EventKind
  event_interface_close_ignore_requested_state : EventKind
  event_interface_down_requested : EventKind
  event_interface_state_changed : EventKind
  event_interface_up_requested : EventKind
  event_invalid_mac1 : EventKind
  event_invalid_operation : EventKind
  event_invalid_packet_in_handshake_queue : EventKind
  event_load_mtu_failed : EventKind
  event_mtu_too_large : EventKind
  event_mtu_updated : EventKind
  event_message_unknown_type : EventKind
  event_negative_mtu : EventKind
  event_packet_data_send_failed : EventKind
  event_packet_i_p_version_invalid : EventKind
  event_packet_i_p_version_unknown : EventKind
  event_packet_receive_failed : EventKind
  event_peer_starting : EventKind
  event_peer_stopping : EventKind
  event_received_handshake_initiation : EventKind
  event_received_handshake_response : EventKind
  event_received_invalid_initiation : EventKind
  event_received_invalid_response : EventKind
  event_receiving_cookie_response : EventKind
  event_receiving_keepalive_packet : EventKind
  event_removing_all_keys : EventKind
  event_response_message_decode_failed : EventKind
  event_retrying_handshake : EventKind
  event_retrying_handshake_no_response : EventKind
  event_send_cookie_denied : EventKind
  event_send_handshake_initiation_failed : EventKind
  event_sending_handshake_initiation : EventKind
  event_sending_handshake_response : EventKind
  event_sending_keepalive_packet : EventKind
  event_sequential_reader_stopped : EventKind
  event_sequential_receiver_started : EventKind
  event_sequential_receiver_stopped : EventKind
  event_sequential_sender_started : EventKind
  event_started_decryption_worker : EventKind
  event_started_encryption_worker : EventKind
  event_started_handshake_worker : EventKind
  event_started_receiving_incoming : EventKind
  event_stopped_encryption_worker : EventKind
  event_stopped_handshake_worker : EventKind
  event_stopped_receiving_incoming : EventKind
  event_tun_reader_started : EventKind
  event_tun_reader_stopped : EventKind
  event_tun_write_failed : EventKind
  event_tun_packet_read_failed : EventKind
  event_uapi_adding_allowed_i_p : EventKind
  event_uapi_created : EventKind
  event_uapi_removing_all_allowed_i_ps : EventKind
  event_uapi_removing_all_peers : EventKind
  event_uapi_removing_peer : EventKind
  event_uapi_updating_endpoint : EventKind
  event_uapi_updating_f_w_mark : EventKind
  event_uapi_updating_listen_port : EventKind
  event_uapi_updating_persistent_keepalive : EventKind
  event_uapi_updating_preshared_key : EventKind
  event_uapi_updating_private_key : EventKind
  event_udp_gso_disabled : EventKind
  event_update_bind : EventKind
  event_value : EventKind
