-- ===== src/Wgevents/Recognition.antt =====
-- An event that is logged in its own form is recognized, and what is recognized was logged in this
-- form.
use point_c.Base.{true, some, List, ◌≡◌, ◌≢◌, refl}
use point_c.Wgevents.Kind.{
  EventKind, event_assuming_default_mtu, event_bind_close_failed, event_bind_updated,
  event_cookie_response_invalid, event_create_cookie_reply_failed,
  event_create_initiation_message_failed, event_create_response_message_failed,
  event_decode_cookie_reply_failed, event_decryption_worker_stopped, event_derive_keypair_failed,
  event_device_closed, event_device_closing, event_dropped_packets_from_multi_segment_read,
  event_event_worker_started, event_event_worker_stopped, event_handshake_did_not_complete,
  event_handshake_flood, event_handshake_replay, event_handshake_send_failed,
  event_ipv4_packet_disallowed, event_ipv6_packet_disallowed,
  event_initiation_message_decode_failed, event_interface_close_ignore_requested_state,
  event_interface_down_requested, event_interface_state_changed, event_interface_up_requested,
  event_invalid_mac1, event_invalid_operation, event_invalid_packet_in_handshake_queue,
  event_load_mtu_failed, event_mtu_too_large, event_mtu_updated, event_message_unknown_type,
  event_negative_mtu, event_packet_data_send_failed, event_packet_i_p_version_invalid,
  event_packet_i_p_version_unknown, event_packet_receive_failed, event_peer_starting,
  event_peer_stopping, event_received_handshake_initiation, event_received_handshake_response,
  event_received_invalid_initiation, event_received_invalid_response,
  event_receiving_cookie_response, event_receiving_keepalive_packet, event_removing_all_keys,
  event_response_message_decode_failed, event_retrying_handshake,
  event_retrying_handshake_no_response, event_send_cookie_denied,
  event_send_handshake_initiation_failed, event_sending_handshake_initiation,
  event_sending_handshake_response, event_sending_keepalive_packet, event_sequential_reader_stopped,
  event_sequential_receiver_started, event_sequential_receiver_stopped,
  event_sequential_sender_started, event_started_decryption_worker, event_started_encryption_worker,
  event_started_handshake_worker, event_started_receiving_incoming, event_stopped_encryption_worker,
  event_stopped_handshake_worker, event_stopped_receiving_incoming, event_tun_reader_started,
  event_tun_reader_stopped, event_tun_write_failed, event_tun_packet_read_failed,
  event_uapi_adding_allowed_i_p, event_uapi_created, event_uapi_removing_all_allowed_i_ps,
  event_uapi_removing_all_peers, event_uapi_removing_peer, event_uapi_updating_endpoint,
  event_uapi_updating_f_w_mark, event_uapi_updating_listen_port,
  event_uapi_updating_persistent_keepalive, event_uapi_updating_preshared_key,
  event_uapi_updating_private_key, event_udp_gso_disabled, event_update_bind, event_value,
}
use point_c.Wgevents.Format.{event_format, arg_types}
use point_c.Wgevents.Cases.{is_errorf}
use point_c.Wgevents.{Arg, has_types, known, find_kind, cases_of, recognized, dispatch}

-- The event that is recognized by its text, and not by its format.
abbrev pub IsByFormat : EventKind → Type 0
IsByFormat k = k ≢ event_udp_gso_disabled

find_kind-event_format :
    (k : EventKind) → IsByFormat k → find_kind (cases_of (is_errorf k)) (event_format k) ≡ some k
unfolding find_kind event_format
find_kind-event_format event_assuming_default_mtu h = refl
find_kind-event_format event_bind_close_failed h = refl
find_kind-event_format event_bind_updated h = refl
find_kind-event_format event_cookie_response_invalid h = refl
find_kind-event_format event_create_cookie_reply_failed h = refl
find_kind-event_format event_create_initiation_message_failed h = refl
find_kind-event_format event_create_response_message_failed h = refl
find_kind-event_format event_decode_cookie_reply_failed h = refl
find_kind-event_format event_decryption_worker_stopped h = refl
find_kind-event_format event_derive_keypair_failed h = refl
find_kind-event_format event_device_closed h = refl
find_kind-event_format event_device_closing h = refl
find_kind-event_format event_dropped_packets_from_multi_segment_read h = refl
find_kind-event_format event_event_worker_started h = refl
find_kind-event_format event_event_worker_stopped h = refl
find_kind-event_format event_handshake_did_not_complete h = refl
find_kind-event_format event_handshake_flood h = refl
find_kind-event_format event_handshake_replay h = refl
find_kind-event_format event_handshake_send_failed h = refl
find_kind-event_format event_ipv4_packet_disallowed h = refl
find_kind-event_format event_ipv6_packet_disallowed h = refl
find_kind-event_format event_initiation_message_decode_failed h = refl
find_kind-event_format event_interface_close_ignore_requested_state h = refl
find_kind-event_format event_interface_down_requested h = refl
find_kind-event_format event_interface_state_changed h = refl
find_kind-event_format event_interface_up_requested h = refl
find_kind-event_format event_invalid_mac1 h = refl
find_kind-event_format event_invalid_operation h = refl
find_kind-event_format event_invalid_packet_in_handshake_queue h = refl
find_kind-event_format event_load_mtu_failed h = refl
find_kind-event_format event_mtu_too_large h = refl
find_kind-event_format event_mtu_updated h = refl
find_kind-event_format event_message_unknown_type h = refl
find_kind-event_format event_negative_mtu h = refl
find_kind-event_format event_packet_data_send_failed h = refl
find_kind-event_format event_packet_i_p_version_invalid h = refl
find_kind-event_format event_packet_i_p_version_unknown h = refl
find_kind-event_format event_packet_receive_failed h = refl
find_kind-event_format event_peer_starting h = refl
find_kind-event_format event_peer_stopping h = refl
find_kind-event_format event_received_handshake_initiation h = refl
find_kind-event_format event_received_handshake_response h = refl
find_kind-event_format event_received_invalid_initiation h = refl
find_kind-event_format event_received_invalid_response h = refl
find_kind-event_format event_receiving_cookie_response h = refl
find_kind-event_format event_receiving_keepalive_packet h = refl
find_kind-event_format event_removing_all_keys h = refl
find_kind-event_format event_response_message_decode_failed h = refl
find_kind-event_format event_retrying_handshake h = refl
find_kind-event_format event_retrying_handshake_no_response h = refl
find_kind-event_format event_send_cookie_denied h = refl
find_kind-event_format event_send_handshake_initiation_failed h = refl
find_kind-event_format event_sending_handshake_initiation h = refl
find_kind-event_format event_sending_handshake_response h = refl
find_kind-event_format event_sending_keepalive_packet h = refl
find_kind-event_format event_sequential_reader_stopped h = refl
find_kind-event_format event_sequential_receiver_started h = refl
find_kind-event_format event_sequential_receiver_stopped h = refl
find_kind-event_format event_sequential_sender_started h = refl
find_kind-event_format event_started_decryption_worker h = refl
find_kind-event_format event_started_encryption_worker h = refl
find_kind-event_format event_started_handshake_worker h = refl
find_kind-event_format event_started_receiving_incoming h = refl
find_kind-event_format event_stopped_encryption_worker h = refl
find_kind-event_format event_stopped_handshake_worker h = refl
find_kind-event_format event_stopped_receiving_incoming h = refl
find_kind-event_format event_tun_reader_started h = refl
find_kind-event_format event_tun_reader_stopped h = refl
find_kind-event_format event_tun_write_failed h = refl
find_kind-event_format event_tun_packet_read_failed h = refl
find_kind-event_format event_uapi_adding_allowed_i_p h = refl
find_kind-event_format event_uapi_created h = refl
find_kind-event_format event_uapi_removing_all_allowed_i_ps h = refl
find_kind-event_format event_uapi_removing_all_peers h = refl
find_kind-event_format event_uapi_removing_peer h = refl
find_kind-event_format event_uapi_updating_endpoint h = refl
find_kind-event_format event_uapi_updating_f_w_mark h = refl
find_kind-event_format event_uapi_updating_listen_port h = refl
find_kind-event_format event_uapi_updating_persistent_keepalive h = refl
find_kind-event_format event_uapi_updating_preshared_key h = refl
find_kind-event_format event_uapi_updating_private_key h = refl
find_kind-event_format event_udp_gso_disabled h = absurd (h refl)
find_kind-event_format event_update_bind h = refl
find_kind-event_format event_value h = refl

-- A logger function that is called with the format of an event and arguments of its types makes
-- this event, with these arguments. This holds of all events but that of the disabled UDP offload.
pub dispatch-event_format :
    (k : EventKind) (args : List Arg)
    → IsByFormat k
    → has_types (arg_types k) args ≡ true
    → dispatch (is_errorf k) (event_format k) args ≡ some (known k args)
unfolding dispatch
dispatch-event_format k args h t = rw (find_kind-event_format k h, dispatch, t, recognized) refl
