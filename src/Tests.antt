-- ===== src/Tests.antt =====
-- Runs of the model on inputs from the source's tests, and the theorems at concrete inputs.
-- A test unfolds the part that it runs by one name of this file.
mod Requests
mod Bodies
mod Proxies
mod Configs
mod Connections
mod Sessions
mod Logs
mod Helpers
mod Servers
mod Probes
mod Daemons
use fingered.Base.{eqb}
use fingered.Utf8.{decode_rune, runes, valid, encode_rune}
use fingered.Text.{
  has_prefix, has_suffix, trim_suffix, index_byte, count_byte, contains, contains_any, to_lower,
  fields, split, join, replace_all,
}
use fingered.Text.Trim.{trim_space, is_space, decode_last_rune}
use fingered.Number.{atoi}
use fingered.Addr.{
  is_valid, is4, is6, zone, addr_eq, unmap, is_loopback, is_private, is_link_local_unicast,
  is_link_local_multicast, is_multicast, is_unspecified,
}
use fingered.Addr.Parse.{parse_addr}
use fingered.Proxy.{
  is_public_unicast_ip, parse_proxy_addr, parse_proxy_port, parse_proxy_line, is_trusted_proxy,
}
use fingered.Body.{valid_output_rune, valid_output_byte, sanitize_body, join_segments}
use fingered.Reader.{read_line, discard_line}
use fingered.Token.{
  is_flag_rune, is_target_rune, valid_flag_name, valid_flag_value, valid_target_component,
  parse_target, parse_flag,
}
use fingered.Base.Int.{wrap, add64, mul64}
use fingered.Number.{parse_int, itoa}
use fingered.FilePath.{is_abs, clean, join_path, base}
use fingered.Config.{
  find_key, tls_enabled, plain_enabled, effective_tls_doc_root, effective_tls_cgi_enable,
}
use fingered.Config.Apply.{
  parse_positive_int, parse_millis, parse_yes_no, parse_tls_enable, parse_group, parse_ips,
  parse_trusted_ips, apply_value,
}
use fingered.Config.Validate.{validate}
use fingered.Config.Load.{split_kv, is_bind_ip, is_port_key, is_doc_root, load_line, load}
use fingered.Content.Files.{open_regular_read_no_follow, open_regular_exec_no_follow}
use fingered.Content.Capped.{write, write_all}
use fingered.Content.Resolve.{
  listener_modes, build_content_name, read_all_limited, load_static, run_cgi,
}
use fingered.Content.Response.{
  resolve_main_content, resolve_templates, assemble, capped_response, response_of,
  build_valid_response,
}
use fingered.Connection.{
  should_silently_close, speaks_for_clients, prepare_conn, respond, serve_line, serve_conn,
}
use fingered.Log.Field.{
  format_hex, rune_len, append_rune, append_runes, drop_last_rune, shorten, trim_log_field,
  sanitize_log,
}
use fingered.Log.Line.{hostname_or_dash, ip_or_dash, format_line, error_line, access_line}
use fingered.Log.Open.{close_file, open_log, open_if_on, open_logger, close_logger}
use fingered.Helper.{
  call, clear_ambient_caps, drop_cgi_privileges, validate_cgi_helper, string_ptrs, execveat_fd,
  exec_cgi_helper,
}
use fingered.Run.{send}
use fingered.Probe.{
  read_request, echo, open_fds, join_ints, caps_fields, inspect, probe_named, probe,
}
use fingered.Content.Resolve.{check_run}
use fingered.Main.Accept.{accept_loop, run_listener}
use fingered.Main.{new_server, main}
use fingered.Connection.Peer.{peer_addr}
use fingered.Log.Session.{log_error, log_access, write_and_log, entries}
use fingered.Request.{
  trim_line_ending, valid_request_runes, canonical_parts, build_canonical_request,
  parse_structured_request, parse_plain_line, parse_finger_request, parse_fingers_request,
  parse_request,
}

text : Unit {0}
unfolding eqb decode_rune runes valid encode_rune has_prefix has_suffix trim_suffix index_byte
    count_byte contains contains_any to_lower fields split join replace_all trim_space atoi
text = tt

requests : Unit {0}
unfolding text is_flag_rune is_target_rune valid_flag_name valid_flag_value valid_target_component
    parse_target parse_flag trim_line_ending valid_request_runes canonical_parts
    build_canonical_request parse_structured_request parse_plain_line parse_finger_request
    parse_fingers_request parse_request read_line discard_line
requests = tt

bodies : Unit {0}
unfolding text valid_output_rune valid_output_byte sanitize_body join_segments
bodies = tt

proxies : Unit {0}
unfolding text is_valid is4 is6 zone addr_eq unmap is_loopback is_private is_link_local_unicast
    is_link_local_multicast is_multicast is_unspecified parse_addr is_public_unicast_ip
    parse_proxy_addr parse_proxy_port parse_proxy_line is_trusted_proxy
proxies = tt

configs : Unit {0}
unfolding text is_valid is4 is6 zone addr_eq unmap parse_addr is_abs clean join_path parse_int wrap
    mul64 find_key tls_enabled plain_enabled parse_positive_int parse_millis parse_yes_no
    parse_tls_enable parse_group parse_ips parse_trusted_ips apply_value validate split_kv
    is_bind_ip is_port_key is_doc_root load_line load
configs = tt

connections : Unit {0}
unfolding requests bodies proxies wrap add64 is_abs clean join_path open_regular_read_no_follow
    open_regular_exec_no_follow write write_all build_content_name read_all_limited load_static
    run_cgi resolve_main_content resolve_templates assemble capped_response response_of
    build_valid_response should_silently_close speaks_for_clients prepare_conn respond serve_line
    serve_conn effective_tls_doc_root effective_tls_cgi_enable tls_enabled plain_enabled
    listener_modes
connections = tt

logs : Unit {0}
unfolding text is_space decode_last_rune is_valid itoa is_abs clean join_path format_hex rune_len
    append_rune append_runes drop_last_rune shorten trim_log_field sanitize_log hostname_or_dash
    ip_or_dash format_line error_line access_line close_file open_log open_if_on open_logger
    close_logger
logs = tt

servers : Unit {0}
unfolding configs logs call clear_ambient_caps drop_cgi_privileges validate_cgi_helper string_ptrs
    execveat_fd exec_cgi_helper base build_content_name send accept_loop run_listener new_server
    main
servers = tt

sessions : Unit {0}
unfolding connections configs logs log_error log_access write_and_log entries peer_addr
sessions = tt

probes : Unit {0}
unfolding bodies servers write write_all read_all_limited check_run read_request echo open_fds
    join_ints caps_fields inspect probe_named probe
probes = tt
