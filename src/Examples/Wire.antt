-- ===== src/Examples/Wire.antt =====
-- The texts of pkg/wg/wgapi, at concrete inputs.
use point_c.Base.{◌^◌, ◌≡◌, refl, [], ◌∷◌, Bytes, codes, ok, err, cut, some, none, new, arith}
use point_c.Strconv.{parse_uint}
use point_c.Wgapi.Key.{listen_port, allowed_ip, replace_peers, rx_bytes}
use point_c.Wgapi.Value.{uint16, uint64, true_value, ip_net, kv_string, key_name}
use point_c.Wgapi.Scanner.{scan, scan_lines}
use point_c.Wgapi.Parser.{parser, lookup_parser, parse_uint16}
use point_c.Wgapi.Typing
use point_c.Wgapi.Typing.{IsParsed}
use point_c.Wgapi.Ipc.{Ipc, value, parse_line, wg_config, returned, Returned}
use point_c.Wgapi.Ipc.RoundTrip
use point_c.Wgapi.Ipc.Reparse
use point_c.Wgapi.Ipc.Reparse.{HoldsParsed}
use point_c.Wgapi.Get.{
  IpcGet, get_value, get_loop, scan_next, offer, fill, shift, grow, read_more, write, reset,
}
use point_c.Wgapi.Get.Reading
use point_c.Wgapi.Faults
use point_c.Wgapi.Addr.{repeat, IpNet}
use point_c.Examples.{plain_text}

-- 10.0.0.2 with a full mask, in the form of 16 bytes.
abbrev mapped : IpNet
mapped = record {
  ip = 0 ∷ 0 ∷ 0 ∷ 0 ∷ 0 ∷ 0 ∷ 0 ∷ 0 ∷ 0 ∷ 0 ∷ 255 ∷ 255 ∷ 10 ∷ 0 ∷ 0 ∷ 2 ∷ [];
  mask = repeat 16 255;
}

abbrev values : Ipc
values = uint16 listen_port 51820 ∷ true_value replace_peers ∷ ip_net allowed_ip mapped ∷ []

abbrev input : Bytes
input = codes "listen_port=7\n\nrx_bytes=1\n"

value-wg_config_example :
    value plain_text (wg_config plain_text values)
    ≡ some (
        returned
          (uint16 listen_port 51820
            ∷ true_value replace_peers
            ∷ ip_net allowed_ip (record { ip = 10 ∷ 0 ∷ 0 ∷ 2 ∷ []; mask = repeat 4 255 })
            ∷ [])
          none)
value-wg_config_example = RoundTrip.value-wg_config plain_text values (
  ((refl, omega arith), tt),
  ((refl, tt), (((refl, ((omega arith, omega arith), omega arith, omega arith)), tt), tt)),
)

abbrev read_values : Ipc
read_values = uint16 listen_port 7 ∷ []

value_run : value plain_text input ≡ some (returned read_values none)
unfolding value scan scan_lines parse_line lookup_parser parser parse_uint16 parse_uint cut
value_run = refl

value-HoldsParsed_example : HoldsParsed plain_text (returned read_values none)
value-HoldsParsed_example =
    Reparse.value-HoldsParsed plain_text input (returned read_values none) value_run

-- The buffer of `input` is read whole, though the blank line ends the list.
abbrev get : IpcGet
get = record { buf = input }

get_value_run : get_value plain_text get ≡ some (returned read_values none, record { buf = [] })
unfolding get_value get_loop scan_next offer fill shift grow read_more scan_lines parse_line
    lookup_parser parser parse_uint16 parse_uint cut
get_value_run = refl

get_value-write_example :
    (r : Returned) × (g : IpcGet) × (get_value plain_text (write (record { buf = [] }) input).0
      ≡ some (r, g))
    × (get_value plain_text (write g (codes "listen_port=8\n")).0
        ≡ get_value plain_text (write (reset g) (codes "listen_port=8\n")).0)
get_value-write_example =
    Reading.get_value-write plain_text input (codes "listen_port=8\n") (omega arith)

parser_run : parser plain_text listen_port (codes "80") ≡ ok (uint16 listen_port 80)
unfolding parser parse_uint16 parse_uint
parser_run = refl

parser_sound_example :
    IsParsed plain_text (uint16 listen_port 80) × (key_name (uint16 listen_port 80) ≡ listen_port)
parser_sound_example =
    Typing.parser_sound plain_text listen_port (codes "80") (uint16 listen_port 80) parser_run

parser-kv_string_over_example :
    parser plain_text rx_bytes (kv_string plain_text (uint64 rx_bytes (2 ^ 63)))
    ≡ err (new "invalid syntax")
parser-kv_string_over_example =
    Faults.parser-kv_string_over plain_text rx_bytes (2 ^ 63) refl (omega arith)

abbrev long_key : Bytes
long_key = repeat 33 7
