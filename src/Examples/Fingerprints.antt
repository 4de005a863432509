-- ===== src/Examples/Fingerprints.antt =====
-- The ClientHello parsers at concrete bytes.
use undertow.Base.{
  false, ◌≡◌, refl, String, Option, none, some, true, [], ◌∷◌, ◌++◌, arith, replicate,
}
use undertow.Base.Bytes.{Slice, part_of, with_byte, with_word, with_part}
use undertow.Tls.{handshake_of, ciphers_at}
use undertow.Tls.Ja3.{parse_client_hello}
use undertow.Tls.Ja4.{calculate_ja4}
use undertow.Tls.Safety.{ending}
use undertow.Tls.Accept.{fingerprints_agree, odd_ciphers_panic}
use undertow.Decode.{Layers}
use undertow.Threat.{Engine}
use undertow.Examples.Data.{exact_nets}

abbrev hash : String → String
hash text = text

abbrev unknown : String → Option String
unknown ja4 = none

-- A record with two ciphers, one of them GREASE, no extensions, and a byte behind it.
abbrev client_hello : Slice
client_hello = record {
  cells =
      (22 ∷ 3 ∷ 1 ∷ 0 ∷ 49 ∷ 1 ∷ 0 ∷ 0 ∷ 45 ∷ 3 ∷ 3 ∷ [])
      ++ (replicate 32 0 ++ (0 ∷ 0 ∷ 4 ∷ 0x13 ∷ 1 ∷ 0x0a ∷ 0x0a ∷ 1 ∷ 0 ∷ 0 ∷ 0 ∷ 255 ∷ []));
  len = 54;
}

-- A record that ends, like its buffer, with a list of three bytes of ciphers.
abbrev odd_hello : Slice
odd_hello = record {
  cells =
      (22 ∷ 3 ∷ 1 ∷ 0 ∷ 44 ∷ 1 ∷ 0 ∷ 0 ∷ 40 ∷ 3 ∷ 3 ∷ [])
      ++ (replicate 32 0 ++ (0 ∷ 0 ∷ 3 ∷ 0x13 ∷ 1 ∷ 0x13 ∷ []));
  len = 49;
}

fingerprints_agree_example :
    (ending (parse_client_hello hash client_hello) ≡ some true)
    × (ending (calculate_ja4 hash unknown client_hello) ≡ some true)
fingerprints_agree_example = fingerprints_agree hash hash unknown client_hello refl

odd_ciphers_panic_example :
    (parse_client_hello hash odd_hello ≡ none) × (calculate_ja4 hash unknown odd_hello ≡ none)
unfolding handshake_of ciphers_at with_byte with_word with_part
odd_ciphers_panic_example =
    odd_ciphers_panic hash hash unknown odd_hello (part_of odd_hello 5 49) 41 3 refl refl refl
      (omega arith)

abbrev no_threats : Engine exact_nets
no_threats = record { cidrs = []; exact_ips = []; c2_domains = [] }

abbrev tls_packet : Layers
tls_packet = record {
  timestamp = 1;
  length = 54;
  ethernet = none;
  ip4 = none;
  ip6 = none;
  arp = none;
  tcp = some (record {
    src_port = 50000;
    dst_port = 443;
    flags = record { syn = false; ack = true; fin = false; rst = false; psh = true; urg = false };
  });
  udp = none;
  icmp4 = false;
  icmp6 = false;
  dns = none;
  application = some client_hello;
}
