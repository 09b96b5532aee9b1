-- ===== src/Main/Examples.antt =====
-- Starts with concrete settings, and the theorem at one.
use edgeproxy.Prelude.{
  ◌≡◌, refl, true, false, not, ◌&&◌, ◌||◌, String, none, some, if◌then◌else◌, string_key,
}
use edgeproxy.Net.{localhost}
use edgeproxy.Replica.{empty_db}
use edgeproxy.Settings.{Config, default_settings, replication_config_of}
use edgeproxy.Server.Tls.{Rustls}
use edgeproxy.Main.{
  Outside, bad_address, no_listener, ended, main, replication_of, serve, tls_server_of,
  certificate_of,
}
use edgeproxy.Main.Starting.{is_some, is_serving, is_sound, main-serving}

-- Certificates that can always be made by itself, from no file.
abbrev no_files : Rustls
no_files = record {
  File = String;
  Cert = String;
  Key = String;
  Acceptor = String;
  open_file = λ name. none;
  certs = λ file. none;
  private_key = λ file. none;
  single_cert = λ certs key. some key;
  generate_self_signed = λ names. some ("cert", some "made");
}

-- No GeoIP database, no free socket, and only the default address of the gossip can be read.
abbrev poor : Outside
poor = record {
  parse = λ text.
      if string_key.same text "0.0.0.0:4001"
      then some (record { ip = localhost; port = 4001 })
      else none;
  unique = "12345678";
  db = empty_db;
  transport_binds = false;
  gossip_binds = false;
  tcp_binds = λ addr. string_key.same addr "0.0.0.0:8080";
  geoip_file = λ path. none;
  geoip_embedded = none;
}

abbrev all_enabled : Config
all_enabled = record default_settings {
  tls_enabled = true;
  api_enabled = true;
  dns_enabled = true;
  replication_enabled = true;
}

default_serves : is_serving no_files (main no_files poor default_settings) ≡ true
unfolding main replication_of serve tls_server_of
default_serves = refl

listener_refused :
    main no_files poor (record default_settings { listen_addr = "0.0.0.0:80" }) ≡ ended no_listener
unfolding main replication_of serve tls_server_of
listener_refused = refl

address_unread : main no_files poor all_enabled ≡ ended bad_address
unfolding main replication_of replication_config_of
address_unread = refl

main-serving_example : is_serving no_files (main no_files poor all_enabled) ≡ (
    (not true || is_sound poor all_enabled)
    && (not true || is_some (certificate_of no_files all_enabled)))
main-serving_example = main-serving no_files poor all_enabled
