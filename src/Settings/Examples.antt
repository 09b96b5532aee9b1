-- ===== src/Settings/Examples.antt =====
-- Settings of concrete environments.
use edgeproxy.Prelude.{
  ◌≡◌, refl, true, false, [], ◌∷◌, none, some, string_key, parse_word, String, List, Option, All,
  map, if◌then◌else◌, ◌==◌, display, arith,
}
use edgeproxy.Settings.Reading.{load_config-numbers}
use edgeproxy.Settings.Splitting.{with_commas, IsPlain, load_config-peers}
use edgeproxy.Settings.{
  default_settings, load_config, is_true, word_or, peers_of_text, tls_source, own_signature,
  pem_files, node_id_of, text_or,
}

-- With no variable set the settings are the default ones.
nothing_set : load_config (λ t. t) (λ name. none) ≡ default_settings
unfolding load_config
nothing_set = refl

flags :
    (is_true "1" ≡ true) × (is_true "True" ≡ true) × (is_true "yes" ≡ false) × (is_true "" ≡ false)
unfolding is_true
flags = (refl, refl, refl, refl)

words :
    (word_or (some "30") 5 ≡ 30)
    × (word_or (some "+7") 5 ≡ 7)
    × (word_or (some "-1") 5 ≡ 5)
    × (word_or (some "") 5 ≡ 5)
    × (word_or (some "18446744073709551615") 5 ≡ 18446744073709551615)
    × (word_or (some "18446744073709551616") 5 ≡ 5)
unfolding word_or parse_word
words = (refl, refl, refl, refl, refl, refl)

several_peers : peers_of_text (λ t. t) (some "a:1,b:2,") ≡ "a:1" ∷ "b:2" ∷ "" ∷ []
unfolding peers_of_text
several_peers = refl

sources :
    (tls_source default_settings ≡ own_signature "edgeproxy.internal")
    × (tls_source (record default_settings { tls_cert_path = some "c"; tls_key_path = some "k" })
        ≡ pem_files "c" "k")
    × (node_id_of "12345678" default_settings ≡ "sa-12345678")
unfolding tls_source node_id_of text_or
sources = (refl, refl, refl)

-- An environment with the numbers and two peers.
abbrev some_set : String → Option String
some_set name =
    if name == "EDGEPROXY_DB_RELOAD_SECS"
    then some "30"
    else if name == "EDGEPROXY_BINDING_TTL_SECS"
    then some "0"
    else if name == "EDGEPROXY_BINDING_GC_INTERVAL_SECS"
    then some "9999999999"
    else if name == "EDGEPROXY_HEARTBEAT_TTL_SECS"
    then some "5"
    else if name == "EDGEPROXY_REPLICATION_BOOTSTRAP_PEERS"
    then some "a:1,b:2,"
    else none

load_config-numbers_example :
    let cfg = load_config (λ t. t) some_set in
    (cfg.db_reload_secs ≡ 30)
    × (cfg.binding_ttl_secs ≡ 0)
    × (cfg.binding_gc_interval_secs ≡ 9999999999)
    × (cfg.heartbeat_ttl_secs ≡ 5)
unfolding display
load_config-numbers_example =
    load_config-numbers (λ t. t) some_set 30 0 9999999999 5 (omega arith) (omega arith)
      (omega arith) (omega arith) refl refl refl refl

load_config-peers_example :
    (pieces : List String) × ((load_config (λ t. t) some_set).replication_bootstrap_peers
      ≡ map (λ t. t) pieces)
    × (with_commas pieces ≡ "a:1,b:2,")
    × All IsPlain pieces
load_config-peers_example = load_config-peers (λ t. t) some_set "a:1,b:2," refl
