-- ===== src/Settings/Reading.antt =====
-- src/config.rs: the settings that are numbers.
use edgeproxy.Prelude.{
  ℕ, ◌<◌, ◌≡◌, refl, String, Option, some, u64_mod, display, parse_word-display, arith,
}
use edgeproxy.Settings.{load_config, word_or}

-- A variable that was written as the numeral of a 64-bit number is read as the number.
word_or-display : (n default : ℕ) → n < u64_mod → word_or (some (display n)) default ≡ n
unfolding word_or
word_or-display n default below =
    rw (parse_word-display u64_mod n below (omega arith), word_or) refl

-- Each of the four settings that are numbers is the number of which its variable holds the numeral, if
-- that is below 2^64, whatever the other variables hold.
pub load_config-numbers :
    (trim : String → String) (env : String → Option String) (reload ttl gc beat : ℕ)
    → reload < u64_mod
    → ttl < u64_mod
    → gc < u64_mod
    → beat < u64_mod
    → env "EDGEPROXY_DB_RELOAD_SECS" ≡ some (display reload)
    → env "EDGEPROXY_BINDING_TTL_SECS" ≡ some (display ttl)
    → env "EDGEPROXY_BINDING_GC_INTERVAL_SECS" ≡ some (display gc)
    → env "EDGEPROXY_HEARTBEAT_TTL_SECS" ≡ some (display beat)
    → let cfg = load_config trim env in
      (cfg.db_reload_secs ≡ reload)
      × (cfg.binding_ttl_secs ≡ ttl)
      × (cfg.binding_gc_interval_secs ≡ gc)
      × (cfg.heartbeat_ttl_secs ≡ beat)
unfolding load_config
load_config-numbers trim env reload ttl gc beat a b c d e₀ e₁ e₂ e₃ = (
  rw e₀ (word_or-display reload 5 a),
  rw e₁ (word_or-display ttl 600 b),
  rw e₂ (word_or-display gc 60 c),
  rw e₃ (word_or-display beat 60 d),
)
