-- ===== src/Net.antt =====
-- `std::net`: addresses, as far as the program compares and prints them. An IPv4 address is its
-- 32-bit number, an IPv6 address its 128-bit number.
use edgeproxy.Prelude.{ℕ, ◌≡◌, Bool, true, false, nat_beq, nat_beq_iff, Key, arith}

pub data IpAddr : Type 0 where
  v4 v6 : ℕ → IpAddr

pub record SocketAddr : Type 0 where
  pub ip : IpAddr
  pub port : ℕ

abbrev pub ip_beq : IpAddr → IpAddr → Bool
ip_beq (v4 a) (v4 b) = nat_beq a b
ip_beq (v6 a) (v6 b) = nat_beq a b
ip_beq _ _ = false

pub eq_of-ip_beq : (a b : IpAddr) → ip_beq a b ≡ true → a ≡ b
eq_of-ip_beq (v4 a) (v4 b) h = ground (arith, nat_beq_iff a b)
eq_of-ip_beq (v6 a) (v6 b) h = ground (arith, nat_beq_iff a b)
eq_of-ip_beq (v4 a) (v6 b) h = cc
eq_of-ip_beq (v6 a) (v4 b) h = cc

pub ip_beq_of-eq : (a b : IpAddr) → a ≡ b → ip_beq a b ≡ true
ip_beq_of-eq (v4 a) (v4 b) h = ground (arith, nat_beq_iff a b)
ip_beq_of-eq (v6 a) (v6 b) h = ground (arith, nat_beq_iff a b)
ip_beq_of-eq (v4 a) (v6 b) h = cc
ip_beq_of-eq (v6 a) (v4 b) h = cc

instance abbrev pub ip_key : Key IpAddr
ip_key = record { same = ip_beq; eq_of_same = eq_of-ip_beq; same_of_eq = ip_beq_of-eq }

abbrev pub localhost : IpAddr
localhost = v4 0x7f000001
