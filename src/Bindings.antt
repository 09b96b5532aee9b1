-- ===== src/Bindings.antt =====
-- src/adapters/outbound/dashmap_binding_repo.rs: the bindings of clients to backends.
-- `Instant::now()` is the argument `now`; `duration_since` is 0 for a later instant.
use edgeproxy.Prelude.{
  ℕ, ◌-◌, ◌≡◌, refl, Bool, true, false, List, [], ◌∷◌, Option, none, some, if◌then◌else◌, ltb,
  Duration, lookup, insert, remove, length, retain, map, Unique, lookup-remove, passing, arith,
  ◌==◌, not, Bool-cases, inl, inr, ◌∙◌,
}
use edgeproxy.Net.{ip_key}
use edgeproxy.Domain.{Binding, ClientKey, touch}

abbrev pub Bindings : Type 0
Bindings = List (ClientKey × Binding)

unfoldable pub new_bindings : Bindings
new_bindings = []

unfoldable pub get : ClientKey → Bindings → Option Binding
get = lookup

unfoldable pub set : ClientKey → Binding → Bindings → Bindings
set = insert

unfoldable pub drop : ClientKey → Bindings → Bindings
drop = remove

unfoldable pub touch_key : ℕ → ClientKey → Bindings → Bindings
touch_key now key bs = elim (lookup key bs) [ none ↦ bs | some b ↦ insert key (touch now b) bs ]

unfoldable pub is_expired : ℕ → Duration → Binding → Bool
is_expired now ttl b = ltb ttl (now - b.last_seen)

-- The first loop of `cleanup_expired` collects keys, the second removes them.
unfoldable pub expired_keys : ℕ → Duration → Bindings → List ClientKey
expired_keys now ttl bs = map (λ e. e.0) (retain (λ e. is_expired now ttl e.1) bs)

unfoldable pub remove_keys : List ClientKey → Bindings → Bindings
remove_keys [] bs = bs
remove_keys (k ∷ ks) bs = remove_keys ks (remove k bs)

unfoldable pub cleanup_expired : ℕ → Duration → Bindings → Bindings × ℕ
cleanup_expired now ttl bs =
    let keys = expired_keys now ttl bs in (remove_keys keys bs, length keys)

unfoldable pub count : Bindings → ℕ
count = length

has_key : ClientKey → List ClientKey → Bool
has_key j [] = false
has_key j (k ∷ ks) = if k == j then true else has_key j ks

lookup-remove_keys :
    (ks : List ClientKey) (j : ClientKey) (bs : Bindings)
    → lookup j (remove_keys ks bs) ≡ (if has_key j ks then none else lookup j bs)
unfolding remove_keys has_key
lookup-remove_keys [] j bs = refl
lookup-remove_keys (k ∷ ks) j bs =
    ground (arith, lookup-remove_keys ks j (remove k bs), lookup-remove k j bs)

-- The keys that the first loop collects, at one entry whose test is known.
abbrev collected : Bool → ClientKey → List ClientKey → List ClientKey
collected true k ks = k ∷ ks
collected false k ks = ks

expired_keys-cons :
    (now : ℕ) (ttl : Duration) (e : ClientKey × Binding) (bs : Bindings)
    → expired_keys now ttl (e ∷ bs)
      ≡ collected (is_expired now ttl e.1) e.0 (expired_keys now ttl bs)
unfolding expired_keys
expired_keys-cons now ttl e bs = elim (Bool-cases (is_expired now ttl e.1)) [
  | inl h ↦ rw h
  | inr h ↦ rw h
]

has_key_absent :
    (now : ℕ) (ttl : Duration) (j : ClientKey) (bs : Bindings)
    → lookup j bs ≡ none
    → has_key j (expired_keys now ttl bs) ≡ false
unfolding has_key lookup
has_key_absent now ttl j [] h = unfold expired_keys in refl
has_key_absent now ttl j (e ∷ bs) h =
    rw (expired_keys-cons now ttl e bs) (ground (arith, has_key_absent now ttl j bs))

-- What is not collected is what has not expired.
has_key-expired :
    (now : ℕ) (ttl : Duration) (j : ClientKey) (bs : Bindings)
    → Unique bs
    → (if has_key j (expired_keys now ttl bs) then none else lookup j bs)
      ≡ passing (λ e. not (is_expired now ttl e.1)) j (lookup j bs)
unfolding has_key lookup
has_key-expired now ttl j [] u = unfold expired_keys in refl
has_key-expired now ttl j (e ∷ bs) u = rw (expired_keys-cons now ttl e bs) (
    ground (
      arith,
      has_key-expired now ttl j bs u.1,
      has_key_absent now ttl e.0 bs u.0,
      ip_key.eq_of_same e.0 j,
    ))

-- `cleanup_expired` removes exactly the bindings that were last seen longer ago than the time to
-- live, and leaves every other as it was.
pub lookup-cleanup_expired :
    (now : ℕ) (ttl : Duration) (j : ClientKey) (bs : Bindings)
    → Unique bs
    → lookup j (cleanup_expired now ttl bs).0
      ≡ passing (λ e. not (is_expired now ttl e.1)) j (lookup j bs)
unfolding cleanup_expired
lookup-cleanup_expired now ttl j bs u =
    lookup-remove_keys (expired_keys now ttl bs) j bs ∙ has_key-expired now ttl j bs u
