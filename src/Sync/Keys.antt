-- ===== src/Sync/Keys.antt =====
-- src/replication/sync.rs: the keys of the table of timestamps.
use text.Mathlib.TextPositions.{slice-append_right, len-append}
use Prim.Native.String.{◌++◌ as append, slice, len}
use edgeproxy.Prelude.{◌+◌, ◌≡◌, sym, ap, ◌∙◌, String, arith}
use edgeproxy.Replica.{key_of}

pub key_of-injective : (p q : String) → key_of "backends" p ≡ key_of "backends" q → p ≡ q
unfolding key_of
key_of-injective p q e =
    let head = append "backends" ":" in
    let same_len : len p ≡ len q = omega (arith, len-append head p, len-append head q, ap len e) in
    sym (slice-append_right head p)
    ∙ ap (λ t. slice t (len head) (len head + len p)) e
    ∙ ap (λ n. slice (append head q) (len head) (len head + n)) same_len
    ∙ slice-append_right head q
