-- ===== src/Settings/Splitting.antt =====
-- src/config.rs: the list of bootstrap peers.
use Prim.Native.String.{◌++◌ as append, len}
use text.Mathlib.Text.{find?}
use text.Mathlib.TextLemmas.{append-nil}
use edgeproxy.Prelude.{
  ℕ, zero, suc, ◌≤◌, ◌≡◌, refl, sym, ap, ◌∙◌, String, List, [], ◌∷◌, Option, none, some, inl, inr,
  map, All, arith,
}
use edgeproxy.Settings.{load_config, peers_of_text, split_commas}
use edgeproxy.Settings.Commas.{cut, FirstComma, before_comma, from_comma, len-comma}

-- Pieces with a comma before each, and between them.
abbrev pub after_comma : List String → String
after_comma [] = ""
after_comma (p ∷ ps) = append "," (append p (after_comma ps))

abbrev pub with_commas : List String → String
with_commas [] = ""
with_commas (p ∷ ps) = append p (after_comma ps)

split_commas-some :
    (fuel : ℕ) (s : String) (c : FirstComma s)
    → split_commas (suc fuel) s ≡ c.0 ∷ split_commas fuel c.1
unfolding split_commas
split_commas-some fuel s c = rw (c.2, before_comma s c, from_comma s c, split_commas) refl

split_commas-none : (fuel : ℕ) (s : String) → find? s "," ≡ none → split_commas fuel s ≡ s ∷ []
unfolding split_commas
split_commas-none zero s e = refl
split_commas-none (suc fuel) s e = rw (e, split_commas) refl

after_comma-split_commas :
    (fuel : ℕ) (s : String)
    → after_comma (split_commas fuel s) ≡ append "," (with_commas (split_commas fuel s))
unfolding split_commas
after_comma-split_commas zero s = refl
after_comma-split_commas (suc fuel) s = elim (cut s) [
  | inl e ↦ rw (split_commas-none (suc fuel) s e) refl
  | inr c ↦ rw (split_commas-some fuel s c) refl
]

with_commas-split_commas : (fuel : ℕ) (s : String) → with_commas (split_commas fuel s) ≡ s
unfolding split_commas
with_commas-split_commas zero s = append-nil s
with_commas-split_commas (suc fuel) s = elim (cut s) [
  | inl e ↦ ap with_commas (split_commas-none (suc fuel) s e) ∙ append-nil s
  | inr c ↦
      ap with_commas (split_commas-some fuel s c)
      ∙ ap (append c.0) (after_comma-split_commas fuel c.1)
      ∙ ap (λ t. append c.0 (append "," t)) (with_commas-split_commas fuel c.1)
      ∙ sym c.4
]

abbrev pub IsPlain : String → Type 0
IsPlain p = find? p "," ≡ none

split_commas-IsPlain : (fuel : ℕ) (s : String) → len s ≤ fuel → All IsPlain (split_commas fuel s)
split_commas-IsPlain zero s enough = elim (cut s) [
  | inl e ↦ rw (split_commas-none zero s e) (e, tt)
  | inr c ↦ absurd (omega (arith, len-comma s c.0 c.1 c.4))
]
split_commas-IsPlain (suc fuel) s enough = elim (cut s) [
  | inl e ↦ rw (split_commas-none (suc fuel) s e) (e, tt)
  | inr c ↦
      rw (split_commas-some fuel s c)
        (c.3, split_commas-IsPlain fuel c.1 (omega (arith, len-comma s c.0 c.1 c.4)))
]

-- The bootstrap peers are the pieces of the variable's text, trimmed: the pieces have no comma, and with
-- a comma between each and the next they are the text.
pub load_config-peers :
    (trim : String → String) (env : String → Option String) (text : String)
    → env "EDGEPROXY_REPLICATION_BOOTSTRAP_PEERS" ≡ some text
    → (pieces : List String) × ((load_config trim env).replication_bootstrap_peers
        ≡ map trim pieces)
      × (with_commas pieces ≡ text)
      × All IsPlain pieces
unfolding load_config peers_of_text
load_config-peers trim env text e = (
  split_commas (len text) text,
  rw e refl,
  with_commas-split_commas (len text) text,
  split_commas-IsPlain (len text) text (omega arith),
)
