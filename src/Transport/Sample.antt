-- ===== src/Transport/Sample.antt =====
-- A `bincode` that knows one message: an instance of the interface and of its law.
use native.Mathlib.Decide.{ℕ_discrete}
use edgeproxy.Prelude.{
  ℕ, ◌≡◌, String, List, none, some, arith, string_key, ◌==◌, Bool-cases, inl, inr,
}
use edgeproxy.Transport.{Message, Wire, WireLaws}

String-discrete : Discrete String
String-discrete s t = elim (Bool-cases (s == t)) [
  | inl e ↦ yes (string_key.eq_of_same s t e)
  | inr e ↦ no (λ same. cc (string_key.same_of_eq s t same))
]

pub Message-discrete : Discrete Message
Message-discrete = hlevel (ℕ_discrete, String-discrete)

module _ (known : Message) (bytes : List ℕ) where
  -- Every other message is refused.
  unfoldable pub one_message : Wire
  one_message = record {
    serialize = λ m. elim (Message-discrete m known) [ yes _ ↦ some bytes | no _ ↦ none ];
    deserialize = λ bs. some known;
  }

  pub one_message-laws : WireLaws one_message
  unfolding one_message
  one_message-laws = record { reads_back = λ m bs. ground (arith, Message-discrete m known) }

  pub serialize-known : one_message.serialize known ≡ some bytes
  unfolding one_message
  serialize-known = ground (arith, Message-discrete known known)
