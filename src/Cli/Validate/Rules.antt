-- ===== src/Cli/Validate/Rules.antt =====
-- The conditions that an accepted command line meets, stated without the order of the tests.
use grpcurl_rs.Base.{
  ℕ, Text, text, List, [], ◌∷◌, ◌++◌, Bool, true, false, Option, none, some, ◌≡◌, ◌≢◌, ◌⊎◌, ◌↔◌,
}
use grpcurl_rs.Base.Ints.{ℤ, pos}
use grpcurl_rs.Cli.{Cli, ParsedArgs, Command, list, describe, invoke}

-- The words that a verb adds to the command line.
abbrev pub verb : Command → List Text
verb list = text "list" ∷ []
verb describe = text "describe" ∷ []
verb invoke = []

abbrev pub words : Option Text → List Text
words none = []
words (some t) = t ∷ []

-- The positional arguments that a parse stands for.
abbrev pub render : ParsedArgs → List Text
render p = words p.address ++ (verb p.command ++ words p.symbol)

-- The address and the method of a call are no verbs, and a call has a method.
abbrev pub IsNoVerb : Option Text → Type 0
IsNoVerb none = Unit
IsNoVerb (some t) = (t ≢ text "list") × (t ≢ text "describe")

pub record IsWellFormed (p : ParsedArgs) : Type 0 where
  pub address_plain : IsNoVerb p.address
  pub method_plain : p.command ≡ invoke → IsNoVerb p.symbol
  pub method_given : p.command ≡ invoke → p.symbol ≢ none
  pub address_given : p.command ≡ invoke → p.address ≢ none

module _ {Seconds : Type 0} (lt_zero : Seconds → Bool) (cli : Cli Seconds) where
  abbrev pub IsUsable : Option Seconds → Type 0
  IsUsable o = (t : Seconds) → o ≡ some t → lt_zero t ≡ false

  -- Rules 1 to 11.
  pub record HasValidFlags : Type 0 where
    pub connect_timeout : IsUsable cli.connect_timeout
    pub keepalive_time : IsUsable cli.keepalive_time
    pub max_time : IsUsable cli.max_time
    pub max_msg_sz : (n : ℤ) → cli.max_msg_sz ≡ some n → (m : ℕ) × (n ≡ pos m)
    pub exclusive : cli.plaintext ≡ true → cli.alts ≡ false
    pub insecure : cli.insecure ≡ true → (cli.plaintext ≡ false) × (cli.alts ≡ false)
    pub cert : cli.cert ≢ none → (cli.plaintext ≡ false) × (cli.alts ≡ false)
    pub pair : (cli.cert ≡ none) ↔ (cli.key ≡ none)
    pub handshaker : cli.alts ≡ false → cli.alts_handshaker_service ≡ none
    pub accounts : cli.alts ≡ false → cli.alts_target_service_account ≡ []

  -- Rules 22 to 28.
  pub record HasValidSources (p : ParsedArgs) : Type 0 where
    pub located : p.address ≡ none → (cli.protoset ≢ []) ⊎ (cli.proto ≢ [])
    pub one_kind : (cli.protoset ≡ []) ⊎ (cli.proto ≡ [])
    pub described : cli.use_reflection ≡ some false → (cli.protoset ≢ []) ⊎ (cli.proto ≢ [])
    pub named : (sn auth : Text) → cli.servername ≡ some sn → cli.authority ≡ some auth → sn ≡ auth
