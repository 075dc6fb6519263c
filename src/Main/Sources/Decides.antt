-- ===== src/Main/Sources/Decides.antt =====
-- grpcurl-cli/src/main.rs: an accepted command line always leaves a descriptor source.
use grpcurl_rs.Base.{
  ℕ, Text, List, [], ◌∷◌, Bool, true, false, not, ◌||◌, ◌&&◌, Option, none, some, is_empty, is_some,
  ◌≡◌, ◌≢◌, refl, ◌∙◌, arith, inl, inr, ◌⊎◌, Bool-cases, Option-cases,
}
use grpcurl_rs.Error.{done, returns}
use grpcurl_rs.Descriptor.{Reflect}
use grpcurl_rs.Descriptor.Loading.{Loader}
use grpcurl_rs.Connection.{ConnectionConfig}
use grpcurl_rs.Connection.Tls.{TlsCrates}
use grpcurl_rs.Connection.Channel.{Tonic}
use grpcurl_rs.Metadata.{Crates}
use grpcurl_rs.Cli.{Cli, ParsedArgs}
use grpcurl_rs.Cli.Validate.{validate, accept}
use grpcurl_rs.Cli.Validate.Rules.{HasValidSources}
use grpcurl_rs.Cli.Validate.Sound.{validate_iff}
use grpcurl_rs.Main.Sources.{
  ServerConfig, SourceChoice, by_reflection, by_files, composite, Chosen, has_proto_files,
  use_reflection, file_part, reflection_part, combine, create_descriptor_source,
}

abbrev pub asks_server : {Channel Pool : Type 0} → SourceChoice Channel Pool → Bool
asks_server (by_reflection server) = true
asks_server (by_files pool) = false
asks_server (composite server pool) = true

abbrev pub asks_files : {Channel Pool : Type 0} → SourceChoice Channel Pool → Bool
asks_files (by_reflection server) = false
asks_files (by_files pool) = true
asks_files (composite server pool) = true

module _ {Seconds : Type 0} {reflect : Reflect} (loader : Loader reflect) (tls : TlsCrates)
    (tonic : Tonic Seconds tls) (crates : Crates) (unicode : ℕ → Bool) (env : Text → Option Text)
    (lt_zero : Seconds → Bool) (cli : Cli Seconds) where
  abbrev files_here : Bool
  files_here = has_proto_files loader tls tonic crates unicode env cli

  abbrev reflects : Bool
  reflects = use_reflection loader tls tonic crates unicode env cli

  file_part-is_some :
      (files : Option reflect.Pool)
      → file_part loader tls tonic crates unicode env cli ≡ done files
      → is_some files ≡ files_here
  unfolding file_part
  file_part-is_some files e = ground (arith, e)

  reflection_part-is_some :
      (conn : ConnectionConfig Seconds) (address : Option Text)
      (server : Chosen (Option (ServerConfig tonic.Channel)))
      → reflection_part loader tls tonic crates unicode env cli conn address ≡ returns (done server)
      → is_some server.0 ≡ (is_some address && reflects)
  unfolding reflection_part
  reflection_part-is_some conn none server e = ground (arith, e)
  reflection_part-is_some conn (some addr) server e = ground (arith, e)

  nonempty : (xs : List Text) → xs ≢ [] → not (is_empty xs) ≡ true
  nonempty [] h = absurd (h refl)
  nonempty (x ∷ xs) h = refl

  files_given : (cli.protoset ≢ []) ⊎ (cli.proto ≢ []) → files_here ≡ true
  files_given (inl h) = ground (arith, nonempty cli.protoset h)
  files_given (inr h) = ground (arith, nonempty cli.proto h)

  -- An accepted command line has files, or an address whose reflection is used.
  located :
      (p : ParsedArgs)
      → HasValidSources lt_zero cli p
      → (files_here || (is_some p.address && reflects)) ≡ true
  located p v = elim (Bool-cases files_here) [
    | inl f ↦ ground (arith, f)
    | inr f ↦ elim (Option-cases p.address) [
      | inl n ↦ let given = files_given (v.located n) in ground (arith, f, given)
      | inr (a, s) ↦ elim (Option-cases cli.use_reflection) [
        | inl n ↦ ground (arith, f, s, n)
        | inr (true, u) ↦ ground (arith, f, s, u)
        | inr (false, u) ↦ let given = files_given (v.described u) in ground (arith, f, given)
      ]
    ]
  ]

  -- What a choice asks.
  abbrev pub Asks : SourceChoice tonic.Channel reflect.Pool → Bool → Bool → Type 0
  Asks choice server files = (asks_server choice ≡ server) × (asks_files choice ≡ files)

  combined :
      (server : Option (ServerConfig tonic.Channel)) (files : Option reflect.Pool)
      → (is_some files || is_some server) ≡ true
      → (choice : SourceChoice tonic.Channel reflect.Pool) × (combine loader tls tonic crates
            unicode env cli server files
          ≡ done choice)
        × Asks choice (is_some server) (is_some files)
  combined (some server) (some pool) h = (composite server pool, refl, (refl, refl))
  combined (some server) none h = (by_reflection server, refl, (refl, refl))
  combined none (some pool) h = (by_files pool, refl, (refl, refl))
  combined none none h = cc

  -- Where a command line is accepted, and the files it names are read and the server it names is
  -- connected to, there is a descriptor source: it asks the server exactly where there is an
  -- address and reflection is used, and it asks the files exactly where there are some.
  pub create_descriptor_source_decides :
      (p : ParsedArgs) (conn : ConnectionConfig Seconds) (files : Option reflect.Pool)
      (server : Chosen (Option (ServerConfig tonic.Channel)))
      → (validate lt_zero cli).1 ≡ accept p
      → file_part loader tls tonic crates unicode env cli ≡ done files
      → reflection_part loader tls tonic crates unicode env cli conn p.address
        ≡ returns (done server)
      → (choice : SourceChoice tonic.Channel reflect.Pool) × (create_descriptor_source loader tls
            tonic crates unicode env cli conn p.address
          ≡ returns (done (choice, server.1)))
        × Asks choice (is_some p.address && reflects) files_here
  unfolding create_descriptor_source
  create_descriptor_source_decides p conn files server accepted read connected =
      let (flags, formed, rendered, sources) = (validate_iff lt_zero cli p).0 accepted in
      let has_files = file_part-is_some files read in
      let has_server = reflection_part-is_some conn p.address server connected in
      let (choice, e, (asks, holds)) =
        combined server.0 files (ground (arith, has_files, has_server, located p sources)) in
      (choice, rw (read, connected, e) refl, (asks ∙ has_server, holds ∙ has_files))
