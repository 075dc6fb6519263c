-- ===== src/Main/Program/Ends.antt =====
-- grpcurl-cli/src/main.rs: the program, as to whether it ends.
use grpcurl_rs.Base.{
  ℕ, ◌<◌, Text, List, [], ◌∷◌, length, All, true, Option, none, some, is_some, ap, ◌≡◌, refl,
}
use grpcurl_rs.Error.{done}
use grpcurl_rs.Cli.{Cli}
use grpcurl_rs.Descriptor.{Reflect}
use grpcurl_rs.Descriptor.Export.{contains}
use grpcurl_rs.Descriptor.Export.Order.{expand_files-IsOrdered}
use grpcurl_rs.DescriptorText.ProtoFile.{nested_messages}
use grpcurl_rs.DescriptorText.Nesting.{file_format_message-ends}
use grpcurl_rs.Format.Requests.{RequestParser, new_parser, Takes}
use grpcurl_rs.Format.Requests.Progress.{remaining}
use grpcurl_rs.Format.Template.Ends.{make_template_ends}
use grpcurl_rs.Invoke.Events.{Event}
use grpcurl_rs.Main.World.{World}
use grpcurl_rs.Main.Program.{run_main}
use grpcurl_rs.Main.Program.Stages.{main_is_some}
use grpcurl_rs.Main.Sources.{ServerConfig}
use grpcurl_rs.Reflection.{file_by_filename, file_containing_symbol, Version, reflect}
use grpcurl_rs.Reflection.Pool.Ends.{AnswersBelow}
use grpcurl_rs.Reflection.Source.Ends.{server_source-Answers}

everywhere : {A : Type 0} (P : A → Type 0) → ((a : A) → P a) → (xs : List A) → All P xs
everywhere P h [] = tt
everywhere P h (x ∷ xs) = (h x, everywhere P h xs)

some_end :
    {A B : Type 0} {end : Option (A × B)}
    → is_some end ≡ true
    → (a : A) × (b : B) × (end ≡ some (a, b))
some_end {end = none} h = cc
some_end {end = some (a, b)} h = (a, b, refl)

module _ {Seconds : Type 0} {descriptors : Reflect} {Message Value : Type 0}
    (world : World Seconds descriptors Message Value) (fuel : ℕ) (cli : Cli Seconds) where
  -- The program ends with some events and an exit code, where the imports of the files are acyclic
  -- and ranked below the fuel, so is the nesting of the messages, there is a list of the names of
  -- the messages shorter than the fuel, the codec of each channel takes a character at least for
  -- each value, and the fuel is above what the request data leaves a new parser to read; and where,
  -- in every answer of each server, a file that is asked for by name imports files of lower rank
  -- only, and a file with a symbol only files below a rank that is below the fuel.
  pub run_main_ends :
      (file_rank : Text → ℕ)
      → ((fd : descriptors.File)
          → All
              (λ dep. file_rank (descriptors.file_name dep) < file_rank (descriptors.file_name fd))
              (descriptors.dependencies fd))
      → ((fd : descriptors.File) → file_rank (descriptors.file_name fd) < fuel)
      → (rank : descriptors.Message → ℕ)
      → ((pkg : Text) (msg : descriptors.Message)
          → All (λ nested. rank nested < rank msg) (nested_messages world.syntax pkg msg))
      → ((msg : descriptors.Message) → rank msg < fuel)
      → (names : List Text)
      → ((msg : descriptors.Message) → contains (descriptors.message_full_name msg) names ≡ true)
      → length names < fuel
      → (takes : (channel : world.tonic.Channel) → Takes (world.around channel).codec)
      → ((channel : world.tonic.Channel) (parser : RequestParser)
          → new_parser
              (world.around channel).codec
              (world.around channel).stdin
              cli.format
              cli.payload
              (record {
                emit_defaults = cli.emit_defaults;
                allow_unknown_fields = cli.allow_unknown_fields;
              })
            ≡ done parser
          → remaining (world.around channel).codec (takes channel) parser < fuel)
      → (server_rank : Text → ℕ)
      → ((config : ServerConfig world.tonic.Channel) (connection : Version × world.Net) (dep : Text)
          → AnswersBelow world.pool_crate
              (world.server config)
              server_rank
              (server_rank dep)
              (reflect (world.server config) connection (file_by_filename dep)))
      → (bound : ℕ)
      → ((config : ServerConfig world.tonic.Channel) (connection : Version × world.Net)
            (name : Text)
          → AnswersBelow world.pool_crate
              (world.server config)
              server_rank
              bound
              (reflect (world.server config) connection (file_containing_symbol name)))
      → bound < fuel
      → (events : List (Event Message)) × (code : ℕ) × (run_main world fuel cli
          ≡ some (events, code))
  run_main_ends file_rank acyclic files_below rank nested_below msgs_below names all_named short
        takes enough server_rank server_acyclic bound symbols_below above =
      some_end (
        main_is_some world fuel cli
          (λ pkg msg. ap is_some (
            (file_format_message-ends world.syntax pkg rank (nested_below pkg) msg).1 fuel
              (msgs_below msg)))
          (λ roots.
            ap is_some
              (expand_files-IsOrdered descriptors file_rank acyclic fuel roots (
                everywhere (λ fd. file_rank (descriptors.file_name fd) < fuel) files_below
                  roots)).1)
          (λ msg.
            ap is_some
              ((make_template_ends world.syntax world.dynamics names all_named msg).1 fuel short))
          takes enough
          (λ config.
            server_source-Answers world.pool_crate (world.server config) server_rank
              (server_acyclic config) bound fuel (symbols_below config) above))
