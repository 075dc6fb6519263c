-- ===== src/Descriptor/Writing.antt =====
-- grpcurl-core/src/descriptor.rs: `write_proto_files`. The file system and its paths are given.
pub mod Ends
use grpcurl_rs.Base.{
  ℕ, Text, text, List, [], ◌∷◌, ◌++◌, Option, none, some, is_empty, if◌then◌else◌,
}
use grpcurl_rs.Error.{io, Result, done, fail}
use grpcurl_rs.Descriptor.{Reflect, DescriptorSource, Asked}
use grpcurl_rs.Descriptor.Export.{with_state, symbol_files, expand_files}
use grpcurl_rs.DescriptorText.{Syntax}
use grpcurl_rs.DescriptorText.ProtoFile.{Contents, format_proto_file}

-- `Path::join` and `parent`, and the errors of `create_dir_all` and `write`.
pub record Disk : Type 0 where
  pub join_path : Text → Text → Text
  pub parent : Text → Option Text
  pub create_error : Text → Option Text
  pub write_error : Text → Text → Option Text

-- The files that are written, with their content, and how it ends.
abbrev pub Written : Type 0
Written = List (Text × Text) × Result (Unit {0})

module _ {reflect : Reflect} (syntax : Syntax reflect) (contents : Contents reflect)
    (disk : Disk) where
  abbrev cannot : Text → Text → Text → Option Written
  cannot what path e =
      some
        ([], fail (io (text "failed to " ++ (what ++ (text " '" ++ (path ++ (text "': " ++ e)))))))

  abbrev pub and_written : Text → Text → Option Written → Option Written
  and_written path content none = none
  and_written path content (some (files, end)) = some ((path, content) ∷ files, end)

  abbrev pub create_dirs : Text → Option Text
  create_dirs out_path = elim (disk.parent out_path) [ some p ↦ disk.create_error p | none ↦ none ]

  abbrev shown_parent : Text → Text
  shown_parent out_path = elim (disk.parent out_path) [ some p ↦ p | none ↦ [] ]

  abbrev pub write_content : Text → Option Text → Option Written → Option Written
  write_content out_path none rest = none
  write_content out_path (some content) rest = elim (disk.write_error out_path content) [
    | some e ↦ cannot (text "write proto file") out_path e
    | none ↦ and_written out_path content rest
  ]

  abbrev pub write_one : Text → Option Text → Option Written → Option Written
  write_one out_path content rest = elim (create_dirs out_path) [
    | some e ↦ cannot (text "create directory") (shown_parent out_path) e
    | none ↦ write_content out_path content rest
  ]

  -- The loop over the files.
  unfoldable pub write_each : ℕ → Text → List reflect.File → Option Written
  write_each fuel dir [] = some ([], done tt)
  write_each fuel dir (fd ∷ files) =
      write_one (disk.join_path dir (reflect.file_name fd))
        (format_proto_file syntax contents fuel fd) (write_each fuel dir files)

  abbrev pub write_expanded : ℕ → Text → Option (List reflect.File) → Option Written
  write_expanded fuel dir none = none
  write_expanded fuel dir (some files) = write_each fuel dir files

  abbrev pub write_roots :
      {State : Type 0} → ℕ → Text → Asked State (List reflect.File) → Option (Written × State)
  write_roots fuel dir none = none
  write_roots fuel dir (some (fail e, state)) = some (([], fail e), state)
  write_roots fuel dir (some (done roots, state)) =
      with_state reflect state (write_expanded fuel dir (expand_files reflect fuel roots))

  unfoldable pub write_proto_files :
      {State : Type 0}
      → ℕ
      → Text
      → DescriptorSource reflect State
      → List Text
      → State
      → Option (Written × State)
  write_proto_files fuel dir source symbols state =
      if is_empty symbols
      then some (([], done tt), state)
      else write_roots fuel dir (symbol_files reflect source symbols [] state)
