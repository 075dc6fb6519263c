-- ===== src/Descriptor/Writing/Ends.antt =====
-- grpcurl-core/src/descriptor.rs: the two exports, as to whether they end.
use grpcurl_rs.Base.{
  if◌then◌else◌, map, ◌++◌, ℕ, Text, List, [], ◌∷◌, true, Option, none, some, is_some, ◌≡◌, refl,
  arith,
}
use grpcurl_rs.DescriptorText.Head.{or_text}
use grpcurl_rs.Error.{done, fail}
use grpcurl_rs.Descriptor.{Reflect, DescriptorSource, Asked, ask_then, parent_file}
use grpcurl_rs.Descriptor.Answering.{Answers}
use grpcurl_rs.Descriptor.Export.{
  contains, symbol_files, expand_files, with_state, write_set, write_protoset,
}
use grpcurl_rs.DescriptorText.{Syntax}
use grpcurl_rs.DescriptorText.ProtoFile.{
  Contents, file_format_message, format_messages, format_proto_file,
}
use grpcurl_rs.Descriptor.Writing.{
  Disk, Written, write_one, write_each, write_expanded, write_roots, write_proto_files,
}

module _ {reflect : Reflect} (syntax : Syntax reflect) (contents : Contents reflect) (disk : Disk)
    (fuel : ℕ)
    (messages_end : (pkg : Text) (msg : reflect.Message)
      → is_some (file_format_message syntax pkg fuel msg) ≡ true)
    (files_end : (roots : List reflect.File)
      → is_some (expand_files reflect fuel roots) ≡ true) where
  format_messages-ends :
      (pkg : Text) (msgs : List reflect.Message)
      → is_some (format_messages syntax contents fuel pkg msgs) ≡ true
  format_messages-ends pkg [] = refl
  format_messages-ends pkg (msg ∷ msgs) =
      ground (arith, messages_end pkg msg, format_messages-ends pkg msgs)

  format_proto_file-ends :
      (fd : reflect.File) → is_some (format_proto_file syntax contents fuel fd) ≡ true
  unfolding format_proto_file
  format_proto_file-ends fd =
      let head = contents.head (reflect.file_descriptor_proto fd) in
      ground
        (arith, format_messages-ends (or_text [] head.package_name) (contents.file_messages fd))

  write_one-ends :
      (path : Text) (content : Option Text) (rest : Option Written)
      → is_some content ≡ true
      → is_some rest ≡ true
      → is_some (write_one syntax contents disk path content rest) ≡ true
  write_one-ends path content rest h k = ground (arith, h, k)

  write_each-ends :
      (dir : Text) (files : List reflect.File)
      → is_some (write_each syntax contents disk fuel dir files) ≡ true
  unfolding write_each
  write_each-ends dir [] = refl
  write_each-ends dir (fd ∷ files) =
      write_one-ends (disk.join_path dir (reflect.file_name fd))
        (format_proto_file syntax contents fuel fd) (write_each syntax contents disk fuel dir files)
        (format_proto_file-ends fd) (write_each-ends dir files)

  write_expanded-ends :
      (dir : Text) (files : Option (List reflect.File))
      → is_some files ≡ true
      → is_some (write_expanded syntax contents disk fuel dir files) ≡ true
  write_expanded-ends dir none h = cc
  write_expanded-ends dir (some files) h = write_each-ends dir files

  module _ {State : Type 0} (source : DescriptorSource reflect State)
      (answers : Answers source) where
    then_comes :
        {A B : Type 0} (answer : Asked State A) (next : A → State → Asked State B)
        → is_some answer ≡ true
        → ((a : A) (state : State) → is_some (next a state) ≡ true)
        → is_some (ask_then answer next) ≡ true
    then_comes none next h k = cc
    then_comes (some (done a, state)) next h k = k a state
    then_comes (some (fail e, state)) next h k = refl

    symbol_files-come :
        (symbols : List Text) (files : List reflect.File) (state : State)
        → is_some (symbol_files reflect source symbols files state) ≡ true
    unfolding symbol_files
    symbol_files-come [] files state = refl
    symbol_files-come (sym ∷ rest) files state =
        then_comes (source.find_symbol sym state)
          (λ desc after.
            let fd = parent_file reflect desc in
            symbol_files reflect source rest
              (if contains (reflect.file_name fd) (map reflect.file_name files)
                then files
                else files ++ fd ∷ [])
              after)
          (answers.symbols_come sym state) (λ desc after. symbol_files-come rest _ after)

    with_state-ends :
        {A : Type 0} (state : State) (o : Option A)
        → is_some o ≡ true
        → is_some (with_state reflect state o) ≡ true
    with_state-ends state none h = cc
    with_state-ends state (some a) h = refl

    write_roots-ends :
        (dir : Text) (roots : Asked State (List reflect.File))
        → is_some roots ≡ true
        → is_some (write_roots syntax contents disk fuel dir roots) ≡ true
    write_roots-ends dir none h = cc
    write_roots-ends dir (some (fail e, state)) h = refl
    write_roots-ends dir (some (done roots, state)) h =
        with_state-ends state
          (write_expanded syntax contents disk fuel dir (expand_files reflect fuel roots))
          (write_expanded-ends dir (expand_files reflect fuel roots) (files_end roots))

    pub write_proto_files-ends :
        (dir : Text) (symbols : List Text) (state : State)
        → is_some (write_proto_files syntax contents disk fuel dir source symbols state) ≡ true
    unfolding write_proto_files
    write_proto_files-ends dir [] state = refl
    write_proto_files-ends dir (sym ∷ symbols) state =
        write_roots-ends dir (symbol_files reflect source (sym ∷ symbols) [] state)
          (symbol_files-come (sym ∷ symbols) [] state)

    write_set-ends :
        (save : List reflect.FileProto → Option Text) (path : Text)
        (files : Option (List reflect.File))
        → is_some files ≡ true
        → is_some (write_set reflect save path files) ≡ true
    write_set-ends save path none h = cc
    write_set-ends save path (some files) h = ground arith

    pub write_protoset-ends :
        (save : List reflect.FileProto → Option Text) (path : Text) (symbols : List Text)
        (state : State)
        → is_some (write_protoset reflect save fuel path source symbols state) ≡ true
    unfolding write_protoset
    write_protoset-ends save path [] state = refl
    write_protoset-ends save path (sym ∷ symbols) state =
        then_comes (symbol_files reflect source (sym ∷ symbols) [] state)
          (λ roots after.
            with_state reflect after
              (write_set reflect save path (expand_files reflect fuel roots)))
          (symbol_files-come (sym ∷ symbols) [] state)
          (λ roots after.
            with_state-ends after (write_set reflect save path (expand_files reflect fuel roots))
              (write_set-ends save path (expand_files reflect fuel roots) (files_end roots)))
