-- ===== src/Descriptor/Loading.antt =====
-- grpcurl-core/src/descriptor.rs: the pools that are built of files. The file system, the decoding
-- of prost, the pools of prost-reflect and the compiler protox are given, by what fails.
use grpcurl_rs.Base.{ℕ, Text, text, List, [], ◌∷◌, ◌++◌, is_empty, if◌then◌else◌, ◌⊎◌, inl, inr}
use grpcurl_rs.Error.{GrpcurlError, io, proto, Result, done, fail, ◌>>=◌}
use grpcurl_rs.Descriptor.{Reflect}

pub record Loader (reflect : Reflect) : Type 0 where
  -- `fs::read`: the content or the error's text
  pub read_file : Text → List ℕ ⊎ Text
  -- `FileDescriptorSet::decode`
  pub decode_set : List ℕ → List reflect.FileProto ⊎ Text
  -- `DescriptorPool::new`, `add_file_descriptor_set` and `from_file_descriptor_set`
  pub new_pool : reflect.Pool
  pub add_set : reflect.Pool → List reflect.FileProto → reflect.Pool ⊎ Text
  pub pool_of_set : List reflect.FileProto → reflect.Pool ⊎ Text
  -- `protox::compile`, of the files and the import paths
  pub compile : List Text → List Text → List reflect.FileProto ⊎ Text

abbrev wrapped {ℓ} : {A : Type ℓ} → (Text → GrpcurlError) → A ⊎ Text → Result A
wrapped wrap (inl a) = done a
wrapped wrap (inr e) = fail (wrap e)

abbrev file_error : (Text → GrpcurlError) → Text → Text → Text → GrpcurlError
file_error kind what path e =
    kind (text "failed to " ++ (what ++ (text " '" ++ (path ++ (text "': " ++ e)))))

module _ {reflect : Reflect} (loader : Loader reflect) where
  -- The loop over the paths.
  unfoldable pub add_protosets : reflect.Pool → List Text → Result reflect.Pool
  add_protosets pool [] = done pool
  add_protosets pool (path ∷ paths) =
      wrapped (file_error io (text "read protoset file") path) (loader.read_file path) >>= λ bytes.
      wrapped (file_error proto (text "decode protoset file") path) (loader.decode_set bytes)
      >>= λ fds.
          wrapped (file_error proto (text "add descriptors from protoset file") path)
            (loader.add_set pool fds)
          >>= λ next. add_protosets next paths

  unfoldable pub descriptor_source_from_protosets : List Text → Result reflect.Pool
  descriptor_source_from_protosets paths = add_protosets loader.new_pool paths

  unfoldable pub descriptor_source_from_file_descriptor_set :
      List reflect.FileProto → Result reflect.Pool
  descriptor_source_from_file_descriptor_set fds =
      wrapped (λ e. proto (text "failed to build descriptor pool: " ++ e)) (loader.pool_of_set fds)

  -- The import paths, or the current directory.
  abbrev includes : List Text → List Text
  includes import_paths = if is_empty import_paths then text "." ∷ [] else import_paths

  unfoldable pub descriptor_source_from_proto_files : List Text → List Text → Result reflect.Pool
  descriptor_source_from_proto_files import_paths proto_files =
      wrapped (λ e. proto (text "failed to compile proto files: " ++ e))
        (loader.compile proto_files (includes import_paths))
      >>= λ fds. descriptor_source_from_file_descriptor_set fds
